-- ===== src/Monitor/Collect.antt =====
-- What `collect_timed` leaves in the table.
use iotop_cpp.Base.{
  ℕ, ◌≡◌, refl, ap, ◌∙◌, true, List, [], ◌∷◌, none, arith, if◌then◌else◌, All, to_int32, ℤ, pos,
  ◌≢◌, inr,
}
use iotop_cpp.Float.{Float}
use iotop_cpp.Run.{Trace, done, Returns, Returns-done, Returns-mono}
use iotop_cpp.Task.{TaskIoInfo, Table, SystemIoInfo, lookup, is_none}
use iotop_cpp.Task.Table.{
  or_else, emplace_all, NodupKeys, lookup-emplace_all, emplace_all-NodupKeys, emplace_all-All,
}
use iotop_cpp.Monitor.{
  Sources, IoMonitor, set_task_state_overdue, remove_overdue_task, collect_timed,
}
use iotop_cpp.Monitor.Names.{IsSound, IsShown}
use iotop_cpp.Monitor.Overdue.{
  live, lookup-set_task_state_overdue, set_task_state_overdue-NodupKeys, lookup-remove_overdue_task,
  remove_overdue_task-NodupKeys, UnlessOverdue, All-set_task_state_overdue, All-remove_overdue_task,
}
use iotop_cpp.Monitor.Reference.{Found, entries, observe, get_task_io_info-observe}
use iotop_cpp.Monitor.Loops.{ids, Finds, observe-Finds}

module _ {F : Float} where
  All-inr :
      (P : ℕ × TaskIoInfo F → Type 0) (table : Table F) → All P table → All (UnlessOverdue P) table
  All-inr P [] h = tt
  All-inr P (entry ∷ table) h = (inr h.0, All-inr P table h.1)

  pub collected :
      (k : ℕ) (old : Table F) (produced : Table F)
      → live (or_else (lookup k (set_task_state_overdue old)) (lookup k produced))
        ≡ (if is_none (lookup k old) then live (lookup k produced) else none)
  collected k old produced = ground (arith, lookup-set_task_state_overdue k old)

module _ {F : Float} {S : Sources F} where
  abbrev pub table_of : IoMonitor F S → Table F
  table_of m = m.io_stats.task_io_stats_table

  -- Each task stands once in the table, under its own number, fit to be shown and marked as updated.
  pub record IsValid (m : IoMonitor F S) : Type 0 where
    pub distinct : NodupKeys (table_of m)
    pub shown :
        All
          (λ entry. IsShown F S (to_int32 entry.0) entry.1 × (entry.1.is_updated ≡ true))
          (table_of m)

  -- What a collection that began and ended at the given traces makes of a monitor: its time, its tasks,
  -- and what the pass over those tasks found, in order.
  pub record IsCollected (m m' : IoMonitor F S) (t w : Trace) : Type 0 where
    pub tm : ℕ
    pub timed_at : Trace
    pub timed : S.get_steady_now_time_ns t ≡ done tm timed_at
    pub tasks : List (ℕ × List ℕ)
    pub listed_at : Trace
    pub listed : S.get_all_task_id timed_at ≡ done tasks listed_at
    pub found : List (Found F)
    pub seen :
        observe F S m.netlink_io_obj m.origin_collect_timestamp_ns tm tasks listed_at ≡ done found w
    -- What was found is of the tasks that were listed, one after the other, and fit to be shown.
    pub finds : Finds S (ids tasks) (entries found)
    -- The table holds what was found of a task and marked as updated, for the tasks that were not in
    -- the table before; a task that was there before is gone.
    pub held :
        (k : ℕ)
        → lookup k (table_of m')
          ≡ (if is_none (lookup k (table_of m)) then live (lookup k (entries found)) else none)
    pub time_kept : m'.origin_collect_timestamp_ns ≡ tm
    pub valid : IsValid m'

module _ {F : Float} {S : Sources F} (m : IoMonitor F S) (distinct : NodupKeys (table_of m))
    (found : Table F) (numbers : List ℕ) (finds : Finds S numbers found) where
  -- The table that a collection leaves.
  abbrev left : Table F
  left = remove_overdue_task (emplace_all found (set_task_state_overdue (table_of m)))

  apart : NodupKeys (emplace_all found (set_task_state_overdue (table_of m)))
  apart =
      emplace_all-NodupKeys found (set_task_state_overdue (table_of m))
        (set_task_state_overdue-NodupKeys (table_of m) distinct)

  left-held :
      (k : ℕ)
      → lookup k left ≡ (if is_none (lookup k (table_of m)) then live (lookup k found) else none)
  left-held k =
      lookup-remove_overdue_task k _ apart
      ∙ ap live (lookup-emplace_all k found (set_task_state_overdue (table_of m)))
      ∙ collected k (table_of m) found

  left-IsValid : (m' : IoMonitor F S) → table_of m' ≡ left → IsValid m'
  left-IsValid m' e = record {
    distinct = rw e (remove_overdue_task-NodupKeys _ apart);
    shown = rw e (
        All-remove_overdue_task Shown _ (
          emplace_all-All (UnlessOverdue Shown) found (set_task_state_overdue (table_of m))
            (All-inr Shown found finds.shown) (All-set_task_state_overdue Shown (table_of m))));
  }
    where
      Shown : ℕ × TaskIoInfo F → Type 0
      Shown entry = IsShown F S (to_int32 entry.0) entry.1

module _ {F : Float} {S : Sources F} (sound : IsSound S) (m : IoMonitor F S)
    (distinct : NodupKeys (table_of m)) where
  abbrev Collected : Trace → ℤ × IoMonitor F S → Trace → Type 0
  Collected t r w = (r.0 ≡ pos 0) × IsCollected m r.1 t w

  -- From sound sources, and where each task stands in the table at most once, `collect_timed` comes
  -- back with 0, having taken the time, then listed the tasks, and then made the pass over the
  -- tasks that were listed. What that pass found is one entry for each of those tasks, each process
  -- before its threads and in order, each under its own number, with a priority that is not
  -- negative and names that end within their arrays. Afterwards the table holds what the pass found
  -- of a task and marked as updated, if the task was not in the table before, and of a task that
  -- was in the table before it holds nothing; the time that is kept is the one that was taken; and
  -- the table is valid.
  pub collect_timed-IsCollected :
      (t : Trace) → Returns (collect_timed F S m t) (λ r w. (r.0 ≡ pos 0) × IsCollected m r.1 t w)
  unfolding collect_timed
  collect_timed-IsCollected t =
      let (tm, u, e, _) = time-done t in
      let (tasks, v, d, _) = tasks-done u in
      let (found, w, c, finds) =
        observe-Finds sound m.netlink_io_obj m.origin_collect_timestamp_ns tm tasks v in
      rw e (
        rw d (
          rw
            (
              get_task_io_info-observe F S m.netlink_io_obj m.origin_collect_timestamp_ns tm tasks
                  overdue v,
              c,
            )
            (
              refl,
              record {
                tm = tm;
                timed_at = u;
                timed = e;
                tasks = tasks;
                listed_at = v;
                listed = d;
                found = found;
                seen = c;
                finds = finds;
                held = left-held m distinct (entries found) (ids tasks) finds;
                time_kept = refl;
                valid = left-IsValid m distinct (entries found) (ids tasks) finds _ refl;
              },
            )))
    where
      overdue : SystemIoInfo F
      overdue = record {
        curr_disk_read_b_s = F.of_ℕ 0;
        curr_disk_write_b_s = F.of_ℕ 0;
        task_io_stats_table = set_task_state_overdue (table_of m);
      }

      time-done :
          (t : Trace) → (tm : ℕ) × (u : Trace) × (S.get_steady_now_time_ns t ≡ done tm u) × Unit {0}
      time-done t = Returns-done _ _ (sound.time t)

      tasks-done :
          (t : Trace)
          → (tasks : List (ℕ × List ℕ)) × (u : Trace) × (S.get_all_task_id t ≡ done tasks u)
            × Unit {0}
      tasks-done t = Returns-done _ _ (sound.tasks t)

  -- From sound sources, and where each task stands in the table at most once, `collect_timed` comes
  -- back with 0 and leaves a table in which each task stands once, under its own number, marked as
  -- updated, with a priority that is not negative and names that end within their arrays.
  pub collect_timed-IsValid :
      (t : Trace) → Returns (collect_timed F S m t) (λ r _. (r.0 ≡ pos 0) × IsValid r.1)
  collect_timed-IsValid t =
      Returns-mono (Collected t) (λ r _. (r.0 ≡ pos 0) × IsValid r.1) _
        (collect_timed-IsCollected t) (λ r _ h. (h.0, h.1.valid))

  -- From sound sources, and where each task stands in the table at most once, a task that is in the
  -- table is not in it after the next collection, even if it is found again.
  pub collect_timed_forgets :
      (k : ℕ)
      → lookup k (table_of m) ≢ none
      → (t : Trace) → Returns (collect_timed F S m t) (λ r _. lookup k (table_of r.1) ≡ none)
  collect_timed_forgets k there t =
      Returns-mono (Collected t) (λ r _. lookup k (table_of r.1) ≡ none) _
        (collect_timed-IsCollected t) (λ r _ h. h.1.held k ∙ ground (arith, there))
