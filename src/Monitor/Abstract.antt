-- ===== src/Monitor/Abstract.antt =====
-- The monitor with its table as a map: the order of the table is forgotten.
use mathlib.Core.Path.{fun_ext}
use iotop_cpp.Base.{ℕ, ◌≡◌, refl, ap, ◌∙◌, List, Option, none, ℤ, pos, if◌then◌else◌, inl, inr}
use iotop_cpp.Float.{Float}
use iotop_cpp.Run.{M, Trace, done, pure, ◌>>=◌, and_then, Run-cases}
use iotop_cpp.Task.{TaskIoInfo, Table, SystemIoInfo, lookup, is_none}
use iotop_cpp.Task.Table.{NodupKeys, emplace_all, lookup-emplace_all, emplace_all-NodupKeys}
use iotop_cpp.Monitor.{
  Sources, IoMonitor, collect_timed, set_task_state_overdue, remove_overdue_task,
}
use iotop_cpp.Monitor.Overdue.{live, lookup-remove_overdue_task, set_task_state_overdue-NodupKeys}
use iotop_cpp.Monitor.Reference.{Found, entries, total, observe, get_task_io_info-observe}
use iotop_cpp.Monitor.Collect.{collected, table_of}

pub record MonitorView (F : Float) (S : Sources F) : Type 0 where
  pub netlink : S.Netlink
  pub collected_ns : ℕ
  pub disk_read_b_s : F.Value
  pub disk_write_b_s : F.Value
  pub tasks : ℕ → Option (TaskIoInfo F)

module _ {F : Float} where
  -- The tasks after a collection: those that were found, updated and not there before.
  abbrev pub fresh : (ℕ → Option (TaskIoInfo F)) → List (Found F) → ℕ → Option (TaskIoInfo F)
  fresh old found k = if is_none (old k) then live (lookup k (entries found)) else none

  lookup-fresh :
      (old : Table F) (found : List (Found F)) (k : ℕ)
      → NodupKeys old
      → lookup k (remove_overdue_task (emplace_all (entries found) (set_task_state_overdue old)))
        ≡ fresh (λ j. lookup j old) found k
  lookup-fresh old found k distinct =
      let overdue = set_task_state_overdue old in
      lookup-remove_overdue_task k (emplace_all (entries found) overdue) (
        emplace_all-NodupKeys (entries found) overdue
          (set_task_state_overdue-NodupKeys old distinct))
      ∙ ap live (lookup-emplace_all k (entries found) overdue)
      ∙ collected k old (entries found)

module _ {F : Float} {S : Sources F} where
  abbrev pub view : IoMonitor F S → MonitorView F S
  view m = record {
    netlink = m.netlink_io_obj;
    collected_ns = m.origin_collect_timestamp_ns;
    disk_read_b_s = m.io_stats.curr_disk_read_b_s;
    disk_write_b_s = m.io_stats.curr_disk_write_b_s;
    tasks = λ k. lookup k m.io_stats.task_io_stats_table;
  }

  -- A collection on maps.
  unfoldable pub collect : MonitorView F S → M (ℤ × MonitorView F S)
  collect v = do
    tm ← S.get_steady_now_time_ns
    tasks ← S.get_all_task_id
    found ← observe F S v.netlink v.collected_ns tm tasks
    pure (
      pos 0,
      record {
        netlink = v.netlink;
        collected_ns = tm;
        disk_read_b_s = total F (λ i. i.io_real_read_period_b_s) (F.of_ℕ 0) found;
        disk_write_b_s = total F (λ i. i.io_real_write_period_b_s) (F.of_ℕ 0) found;
        tasks = fresh v.tasks found;
      },
    )

  -- Where each task stands in the table at most once, a collection seen on the table as a map from
  -- task numbers to tasks, whose order is forgotten, is the collection on maps, with the same end
  -- and the same calls, from any sources: one pass over the tasks, after which a task is there
  -- exactly if it was not there before, was found and was updated, and the sums are those of the
  -- rates of the processes that were found.
  pub collect_timed-view :
      (m : IoMonitor F S) (t : Trace)
      → NodupKeys (table_of m)
      → and_then (collect_timed F S m t) (λ r. pure (r.0, view r.1)) ≡ collect (view m) t
  unfolding collect_timed collect
  collect_timed-view m t distinct = elim (Run-cases (S.get_steady_now_time_ns t)) [
    | inr (inl e) ↦ rw e refl
    | inr (inr e) ↦ rw e refl
    | inl (tm, u, e) ↦ rw e (elim (Run-cases (S.get_all_task_id u)) [
      | inr (inl d) ↦ rw d refl
      | inr (inr d) ↦ rw d refl
      | inl (tasks, v, d) ↦
          rw
            (
              d,
              get_task_io_info-observe F S m.netlink_io_obj m.origin_collect_timestamp_ns tm tasks
                  overdue v,
            )
            (elim (Run-cases
              (observe F S m.netlink_io_obj m.origin_collect_timestamp_ns tm tasks v)) [
                | inr (inl c) ↦ rw c refl
                | inr (inr c) ↦ rw c refl
                | inl (found, w, c) ↦ rw c (
                    ap (λ tasks'. done (pos 0, seen tm found tasks') w)
                      (fun_ext (λ k. lookup-fresh (table_of m) found k distinct)))
              ])
    ])
  ]
    where
      overdue : SystemIoInfo F
      overdue = record {
        curr_disk_read_b_s = F.of_ℕ 0;
        curr_disk_write_b_s = F.of_ℕ 0;
        task_io_stats_table = set_task_state_overdue (table_of m);
      }

      seen : ℕ → List (Found F) → (ℕ → Option (TaskIoInfo F)) → MonitorView F S
      seen tm found tasks' = record {
        netlink = m.netlink_io_obj;
        collected_ns = tm;
        disk_read_b_s = total F (λ i. i.io_real_read_period_b_s) (F.of_ℕ 0) found;
        disk_write_b_s = total F (λ i. i.io_real_write_period_b_s) (F.of_ℕ 0) found;
        tasks = tasks';
      }
