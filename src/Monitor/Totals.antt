-- ===== src/Monitor/Totals.antt =====
-- The rates in the table after a collection.
use iotop_cpp.Base.{
  ℕ, ◌≡◌, sym, ap, ◌∙◌, ◌⊎◌, inl, inr, Bool, true, false, List, [], ◌∷◌, Option, some, All,
  All-append, Bool-cases, Option-cases, arith, pos, to_int32,
}
use iotop_cpp.Float.{Float}
use iotop_cpp.Run.{Trace, Returns, Returns-mono, traverse}
use iotop_cpp.Run.Ends.{AtEnd, AtEnd-bind, AtEnd-mono, AtEnd-Returns, Returns-AtEnd, traverse-All}
use iotop_cpp.Task.{TaskIoInfo, new_task, Table, lookup}
use iotop_cpp.Task.Table.{NodupKeys, lookup-All, All-lookup}
use iotop_cpp.Monitor.{Sources, IoMonitor, handle_every_task_io_info, collect_timed}
use iotop_cpp.Monitor.Names.{IsSound}
use iotop_cpp.Monitor.Overdue.{live}
use iotop_cpp.Monitor.Collect.{table_of, collect_timed-IsValid}
use iotop_cpp.Monitor.Rates.{seconds, IsTotals}
use iotop_cpp.Monitor.Handle.{handle_every_task_io_info-IsTotals}
use iotop_cpp.Monitor.Reference.{Found, entries, observe_task, observe_process, observe}
use iotop_cpp.Monitor.Abstract.{view, fresh}
use iotop_cpp.Monitor.Observed.{Observed, collect_timed-Observed}

-- What holds of every task that is handled, holds of all that a pass finds.
module _ {F : Float} (S : Sources F) (netlink : S.Netlink) (origin_ns tm : ℕ)
    (P : TaskIoInfo F → Type 0)
    (each : (id : ℕ) (is_pid : Bool) (t : Trace)
      → AtEnd
          (handle_every_task_io_info F S netlink origin_ns (new_task F (to_int32 id) is_pid) tm t)
          (λ i _. P i)) where
  abbrev OfEntry : ℕ × TaskIoInfo F → Type 0
  OfEntry entry = P entry.1

  observe_task-All :
      (is_pid : Bool) (id : ℕ) (t : Trace)
      → AtEnd (observe_task F S netlink origin_ns tm is_pid id t) (λ e _. P e.1)
  unfolding observe_task
  observe_task-All is_pid id t =
      AtEnd-bind (λ i _. P i) (λ (e : ℕ × TaskIoInfo F) _. P e.1) _ _ (each id is_pid t)
        (λ i u p. p)

  observe_process-All :
      (task : ℕ × List ℕ) (t : Trace)
      → AtEnd
          (observe_process F S netlink origin_ns tm task t)
          (λ found _. P found.0.1 × All (λ e. P e.1) found.1)
  unfolding observe_process
  observe_process-All (pid, tids) t =
      AtEnd-bind (λ (e : ℕ × TaskIoInfo F) _. P e.1)
        (λ (found : Found F) _. P found.0.1 × All (λ e. P e.1) found.1)
        (observe_task F S netlink origin_ns tm true pid t) _ (observe_task-All true pid t)
        (λ process u p.
          AtEnd-bind (λ threads _. All (λ e. P e.1) threads)
            (λ (found : Found F) _. P found.0.1 × All (λ e. P e.1) found.1)
            (traverse (observe_task F S netlink origin_ns tm false) tids u) _
            (traverse-All (λ e. P e.1) (observe_task F S netlink origin_ns tm false)
              (observe_task-All false) tids u)
            (λ threads v ps. (p, ps)))

  entries-All :
      (found : List (Found F))
      → All (λ f. P f.0.1 × All (λ e. P e.1) f.1) found
      → All (λ e. P e.1) (entries found)
  entries-All [] h = tt
  entries-All ((process, threads) ∷ found) h =
      (h.0.0, All-append _ threads (entries found) h.0.1 (entries-All found h.1))

  pub observe-All :
      (tasks : List (ℕ × List ℕ)) (t : Trace)
      → AtEnd
          (observe F S netlink origin_ns tm tasks t)
          (λ found _. All (λ e. P e.1) (entries found))
  unfolding observe
  observe-All tasks t =
      AtEnd-mono _ _ _
        (traverse-All _ (observe_process F S netlink origin_ns tm) observe_process-All tasks t)
        (λ found _. entries-All found)

module _ {F : Float} where
  -- An updated entry has the whole counters as its rates.
  abbrev Updated : ℕ → ℕ → TaskIoInfo F → Type 0
  Updated origin_ns tm i = (i.is_updated ≡ false) ⊎ IsTotals F origin_ns tm i

  -- Each entry of the table has the whole counters as its rates, where the time is long enough.
  abbrev pub HasTotals : ℕ → ℕ → Table F → Type 0
  HasTotals origin_ns tm table =
      (F.lt F.milli (seconds F origin_ns tm) ≡ false)
      ⊎ All (λ entry. IsTotals F origin_ns tm entry.1) table

module _ {F : Float} {S : Sources F} (sound : IsSound S) where
  live-IsTotals :
      (origin_ns tm k : ℕ) (i : TaskIoInfo F) (found : Table F)
      → All (λ e. Updated origin_ns tm e.1) found
      → live (lookup k found) ≡ some i
      → IsTotals F origin_ns tm i
  live-IsTotals origin_ns tm k i found h e = elim (Option-cases (lookup k found)) [
    | inl missing ↦ absurd (cc (rw missing at e))
    | inr (j, there) ↦ elim (Bool-cases j.is_updated) [
      | inr overdue ↦ absurd (cc (rw (there, overdue) at e))
      | inl updated ↦
          let same : j ≡ i = cc (rw (there, updated) at e) in
          rw (← same) (elim (lookup-All (Updated origin_ns tm) found k j h there) [
            | inl overdue ↦ absurd (cc (updated, overdue))
            | inr totals ↦ totals
          ])
    ]
  ]

  fresh-live :
      (old : ℕ → Option (TaskIoInfo F)) (found : List (Found F)) (k : ℕ) (i : TaskIoInfo F)
      → fresh old found k ≡ some i
      → live (lookup k (entries found)) ≡ some i
  fresh-live old found k i e = ground (arith, e)

  pub Observed-HasTotals :
      (m next : IoMonitor F S) (t w : Trace)
      → Observed (view m) t (view next) w
      → NodupKeys (table_of next)
      → HasTotals m.origin_collect_timestamp_ns next.origin_collect_timestamp_ns (table_of next)
  Observed-HasTotals m next t w pass distinct =
      let origin = m.origin_collect_timestamp_ns in
      elim (Bool-cases (F.lt F.milli (seconds F origin pass.tm))) [
        | inr early ↦ inl (rw pass.collected_ns early)
        | inl later ↦
            let updated =
              observe-All S m.netlink_io_obj origin pass.tm (Updated origin pass.tm)
                (λ id is_pid u.
                  AtEnd-Returns (λ i _. Updated origin pass.tm i)
                    (handle_every_task_io_info F S m.netlink_io_obj origin
                      (new_task F (to_int32 id) is_pid) pass.tm u)
                    (handle_every_task_io_info-IsTotals sound m.netlink_io_obj origin pass.tm
                      (to_int32 id) is_pid later u))
                pass.tasks pass.listed_at in
            let all = rw pass.seen at updated in
            rw pass.collected_ns (
              inr (
                All-lookup (IsTotals F origin pass.tm) (table_of next) distinct (λ k i e.
                  live-IsTotals origin pass.tm k i (entries pass.found) all (
                    fresh-live (λ j. lookup j (table_of m)) pass.found k i
                      (ap (λ tasks. tasks k) (sym pass.shows) ∙ e)))))
      ]

  -- From sound sources, and where each task stands in the table at most once, `collect_timed` comes
  -- back with 0; and unless the time since the last collection is no more than a millisecond, each
  -- task in the table that it leaves has as its four rates in bytes the whole counters that netlink
  -- wrote, divided by that time, and as its two percentages the share of that time that the whole
  -- delays are: nothing of an earlier collection is subtracted.
  pub collect_timed-IsTotals :
      (m : IoMonitor F S) (t : Trace)
      → NodupKeys (table_of m)
      → Returns (collect_timed F S m t) (λ r _.
        (r.0 ≡ pos 0)
        × HasTotals m.origin_collect_timestamp_ns r.1.origin_collect_timestamp_ns (table_of r.1))
  collect_timed-IsTotals m t distinct =
      Returns-mono _ _ (collect_timed F S m t)
        (Returns-AtEnd _ _ (collect_timed F S m t) (collect_timed-IsValid sound m distinct t)
          (collect_timed-Observed m t distinct))
        (λ r w (valid, pass). (valid.0, Observed-HasTotals m r.1 t w pass.1 valid.1.distinct))
