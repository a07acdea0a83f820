-- ===== src/Monitor/Finding.antt =====
-- What a collection finds where netlink gives statistics for every task.
use mathlib.Core.List.{map-append}
use iotop_cpp.Base.{
  elem, ℕ, ◌≡◌, ◌≢◌, refl, ◌∙◌, Bool, true, false, List, [], ◌∷◌, ◌++◌, All, All-append, none,
  arith, if◌then◌else◌, pos, is_neg, to_int32,
}
use iotop_cpp.Float.{Float}
use iotop_cpp.Run.{Trace, traverse}
use iotop_cpp.Run.Ends.{AtEnd, AtEnd-bind, AtEnd-Any, Any}
use iotop_cpp.Task.{TaskIoInfo, new_task, lookup}
use iotop_cpp.Monitor.{
  Sources, to_uint64, with_rates, copy, copy_found, fill_names, handle_every_task_io_info,
}
use iotop_cpp.Monitor.Loops.{ids, keys}
use iotop_cpp.Monitor.Overdue.{live}
use iotop_cpp.Monitor.Reference.{Found, entries, observe_task, observe_process, observe}

-- Whether a task is among those of a list.
module _ {F : Float} where
  -- The entries of the given tasks, all of them updated.
  pub record AreUpdated (numbers : List ℕ) (found : List (ℕ × TaskIoInfo F)) : Type 0 where
    pub numbered : keys found ≡ numbers
    pub updated : All (λ entry. entry.1.is_updated ≡ true) found

  abbrev IsUpdated : TaskIoInfo F → Trace → Type 0
  IsUpdated i _ = i.is_updated ≡ true

  abbrev Entry : ℕ → ℕ × TaskIoInfo F → Trace → Type 0
  Entry id entry _ = (entry.0 ≡ id) × (entry.1.is_updated ≡ true)

  AreUpdated-append :
      (ks js : List ℕ) (found more : List (ℕ × TaskIoInfo F))
      → AreUpdated ks found
      → AreUpdated js more
      → AreUpdated (ks ++ js) (found ++ more)
  AreUpdated-append ks js found more a b = record {
    numbered = map-append _ found more ∙ cc (a.numbered, b.numbered);
    updated = All-append _ found more a.updated b.updated;
  }

  pub AreUpdated-live :
      (k : ℕ) (numbers : List ℕ) (found : List (ℕ × TaskIoInfo F))
      → AreUpdated numbers found
      → elem k numbers ≡ true
      → live (lookup k found) ≢ none
  unfolding lookup
  AreUpdated-live k numbers found a h = there found (rw (← a.numbered) at h) a.updated
    where
      there :
          (found : List (ℕ × TaskIoInfo F))
          → elem k (keys found) ≡ true
          → All (λ entry. entry.1.is_updated ≡ true) found
          → live (lookup k found) ≢ none
      there [] e u = λ _. cc
      there ((j, i) ∷ found) e u = ground (arith, there found, u.0, u.1)

module _ {F : Float} (S : Sources F)
    (given : (netlink : S.Netlink) (id : ℕ) (info : TaskIoInfo F) (t : Trace)
      → AtEnd (S.get_task_io_info netlink id info t) (λ r _. is_neg r.0 ≡ false)) where
  fill_names-IsUpdated : (info : TaskIoInfo F) (t : Trace) → AtEnd (fill_names F S info t) IsUpdated
  unfolding fill_names
  fill_names-IsUpdated info t =
      AtEnd-bind Any IsUpdated (S.get_user_name info.user_id t) _ (AtEnd-Any _) (λ name u _.
        AtEnd-bind Any IsUpdated (copy info.user_name name u) _ (AtEnd-Any _) (λ user v _.
          AtEnd-bind Any IsUpdated (S.get_task_cmdline info.task_id true [] v) _ (AtEnd-Any _)
            (λ short w _.
              AtEnd-bind Any IsUpdated (copy_found short.0 info.short_cmdline short.1 w) _
                (AtEnd-Any _)
                (λ short' x _.
                  AtEnd-bind Any IsUpdated (S.get_task_cmdline info.task_id false [] x) _
                    (AtEnd-Any _)
                    (λ full y _.
                      AtEnd-bind Any IsUpdated (copy_found full.0 info.full_cmdline full.1 y) _
                        (AtEnd-Any _) (λ full' z _. refl))))))

  module _ (netlink : S.Netlink) (origin_ns tm : ℕ) where
    handle-IsUpdated :
        (info : TaskIoInfo F) (t : Trace)
        → AtEnd (handle_every_task_io_info F S netlink origin_ns info tm t) IsUpdated
    unfolding handle_every_task_io_info
    handle-IsUpdated info t =
        AtEnd-bind Any IsUpdated (S.get_task_io_priority info.task_id t) _ (AtEnd-Any _)
          (λ prio u _.
            let origin : TaskIoInfo F = record info {
              io_priority = if is_neg prio then pos 0 else prio;
            } in
            AtEnd-bind (λ r _. is_neg r.0 ≡ false) IsUpdated
              (S.get_task_io_info netlink (to_uint64 info.task_id) origin u) _
              (given netlink (to_uint64 info.task_id) origin u)
              (λ r v fine. rw fine (fill_names-IsUpdated (with_rates F origin_ns tm origin r.1) v)))

    observe_task-Entry :
        (is_pid : Bool) (id : ℕ) (t : Trace)
        → AtEnd (observe_task F S netlink origin_ns tm is_pid id t) (Entry id)
    unfolding observe_task
    observe_task-Entry is_pid id t =
        AtEnd-bind IsUpdated (Entry id)
          (handle_every_task_io_info F S netlink origin_ns (new_task F (to_int32 id) is_pid) tm t) _
          (handle-IsUpdated (new_task F (to_int32 id) is_pid) t) (λ info u h. (refl, h))

    threads-AreUpdated :
        (tids : List ℕ) (t : Trace)
        → AtEnd
            (traverse (observe_task F S netlink origin_ns tm false) tids t)
            (λ found _. AreUpdated tids found)
    unfolding traverse
    threads-AreUpdated [] t = record { numbered = refl; updated = tt }
    threads-AreUpdated (tid ∷ tids) t =
        AtEnd-bind (Entry tid) (λ found _. AreUpdated (tid ∷ tids) found)
          (observe_task F S netlink origin_ns tm false tid t) _ (observe_task-Entry false tid t)
          (λ entry u h.
            AtEnd-bind (λ found _. AreUpdated tids found) (λ found _. AreUpdated (tid ∷ tids) found)
              (traverse (observe_task F S netlink origin_ns tm false) tids u) _
              (threads-AreUpdated tids u)
              (λ found v a. record { numbered = cc (h.0, a.numbered); updated = (h.1, a.updated) }))

    process-AreUpdated :
        (pid : ℕ) (tids : List ℕ) (t : Trace)
        → AtEnd
            (observe_process F S netlink origin_ns tm (pid, tids) t)
            (λ found _. AreUpdated (pid ∷ tids) (found.0 ∷ found.1))
    unfolding observe_process
    process-AreUpdated pid tids t =
        AtEnd-bind (Entry pid) (λ (found : Found F) _. AreUpdated (pid ∷ tids) (found.0 ∷ found.1))
          (observe_task F S netlink origin_ns tm true pid t) _ (observe_task-Entry true pid t)
          (λ process u h.
            AtEnd-bind (λ threads _. AreUpdated tids threads)
              (λ (found : Found F) _. AreUpdated (pid ∷ tids) (found.0 ∷ found.1))
              (traverse (observe_task F S netlink origin_ns tm false) tids u) _
              (threads-AreUpdated tids u)
              (λ threads v a. record {
                numbered = cc (h.0, a.numbered);
                updated = (h.1, a.updated);
              }))

    pub observe-AreUpdated :
        (tasks : List (ℕ × List ℕ)) (t : Trace)
        → AtEnd
            (observe F S netlink origin_ns tm tasks t)
            (λ found _. AreUpdated (ids tasks) (entries found))
    unfolding observe traverse
    observe-AreUpdated [] t = record { numbered = refl; updated = tt }
    observe-AreUpdated ((pid, tids) ∷ tasks) t =
        AtEnd-bind (λ (first : Found F) _. AreUpdated (pid ∷ tids) (first.0 ∷ first.1))
          (λ found _. AreUpdated (pid ∷ (tids ++ ids tasks)) (entries found))
          (observe_process F S netlink origin_ns tm (pid, tids) t) _ (process-AreUpdated pid tids t)
          (λ first u a.
            AtEnd-bind (λ found _. AreUpdated (ids tasks) (entries found))
              (λ found _. AreUpdated (pid ∷ (tids ++ ids tasks)) (entries found))
              (observe F S netlink origin_ns tm tasks u) _ (observe-AreUpdated tasks u)
              (λ found v b.
                AreUpdated-append (pid ∷ tids) (ids tasks) (first.0 ∷ first.1) (entries found) a b))
