-- ===== src/Monitor/Toggling.antt =====
-- A task that is listed in every collection.
use iotop_cpp.Base.{elem, is_neg, true, false, ℕ, ◌≡◌, ◌≢◌, not, List, Option, none, ℤ, pos, arith}
use iotop_cpp.Float.{Float}
use iotop_cpp.Run.{Returns, Returns-mono, Trace, done}
use iotop_cpp.Run.Ends.{Returns-AtEnd, AtEnd, AtEnd-bind, AtEnd-Any, AtEnd-self, Any, AtEnd-map}
use iotop_cpp.Task.{TaskIoInfo, lookup, is_none}
use iotop_cpp.Task.Table.{NodupKeys}
use iotop_cpp.Monitor.{Sources, IoMonitor, collect_timed}
use iotop_cpp.Monitor.Overdue.{live}
use iotop_cpp.Monitor.Names.{IsSound}
use iotop_cpp.Monitor.Collect.{table_of, collect_timed-IsValid}
use iotop_cpp.Monitor.Reference.{Found, entries, observe}
use iotop_cpp.Monitor.Loops.{ids}
use iotop_cpp.Monitor.Finding.{AreUpdated, AreUpdated-live, observe-AreUpdated}
use iotop_cpp.Monitor.Abstract.{MonitorView, view, fresh, collect, collect_timed-view}

module _ {F : Float} where
  fresh_toggles :
      (k : ℕ) (old : ℕ → Option (TaskIoInfo F)) (found : List (Found F))
      → live (lookup k (entries found)) ≢ none
      → is_none (fresh old found k) ≡ not (is_none (old k))
  fresh_toggles k old found h = ground (arith, h)

module _ {F : Float} {S : Sources F} (sound : IsSound S) (k : ℕ)
    (given : (netlink : S.Netlink) (id : ℕ) (info : TaskIoInfo F) (t : Trace)
      → AtEnd (S.get_task_io_info netlink id info t) (λ r _. is_neg r.0 ≡ false))
    (listed : (tasks : List (ℕ × List ℕ)) (u v : Trace)
      → S.get_all_task_id u ≡ done tasks v
      → elem k (ids tasks) ≡ true) where
  abbrev Toggled : Option (TaskIoInfo F) → ℤ × MonitorView F S → Trace → Type 0
  Toggled before r _ = is_none (r.1.tasks k) ≡ not (is_none before)

  collect_toggles :
      (v : MonitorView F S) (t : Trace)
      → AtEnd (collect v t) (λ r _. is_none (r.1.tasks k) ≡ not (is_none (v.tasks k)))
  unfolding collect
  collect_toggles v t =
      AtEnd-bind Any (Toggled (v.tasks k)) (S.get_steady_now_time_ns t) _ (AtEnd-Any _) (λ tm u _.
        AtEnd-bind (λ tasks w. S.get_all_task_id u ≡ done tasks w) (Toggled (v.tasks k))
          (S.get_all_task_id u) _ (AtEnd-self _)
          (λ tasks w e.
            AtEnd-bind (λ found _. AreUpdated (ids tasks) (entries found)) (Toggled (v.tasks k))
              (observe F S v.netlink v.collected_ns tm tasks w) _
              (observe-AreUpdated S given v.netlink v.collected_ns tm tasks w)
              (λ found x a.
                fresh_toggles k v.tasks found
                  (AreUpdated-live k (ids tasks) (entries found) a (listed tasks u w e)))))

  -- From sound sources, where each task stands in the table at most once, where netlink fails for
  -- no task, and a certain task is listed whenever the tasks are listed, `collect_timed` comes back
  -- with 0 and a table in which each task stands once, and in which that task is exactly if it was
  -- not in the table before.
  pub collect_timed_toggles :
      (m : IoMonitor F S) (t : Trace)
      → NodupKeys (table_of m)
      → Returns (collect_timed F S m t) (λ r _.
        (r.0 ≡ pos 0)
        × NodupKeys (table_of r.1)
        × (is_none (lookup k (table_of r.1)) ≡ not (is_none (lookup k (table_of m)))))
  collect_timed_toggles m t distinct =
      Returns-mono _ _ (collect_timed F S m t)
        (Returns-AtEnd _ _ (collect_timed F S m t) (collect_timed-IsValid sound m distinct t) (
          AtEnd-map (λ r. (r.0, view r.1)) (Toggled (lookup k (table_of m))) (collect_timed F S m t)
            (rw (collect_timed-view m t distinct) (collect_toggles (view m) t))))
        (λ r u (valid, toggled). (valid.0, valid.1.distinct, toggled))
