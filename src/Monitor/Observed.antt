-- ===== src/Monitor/Observed.antt =====
-- A collection, and the pass over the tasks that it made.
use iotop_cpp.Base.{ℕ, ◌≡◌, refl, List, ℤ, pos}
use iotop_cpp.Float.{Float}
use iotop_cpp.Run.{Trace, done}
use iotop_cpp.Run.Ends.{AtEnd, AtEnd-bind, AtEnd-self, AtEnd-map}
use iotop_cpp.Task.Table.{NodupKeys}
use iotop_cpp.Monitor.{Sources, IoMonitor, collect_timed}
use iotop_cpp.Monitor.Collect.{table_of}
use iotop_cpp.Monitor.Reference.{Found, observe}
use iotop_cpp.Monitor.Abstract.{MonitorView, view, fresh, collect, collect_timed-view}

module _ {F : Float} {S : Sources F} where
  -- A collection on maps that has come back: its time, its tasks and what was found of them.
  pub record Observed (v : MonitorView F S) (t : Trace) (v' : MonitorView F S) (w : Trace)
      : Type 0 where
    pub tm : ℕ
    pub timed_at : Trace
    pub timed : S.get_steady_now_time_ns t ≡ done tm timed_at
    pub tasks : List (ℕ × List ℕ)
    pub listed_at : Trace
    pub listed : S.get_all_task_id timed_at ≡ done tasks listed_at
    pub found : List (Found F)
    pub seen : observe F S v.netlink v.collected_ns tm tasks listed_at ≡ done found w
    pub collected_ns : v'.collected_ns ≡ tm
    pub shows : v'.tasks ≡ fresh v.tasks found

  collect-Observed :
      (v : MonitorView F S) (t : Trace)
      → AtEnd (collect v t) (λ r w. (r.0 ≡ pos 0) × Observed v t r.1 w)
  unfolding collect
  collect-Observed v t =
      AtEnd-bind (λ tm u. S.get_steady_now_time_ns t ≡ done tm u) Ends (S.get_steady_now_time_ns t)
        _ (AtEnd-self _)
        (λ tm u timed.
          AtEnd-bind (λ tasks x. S.get_all_task_id u ≡ done tasks x) Ends (S.get_all_task_id u) _
            (AtEnd-self _)
            (λ tasks x listed.
              AtEnd-bind (λ found w. observe F S v.netlink v.collected_ns tm tasks x ≡ done found w)
                Ends (observe F S v.netlink v.collected_ns tm tasks x) _ (AtEnd-self _)
                (λ found w seen. (
                  refl,
                  record {
                    tm = tm;
                    timed_at = u;
                    timed = timed;
                    tasks = tasks;
                    listed_at = x;
                    listed = listed;
                    found = found;
                    seen = seen;
                    collected_ns = refl;
                    shows = refl;
                  },
                ))))
    where
      Ends : ℤ × MonitorView F S → Trace → Type 0
      Ends r w = (r.0 ≡ pos 0) × Observed v t r.1 w

  -- So it is with every collection that comes back.
  pub collect_timed-Observed :
      (m : IoMonitor F S) (t : Trace)
      → NodupKeys (table_of m)
      → AtEnd (collect_timed F S m t) (λ r w. (r.0 ≡ pos 0) × Observed (view m) t (view r.1) w)
  collect_timed-Observed m t distinct =
      AtEnd-map {B = ℤ × MonitorView F S} (λ r. (r.0, view r.1))
        (λ r w. (r.0 ≡ pos 0) × Observed (view m) t r.1 w) (collect_timed F S m t)
        (rw (collect_timed-view m t distinct) (collect-Observed (view m) t))
