-- ===== src/Monitor/Asking.antt =====
-- The requests of a collection, in the order of the tasks.
use mathlib.Core.List.{append_assoc, append-nil}
use iotop_cpp.Base.{
  ℕ, ◌≡◌, refl, sym, ap, ◌∙◌, inl, inr, true, false, List, [], ◌∷◌, ◌++◌, if◌then◌else◌, pos,
  is_neg, to_int32,
}
use iotop_cpp.Text.{Text}
use iotop_cpp.Float.{Float}
use iotop_cpp.Run.{Trace, Run, M, done, and_then, Run-cases}
use iotop_cpp.Run.Ends.{AtEnd, AtEnd-bind, AtEnd-mono}
use iotop_cpp.Run.Within.{Same, Same-IsPreorder, Within, Within-done, Within-if, Within-mono}
use iotop_cpp.Task.{TaskIoInfo, new_task, Table, SystemIoInfo, emplace}
use iotop_cpp.Monitor.{
  Sources, IoMonitor, to_uint64, with_rates, handle_every_task_io_info, collect_threads,
  get_task_io_info, collect_timed,
}
use iotop_cpp.Monitor.Loops.{ids}
use iotop_cpp.Monitor.Calling.{AreQuiet, fill_names-Along}

-- A log that the calls of the sources leave alone, but for a request of netlink at a time.
pub record Asks {F : Float} (S : Sources F) (log : Trace → Text) (request : S.Netlink → ℕ → Text)
    : Type 0 where
  pub quiet : AreQuiet (Same log) S
  pub stats :
      (netlink : S.Netlink) (id : ℕ) (info : TaskIoInfo F) (t : Trace)
      → AtEnd (S.get_task_io_info netlink id info t) (λ _ u. log u ≡ log t ++ request netlink id)

-- The requests for tasks.
abbrev pub requests : (ℕ → Text) → List ℕ → Text
requests request [] = []
requests request (id ∷ ids) = request (to_uint64 (to_int32 id)) ++ requests request ids

requests-append :
    (request : ℕ → Text) (xs ys : List ℕ)
    → requests request (xs ++ ys) ≡ requests request xs ++ requests request ys
requests-append request [] ys = refl
requests-append request (x ∷ xs) ys =
    ap (◌++◌ (request (to_uint64 (to_int32 x)))) (requests-append request xs ys)
    ∙ sym (
        append_assoc (request (to_uint64 (to_int32 x))) (requests request xs) (requests request ys))

module _ {F : Float} {S : Sources F} {log : Trace → Text} {request : S.Netlink → ℕ → Text}
    (asks : Asks S log request) where
  -- The log goes on by some bytes.
  abbrev Logs : {A : Type 0} → Trace → Text → A → Trace → Type 0
  Logs t bytes _ u = log u ≡ log t ++ bytes

  Logs-bind :
      {A B : Type 0} (t : Trace) (x y : Text) (r : Run A) (f : A → M B)
      → AtEnd r (Logs t x)
      → ((a : A) (u : Trace) → AtEnd (f a u) (Logs u y))
      → AtEnd (and_then r f) (Logs t (x ++ y))
  Logs-bind t x y r f h k = AtEnd-bind (Logs t x) (Logs t (x ++ y)) r f h (λ a u e.
      AtEnd-mono (Logs u y) (Logs t (x ++ y)) (f a u) (k a u)
        (λ b v d. d ∙ rw e (append_assoc (log t) x y)))

  -- Nothing is asked.
  Logs-nil : {A : Type 0} (t : Trace) (r : Run A) → Within (Same log) t r → AtEnd r (Logs t [])
  Logs-nil t r h =
      Within-mono (Same log) (λ t u. Logs t [] tt u) t r (λ u e. e ∙ sym (append-nil (log t))) h

  module _ (netlink : S.Netlink) (origin_ns tm : ℕ) where
    handle-Logs :
        (info : TaskIoInfo F) (t : Trace)
        → AtEnd
            (handle_every_task_io_info F S netlink origin_ns info tm t)
            (Logs t (request netlink (to_uint64 info.task_id)))
    unfolding handle_every_task_io_info
    handle-Logs info t =
        Logs-bind t [] (request netlink (to_uint64 info.task_id))
          (S.get_task_io_priority info.task_id t) _
          (Logs-nil t _ (asks.quiet.priority info.task_id t))
          (λ prio u.
            let origin : TaskIoInfo F = record info {
              io_priority = if is_neg prio then pos 0 else prio;
            } in
            rw (← append-nil (request netlink (to_uint64 info.task_id))) (
              Logs-bind u (request netlink (to_uint64 info.task_id)) []
                (S.get_task_io_info netlink (to_uint64 info.task_id) origin u) _
                (asks.stats netlink (to_uint64 info.task_id) origin u)
                (λ r v. Logs-nil v _ (
                  Within-if (Same log) (is_neg r.0) _ _ v v refl (
                    fill_names-Along (Same-IsPreorder log) asks.quiet
                      (with_rates F origin_ns tm origin r.1) v)))))

    collect_threads-Logs :
        (tids : List ℕ) (table : Table F) (t : Trace)
        → AtEnd
            (collect_threads F S netlink origin_ns tm tids table t)
            (Logs t (requests (request netlink) tids))
    unfolding collect_threads
    collect_threads-Logs [] table t = sym (append-nil (log t))
    collect_threads-Logs (tid ∷ tids) table t =
        Logs-bind t (request netlink (to_uint64 (to_int32 tid))) (requests (request netlink) tids)
          (handle_every_task_io_info F S netlink origin_ns (new_task F (to_int32 tid) false) tm t) _
          (handle-Logs (new_task F (to_int32 tid) false) t)
          (λ info u. collect_threads-Logs tids (emplace tid info table) u)

    get_task_io_info-Logs :
        (tasks : List (ℕ × List ℕ)) (stats : SystemIoInfo F) (t : Trace)
        → AtEnd
            (get_task_io_info F S netlink origin_ns tm tasks stats t)
            (Logs t (requests (request netlink) (ids tasks)))
    unfolding get_task_io_info
    get_task_io_info-Logs [] stats t = sym (append-nil (log t))
    get_task_io_info-Logs ((pid, tids) ∷ tasks) stats t =
        rw (requests-append (request netlink) tids (ids tasks)) (
          Logs-bind t (request netlink (to_uint64 (to_int32 pid))) _
            (handle_every_task_io_info F S netlink origin_ns (new_task F (to_int32 pid) true) tm t)
            _ (handle-Logs (new_task F (to_int32 pid) true) t)
            (λ info u.
              Logs-bind u (requests (request netlink) tids) (requests (request netlink) (ids tasks))
                (collect_threads F S netlink origin_ns tm tids
                  (emplace pid info stats.task_io_stats_table) u)
                _ (collect_threads-Logs tids (emplace pid info stats.task_io_stats_table) u)
                (λ table v. get_task_io_info-Logs tasks _ v)))

  -- The requests of a collection, from the tasks that are listed.
  pub collect_timed-requests :
      (m : IoMonitor F S) (t u v : Trace) (tm : ℕ) (tasks : List (ℕ × List ℕ))
      → S.get_steady_now_time_ns t ≡ done tm u
      → S.get_all_task_id u ≡ done tasks v
      → AtEnd
          (collect_timed F S m t)
          (λ _ w. log w ≡ log t ++ requests (request m.netlink_io_obj) (ids tasks))
  unfolding collect_timed
  collect_timed-requests m t u v tm tasks timed listed =
      let a = Within-done (Same log) t _ tm u (asks.quiet.time t) timed in
      let b = Within-done (Same log) u _ tasks v (asks.quiet.tasks u) listed in
      rw timed (
        rw listed (
          AtEnd-bind (Logs v (requests (request m.netlink_io_obj) (ids tasks))) _
            (get_task_io_info F S m.netlink_io_obj m.origin_collect_timestamp_ns tm tasks _ v) _
            (get_task_io_info-Logs m.netlink_io_obj m.origin_collect_timestamp_ns tm tasks _ v)
            (λ stats w c. c ∙ rw (b, a) refl)))

  -- The tasks that were listed, and the requests for them.
  abbrev pub Asked : IoMonitor F S → Trace → Trace → Type 0
  Asked m t w =
      (u v : Trace) × (tasks : List (ℕ × List ℕ)) × (S.get_all_task_id u ≡ done tasks v)
      × (log w ≡ log t ++ requests (request m.netlink_io_obj) (ids tasks))

  pub collect_timed-Asked :
      (m : IoMonitor F S) (t : Trace) → AtEnd (collect_timed F S m t) (λ _ w. Asked m t w)
  unfolding collect_timed
  collect_timed-Asked m t = elim (Run-cases (S.get_steady_now_time_ns t)) [
    | inr (inl d) ↦ rw d tt
    | inr (inr d) ↦ rw d tt
    | inl (tm, u, d) ↦ elim (Run-cases (S.get_all_task_id u)) [
      | inr (inl e) ↦ rw d (rw e tt)
      | inr (inr e) ↦ rw d (rw e tt)
      | inl (tasks, v, e) ↦
          AtEnd-mono (λ _ w. log w ≡ log t ++ requests (request m.netlink_io_obj) (ids tasks))
            (λ _ w. Asked m t w) (collect_timed F S m t)
            (collect_timed-requests m t u v tm tasks d e) (λ _ w c. (u, v, tasks, e, c))
    ]
  ]
