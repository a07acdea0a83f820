-- ===== src/Monitor/Calling.antt =====
-- The monitor makes no calls of its own: it does to the trace what its sources do.
use iotop_cpp.Base.{
  ℕ, Bool, true, false, List, [], ◌∷◌, if◌then◌else◌, Option-cases, inl, inr, ℤ, pos, is_neg,
  to_int32, length,
}
use iotop_cpp.Text.{Text, strncpy}
use iotop_cpp.Float.{Float}
use iotop_cpp.Run.{Trace}
use iotop_cpp.Run.Within.{IsPreorder, Along, Within-bind, Within-if}
use iotop_cpp.Task.{TaskIoInfo, new_task, Table, SystemIoInfo, emplace}
use iotop_cpp.Monitor.{
  Sources, IoMonitor, to_uint64, with_rates, copy, copy_found, fill_names,
  handle_every_task_io_info, collect_threads, get_task_io_info, collect_timed,
}

-- Sources that lead along a relation, apart from netlink.
pub record AreQuiet {F : Float} (R : Trace → Trace → Type 0) (S : Sources F) : Type 0 where
  pub time : Along R S.get_steady_now_time_ns
  pub tasks : Along R S.get_all_task_id
  pub priority : (id : ℤ) → Along R (S.get_task_io_priority id)
  pub name : (uid : ℤ) → Along R (S.get_user_name uid)
  pub cmdline :
      (id : ℤ) (is_short : Bool) (line : Text) → Along R (S.get_task_cmdline id is_short line)

-- ... and netlink as well.
pub record AreAlong {F : Float} (R : Trace → Trace → Type 0) (S : Sources F) : Type 0 where
  pub quiet : AreQuiet R S
  pub stats :
      (netlink : S.Netlink) (id : ℕ) (info : TaskIoInfo F)
      → Along R (S.get_task_io_info netlink id info)

module _ {F : Float} {R : Trace → Trace → Type 0} (pre : IsPreorder R) {S : Sources F}
    (quiet : AreQuiet R S) where
  copy-Along : (array s : Text) → Along R (copy array s)
  copy-Along array s t = elim (Option-cases (strncpy array s (length s))) [
    | inl e ↦ rw (e, copy) tt
    | inr (a, e) ↦ rw (e, copy) (pre.here t)
  ]

  copy_found-Along : (code : ℤ) (array s : Text) → Along R (copy_found code array s)
  copy_found-Along code array s t =
      Within-if R (is_neg code) _ _ t t (pre.here t) (copy-Along array s t)

  pub fill_names-Along : (info : TaskIoInfo F) → Along R (fill_names F S info)
  unfolding fill_names
  fill_names-Along info t =
      Within-bind pre t (S.get_user_name info.user_id t) _ (quiet.name info.user_id t) (λ name u.
        Within-bind pre u (copy info.user_name name u) _ (copy-Along info.user_name name u)
          (λ user v.
            Within-bind pre v (S.get_task_cmdline info.task_id true [] v) _
              (quiet.cmdline info.task_id true [] v)
              (λ short w.
                Within-bind pre w (copy_found short.0 info.short_cmdline short.1 w) _
                  (copy_found-Along short.0 info.short_cmdline short.1 w)
                  (λ short' x.
                    Within-bind pre x (S.get_task_cmdline info.task_id false [] x) _
                      (quiet.cmdline info.task_id false [] x)
                      (λ full y.
                        Within-bind pre y (copy_found full.0 info.full_cmdline full.1 y) _
                          (copy_found-Along full.0 info.full_cmdline full.1 y)
                          (λ full' z. pre.here z))))))

module _ {F : Float} {R : Trace → Trace → Type 0} (pre : IsPreorder R) {S : Sources F}
    (calls : AreAlong R S) where
  module _ (netlink : S.Netlink) (origin_ns tm : ℕ) where
    handle_every_task_io_info-Along :
        (info : TaskIoInfo F) → Along R (handle_every_task_io_info F S netlink origin_ns info tm)
    unfolding handle_every_task_io_info
    handle_every_task_io_info-Along info t =
        Within-bind pre t (S.get_task_io_priority info.task_id t) _
          (calls.quiet.priority info.task_id t)
          (λ prio u.
            let origin : TaskIoInfo F = record info {
              io_priority = if is_neg prio then pos 0 else prio;
            } in
            Within-bind pre u (S.get_task_io_info netlink (to_uint64 info.task_id) origin u) _
              (calls.stats netlink (to_uint64 info.task_id) origin u)
              (λ r v.
                Within-if R (is_neg r.0) _ _ v v (pre.here v)
                  (fill_names-Along pre calls.quiet (with_rates F origin_ns tm origin r.1) v)))

    collect_threads-Along :
        (tids : List ℕ) (table : Table F)
        → Along R (collect_threads F S netlink origin_ns tm tids table)
    unfolding collect_threads
    collect_threads-Along [] table t = pre.here t
    collect_threads-Along (tid ∷ tids) table t =
        Within-bind pre t _ _ (handle_every_task_io_info-Along (new_task F (to_int32 tid) false) t)
          (λ info. collect_threads-Along tids (emplace tid info table))

    get_task_io_info-Along :
        (tasks : List (ℕ × List ℕ)) (stats : SystemIoInfo F)
        → Along R (get_task_io_info F S netlink origin_ns tm tasks stats)
    unfolding get_task_io_info
    get_task_io_info-Along [] stats t = pre.here t
    get_task_io_info-Along ((pid, tids) ∷ tasks) stats t =
        Within-bind pre t _ _ (handle_every_task_io_info-Along (new_task F (to_int32 pid) true) t)
          (λ info u.
            Within-bind pre u _ _
              (collect_threads-Along tids (emplace pid info stats.task_io_stats_table) u)
              (λ table. get_task_io_info-Along tasks _))

  pub collect_timed-Along : (m : IoMonitor F S) → Along R (collect_timed F S m)
  unfolding collect_timed
  collect_timed-Along m t =
      Within-bind pre t (S.get_steady_now_time_ns t) _ (calls.quiet.time t) (λ tm u.
        Within-bind pre u (S.get_all_task_id u) _ (calls.quiet.tasks u) (λ tasks v.
          Within-bind pre v _ _
            (get_task_io_info-Along m.netlink_io_obj m.origin_collect_timestamp_ns tm tasks _ v)
            (λ stats w. pre.here w)))
