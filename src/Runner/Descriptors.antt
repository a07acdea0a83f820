-- ===== src/Runner/Descriptors.antt =====
-- The rounds of the program leave no descriptor and no stream open.
use iotop_cpp.Base.{ℕ, zero, suc, refl, ◌∷◌, false, is_neg}
use iotop_cpp.Float.{Float}
use iotop_cpp.Run.{
  Call, Trace, ioprio_get, sched_getscheduler, getpriority, getpwuid, clock_gettime,
}
use iotop_cpp.Run.Within.{Along, Within-bind, Within-if}
use iotop_cpp.Run.Calls.{Only-Within}
use iotop_cpp.Os.{Os}
use iotop_cpp.Abi.{Abi}
use iotop_cpp.Proc.Descriptors.{IsFresh, Tidy, tidy, get_task_cmdline-Tidy, get_all_task_id-Tidy}
use iotop_cpp.Netlink.Calling.{get_task_io_info-Calls}
use iotop_cpp.Monitor.{collect_timed}
use iotop_cpp.Monitor.Calling.{AreAlong, collect_timed-Along}
use iotop_cpp.View.{draw_data}
use iotop_cpp.View.Calling.{draw_data-Calls}
use iotop_cpp.Runner.{sources, IoRunner, run_round, run}
use iotop_cpp.Runner.Reads.{
  Peeks, get_steady_now_time_ns-Peeks, get_user_name-Peeks, get_task_io_priority-Peeks,
}

module _ (os : Os) where
  -- A call that opens, closes and reads no file.
  abbrev pub IsNeutral : Call → Type 0
  IsNeutral c = (t : Trace) → Tidy os t (c ∷ t)

  Tidy-Peeks : (c : Call) (t : Trace) → Peeks c → Tidy os t (c ∷ t)
  Tidy-Peeks (ioprio_get which id) t h = refl
  Tidy-Peeks (sched_getscheduler id) t h = refl
  Tidy-Peeks (getpriority id) t h = refl
  Tidy-Peeks (getpwuid uid) t h = refl
  Tidy-Peeks clock_gettime t h = refl
  Tidy-Peeks _ t h = absurd (cc h)

module _ (F : Float) (os : Os) (abi : Abi) (rounds : ℕ) (fresh : IsFresh os) where
  sources-AreAlong : AreAlong (Tidy os) (sources F os abi rounds)
  sources-AreAlong = record {
    quiet = record {
      time = λ t.
          Only-Within Peeks (tidy os fresh) (Tidy-Peeks os) t _ (get_steady_now_time_ns-Peeks os t);
      tasks = get_all_task_id-Tidy os fresh false;
      priority = λ id t.
          Only-Within Peeks (tidy os fresh) (Tidy-Peeks os) t _
            (get_task_io_priority-Peeks os id t);
      name = λ uid t.
          Only-Within Peeks (tidy os fresh) (Tidy-Peeks os) t _ (get_user_name-Peeks os uid t);
      cmdline = get_task_cmdline-Tidy os fresh;
    };
    stats = λ netlink id info t.
        Only-Within (IsNeutral os) (tidy os fresh) (λ c u h. h u) t _
          (get_task_io_info-Calls (IsNeutral os) (λ fd buf u. refl) (λ fd u. refl) F os abi rounds
            netlink id info t);
  }

  run_round-Tidy :
      (this : IoRunner F os abi rounds) → Along (Tidy os) (run_round F os abi rounds this)
  unfolding run_round
  run_round-Tidy this t =
      Within-bind (tidy os fresh) t (collect_timed F (sources F os abi rounds) this t) _
        (collect_timed-Along (tidy os fresh) sources-AreAlong this t)
        (λ r u. Within-if (Tidy os) (is_neg r.0) _ _ u u refl (
          Within-bind (tidy os fresh) u (draw_data F os r.1.io_stats u) _
            (Only-Within (IsNeutral os) (tidy os fresh) (λ c v h. h v) u _
              (draw_data-Calls (IsNeutral os) (λ y s v. refl) (λ v. refl) F (λ v. refl) (λ v. refl)
                (λ v. refl) os r.1.io_stats u))
            (λ _ v. refl)))

  pub run-Tidy :
      (n : ℕ) (this : IoRunner F os abi rounds) → Along (Tidy os) (run F os abi rounds n this)
  unfolding run
  run-Tidy zero this t = refl
  run-Tidy (suc n) this t =
      Within-bind (tidy os fresh) t (run_round F os abi rounds this t) _ (run_round-Tidy this t)
        (λ next. run-Tidy n next)
