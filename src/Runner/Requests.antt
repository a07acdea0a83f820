-- ===== src/Runner/Requests.antt =====
-- The calls of a whole collection.
use iotop_cpp.Base.{ℕ, ◌∷◌, refl, false}
use iotop_cpp.Float.{Float}
use iotop_cpp.Run.{Call, Trace}
use iotop_cpp.Run.Within.{IsPreorder}
use iotop_cpp.Run.Calls.{Calls, GoesOn, GoesOn-IsPreorder, GoesOn-call, GoesOn-refl, Only-Within}
use iotop_cpp.Os.{Os}
use iotop_cpp.Abi.{Abi}
use iotop_cpp.Netlink.Calling.{get_task_io_info-Calls}
use iotop_cpp.Monitor.{collect_timed}
use iotop_cpp.Monitor.Calling.{AreQuiet, AreAlong, collect_timed-Along}
use iotop_cpp.Runner.{sources, IoRunner}
use iotop_cpp.Runner.Reads.{
  Peeks, Peeks-Looks, Looks, Reads, Looks-Reads, get_steady_now_time_ns-Peeks, get_user_name-Peeks,
  get_task_io_priority-Peeks, get_task_cmdline-Looks, get_all_task_id-Looks,
}

module _ (F : Float) (os : Os) (abi : Abi) (rounds : ℕ) where
  pub sources-AreQuiet :
      {R : Trace → Trace → Type 0} (pre : IsPreorder R)
      (step : (c : Call) (t : Trace) → Looks c → R t (c ∷ t))
      → AreQuiet R (sources F os abi rounds)
  sources-AreQuiet {R = R} pre step = record {
    time = λ t. Only-Within Peeks pre peek t _ (get_steady_now_time_ns-Peeks os t);
    tasks = λ t. Only-Within Looks pre step t _ (get_all_task_id-Looks os false t);
    priority = λ id t. Only-Within Peeks pre peek t _ (get_task_io_priority-Peeks os id t);
    name = λ uid t. Only-Within Peeks pre peek t _ (get_user_name-Peeks os uid t);
    cmdline = λ id is_short line t.
        Only-Within Looks pre step t _ (get_task_cmdline-Looks os id is_short line t);
  }
    where
      peek : (c : Call) (t : Trace) → Peeks c → R t (c ∷ t)
      peek c t h = step c t (Peeks-Looks c h)

  sources-AreAlong : AreAlong (GoesOn Reads) (sources F os abi rounds)
  sources-AreAlong = record {
    quiet =
        sources-AreQuiet (GoesOn-IsPreorder Reads)
          (λ c t p. GoesOn-call Reads c t (c ∷ t) (Looks-Reads c p) (GoesOn-refl Reads (c ∷ t)));
    stats = get_task_io_info-Calls Reads (λ fd buf. refl) (λ fd. refl) F os abi rounds;
  }

  -- Whatever the environment answers, the calls that a collection of the program makes, if it comes
  -- back, are of those that read, apart from the requests to netlink: it sets no priority, makes no
  -- socket, prints nothing, does not sleep, and leaves the terminal alone.
  pub collect_timed-Reads :
      (this : IoRunner F os abi rounds)
      → Calls Reads (collect_timed F (sources F os abi rounds) this)
  collect_timed-Reads this = collect_timed-Along (GoesOn-IsPreorder Reads) sources-AreAlong this
