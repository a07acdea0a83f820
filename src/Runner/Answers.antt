-- ===== src/Runner/Answers.antt =====
-- The monitor's sources on a Linux kernel.
use iotop_cpp.Base.{
  ℕ, ◌≤◌, refl, inl, inr, false, ◌||◌, ◌≡◌, ◌++◌, [], Option, none, some, arith, Option-cases,
  length, ℤ, pos, is_neg,
}
use iotop_cpp.Text.{Text}
use iotop_cpp.Float.{Float}
use iotop_cpp.Run.{Trace, Returns, Returns-if, Returns-mono}
use iotop_cpp.Run.Ends.{Returns-AtEnd}
use iotop_cpp.Os.{Os}
use iotop_cpp.Abi.{Abi, IsLinux}
use iotop_cpp.Task.{TaskIoInfo}
use iotop_cpp.Prio.{
  get_task_io_priority, get_task_io_priority_from_sched, same_int, io_class_of, ioprio_class_none,
  ioprio_who_process,
}
use iotop_cpp.Proc.{get_user_name, get_all_task_id, get_steady_now_time_ns}
use iotop_cpp.Proc.Lengths.{IsShortLine, get_task_cmdline-Fits}
use iotop_cpp.Proc.Scan.{get_all_task_id-Lists}
use iotop_cpp.Netlink.{NetlinkIoStats, with_stats}
use iotop_cpp.Netlink.Sending.{stream, request}
use iotop_cpp.Netlink.Patience.{IsReady}
use iotop_cpp.Netlink.Request.{HasRoom}
use iotop_cpp.Netlink.Keeping.{get_task_io_info_keeps}
use iotop_cpp.Netlink.Safe.{IsSafe, get_task_io_info-Returns}
use iotop_cpp.Monitor.Names.{Keeps, IsSound}
use iotop_cpp.Runner.{sources}

-- A user name that has room in the array of a task.
abbrev pub IsShortName : Option Text → Type 0
IsShortName none = Unit {0}
IsShortName (some name) = length name ≤ 128

-- What the answers of the environment are to be: the socket takes bytes, and, when a request for the
-- statistics of a task is the last that it took, gives back what can be read, or an error; names and
-- lines are no longer than the arrays of a task.
pub record Answers (os : Os) (abi : Abi) (rounds : ℕ) : Type 0 where
  pub linux : IsLinux abi
  pub room : (id : ℕ) → HasRoom abi (abi.put_u64 id)
  pub ready : (fd : ℤ) → IsReady os abi rounds fd
  pub answers :
      (this : NetlinkIoStats) (id : ℕ) (s : Text) (u : Trace)
      → stream os u ≡ s ++ request abi this id
      → IsSafe abi (os.recv u this.sock_fd)
  pub names : (t : Trace) (uid : ℤ) → IsShortName (os.getpwuid t uid)
  pub lines : (t : Trace) (fp : ℕ) → IsShortLine 128 (os.getline t fp)

abbrev Comes : ℤ → Trace → Type 0
Comes _ _ = Unit {0}

sched-Returns :
    (os : Os) (id : ℤ) (t : Trace) → Returns (get_task_io_priority_from_sched os id t) Comes
unfolding get_task_io_priority_from_sched
sched-Returns os id t =
    Returns-if Comes (same_int scheduler os.sched_fifo || same_int scheduler os.sched_rr) _ _ _
      (λ _. tt) (λ _. Returns-if Comes (same_int scheduler os.sched_idle) _ _ _ (λ _. tt) (λ _. tt))
  where
    scheduler : ℤ
    scheduler = os.sched_getscheduler t id

priority-Returns : (os : Os) (id : ℤ) (t : Trace) → Returns (get_task_io_priority os id t) Comes
unfolding get_task_io_priority
priority-Returns os id t =
    Returns-if Comes (is_neg r) _ _ _ (λ _. tt)
      (λ _.
        Returns-if Comes (same_int (io_class_of r) (pos ioprio_class_none)) _ _ _
          (λ _. sched-Returns os id _) (λ _. tt))
  where
    r : ℤ
    r = os.ioprio_get t ioprio_who_process id

module _ (F : Float) (os : Os) (abi : Abi) (rounds : ℕ) (good : Answers os abi rounds) where
  Keeps-refl : (info : TaskIoInfo F) → Keeps info info
  Keeps-refl info = record {
    task_id = refl;
    io_priority = refl;
    user_name = refl;
    short_cmdline = refl;
    full_cmdline = refl;
    is_updated = refl;
  }

  with_stats-Keeps :
      (before : TaskIoInfo F) (ts : Text) (info : TaskIoInfo F)
      → Keeps before info
      → Keeps before (with_stats F abi ts info)
  unfolding with_stats
  with_stats-Keeps before ts info k = record {
    task_id = k.task_id;
    io_priority = k.io_priority;
    user_name = k.user_name;
    short_cmdline = k.short_cmdline;
    full_cmdline = k.full_cmdline;
    is_updated = k.is_updated;
  }

  name-Returns : (uid : ℤ) (t : Trace) → Returns (get_user_name os uid t) (λ s _. length s ≤ 128)
  unfolding get_user_name
  name-Returns uid t = elim (Option-cases (os.getpwuid t uid)) [
    | inl e ↦ rw (e, get_user_name) (omega arith)
    | inr (name, e) ↦ rw (e, get_user_name) (rw e at (good.names t uid))
  ]

  time-Returns : (t : Trace) → Returns (get_steady_now_time_ns os t) (λ _ _. Unit {0})
  unfolding get_steady_now_time_ns
  time-Returns t = tt

  -- On a Linux kernel (the kernel's headers meet their laws, the payload of a request has room and
  -- the rounds suffice for a message, the socket takes at least one byte of what it is offered,
  -- unless it takes none and asks to try again, which it does a bounded number of times in a row,
  -- when the last that the socket has taken is a request for the statistics of a task, what is
  -- received is nothing, a message that is cut off or an error, or a message that can be read (as
  -- far as its payload, the headers of its attributes lie within the buffer, and within each
  -- aggregate, at the places where the inner loop looks, the headers and the fields of the
  -- statistics that are read do, until the lengths add up), and user names and first lines are no
  -- longer than 128 bytes), the utilities and the connection are sound sources for the monitor:
  -- they come back, netlink leaves a task's number, priority, names and mark alone, and names and
  -- command lines are no longer than 128 bytes.
  pub sources-IsSound : IsSound (sources F os abi rounds)
  sources-IsSound = record {
    time = time-Returns;
    tasks = λ t.
        Returns-mono _ (λ _ _. Unit {0}) (get_all_task_id os false t)
          (get_all_task_id-Lists os false t) (λ _ _ _. tt);
    priority = priority-Returns os;
    stats = λ netlink id info t.
        Returns-mono _ (λ r _. Keeps info r.1) _
          (Returns-AtEnd _ (λ r _. Keeps info r.1) _
            (get_task_io_info-Returns F os abi good.linux rounds netlink
              (good.ready netlink.sock_fd) good.room (good.answers netlink) id info t)
            (get_task_io_info_keeps F abi (Keeps info) (with_stats-Keeps info) os rounds netlink id
              info t (Keeps-refl info)))
          (λ r _ h. h.1);
    name = name-Returns;
    cmdline =
        λ id is_short t. get_task_cmdline-Fits os 128 good.lines id is_short [] t (omega arith);
  }
