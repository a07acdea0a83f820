-- ===== src/Runner.antt =====
-- src/iotop.h, src/iotop.cpp and src/main.cpp: the program.
pub mod Answers
pub mod Reads
pub mod Requests
pub mod Descriptors
pub mod Begins
pub mod Holding
pub mod Sends
pub mod History
pub mod Presence
pub mod Streams
pub mod Outgoing
pub mod Alternating
pub mod Rounds
pub mod Whole
pub mod Clock
use iotop_cpp.Base.{ℕ, zero, suc, false, [], if◌then◌else◌, ℤ, pos, neg, is_neg}
use iotop_cpp.Float.{Float}
use iotop_cpp.Run.{M, pure, ◌>>=◌, ◌>>◌, tell, sleep}
use iotop_cpp.Os.{Os}
use iotop_cpp.Abi.{Abi}
use iotop_cpp.Task.{SystemIoInfo}
use iotop_cpp.Prio.{get_task_io_priority}
use iotop_cpp.Proc.{get_all_task_id, get_user_name, get_task_cmdline, get_steady_now_time_ns}
use iotop_cpp.Netlink.{NetlinkIoStats, new_netlink}
use iotop_cpp.Netlink.Socket
use iotop_cpp.Netlink.Stats.{get_task_io_info}
use iotop_cpp.Monitor.{Sources, IoMonitor, collect_timed}
use iotop_cpp.Monitor
use iotop_cpp.View
use iotop_cpp.View.{draw_data}

module _ (F : Float) (os : Os) (abi : Abi) (rounds : ℕ) where
  -- What the monitor calls.
  abbrev pub sources : Sources F
  sources = record {
    Netlink = NetlinkIoStats;
    init = Socket.init os abi rounds;
    get_task_io_info = get_task_io_info F os abi rounds;
    get_all_task_id = get_all_task_id os false;
    get_task_io_priority = get_task_io_priority os;
    get_user_name = get_user_name os;
    get_task_cmdline = get_task_cmdline os;
    get_steady_now_time_ns = get_steady_now_time_ns os;
  }

  abbrev pub IoRunner : Type 0
  IoRunner = IoMonitor F sources

  abbrev pub no_stats : SystemIoInfo F
  no_stats = record {
    curr_disk_read_b_s = F.of_ℕ 0;
    curr_disk_write_b_s = F.of_ℕ 0;
    task_io_stats_table = [];
  }

  abbrev pub new_runner : IoRunner
  new_runner = record {
    netlink_io_obj = new_netlink;
    origin_collect_timestamp_ns = 0;
    io_stats = no_stats;
  }

  unfoldable pub init : IoRunner → M (ℤ × IoRunner)
  init this = do
    (res, this') ← Monitor.init F sources this
    if is_neg res
        then pure (neg 1, this')
        else (do shown ← View.init; pure (if is_neg shown then neg 2 else pos 0, this'))

  -- One round of `run`: a collection that fails is tried again at once.
  unfoldable pub run_round : IoRunner → M IoRunner
  run_round this = do
    (res, this') ← collect_timed F sources this
    if is_neg res
        then pure this'
        else (do draw_data F os this'.io_stats; tell (sleep 1); pure this')

  -- The first rounds of `run`, which has no end.
  unfoldable pub run : ℕ → IoRunner → M IoRunner
  run zero this = pure this
  run (suc n) this = do this' ← run_round this; run n this'

  -- The exit status, and the runner, after n rounds.
  unfoldable pub main : ℕ → M (ℤ × IoRunner)
  main n = do
    (res, runner) ← init new_runner
    if is_neg res then pure (neg 1, runner) else (do runner' ← run n runner; pure (pos 0, runner'))
