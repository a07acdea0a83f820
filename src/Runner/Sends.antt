-- ===== src/Runner/Sends.antt =====
-- What a collection of the program sends.
use iotop_cpp.Base.{ℕ, ◌≡◌, refl, List, ◌++◌, false, pos}
use iotop_cpp.Float.{Float}
use iotop_cpp.Run.{Call, Trace, done, Returns, Returns-mono, sendto}
use iotop_cpp.Run.Within.{Same-IsPreorder}
use iotop_cpp.Run.Ends.{Returns-AtEnd}
use iotop_cpp.Os.{Os}
use iotop_cpp.Abi.{Abi}
use iotop_cpp.Netlink.Sending.{stream, request}
use iotop_cpp.Netlink.Asking.{IsSilent, get_task_io_info-stream}
use iotop_cpp.Monitor.{collect_timed}
use iotop_cpp.Monitor.Collect.{IsValid, collect_timed-IsValid}
use iotop_cpp.Monitor.Loops.{ids}
use iotop_cpp.Monitor.Asking.{Asks, requests, collect_timed-Asked}
use iotop_cpp.Proc.{get_all_task_id}
use iotop_cpp.Runner.{sources, IoRunner}
use iotop_cpp.Runner.Answers.{Answers, sources-IsSound}
use iotop_cpp.Runner.Reads.{Looks}
use iotop_cpp.Runner.Requests.{sources-AreQuiet}

pub IsSilent-Looks : (os : Os) (c : Call) → Looks c → IsSilent os c
IsSilent-Looks os (sendto fd buf) h t = cc
IsSilent-Looks os _ h t = refl

module _ (F : Float) (os : Os) (abi : Abi) (rounds : ℕ) (good : Answers os abi rounds) where
  pub sources-Asks : Asks (sources F os abi rounds) (stream os) (request abi)
  sources-Asks = record {
    quiet =
        sources-AreQuiet F os abi rounds (Same-IsPreorder (stream os))
          (λ c t h. IsSilent-Looks os c h t);
    stats = λ netlink id info t.
        get_task_io_info-stream F os abi good.linux rounds netlink (good.ready netlink.sock_fd)
          good.room id info t;
  }

  -- Where the environment answers as `Answers` says, a collection from a valid table comes back with
  -- 0, and the bytes that the socket has taken in its course are the messages that ask for the
  -- statistics of the tasks that `get_all_task_id` gave, each message whole and one for each of them,
  -- in order, each process before its threads.
  pub collect_timed-stream :
      (this : IoRunner F os abi rounds) (t : Trace)
      → IsValid this
      → Returns (collect_timed F (sources F os abi rounds) this t) (λ r w.
        (r.0 ≡ pos 0)
        × ((u v : Trace) × (tasks : List (ℕ × List ℕ)) × (get_all_task_id os false u ≡ done tasks v)
            × (stream os w
                ≡ stream os t ++ requests (request abi this.netlink_io_obj) (ids tasks))))
  collect_timed-stream this t valid =
      let run = collect_timed F (sources F os abi rounds) this t in
      Returns-mono _ _ run
        (Returns-AtEnd _ _ run
          (collect_timed-IsValid (sources-IsSound F os abi rounds good) this valid.distinct t)
          (collect_timed-Asked sources-Asks this t))
        (λ r w h. (h.0.0, h.1))
