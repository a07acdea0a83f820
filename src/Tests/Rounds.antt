-- ===== src/Tests/Rounds.antt =====
-- Rounds of the program on a machine that answers each request with the same statistics.
use iotop_cpp.Base.{
  some, elem, ℕ, is_neg, ◌≡◌, refl, false, inr, [], ◌∷◌, List, true, ◌++◌, arith, pos,
}
use iotop_cpp.Text.{Text, until_nul, decimal}
use iotop_cpp.Run.{Trace, done, Returns}
use iotop_cpp.Run.Ends.{AtEnd, Any, AtEnd-Any, AtEnd-bind}
use iotop_cpp.Monitor.{collect_timed}
use iotop_cpp.Monitor.Names.{IsSound}
use iotop_cpp.Monitor.Collect.{table_of, IsValid}
use iotop_cpp.Proc.Lengths.{IsShortLine}
use iotop_cpp.View.Lines.{lines}
use iotop_cpp.Runner.{sources, new_runner, run, main}
use iotop_cpp.Runner.Answers.{Answers, sources-IsSound}
use iotop_cpp.Monitor.Loops.{ids}
use iotop_cpp.Proc.{get_all_task_id}
use iotop_cpp.Netlink.{
  NetlinkIoStats, netlink_msg, read_reply, read_aggr, read_stats, read_at, with_stats,
}
use iotop_cpp.Netlink.Socket.{
  init_sock, init_netlink_family_id, send_netlink_cmd, send_loop, read_family_id,
}
use iotop_cpp.Netlink.Socket
use iotop_cpp.Monitor
use iotop_cpp.View
use iotop_cpp.Runner
use iotop_cpp.Netlink.Stats.{handle_reply, get_task_io_info}
use iotop_cpp.Task.{TaskIoInfo}
use mathlib.Core.List.{filter_map}
use iotop_cpp.Task.{lookup, is_none}
use iotop_cpp.Proc.{scan_tasks, scan_threads, task_of_entry, get_all_thread_id}
use iotop_cpp.Runner.History.{History, Ran, MainRan, main-MainRan}
use iotop_cpp.Runner.Outgoing.{Sends, main-Sends}
use iotop_cpp.Runner.Presence.{is_shown, follow, sightings, run_follows}
use iotop_cpp.Runner.Alternating.{flips, run_toggles}
use iotop_cpp.Netlink.Safe.{IsAnswer-IsSafe}
use iotop_cpp.Tests.Setting.{whole}
use iotop_cpp.Tests.Linux.{linux, linux-IsLinux}
use iotop_cpp.Tests.Messages.{answering, answering-IsReady, reply, reply-HoldsItems, room}
use iotop_cpp.Tests.Connections.{name-HasRoom}
use iotop_cpp.Tests.Kernel.{kernel, kernel_stats, kernel_families, kernel-IsReady}

short_lines : (t : Trace) (fp : ℕ) → IsShortLine 128 (answering.getline t fp)
unfolding until_nul
short_lines t fp = omega arith

pub answering-Answers : Answers answering linux 2000
answering-Answers = record {
  linux = linux-IsLinux;
  room = room;
  ready = answering-IsReady;
  answers = λ this id s t e.
      IsAnswer-IsSafe whole linux linux-IsLinux (some (reply, 364)) (inr (inr reply-HoldsItems));
  names = λ t uid. omega arith;
  lines = short_lines;
}

kernel_lines : (t : Trace) (fp : ℕ) → IsShortLine 128 (kernel.getline t fp)
unfolding until_nul
kernel_lines t fp = omega arith

kernel-Answers : Answers kernel linux 2000
kernel-Answers = record {
  linux = linux-IsLinux;
  room = room;
  ready = kernel-IsReady;
  answers = kernel_stats;
  names = λ t uid. omega arith;
  lines = kernel_lines;
}

sources-IsSound_example : IsSound (sources whole answering linux 2000)
sources-IsSound_example = sources-IsSound whole answering linux 2000 answering-Answers

-- Every request is answered with statistics.
stats_given :
    (netlink : NetlinkIoStats) (id : ℕ) (info : TaskIoInfo whole) (t : Trace)
    → AtEnd
        (get_task_io_info whole answering linux 2000 netlink id info t)
        (λ r _. is_neg r.0 ≡ false)
unfolding get_task_io_info send_netlink_cmd send_loop netlink_msg handle_reply read_reply read_aggr
    read_stats read_at with_stats
stats_given netlink id info t = refl

-- The process 42 is listed whenever /proc is read.
always_listed :
    (tasks : List (ℕ × List ℕ)) (u v : Trace)
    → get_all_task_id answering false u ≡ done tasks v
    → elem 42 (ids tasks) ≡ true
unfolding get_all_task_id scan_tasks scan_threads task_of_entry get_all_thread_id filter_map decimal
always_listed tasks u v e = let same : tasks ≡ (42, 42 ∷ 43 ∷ []) ∷ [] = cc in rw same refl

run_toggles_example :
    Returns (run whole answering linux 2000 3 (new_runner whole answering linux 2000) []) (λ last w.
      Ran whole answering linux 2000 answering-Answers 3
        (new_runner whole answering linux 2000)
        []
        last
        w
      × (is_none (lookup 42 (table_of last))
          ≡ flips 3 (is_none (lookup 42 (table_of (new_runner whole answering linux 2000))))))
run_toggles_example =
    run_toggles whole answering linux 2000 answering-Answers 42 stats_given always_listed 3
      (new_runner whole answering linux 2000) [] (record { distinct = tt; shown = tt })

-- There the program starts, and gives 0 after its rounds.
main-kernel : (n : ℕ) → AtEnd (main whole kernel linux 2000 n []) (λ r _. r.0 ≡ pos 0)
unfolding main Runner.init Monitor.init View.init Socket.init init_sock init_netlink_family_id
    send_netlink_cmd send_loop netlink_msg read_family_id read_at
main-kernel n =
    AtEnd-bind Any (λ r _. r.0 ≡ pos 0) (run whole kernel linux 2000 n _ _) _ (AtEnd-Any _)
      (λ last w h. refl)

main-MainRan_example :
    Returns
      (main whole kernel linux 2000 2 [])
      (MainRan whole kernel linux 2000 kernel-Answers name-HasRoom kernel_families 2 [])
main-MainRan_example =
    main-MainRan whole kernel linux 2000 kernel-Answers name-HasRoom kernel_families 2 []

run_follows_example :
    let runner = new_runner whole answering linux 2000 in
    Returns (run whole answering linux 2000 3 runner []) (λ last w.
      IsValid last
      × ((printed : List (ℕ × Text)) × (history : History whole answering linux 2000 3 runner []
            printed last w)
          × (lines w ≡ lines [] ++ printed)
          × (is_shown 42 last ≡ follow (sightings 42 history) (is_shown 42 runner))))
run_follows_example =
    run_follows whole answering linux 2000 answering-Answers 42 3
      (new_runner whole answering linux 2000) [] (record { distinct = tt; shown = tt })

main-Sends_example :
    Returns
      (main whole kernel linux 2000 2 [])
      (Sends whole kernel linux 2000 kernel-Answers name-HasRoom kernel_families 2 [])
main-Sends_example =
    main-Sends whole kernel linux 2000 kernel-Answers name-HasRoom kernel_families 2 []
