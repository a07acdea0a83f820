-- ===== src/Tests/Collections.antt =====
-- Collections on a machine with one process of two threads.
use iotop_cpp.Base.{
  elem, is_neg, ℕ, ◌+◌, ◌*◌, ◌^◌, ◌≡◌, refl, true, false, List, [], ◌∷◌, arith, pos, replicate,
}
use iotop_cpp.Text.{Text, text}
use iotop_cpp.Run.{Trace, done, fault, pure, and_then, Returns}
use iotop_cpp.Run.Ends.{AtEnd}
use iotop_cpp.Task.{Table, TaskIoInfo, new_task, lookup}
use iotop_cpp.Monitor.{Sources, IoMonitor, fill_names, get_task_io_info, collect_timed}
use iotop_cpp.Monitor.Names.{IsSound, fill_names_overflows}
use iotop_cpp.Monitor.Totals.{HasTotals, collect_timed-IsTotals}
use iotop_cpp.Monitor.Collect.{table_of, IsCollected, collect_timed-IsCollected}
use iotop_cpp.Monitor.Reference.{observe, gathered, get_task_io_info-observe}
use iotop_cpp.Monitor.Abstract.{view, collect, collect_timed-view}
use iotop_cpp.Monitor.Loops.{ids}
use iotop_cpp.Monitor.Order.{with_table, viewed, collect_timed_any_order}
use iotop_cpp.Tests.Setting.{whole}

-- Every task has read 3000 bytes and written 5000.
abbrev read_task : TaskIoInfo whole → TaskIoInfo whole
read_task info = record info { io_real_read_b = 3000; io_real_write_b = 5000 }

abbrev sources_with : Text → Sources whole
sources_with command = record {
  Netlink = Unit {0};
  init = λ netlink. pure (pos 0, netlink);
  get_task_io_info = λ netlink id info. pure (pos 0, read_task info);
  get_all_task_id = pure ((42, 42 ∷ 43 ∷ []) ∷ []);
  get_task_io_priority = λ id. pure (pos (2 * 2 ^ 13 + 4));
  get_user_name = λ uid. pure (text "root");
  get_task_cmdline = λ id is_short cmdline. pure (pos 0, command);
  get_steady_now_time_ns = pure (3 * 10 ^ 9);
}

abbrev sources : Sources whole
sources = sources_with (text "/bin/sh")

sources-IsSound : IsSound sources
sources-IsSound = record {
  time = λ t. tt;
  tasks = λ t. tt;
  priority = λ id t. tt;
  stats = λ netlink id info t. record {
    task_id = refl;
    io_priority = refl;
    user_name = refl;
    short_cmdline = refl;
    full_cmdline = refl;
    is_updated = refl;
  };
  name = λ uid t. omega arith;
  cmdline = λ id is_short t. omega arith;
}

-- A monitor that has the task 42 in its table since the first second.
abbrev monitor : IoMonitor whole sources
monitor = record {
  netlink_io_obj = tt;
  origin_collect_timestamp_ns = 10 ^ 9;
  io_stats = record {
    curr_disk_read_b_s = 0;
    curr_disk_write_b_s = 0;
    task_io_stats_table = (42, new_task whole (pos 42) true) ∷ [];
  };
}

fill_names_overflows_example :
    fill_names whole (sources_with (replicate 200 b'x')) (new_task whole (pos 42) true) [] ≡ fault
fill_names_overflows_example =
    fill_names_overflows whole (sources_with (replicate 200 b'x')) (new_task whole (pos 42) true) []
      [] [] (text "root") (replicate 200 b'x') refl refl refl (omega arith) refl (omega arith)

collect_timed-IsCollected_example :
    Returns
      (collect_timed whole sources monitor [])
      (λ r w. (r.0 ≡ pos 0) × IsCollected monitor r.1 [] w)
unfolding lookup
collect_timed-IsCollected_example = collect_timed-IsCollected sources-IsSound monitor (refl, tt) []

get_task_io_info-observe_example :
    get_task_io_info whole sources tt
      (10 ^ 9)
      (3 * 10 ^ 9)
      ((42, 42 ∷ 43 ∷ []) ∷ [])
      monitor.io_stats
      []
    ≡ and_then
        (observe whole sources tt (10 ^ 9) (3 * 10 ^ 9) ((42, 42 ∷ 43 ∷ []) ∷ []) [])
        (λ found. pure (gathered whole sources tt (10 ^ 9) (3 * 10 ^ 9) monitor.io_stats found))
get_task_io_info-observe_example =
    get_task_io_info-observe whole sources tt (10 ^ 9) (3 * 10 ^ 9) ((42, 42 ∷ 43 ∷ []) ∷ [])
      monitor.io_stats []

collect_timed-view_example :
    and_then (collect_timed whole sources monitor []) (λ r. pure (r.0, view r.1))
    ≡ collect (view monitor) []
unfolding lookup
collect_timed-view_example = collect_timed-view monitor [] (refl, tt)

stats_given :
    (netlink : Unit {0}) (id : ℕ) (info : TaskIoInfo whole) (t : Trace)
    → AtEnd (sources.get_task_io_info netlink id info t) (λ r _. is_neg r.0 ≡ false)
stats_given netlink id info t = refl

always_listed :
    (tasks : List (ℕ × List ℕ)) (u v : Trace)
    → sources.get_all_task_id u ≡ done tasks v
    → elem 42 (ids tasks) ≡ true
always_listed tasks u v e = let same : tasks ≡ (42, 42 ∷ 43 ∷ []) ∷ [] = cc in rw same refl

-- A monitor with two tasks, and its table in the other order.
abbrev two_tasks : IoMonitor whole sources
two_tasks =
    with_table monitor
      ((42, new_task whole (pos 42) true) ∷ (50, new_task whole (pos 50) true) ∷ [])

abbrev swapped : Table whole
swapped = (50, new_task whole (pos 50) true) ∷ (42, new_task whole (pos 42) true) ∷ []

same_tasks : (k : ℕ) → lookup k (table_of two_tasks) ≡ lookup k swapped
unfolding lookup
same_tasks k = ground arith

collect_timed_any_order_example :
    viewed (collect_timed whole sources two_tasks [])
    ≡ viewed (collect_timed whole sources (with_table two_tasks swapped) [])
unfolding lookup
collect_timed_any_order_example =
    collect_timed_any_order two_tasks swapped [] (refl, (refl, tt)) (refl, (refl, tt)) same_tasks

collect_timed-IsTotals_example : Returns (collect_timed whole sources monitor []) (λ r _.
    (r.0 ≡ pos 0)
    × HasTotals monitor.origin_collect_timestamp_ns r.1.origin_collect_timestamp_ns (table_of r.1))
unfolding lookup
collect_timed-IsTotals_example = collect_timed-IsTotals sources-IsSound monitor [] (refl, tt)
