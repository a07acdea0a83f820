-- ===== src/Monitor/Order.antt =====
-- std::unordered_map keeps its entries in some order: which one makes no difference.
use mathlib.Core.Path.{fun_ext}
use iotop_cpp.Base.{ℕ, ◌≡◌, sym, ap, ◌∙◌, ℤ}
use iotop_cpp.Float.{Float}
use iotop_cpp.Run.{Run, Trace, pure, and_then}
use iotop_cpp.Task.{Table, lookup}
use iotop_cpp.Task.Table.{NodupKeys}
use iotop_cpp.Monitor.{Sources, IoMonitor, collect_timed}
use iotop_cpp.Monitor.Collect.{table_of}
use iotop_cpp.Monitor.Abstract.{MonitorView, view, collect, collect_timed-view}

module _ {F : Float} {S : Sources F} where
  -- The monitor with another table.
  abbrev pub with_table : IoMonitor F S → Table F → IoMonitor F S
  with_table m table = record m { io_stats = record m.io_stats { task_io_stats_table = table } }

  -- A run with its result seen on maps.
  abbrev pub viewed : Run (ℤ × IoMonitor F S) → Run (ℤ × MonitorView F S)
  viewed run = and_then run (λ r. pure (r.0, view r.1))

  -- From any sources, where each task stands in the table at most once, and another table has the
  -- same tasks in whatever order, each at most once, a collection from the one table and one from
  -- the other have the same end and the same calls, and leave the same sums and the same tasks.
  pub collect_timed_any_order :
      (m : IoMonitor F S) (table : Table F) (t : Trace)
      → NodupKeys (table_of m)
      → NodupKeys table
      → ((k : ℕ) → lookup k (table_of m) ≡ lookup k table)
      → viewed (collect_timed F S m t) ≡ viewed (collect_timed F S (with_table m table) t)
  collect_timed_any_order m table t distinct distinct' same =
      collect_timed-view m t distinct
      ∙ ap (λ tasks. collect (record (view m) { tasks = tasks }) t) (fun_ext same)
      ∙ sym (collect_timed-view (with_table m table) t distinct')
