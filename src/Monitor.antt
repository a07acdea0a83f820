-- ===== src/Monitor.antt =====
-- src/collect/io_monitor.h and src/collect/io_monitor.cpp: the collection of all tasks. What it calls
-- of `Util` and `NetlinkIoStats` is an interface.
pub mod Names
pub mod Rates
pub mod Handle
pub mod Overdue
pub mod Loops
pub mod Collect
pub mod Calling
pub mod Asking
pub mod Reference
pub mod Abstract
pub mod Observed
pub mod Totals
pub mod Order
pub mod Finding
pub mod Toggling
use iotop_cpp.Base.{
  ℕ, ◌+◌, ◌-◌, ◌%◌, ◌^◌, Bool, true, false, List, [], ◌∷◌, none, some, ltb, if◌then◌else◌, ℤ, pos,
  negsuc, neg, is_neg, to_int32, length,
}
use iotop_cpp.Text.{Text, strncpy}
use iotop_cpp.Float.{Float}
use iotop_cpp.Run.{M, pure, stop, ◌>>=◌}
use iotop_cpp.Task.{TaskIoInfo, new_task, Table, SystemIoInfo, emplace}

pub record Sources (F : Float) : Type 1 where
  pub Netlink : Type 0
  pub init : Netlink → M (ℤ × Netlink)
  pub get_task_io_info : Netlink → ℕ → TaskIoInfo F → M (ℤ × TaskIoInfo F)
  pub get_all_task_id : M (List (ℕ × List ℕ))
  pub get_task_io_priority : ℤ → M ℤ
  pub get_user_name : ℤ → M Text
  pub get_task_cmdline : ℤ → Bool → Text → M (ℤ × Text)
  pub get_steady_now_time_ns : M ℕ

-- The conversion of a pid_t to uint64_t.
abbrev pub to_uint64 : ℤ → ℕ
to_uint64 (pos n) = n
to_uint64 (negsuc n) = 2 ^ 64 - 1 - n

-- Unsigned 64-bit subtraction.
abbrev pub sub64 : ℕ → ℕ → ℕ
sub64 a b = (a + 2 ^ 64 - b) % 2 ^ 64

abbrev pub ull_value_diff : ℕ → ℕ → ℕ
ull_value_diff to from = if ltb to from then 0 else to - from

-- `strncpy` of a whole string into an array.
abbrev pub copy : Text → Text → M Text
copy array s t = elim (strncpy array s (length s)) [ none ↦ stop t | some a ↦ pure a t ]

-- ... and only if the string was found.
abbrev pub copy_found : ℤ → Text → Text → M Text
copy_found code array s = if is_neg code then pure array else copy array s

module _ (F : Float) where
  -- The rates, from the counters before and after the call of netlink.
  unfoldable pub with_rates : ℕ → ℕ → TaskIoInfo F → TaskIoInfo F → TaskIoInfo F
  with_rates origin_ns collect_tm_ns origin info =
      if F.lt F.milli tm_diff_s
      then record info {
        io_read_char_period_b_s = per_second info.io_read_char_b origin.io_read_char_b;
        io_write_char_period_b_s = per_second info.io_write_char_b origin.io_write_char_b;
        io_real_read_period_b_s = per_second info.io_real_read_b origin.io_real_read_b;
        io_real_write_period_b_s = per_second info.io_real_write_b origin.io_real_write_b;
        swapin_delay_period_percent =
            percent info.swapin_delay_total_ns origin.swapin_delay_total_ns;
        blkio_delay_period_percent = percent info.blkio_delay_total_ns origin.blkio_delay_total_ns;
      }
      else info
    where
      tm_diff_ns : F.Value
      tm_diff_ns = F.of_ℕ (sub64 collect_tm_ns origin_ns)

      tm_diff_s : F.Value
      tm_diff_s = F.div tm_diff_ns (F.of_ℕ (10 ^ 9))

      per_second : ℕ → ℕ → F.Value
      per_second to from = F.div (F.of_ℕ (ull_value_diff to from)) tm_diff_s

      percent : ℕ → ℕ → F.Value
      percent to from = F.mul (F.div (F.of_ℕ (ull_value_diff to from)) tm_diff_ns) (F.of_ℕ (10 ^ 2))

module _ {F : Float} where
  unfoldable pub set_task_state_overdue : Table F → Table F
  set_task_state_overdue [] = []
  set_task_state_overdue ((k, info) ∷ table) =
      (k, record info { is_updated = false }) ∷ set_task_state_overdue table

  unfoldable pub remove_overdue_task : Table F → Table F
  remove_overdue_task [] = []
  remove_overdue_task ((k, info) ∷ table) =
      let rest = remove_overdue_task table in if info.is_updated then (k, info) ∷ rest else rest

pub record IoMonitor (F : Float) (S : Sources F) : Type 0 where
  pub netlink_io_obj : S.Netlink
  pub origin_collect_timestamp_ns : ℕ
  pub io_stats : SystemIoInfo F

module _ (F : Float) (S : Sources F) where
  -- The names of a task, once its statistics are there.
  unfoldable pub fill_names : TaskIoInfo F → M (TaskIoInfo F)
  fill_names info = do
    name ← S.get_user_name info.user_id
    user_name ← copy info.user_name name
    (short_code, short) ← S.get_task_cmdline info.task_id true []
    short_cmdline ← copy_found short_code info.short_cmdline short
    (full_code, full) ← S.get_task_cmdline info.task_id false []
    full_cmdline ← copy_found full_code info.full_cmdline full
    pure (record info {
      user_name = user_name;
      short_cmdline = short_cmdline;
      full_cmdline = full_cmdline;
      is_updated = true;
    })

  unfoldable pub handle_every_task_io_info : S.Netlink → ℕ → TaskIoInfo F → ℕ → M (TaskIoInfo F)
  handle_every_task_io_info netlink origin_ns info collect_tm_ns = do
    prio ← S.get_task_io_priority info.task_id
    let origin = record info { io_priority = if is_neg prio then pos 0 else prio }
    (res, info') ← S.get_task_io_info netlink (to_uint64 info.task_id) origin
    if is_neg res
        then pure info'
        else fill_names (with_rates F origin_ns collect_tm_ns origin info')

  -- The threads of a process.
  unfoldable pub collect_threads : S.Netlink → ℕ → ℕ → List ℕ → Table F → M (Table F)
  collect_threads netlink origin_ns tm [] table = pure table
  collect_threads netlink origin_ns tm (tid ∷ tids) table = do
    info ← handle_every_task_io_info netlink origin_ns (new_task F (to_int32 tid) false) tm
    collect_threads netlink origin_ns tm tids (emplace tid info table)

  -- The loop over the processes.
  unfoldable pub get_task_io_info :
      S.Netlink → ℕ → ℕ → List (ℕ × List ℕ) → SystemIoInfo F → M (SystemIoInfo F)
  get_task_io_info netlink origin_ns tm [] stats = pure stats
  get_task_io_info netlink origin_ns tm ((pid, tids) ∷ tasks) stats = do
    info ← handle_every_task_io_info netlink origin_ns (new_task F (to_int32 pid) true) tm
    table ← collect_threads netlink origin_ns tm tids (emplace pid info stats.task_io_stats_table)
    get_task_io_info netlink origin_ns tm tasks (record {
      curr_disk_read_b_s = F.add stats.curr_disk_read_b_s info.io_real_read_period_b_s;
      curr_disk_write_b_s = F.add stats.curr_disk_write_b_s info.io_real_write_period_b_s;
      task_io_stats_table = table;
    })

  unfoldable pub collect_timed : IoMonitor F S → M (ℤ × IoMonitor F S)
  collect_timed m = do
    let overdue : SystemIoInfo F = record {
      curr_disk_read_b_s = F.of_ℕ 0;
      curr_disk_write_b_s = F.of_ℕ 0;
      task_io_stats_table = set_task_state_overdue m.io_stats.task_io_stats_table;
    }
    collect_tm_ns ← S.get_steady_now_time_ns
    task_ids ← S.get_all_task_id
    stats ←
        get_task_io_info m.netlink_io_obj m.origin_collect_timestamp_ns collect_tm_ns task_ids
          overdue
    let table = remove_overdue_task stats.task_io_stats_table
    pure (
      pos 0,
      record m {
        origin_collect_timestamp_ns = collect_tm_ns;
        io_stats = record stats { task_io_stats_table = table };
      },
    )

  unfoldable pub init : IoMonitor F S → M (ℤ × IoMonitor F S)
  init m = do
    (res, netlink) ← S.init m.netlink_io_obj
    pure (if is_neg res then neg 1 else pos 0, record m { netlink_io_obj = netlink })
