-- ===== src/Task.antt =====
-- src/common/common.h: a task with its statistics, and the table of the tasks.
pub mod Table
use iotop_cpp.Base.{
  ℕ, suc, ◌+◌, ◌-◌, ◌^◌, Bool, true, false, List, [], ◌∷◌, Option, none, some, ◌==◌, if◌then◌else◌,
  ℤ, pos, negsuc, neg, replicate,
}
use iotop_cpp.Text.{Text}
use iotop_cpp.Float.{Float}

abbrev pub max_command_length : ℕ
max_command_length = 128

abbrev pub max_user_name_length : ℕ
max_user_name_length = 128

-- `char name[n+1]{0}`
unfoldable pub char_array : ℕ → Text
char_array n = replicate (suc n) 0

-- The char arrays are lists of their bytes.
pub record TaskIoInfo (F : Float) : Type 0 where
  pub task_id : ℤ
  pub is_pid : Bool
  pub io_priority : ℤ
  pub user_id : ℤ
  pub user_name : Text
  pub short_cmdline : Text
  pub full_cmdline : Text
  pub io_read_char_b : ℕ
  pub io_write_char_b : ℕ
  pub io_real_read_b : ℕ
  pub io_real_write_b : ℕ
  pub swapin_delay_total_ns : ℕ
  pub blkio_delay_total_ns : ℕ
  pub io_read_char_period_b_s : F.Value
  pub io_write_char_period_b_s : F.Value
  pub io_real_read_period_b_s : F.Value
  pub io_real_write_period_b_s : F.Value
  pub swapin_delay_period_percent : F.Value
  pub blkio_delay_period_percent : F.Value
  pub is_updated : Bool

-- The member initialisers, with the two fields that `get_task_io_info` sets.
abbrev pub new_task : (F : Float) → ℤ → Bool → TaskIoInfo F
new_task F task_id is_pid = record {
  task_id = task_id;
  is_pid = is_pid;
  io_priority = neg 1;
  user_id = pos 0;
  user_name = char_array max_user_name_length;
  short_cmdline = char_array max_command_length;
  full_cmdline = char_array max_command_length;
  io_read_char_b = 0;
  io_write_char_b = 0;
  io_real_read_b = 0;
  io_real_write_b = 0;
  swapin_delay_total_ns = 0;
  blkio_delay_total_ns = 0;
  io_read_char_period_b_s = F.of_ℕ 0;
  io_write_char_period_b_s = F.of_ℕ 0;
  io_real_read_period_b_s = F.of_ℕ 0;
  io_real_write_period_b_s = F.of_ℕ 0;
  swapin_delay_period_percent = F.of_ℕ 0;
  blkio_delay_period_percent = F.of_ℕ 0;
  is_updated = false;
}

-- `std::unordered_map` from a task's number to the task. Its order of iteration is some order.
abbrev pub Table : Float → Type 0
Table F = List (ℕ × TaskIoInfo F)

pub record SystemIoInfo (F : Float) : Type 0 where
  pub curr_disk_read_b_s : F.Value
  pub curr_disk_write_b_s : F.Value
  pub task_io_stats_table : Table F

module _ {A : Type 0} where
  unfoldable pub lookup : ℕ → List (ℕ × A) → Option A
  lookup k [] = none
  lookup k ((j, a) ∷ m) = if j == k then some a else lookup k m

  abbrev pub is_none : Option A → Bool
  is_none none = true
  is_none (some a) = false

  -- `emplace` leaves a key that is there as it is.
  unfoldable pub emplace : ℕ → A → List (ℕ × A) → List (ℕ × A)
  unfolding lookup
  emplace k a m = if is_none (lookup k m) then (k, a) ∷ m else m
