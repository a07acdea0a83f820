-- ===== src/View.antt =====
-- src/view/view.h and src/view/view.cpp. The calls of cxxcurses are calls to the environment.
pub mod Lines
pub mod Screen
pub mod Calling
pub mod Columns
use iotop_cpp.Base.{
  ℕ, ◌+◌, ◌-◌, Bool, List, [], ◌∷◌, ◌++◌, Option, none, some, leb, if◌then◌else◌, ℤ, pos,
}
use iotop_cpp.Text.{Text, text, pad_left, decimal_int, snprintf, c_string, concat}
use iotop_cpp.Float.{Float}
use iotop_cpp.Run.{
  M, stop, pure, ◌>>=◌, ◌>>◌, ask, tell, init_terminal, end_terminal, max_yx, print_at, draw, clear,
  sleep,
}
use iotop_cpp.Os.{Os}
use iotop_cpp.Prio.{convert_io_prio_to_str}
use iotop_cpp.Task.{TaskIoInfo, Table, SystemIoInfo}
use iotop_cpp.Monitor.{to_uint64}

abbrev pub max_line_length : ℕ
max_line_length = 512

-- The terminal is a local variable of `init`: it is closed again when `init` returns.
unfoldable pub init : M ℤ
init = do tell init_terminal; tell end_terminal; pure (pos 0)

-- BODY_FIRST_LINE_FORMAT
unfoldable pub header_line : Text
unfolding snprintf pad_left
header_line = snprintf max_line_length (
    concat (
      pad_left 6 (text "TID")
      ∷ text " "
      ∷ pad_left 4 (text "PRIO")
      ∷ text " "
      ∷ pad_left 15 (text "USER")
      ∷ text " "
      ∷ pad_left 15 (text "DISK READ")
      ∷ text " "
      ∷ pad_left 15 (text "DISK WRITE")
      ∷ text " "
      ∷ pad_left 15 (text "SWAPIN")
      ∷ text "   "
      ∷ pad_left 15 (text "IO")
      ∷ text "     "
      ∷ text "COMMAND"
      ∷ []))

module _ (F : Float) where
  -- HEADER_LINE_FORMAT
  unfoldable pub summary_line : F.Value → F.Value → Text
  summary_line curr_real_read curr_real_write = snprintf max_line_length (
      concat (
        text "Current DISK READ: "
        ∷ F.show 7 curr_real_read
        ∷ text " B/s | Current DISK WRITE: "
        ∷ F.show 7 curr_real_write
        ∷ text " B/s"
        ∷ []))

  -- BODY_OTHER_LINE_FORMAT
  unfoldable pub body_line : TaskIoInfo F → Text → Text → Text → Text
  body_line i prio user_name full_cmdline = snprintf max_line_length (
      concat (
        pad_left 6 (decimal_int i.task_id)
        ∷ text " "
        ∷ pad_left 4 prio
        ∷ text " "
        ∷ pad_left 15 user_name
        ∷ text " "
        ∷ F.show 15 i.io_real_read_period_b_s
        ∷ text " "
        ∷ F.show 15 i.io_real_write_period_b_s
        ∷ text " "
        ∷ F.show 15 i.swapin_delay_period_percent
        ∷ text " % "
        ∷ F.show 15 i.blkio_delay_period_percent
        ∷ text " %   "
        ∷ full_cmdline
        ∷ []))

  -- The line of a task: undefined, where its priority is negative or a name has no end.
  unfoldable pub task_line : TaskIoInfo F → Option Text
  task_line i = elim (convert_io_prio_to_str i.io_priority) [
    | none ↦ none
    | some prio ↦ elim (c_string i.user_name) [
      | none ↦ none
      | some user_name ↦ elim (c_string i.full_cmdline) [
        | none ↦ none
        | some full_cmdline ↦ some (body_line i prio user_name full_cmdline)
      ]
    ]
  ]

  -- The loop over the tasks.
  unfoldable pub print_tasks : ℕ → ℕ → Table F → M (Unit {0})
  print_tasks max_y y_line [] = pure tt
  print_tasks max_y y_line ((k, task) ∷ tasks) =
      let rest = print_tasks max_y (y_line + 1) tasks in
      let line : M (Unit {0}) = elim (task_line task) [
        | none ↦ stop
        | some s ↦ (do tell (print_at y_line 0 s); rest)
      ] in
      if leb max_y (y_line - 1) then pure tt else line

module _ (F : Float) (os : Os) where
  unfoldable pub print_header : F.Value → F.Value → M (Unit {0})
  print_header curr_real_read curr_real_write =
      tell (print_at 0 0 (summary_line F curr_real_read curr_real_write))

  unfoldable pub print_body : Table F → M (Unit {0})
  print_body tasks = do
    tell (print_at 1 0 header_line)
    (max_y, max_x) ← ask max_yx os.max_yx
    print_tasks F (to_uint64 max_y) 2 tasks

  unfoldable pub draw_data : SystemIoInfo F → M (Unit {0})
  unfolding print_header
  draw_data sys_io_info = do
    print_header sys_io_info.curr_disk_read_b_s sys_io_info.curr_disk_write_b_s
    print_body sys_io_info.task_io_stats_table
    tell draw
    tell clear
    tell (sleep 1)
