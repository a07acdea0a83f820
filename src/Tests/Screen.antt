-- ===== src/Tests/Screen.antt =====
-- The screen with three tasks in a window of three rows.
use iotop_cpp.Base.{ℕ, ◌≡◌, refl, true, List, [], ◌∷◌, ◌++◌, arith, ℤ, pos, take, drop}
use iotop_cpp.Text.{Text, text, c_string, snprintf, pad_left, decimal, decimal_int}
use iotop_cpp.Prio.{convert_io_prio_to_str}
use iotop_cpp.Run.{Returns}
use iotop_cpp.Task.{TaskIoInfo, new_task, Table, char_array}
use iotop_cpp.View.{task_line, print_body, body_line, header_line}
use iotop_cpp.View.Columns.{Fits, body_line-columns}
use iotop_cpp.View.Lines.{lines, Prints, print_body_past_end}
use iotop_cpp.Tests.Setting.{whole, machine}

abbrev task : ℤ → TaskIoInfo whole
task id = let new = new_task whole id true in record new { io_priority = pos 0 }

abbrev tasks : Table whole
tasks = (1, task (pos 1)) ∷ (2, task (pos 2)) ∷ (3, task (pos 3)) ∷ []

abbrev line : ℤ → Text
line id = body_line whole (task id) (b' ' ∷ b'-' ∷ b'/' ∷ b'0' ∷ []) [] []

tasks-Prints : Prints tasks (line (pos 1) ∷ line (pos 2) ∷ line (pos 3) ∷ [])
unfolding task_line convert_io_prio_to_str c_string char_array snprintf pad_left decimal
tasks-Prints = (refl, (refl, (refl, tt)))

print_body_past_end_example :
    Returns
      (print_body whole machine tasks [])
      (λ _ u. (s : Text) × (earlier : List (ℕ × Text)) × (lines u ≡ earlier ++ (3, s) ∷ []))
print_body_past_end_example =
    print_body_past_end machine tasks (line (pos 1) ∷ line (pos 2) ∷ line (pos 3) ∷ []) []
      tasks-Prints (omega arith) (omega arith)

narrow-Fits : Fits whole (task (pos 1)) (text "be/4") (text "root")
unfolding decimal decimal_int pad_left
narrow-Fits = record {
  id = omega arith;
  class = omega arith;
  user = omega arith;
  read = refl;
  write = refl;
  swapin = refl;
  blkio = refl;
}

body_line-columns_example :
    (drop 98 header_line ≡ text "COMMAND")
    × (drop 98 (body_line whole (task (pos 1)) (text "be/4") (text "root") (text "top -b"))
        ≡ take 413 (text "top -b"))
body_line-columns_example =
    body_line-columns whole (task (pos 1)) (text "be/4") (text "root") (text "top -b") narrow-Fits
