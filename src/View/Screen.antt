-- ===== src/View/Screen.antt =====
-- The whole screen, and the tasks that can be printed.
use iotop_cpp.Base.{
  ℕ, ◌-◌, ◌≡◌, refl, ◌∙◌, false, inl, inr, [], ◌∷◌, ◌++◌, List, some, take, ℤ, pos, negsuc, is_neg,
  All, Bool-cases, leb,
}
use mathlib.Core.List.{append_assoc}
use iotop_cpp.Text.{Text, c_string}
use iotop_cpp.Float.{Float}
use iotop_cpp.Run.{Trace, print_at, Returns, Returns-done}
use iotop_cpp.Os.{Os}
use iotop_cpp.Prio.{convert_io_prio_to_str, convert_class, ioprio_class_max}
use iotop_cpp.Task.{TaskIoInfo, Table, SystemIoInfo}
use iotop_cpp.Monitor.{to_uint64}
use iotop_cpp.View.{header_line, summary_line, task_line, body_line, print_body, draw_data}
use iotop_cpp.View.Lines.{lines, rows_from, Prints, print_body-lines}

convert_class-some : (c d : ℕ) → (s : Text) × (convert_class (pos c) d ≡ some s)
unfolding convert_class
convert_class-some c d = elim (Bool-cases (leb ioprio_class_max c)) [
  | inl unknown ↦ rw unknown (_, refl)
  | inr known ↦ rw known (_, refl)
]

convert_io_prio_to_str-some :
    (io_prio : ℤ) → is_neg io_prio ≡ false → (s : Text) × (convert_io_prio_to_str io_prio ≡ some s)
unfolding convert_io_prio_to_str
convert_io_prio_to_str-some (pos n) h = convert_class-some _ _
convert_io_prio_to_str-some (negsuc n) h = cc

-- What the line of a task needs: a priority that is not negative, and names that end.
abbrev pub IsPrintable : {F : Float} → TaskIoInfo F → Type 0
IsPrintable i =
    (is_neg i.io_priority ≡ false)
    × ((s : Text) × (c_string i.user_name ≡ some s))
    × ((s : Text) × (c_string i.full_cmdline ≡ some s))

-- The lines of a screen, with their rows: the sums, the header of the body, and the lines of the tasks
-- as far as the window reaches.
abbrev pub screen : (F : Float) → Os → SystemIoInfo F → List Text → Trace → List (ℕ × Text)
screen F os stats texts t =
    let summary = summary_line F stats.curr_disk_read_b_s stats.curr_disk_write_b_s in
    let rows = to_uint64 (os.max_yx (print_at 1 0 header_line ∷ print_at 0 0 summary ∷ t)).0 in
    (0, summary) ∷ (1, header_line) ∷ rows_from 2 (take (rows - 1) texts)

module _ {F : Float} where
  task_line-some : (i : TaskIoInfo F) → IsPrintable i → (s : Text) × (task_line F i ≡ some s)
  unfolding task_line
  task_line-some i (nonneg, (user_name, e), (full_cmdline, d)) =
      let (prio, c) = convert_io_prio_to_str-some i.io_priority nonneg in
      (body_line F i prio user_name full_cmdline, rw (c, e, d, task_line))

  -- Tasks with printable lines have lines.
  pub Prints-some :
      (tasks : Table F)
      → All (λ entry. IsPrintable entry.1) tasks
      → (texts : List Text) × Prints tasks texts
  Prints-some [] h = ([], tt)
  Prints-some (entry ∷ tasks) h =
      let (s, e) = task_line-some entry.1 h.0 in
      let (texts, p) = Prints-some tasks h.1 in (s ∷ texts, (e, p))

  -- For tasks whose lines are defined, `draw_data` comes back, having printed the sums in row 0,
  -- the header of the body in row 1, and the lines of the tasks in order in the rows from 2 on, as
  -- far as the window reaches.
  pub draw_data-lines :
      (os : Os) (stats : SystemIoInfo F) (texts : List Text) (t : Trace)
      → Prints stats.task_io_stats_table texts
      → Returns (draw_data F os stats t) (λ _ u. lines u ≡ lines t ++ screen F os stats texts t)
  unfolding draw_data
  draw_data-lines os stats texts t prints =
      let summary = summary_line F stats.curr_disk_read_b_s stats.curr_disk_write_b_s in
      let (_, u, e, p) =
        Returns-done _ (print_body F os stats.task_io_stats_table (print_at 0 0 summary ∷ t))
          (print_body-lines os stats.task_io_stats_table texts (print_at 0 0 summary ∷ t) prints) in
      rw (e, draw_data) (p ∙ append_assoc (lines t) ((0, summary) ∷ []) _)
