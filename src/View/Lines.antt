-- ===== src/View/Lines.antt =====
-- Which lines are printed, and where.
use iotop_cpp.Base.{
  ℕ, zero, suc, ◌+◌, ◌-◌, ◌≤◌, ◌<◌, ◌≡◌, refl, sym, ap, ◌∙◌, inl, inr, List, [], ◌∷◌, ◌++◌, some,
  arith, leb, Bool-cases, take, length, length-take,
}
use mathlib.Core.List.{append-nil, append_assoc}
use iotop_cpp.Text.{Text}
use iotop_cpp.Float.{Float}
use iotop_cpp.Run.{Trace, print_at, max_yx, Returns, Returns-mono}
use iotop_cpp.Os.{Os}
use iotop_cpp.Task.{Table}
use iotop_cpp.Monitor.{to_uint64}
use iotop_cpp.View.{header_line, task_line, print_tasks, print_body}

-- The lines printed in the course of a trace, in order, with their rows.
abbrev pub lines : Trace → List (ℕ × Text)
lines [] = []
lines (print_at y x s ∷ t) = lines t ++ (y, s) ∷ []
lines (c ∷ t) = lines t

-- Texts in the rows from y on.
abbrev pub rows_from : ℕ → List Text → List (ℕ × Text)
rows_from y [] = []
rows_from y (s ∷ rest) = (y, s) ∷ rows_from (y + 1) rest

take-nil : (n : ℕ) → take {A = Text} n [] ≡ []
take-nil zero = refl
take-nil (suc n) = refl

-- The state of the lines after printing some of them.
abbrev Printed : Trace → List (ℕ × Text) → Unit {0} → Trace → Type 0
Printed t more _ u = lines u ≡ lines t ++ more

-- The last of some rows.
rows_from-last :
    (y : ℕ) (texts : List Text)
    → 0 < length texts
    → (s : Text) × (earlier : List (ℕ × Text)) × (rows_from y texts
        ≡ earlier ++ (y + length texts - 1, s) ∷ [])
rows_from-last y [] h = absurd (omega arith)
rows_from-last y (s ∷ []) h = let e : y + 1 - 1 ≡ y = omega arith in (s, [], rw e)
rows_from-last y (s ∷ s' ∷ rest) h =
    let (last, earlier, e) = rows_from-last (y + 1) (s' ∷ rest) (omega arith) in
    let shift : y + 1 + suc (length rest) - 1 ≡ y + suc (suc (length rest)) - 1 = omega arith in
    (last, (y, s) ∷ earlier, ap (◌∷◌ (y, s)) (rw shift at e))

module _ {F : Float} where
  -- The lines of the tasks of a table.
  abbrev pub Prints : Table F → List Text → Type 0
  Prints [] [] = Unit {0}
  Prints [] (s ∷ rest) = ⊥
  Prints (entry ∷ tasks) [] = ⊥
  Prints (entry ∷ tasks) (s ∷ rest) = (task_line F entry.1 ≡ some s) × Prints tasks rest

  print_tasks-lines :
      (max_y y : ℕ) (tasks : Table F) (texts : List Text) (t : Trace)
      → 0 < y
      → Prints tasks texts
      → Returns
          (print_tasks F max_y y tasks t)
          (Printed t (rows_from y (take (max_y + 1 - y) texts)))
  unfolding print_tasks
  print_tasks-lines max_y y [] [] t p h = rw take-nil (sym (append-nil (lines t)))
  print_tasks-lines max_y y [] (s ∷ rest) t p h = absurd h
  print_tasks-lines max_y y (entry ∷ tasks) [] t p h = absurd h
  print_tasks-lines max_y y (entry ∷ tasks) (s ∷ rest) t p h =
      elim (Bool-cases (leb max_y (y - 1))) [
        | inl full ↦
            let none_left : max_y + 1 - y ≡ 0 = ground (arith, full) in
            rw (full, none_left) (sym (append-nil (lines t)))
        | inr room ↦
            let one_more : max_y + 1 - y ≡ suc (max_y + 1 - (y + 1)) = ground (arith, room) in
            rw (room, one_more, h.0, print_tasks)
              (Returns-mono
                (Printed (print_at y 0 s ∷ t) (rows_from (y + 1) (take (max_y + 1 - (y + 1)) rest)))
                (Printed t ((y, s) ∷ rows_from (y + 1) (take (max_y + 1 - (y + 1)) rest)))
                (print_tasks F max_y (y + 1) tasks (print_at y 0 s ∷ t))
                (print_tasks-lines max_y (y + 1) tasks rest (print_at y 0 s ∷ t) (omega arith) h.1)
                (λ _ u e. e ∙ append_assoc (lines t) ((y, s) ∷ []) _))
      ]

module _ {F : Float} (os : Os) (tasks : Table F) (texts : List Text) (t : Trace)
    (prints : Prints tasks texts) where
  -- The number of rows of the window, as `print_body` reads it.
  abbrev pub window_rows : ℕ
  window_rows = to_uint64 (os.max_yx (print_at 1 0 header_line ∷ t)).0

  -- For tasks whose lines are defined, `print_body` comes back, having printed its header in row 1
  -- and the lines of the tasks in order in the rows from 2 on, as many as there are up to the row
  -- whose number is the number of rows of the window.
  pub print_body-lines :
      Returns (print_body F os tasks t) (λ _ u.
        lines u ≡ lines t ++ ((1, header_line) ∷ rows_from 2 (take (window_rows - 1) texts)))
  unfolding print_body
  print_body-lines =
      let t' : Trace = max_yx ∷ print_at 1 0 header_line ∷ t in
      let rows : window_rows + 1 - 2 ≡ window_rows - 1 = omega arith in
      Returns-mono (Printed t' (rows_from 2 (take (window_rows + 1 - 2) texts)))
        (Printed t ((1, header_line) ∷ rows_from 2 (take (window_rows - 1) texts)))
        (print_tasks F window_rows 2 tasks t')
        (print_tasks-lines window_rows 2 tasks texts t' (omega arith) prints)
        (λ _ u e. rw rows at e ∙ append_assoc (lines t) ((1, header_line) ∷ []) _)

  -- For tasks whose lines are defined, where the window has at least two rows and there are at
  -- least as many tasks as rows less one, the last line of the body goes to the row whose number is
  -- the number of rows of the window, which is behind the last row, as rows are counted from 0.
  pub print_body_past_end :
      1 < window_rows
      → window_rows ≤ length texts + 1
      → Returns (print_body F os tasks t) (λ _ u.
        (s : Text) × (earlier : List (ℕ × Text)) × (lines u ≡ earlier ++ (window_rows, s) ∷ []))
  print_body_past_end two enough =
      let shown = take (window_rows - 1) texts in
      let size : length shown ≡ window_rows - 1 =
        omega (arith, length-take (window_rows - 1) texts) in
      let (s, earlier, e) = rows_from-last 2 shown (omega arith) in
      let row : 2 + length shown - 1 ≡ window_rows = omega arith in
      Returns-mono (Printed t ((1, header_line) ∷ rows_from 2 shown)) _ _ print_body-lines (λ _ u p.
        (
          s,
          lines t ++ (1, header_line) ∷ earlier,
          p
              ∙ ap (λ rest. lines t ++ (1, header_line) ∷ rest) (rw row at e)
              ∙ sym (append_assoc (lines t) ((1, header_line) ∷ earlier) _),
        ))
