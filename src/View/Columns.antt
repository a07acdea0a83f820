-- ===== src/View/Columns.antt =====
-- The columns of the screen.
use mathlib.Core.List.{append-nil}
use iotop_cpp.Base.{
  ℕ, zero, suc, ◌+◌, ◌-◌, ◌≤◌, ◌≡◌, refl, sym, ap, ◌∙◌, List, [], ◌∷◌, ◌++◌, arith, length,
  length-append, length-replicate, take, drop, replicate,
}
use iotop_cpp.Text.{Text, concat, text, pad_left, snprintf, decimal_int}
use iotop_cpp.Float.{Float}
use iotop_cpp.Task.{TaskIoInfo}
use iotop_cpp.View.{header_line, body_line, max_line_length}

-- The width of the first cells of a line.
abbrev width : ℕ → List Text → ℕ
width zero cells = 0
width (suc n) [] = 0
width (suc n) (cell ∷ cells) = length cell + width n cells

drop-append : (n : ℕ) (xs ys : Text) → drop (length xs + n) (xs ++ ys) ≡ drop n ys
drop-append n [] ys = let e : 0 + n ≡ n = omega arith in rw e refl
drop-append n (x ∷ xs) ys =
    let e : suc (length xs) + n ≡ suc (length xs + n) = omega arith in rw e (drop-append n xs ys)

-- Behind the first cells come the others.
drop-concat :
    (n : ℕ) (cells : List Text) → drop (width n cells) (concat cells) ≡ concat (drop n cells)
drop-concat zero cells = refl
drop-concat (suc n) [] = refl
drop-concat (suc n) (cell ∷ cells) =
    drop-append (width n cells) cell (concat cells) ∙ drop-concat n cells

take-nil : (n : ℕ) → take {A = ℕ} n [] ≡ []
take-nil zero = refl
take-nil (suc n) = refl

drop-take : (m n : ℕ) (s : Text) → drop m (take n s) ≡ take (n - m) (drop m s)
drop-take zero n s = let e : n - 0 ≡ n = omega arith in rw e refl
drop-take (suc m) zero s = let e : 0 - suc m ≡ 0 = omega arith in rw e refl
drop-take (suc m) (suc n) [] = sym (take-nil (suc n - suc m))
drop-take (suc m) (suc n) (c ∷ s) =
    let e : suc n - suc m ≡ n - m = omega arith in rw e (drop-take m n s)

length-pad_left : (w : ℕ) (s : Text) → length s ≤ w → length (pad_left w s) ≡ w
unfolding pad_left
length-pad_left w s h = omega (
  arith,
  length-append (replicate (w - length s) b' ') s,
  length-replicate {A = ℕ} (w - length s) b' ',
)

-- What stands behind the first cells of a line, where they take w places.
behind :
    (n w : ℕ) (cells : List Text)
    → width n cells ≡ w
    → drop w (snprintf max_line_length (concat cells))
      ≡ take (max_line_length - 1 - w) (concat (drop n cells))
unfolding snprintf
behind n w cells e =
    drop-take w (max_line_length - 1) (concat cells)
    ∙ ap (take (max_line_length - 1 - w)) (rw e at (drop-concat n cells))

-- A task whose cells fit their columns.
pub record Fits (F : Float) (i : TaskIoInfo F) (prio user_name : Text) : Type 0 where
  pub id : length (decimal_int i.task_id) ≤ 6
  pub class : length prio ≤ 4
  pub user : length user_name ≤ 15
  pub read : length (F.show 15 i.io_real_read_period_b_s) ≡ 15
  pub write : length (F.show 15 i.io_real_write_period_b_s) ≡ 15
  pub swapin : length (F.show 15 i.swapin_delay_period_percent) ≡ 15
  pub blkio : length (F.show 15 i.blkio_delay_period_percent) ≡ 15

command_heading : drop 98 header_line ≡ text "COMMAND"
unfolding header_line snprintf pad_left
command_heading = refl

module _ (F : Float) (i : TaskIoInfo F) (prio user_name full_cmdline : Text) where
  abbrev cells : List Text
  cells =
      pad_left 6 (decimal_int i.task_id)
      ∷ text " "
      ∷ pad_left 4 prio
      ∷ text " "
      ∷ pad_left 15 user_name
      ∷ text " "
      ∷ F.show 15 i.io_real_read_period_b_s
      ∷ text " "
      ∷ F.show 15 i.io_real_write_period_b_s
      ∷ text " "
      ∷ F.show 15 i.swapin_delay_period_percent
      ∷ text " % "
      ∷ F.show 15 i.blkio_delay_period_percent
      ∷ text " %   "
      ∷ full_cmdline
      ∷ []

  -- Where the number of a task has at most 6 characters, its priority at most 4, the name of its
  -- user at most 15, and its four figures are printed in 15 characters each, the command line of
  -- the task begins in the column of the heading COMMAND, behind 98 characters, and up to 413 bytes
  -- of it are in the line.
  pub body_line-columns :
      Fits F i prio user_name
      → (drop 98 header_line ≡ text "COMMAND")
        × (drop 98 (body_line F i prio user_name full_cmdline) ≡ take 413 full_cmdline)
  unfolding body_line
  body_line-columns fits = (
    command_heading,
    behind 14 98 cells (
          omega (
            arith,
            length-pad_left 6 (decimal_int i.task_id) fits.id,
            length-pad_left 4 prio fits.class,
            length-pad_left 15 user_name fits.user,
            fits.read,
            fits.write,
            fits.swapin,
            fits.blkio,
          ))
        ∙ ap (take 413) (append-nil full_cmdline),
  )
