-- ===== src/Proc/Delayacct.antt =====
-- The switch for the accounting of delays.
use iotop_cpp.Base.{
  ℕ, ◌^◌, ◌<◌, ◌≡◌, refl, ap, ◌∙◌, true, [], ◌∷◌, ◌++◌, some, arith, ltb, lt→ltb, length, pos,
}
use iotop_cpp.Text.{Text, text, decimal, is_digit, until_nul, atoi, digits_value}
use iotop_cpp.Text.Decimal.{IsNumeral, decimal-IsNumeral, decimal-cons, digits_value-decimal}
use iotop_cpp.Run.{Trace, done, fopen, getline, fclose}
use iotop_cpp.Os.{Os}
use iotop_cpp.Proc.{get_file_first_line, read_task_delayacct}

until_nul-IsNumeral :
    (s rest : Text) → IsNumeral s → until_nul (s ++ b'\n' ∷ 0 ∷ rest) ≡ s ++ b'\n' ∷ []
unfolding until_nul
until_nul-IsNumeral [] rest h = refl
until_nul-IsNumeral (c ∷ s) rest h = ground (arith, h.0, until_nul-IsNumeral s rest h.1)

-- A number that begins with a digit is read as digits.
atoi_digits : (c : ℕ) (s : Text) → is_digit c ≡ true → atoi (c ∷ s) ≡ pos (digits_value 0 (c ∷ s)).0
unfolding atoi
atoi_digits c s h = ground (arith, h)

atoi_line :
    (t : Text)
    → (c : ℕ) × (s : Text) × (t ≡ c ∷ s) × (is_digit c ≡ true)
    → atoi (t ++ b'\n' ∷ []) ≡ pos (digits_value 0 (t ++ b'\n' ∷ [])).0
atoi_line t (c, s, e, d) = rw e (atoi_digits c (s ++ b'\n' ∷ []) d)

atoi-decimal : (n : ℕ) → atoi (decimal n ++ b'\n' ∷ []) ≡ pos n
unfolding digits_value
atoi-decimal n =
    atoi_line (decimal n) (decimal-cons n)
    ∙ ap (λ (r : ℕ × Text). pos r.0) (digits_value-decimal n (b'\n' ∷ []))

nonempty : (s : Text) (c : ℕ) → ltb 0 (length (s ++ c ∷ [])) ≡ true
nonempty [] c = refl
nonempty (x ∷ s) c = ground arith

-- Where the file of the switch can be opened and its line is a number below 2 ^ 31 in decimal,
-- `read_task_delayacct` gives that number, having opened the file, read a line and closed the file
-- again.
pub read_task_delayacct-decimal :
    (os : Os) (t : Trace) (fp n len : ℕ) (rest : Text)
    → os.fopen t (text "/proc/sys/kernel/task_delayacct") ≡ some fp
    → os.getline (fopen (text "/proc/sys/kernel/task_delayacct") ∷ t) fp
      ≡ some (decimal n ++ b'\n' ∷ 0 ∷ rest, len)
    → 0 < len
    → n < 2 ^ 31
    → read_task_delayacct os t
      ≡ done (pos n) (fclose fp ∷ getline fp ∷ fopen (text "/proc/sys/kernel/task_delayacct") ∷ t)
unfolding read_task_delayacct get_file_first_line
read_task_delayacct-decimal os t fp n len rest opened got some_bytes fits =
    rw (opened, get_file_first_line)
      (rw (got, get_file_first_line)
        (rw (lt→ltb 0 len some_bytes, until_nul-IsNumeral (decimal n) rest (decimal-IsNumeral n))
          (rw (nonempty (decimal n) b'\n', atoi-decimal n) refl)))
