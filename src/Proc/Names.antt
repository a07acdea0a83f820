-- ===== src/Proc/Names.antt =====
-- Which directory names are taken for tasks.
use iotop_cpp.Base.{
  ℕ, ◌<◌, ◌≡◌, refl, sym, ap, ◌∙◌, ◌≢◌, ◌↔◌, true, [], ◌∷◌, Option, none, some, arith, ltb, ◌==◌,
  if◌then◌else◌, get_or, ◌||◌, not,
}
use iotop_cpp.Text.{Text, strtoul, ulong_max, decimal, digits_value}
use iotop_cpp.Text.Decimal.{
  decimal-cons, IsNumeral, value_onto, digits_value-IsNumeral, rest-IsNumeral, decimal-IsNumeral,
  digits_value-decimal_nil,
}
use iotop_cpp.Proc.{parse_task_name, strip_dot, is_empty}

-- A name that is used up by `strtoul`.
strtoul-rest : (s : Text) → (strtoul s).1 ≡ (digits_value 0 s).1
unfolding strtoul
strtoul-rest s = ground arith

-- The number that a text of digits stands for.
abbrev pub numeral_value : Text → ℕ
numeral_value s = value_onto 0 s

strtoul-IsNumeral :
    (s : Text) → IsNumeral s → numeral_value s < ulong_max → strtoul s ≡ (numeral_value s, [])
unfolding strtoul
strtoul-IsNumeral s h k = let d = digits_value-IsNumeral 0 s h in rw d (ground arith)

-- The names of tasks: digits for a number from 1 up to ULONG_MAX - 1.
abbrev pub NamesTask : ℕ → Text → Type 0
NamesTask pid s = (s ≢ []) × IsNumeral s × (numeral_value s ≡ pid) × (0 < pid) × (pid < ulong_max)

abbrev digits_name : Text → Option ℕ
digits_name name =
    let r = strtoul name in
    if ltb (get_or name 0 0) b'0' || ltb b'9' (get_or name 0 0)
    then none
    else if r.0 == 0 || r.0 == ulong_max || not (is_empty r.1)
    then none
    else some r.0

digits_name_complete : (s : Text) (pid : ℕ) → NamesTask pid s → digits_name s ≡ some pid
digits_name_complete [] pid (ne, n, e, lo, hi) = absurd (ne refl)
digits_name_complete (c ∷ s) pid (ne, n, e, lo, hi) =
    let read = strtoul-IsNumeral (c ∷ s) n (omega arith) in rw (read, e) (ground (arith, n.0))

nil_of_is_empty : (s : Text) → is_empty s ≡ true → s ≡ []
nil_of_is_empty [] h = refl
nil_of_is_empty (c ∷ s) h = cc

-- What the tests say of the number and the rest, once they pass.
passed :
    (c : ℕ) (r : ℕ × Text) (pid : ℕ)
    → (if ltb c b'0' || ltb b'9' c
        then none
        else if r.0 == 0 || r.0 == ulong_max || not (is_empty r.1)
        then none
        else some r.0)
      ≡ some pid
    → (is_empty r.1 ≡ true) × (r.0 ≡ pid) × (r.0 ≢ 0) × (r.0 ≢ ulong_max)
passed c r pid h = ground arith

strtoul-value :
    (s : Text)
    → IsNumeral s
    → (strtoul s).0 ≡ (if ltb ulong_max (numeral_value s) then ulong_max else numeral_value s)
unfolding strtoul
strtoul-value s h = let d = digits_value-IsNumeral 0 s h in rw d (ground arith)

digits_name_sound : (s : Text) (pid : ℕ) → digits_name s ≡ some pid → NamesTask pid s
digits_name_sound [] pid h = cc
digits_name_sound (c ∷ s) pid h =
    ((λ e. cc), n, ground (arith, v, ok), omega (arith, ok), ground (arith, v, ok))
  where
    ok :
        (is_empty (strtoul (c ∷ s)).1 ≡ true)
        × ((strtoul (c ∷ s)).0 ≡ pid)
        × ((strtoul (c ∷ s)).0 ≢ 0)
        × ((strtoul (c ∷ s)).0 ≢ ulong_max)
    ok = passed c (strtoul (c ∷ s)) pid h

    n : IsNumeral (c ∷ s)
    n =
        rest-IsNumeral 0 (c ∷ s)
          (sym (strtoul-rest (c ∷ s)) ∙ nil_of_is_empty (strtoul (c ∷ s)).1 ok.0)

    v :
        (strtoul (c ∷ s)).0
        ≡ (if ltb ulong_max (numeral_value (c ∷ s)) then ulong_max else numeral_value (c ∷ s))
    v = strtoul-value (c ∷ s) n

-- A directory entry is taken for the task pid exactly when its name, without one leading dot, is a
-- number from 1 to ULONG_MAX - 1 in decimal digits, and pid is that number.
pub parse_task_name_iff :
    (d_name : Text) (pid : ℕ)
    → (parse_task_name d_name ≡ some pid) ↔ NamesTask pid (strip_dot d_name)
unfolding parse_task_name
parse_task_name_iff d_name pid =
    (digits_name_sound (strip_dot d_name) pid, digits_name_complete (strip_dot d_name) pid)

strip_dot-decimal : (n : ℕ) → strip_dot (decimal n) ≡ decimal n
unfolding strip_dot
strip_dot-decimal n = let (c, s, e, d) = decimal-cons n in rw e (ground (arith, d))

numeral_value-decimal : (n : ℕ) → numeral_value (decimal n) ≡ n
numeral_value-decimal n =
    ap (λ (r : ℕ × Text). r.0)
      (sym (digits_value-IsNumeral 0 (decimal n) (decimal-IsNumeral n))
        ∙ digits_value-decimal_nil n)

decimal-NamesTask : (n : ℕ) → 0 < n → n < ulong_max → NamesTask n (decimal n)
decimal-NamesTask n lo hi = (nonempty, decimal-IsNumeral n, numeral_value-decimal n, lo, hi)
  where
    nonempty : decimal n ≢ []
    nonempty e = let (c, s, d, _) = decimal-cons n in cc (d, e)

-- For n from 1 to ULONG_MAX - 1, the directory of the task n, by the name that the kernel gives it
-- or with a dot in front, is taken for the task n.
pub parse_task_name-decimal :
    (n : ℕ)
    → 0 < n
    → n < ulong_max
    → (parse_task_name (decimal n) ≡ some n) × (parse_task_name (b'.' ∷ decimal n) ≡ some n)
unfolding strip_dot
parse_task_name-decimal n lo hi = (
  (parse_task_name_iff (decimal n) n).1 (rw (strip_dot-decimal n) (decimal-NamesTask n lo hi)),
  (parse_task_name_iff (b'.' ∷ decimal n) n).1 (decimal-NamesTask n lo hi),
)
