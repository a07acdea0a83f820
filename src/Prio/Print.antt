-- ===== src/Prio/Print.antt =====
-- What `convert_io_prio_to_str` prints.
use iotop_cpp.Base.{
  take-all, ℕ, zero, suc, ◌+◌, ◌*◌, ◌/◌, ◌%◌, ◌^◌, ◌<◌, ◌≡◌, ap, inl, inr, [], ◌∷◌, ◌++◌, some,
  arith, leb, if◌then◌else◌, Bool-cases, length, pos, get_or,
}
use iotop_cpp.Text.{Text, decimal, pad_left, snprintf}
use iotop_cpp.Text.Decimal.{length-decimal-le}
use iotop_cpp.Prio.{convert_io_prio_to_str, corrupted, str_ioprio_class, ioprio_str_maxsiz}

-- What is printed for a class and a level, with no limit on its length.
abbrev pub shown : ℕ → ℕ → Text
shown c d = pad_left 2 (get_or str_ioprio_class c []) ++ b'/' ∷ decimal d

pub length-shown : (c d : ℕ) → c < 4 → d < 2 ^ 13 → length (shown c d) < ioprio_str_maxsiz
unfolding pad_left
length-shown zero d h k = omega (arith, length-decimal-le d 3 (omega arith))
length-shown (suc zero) d h k = omega (arith, length-decimal-le d 3 (omega arith))
length-shown (suc (suc zero)) d h k = omega (arith, length-decimal-le d 3 (omega arith))
length-shown (suc (suc (suc zero))) d h k = omega (arith, length-decimal-le d 3 (omega arith))
length-shown (suc (suc (suc (suc c)))) d h k = absurd (omega arith)

-- For a level below 2 ^ 13, a priority of a class below 4 is shown by the name of the class, padded
-- to two characters, a slash and the level in decimal, whole: the buffer of ten bytes has room for
-- it. A class of 4 and more is shown as corrupted.
pub convert_io_prio_to_str-shown :
    (c d : ℕ)
    → d < 2 ^ 13
    → convert_io_prio_to_str (pos (c * 2 ^ 13 + d))
      ≡ some (if leb 4 c then corrupted else shown c d)
unfolding convert_io_prio_to_str snprintf
convert_io_prio_to_str-shown c d h =
    let class : (c * 2 ^ 13 + d) / 2 ^ 13 ≡ c = omega arith in
    let level : (c * 2 ^ 13 + d) % 2 ^ 13 ≡ d = omega arith in
    rw (class, level)
      (elim (Bool-cases (leb 4 c)) [
        | inl unknown ↦ rw unknown
        | inr known ↦
            rw known
              (ap some (take-all 9 (shown c d) (omega (arith, length-shown c d (ground arith) h))))
      ])
