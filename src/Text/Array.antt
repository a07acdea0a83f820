-- ===== src/Text/Array.antt =====
-- Strings in char arrays.
use iotop_cpp.Base.{
  ℕ, zero, suc, ◌-◌, ◌≤◌, ◌<◌, ◌≡◌, refl, true, [], ◌∷◌, ◌++◌, none, some, arith, leb, le→leb,
  length, length-replicate, take-length, drop, replicate,
}
use iotop_cpp.Text.{Text, strncpy, c_string, until_nul}

drop-replicate : (k n : ℕ) (c : ℕ) → drop k (replicate n c) ≡ replicate (n - k) c
drop-replicate zero n c = let e : n - 0 ≡ n = omega arith in rw e
drop-replicate (suc k) zero c = let e : 0 - suc k ≡ 0 = omega arith in rw e
drop-replicate (suc k) (suc n) c =
    let e : suc n - suc k ≡ n - k = omega arith in rw e (drop-replicate k n c)

-- A string that fits into an array of NULs with one byte to spare is copied whole.
pub strncpy_fits :
    (n : ℕ) (s : Text)
    → length s ≤ n
    → strncpy (replicate (suc n) 0) s (length s) ≡ some (s ++ replicate (suc (n - length s)) 0)
unfolding strncpy
strncpy_fits n s h =
    let size = length-replicate {A = ℕ} (suc n) 0 in
    let room : leb (length s) (suc n) ≡ true = le→leb (length s) (suc n) (omega arith) in
    let left : suc n - length s ≡ suc (n - length s) = omega arith in
    rw (size, room, take-length s, drop-replicate, left)

-- ... and is read back up to its first NUL.
pub c_string-append : (n : ℕ) (s : Text) → c_string (s ++ replicate (suc n) 0) ≡ some (until_nul s)
unfolding c_string until_nul
c_string-append n [] = refl
c_string-append n (c ∷ s) = ground (arith, c_string-append n s)

-- A longer string is written past the end of the array.
pub strncpy_overflows :
    (array s : Text) → length array < length s → strncpy array s (length s) ≡ none
unfolding strncpy
strncpy_overflows array s h = ground arith
