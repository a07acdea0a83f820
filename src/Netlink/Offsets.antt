-- ===== src/Netlink/Offsets.antt =====
-- Texts that stand at an offset in a message.
use iotop_cpp.Base.{
  ℕ, zero, suc, ◌+◌, ◌≤◌, ◌≡◌, ◌≢◌, refl, sym, ap, ◌∙◌, false, [], ◌∷◌, ◌++◌, arith, ltb, le→leb,
  ◌==◌, length, length-append, drop, drop-length,
}
use iotop_cpp.Text.{Text}
use iotop_cpp.Run.{Trace, done}
use iotop_cpp.Abi.{Abi}
use iotop_cpp.Netlink.{read_at}

pub drop-nil : (n : ℕ) → drop {A = ℕ} n [] ≡ []
drop-nil zero = refl
drop-nil (suc n) = refl

pub drop-drop : (a b : ℕ) (s : Text) → drop (a + b) s ≡ drop b (drop a s)
drop-drop zero b s = let e : 0 + b ≡ b = omega arith in rw e
drop-drop (suc a) b [] = let e : suc a + b ≡ suc (a + b) = omega arith in rw e (sym (drop-nil b))
drop-drop (suc a) b (c ∷ s) =
    let e : suc a + b ≡ suc (a + b) = omega arith in rw e (drop-drop a b s)

-- A text that stands at an offset, whole.
abbrev pub Stands : Text → ℕ → Text → Type 0
Stands msg na s = (drop na msg ≡ s) × (na + length s ≤ length msg)

pub Stands-behind :
    (msg : Text) (na k : ℕ) (a s : Text)
    → length a ≡ k
    → Stands msg na (a ++ s)
    → Stands msg (na + k) s
Stands-behind msg na k a s e (at, inside) =
    (drop-drop na k msg ∙ rw (at, ← e) (drop-length a s), omega (arith, length-append a s))

pub read_at-Stands :
    (abi : Abi) (msg : Text) (na k : ℕ) (s : Text) (t : Trace)
    → Stands msg na s
    → k ≤ length s
    → read_at abi msg na k t ≡ done s t
unfolding read_at
read_at-Stands abi msg na k s t (at, inside) h =
    rw (le→leb (na + k) (length msg) (omega arith)) (ap (λ r. done r t) at)

pub le→ltb_false : (a b : ℕ) → b ≤ a → ltb a b ≡ false
le→ltb_false a b h = ground arith

pub test_ne : {a b : ℕ} → a ≢ b → (a == b) ≡ false
test_ne h = ground arith
