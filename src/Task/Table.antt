-- ===== src/Task/Table.antt =====
-- The laws of the table of tasks.
use iotop_cpp.Base.{
  ℕ, ◌≡◌, refl, sym, ◌∙◌, List, [], ◌∷◌, ◌++◌, Option, none, some, arith, ◌==◌, ==_iff,
  if◌then◌else◌, All, Bool-cases, inl, inr,
}
use iotop_cpp.Task.{lookup, is_none, emplace}

module _ {A : Type 0} where
  -- The first of two values that is there.
  abbrev pub or_else : Option A → Option A → Option A
  or_else none b = b
  or_else (some a) b = some a

  pub or_else_assoc : (a b c : Option A) → or_else (or_else a b) c ≡ or_else a (or_else b c)
  or_else_assoc none b c = refl
  or_else_assoc (some a) b c = refl

  or_else-none : (a : Option A) → or_else a none ≡ a
  or_else-none none = refl
  or_else-none (some a) = refl

  -- An entry that `emplace` adds stands behind those that are there already.
  pub lookup-emplace :
      (k j : ℕ) (a : A) (m : List (ℕ × A))
      → lookup j (emplace k a m) ≡ or_else (lookup j m) (if k == j then some a else none)
  unfolding emplace lookup
  lookup-emplace k j a m = ground (arith, ==_iff k j)

  -- Each key stands in the table once.
  abbrev pub NodupKeys : List (ℕ × A) → Type 0
  NodupKeys [] = Unit {0}
  NodupKeys ((k, a) ∷ m) = (lookup k m ≡ none) × NodupKeys m

  pub emplace-NodupKeys :
      (k : ℕ) (a : A) (m : List (ℕ × A)) → NodupKeys m → NodupKeys (emplace k a m)
  unfolding emplace
  emplace-NodupKeys k a m u = ground arith

  -- Many entries, in order.
  abbrev pub emplace_all : List (ℕ × A) → List (ℕ × A) → List (ℕ × A)
  emplace_all [] m = m
  emplace_all ((k, a) ∷ entries) m = emplace_all entries (emplace k a m)

  pub emplace_all-append :
      (xs ys m : List (ℕ × A)) → emplace_all (xs ++ ys) m ≡ emplace_all ys (emplace_all xs m)
  emplace_all-append [] ys m = refl
  emplace_all-append ((k, a) ∷ xs) ys m = emplace_all-append xs ys (emplace k a m)

  pub lookup-emplace_all :
      (k : ℕ) (entries m : List (ℕ × A))
      → lookup k (emplace_all entries m) ≡ or_else (lookup k m) (lookup k entries)
  unfolding lookup
  lookup-emplace_all k [] m = sym (or_else-none (lookup k m))
  lookup-emplace_all k ((j, a) ∷ entries) m =
      lookup-emplace_all k entries (emplace j a m) ∙ rw (lookup-emplace j k a m) (ground arith)

  pub emplace_all-NodupKeys :
      (entries m : List (ℕ × A)) → NodupKeys m → NodupKeys (emplace_all entries m)
  emplace_all-NodupKeys [] m u = u
  emplace_all-NodupKeys ((k, a) ∷ entries) m u =
      emplace_all-NodupKeys entries (emplace k a m) (emplace-NodupKeys k a m u)

  pub emplace-All :
      (P : ℕ × A → Type 0) (k : ℕ) (a : A) (m : List (ℕ × A))
      → P (k, a)
      → All P m
      → All P (emplace k a m)
  unfolding emplace
  emplace-All P k a m p h = elim (Bool-cases (is_none (lookup k m))) [
    | inl new ↦ rw new (p, h)
    | inr old ↦ rw old h
  ]

  pub emplace_all-All :
      (P : ℕ × A → Type 0) (entries m : List (ℕ × A))
      → All P entries
      → All P m
      → All P (emplace_all entries m)
  emplace_all-All P [] m p h = h
  emplace_all-All P ((k, a) ∷ entries) m p h =
      emplace_all-All P entries (emplace k a m) p.1 (emplace-All P k a m p.0 h)

  -- A value that a table gives is one of its values ...
  pub lookup-All :
      (P : A → Type 0) (m : List (ℕ × A)) (k : ℕ) (a : A)
      → All (λ entry. P entry.1) m
      → lookup k m ≡ some a
      → P a
  unfolding lookup
  lookup-All P [] k a h e = absurd (cc e)
  lookup-All P ((j, b) ∷ m) k a h e = elim (Bool-cases (j == k)) [
    | inl same ↦ let e' : b ≡ a = cc (rw same at e) in rw (← e') h.0
    | inr other ↦ lookup-All P m k a h.1 (rw other at e)
  ]

  -- ... and where each key stands once, it gives all of them.
  pub All-lookup :
      (P : A → Type 0) (m : List (ℕ × A))
      → NodupKeys m
      → ((k : ℕ) (a : A) → lookup k m ≡ some a → P a)
      → All (λ entry. P entry.1) m
  unfolding lookup
  All-lookup P [] u h = tt
  All-lookup P ((j, b) ∷ m) u h = (
    h j b (ground arith),
    All-lookup P m u.1 (λ k a e. h k a (elim (Bool-cases (j == k)) [
      | inl same ↦ absurd (cc ((==_iff j k).0 same, u.0, e))
      | inr other ↦ rw (other, lookup) e
    ])),
  )
