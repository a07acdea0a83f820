-- ===== src/Run/Ends.antt =====
-- What holds of a run if it comes back.
use iotop_cpp.Base.{Bool, true, false, if◌then◌else◌, ◌≡◌, refl, List, [], ◌∷◌, All}
use iotop_cpp.Run.{Trace, Run, M, done, fault, spin, pure, and_then, Returns, traverse}

-- What holds if a run comes back.
abbrev pub AtEnd : {A : Type 0} → Run A → (A → Trace → Type 0) → Type 0
AtEnd (done a t) P = P a t
AtEnd fault P = Unit {0}
AtEnd spin P = Unit {0}

pub AtEnd-bind :
    {A B : Type 0} (P : A → Trace → Type 0) (Q : B → Trace → Type 0) (r : Run A) (f : A → M B)
    → AtEnd r P
    → ((a : A) (t : Trace) → P a t → AtEnd (f a t) Q)
    → AtEnd (and_then r f) Q
AtEnd-bind P Q (done a t) f h k = k a t h
AtEnd-bind P Q fault f h k = tt
AtEnd-bind P Q spin f h k = tt

pub AtEnd-mono :
    {A : Type 0} (P Q : A → Trace → Type 0) (r : Run A)
    → AtEnd r P
    → ((a : A) (t : Trace) → P a t → Q a t)
    → AtEnd r Q
AtEnd-mono P Q (done a t) h k = k a t h
AtEnd-mono P Q fault h k = tt
AtEnd-mono P Q spin h k = tt

pub AtEnd-if :
    {A : Type 0} (P : A → Trace → Type 0) (b : Bool) (m k : M A) (t : Trace)
    → AtEnd (m t) P
    → AtEnd (k t) P
    → AtEnd ((if b then m else k) t) P
AtEnd-if P true m k t h g = h
AtEnd-if P false m k t h g = g

abbrev pub Any : {A : Type 0} → A → Trace → Type 0
Any _ _ = Unit {0}

pub AtEnd-Any : {A : Type 0} (r : Run A) → AtEnd r Any
AtEnd-Any (done a t) = tt
AtEnd-Any fault = tt
AtEnd-Any spin = tt

pub AtEnd-map :
    {A B : Type 0} (f : A → B) (P : B → Trace → Type 0) (r : Run A)
    → AtEnd (and_then r (λ a. pure (f a))) P
    → AtEnd r (λ a. P (f a))
AtEnd-map f P (done a t) h = h
AtEnd-map f P fault h = tt
AtEnd-map f P spin h = tt

pub AtEnd-self : {A : Type 0} (r : Run A) → AtEnd r (λ a t. r ≡ done a t)
AtEnd-self (done a t) = refl
AtEnd-self fault = tt
AtEnd-self spin = tt

-- A run that comes back, and what holds if it does.
pub Returns-AtEnd :
    {A : Type 0} (P Q : A → Trace → Type 0) (r : Run A)
    → Returns r P
    → AtEnd r Q
    → Returns r (λ a t. P a t × Q a t)
Returns-AtEnd P Q (done a t) h k = (h, k)
Returns-AtEnd P Q fault h k = absurd h
Returns-AtEnd P Q spin h k = absurd h

-- A run that comes back is one for which it holds.
pub AtEnd-Returns : {A : Type 0} (P : A → Trace → Type 0) (r : Run A) → Returns r P → AtEnd r P
AtEnd-Returns P (done a t) h = h
AtEnd-Returns P fault h = absurd h
AtEnd-Returns P spin h = absurd h

-- What each item gives, all that a traversal gives does.
pub traverse-All :
    {A B : Type 0} (P : B → Type 0) (f : A → M B)
    → ((a : A) (t : Trace) → AtEnd (f a t) (λ b _. P b))
    → (xs : List A) (t : Trace) → AtEnd (traverse f xs t) (λ ys _. All P ys)
unfolding traverse
traverse-All P f each [] t = tt
traverse-All P f each (x ∷ xs) t =
    AtEnd-bind (λ b _. P b) (λ ys _. All P ys) (f x t) _ (each x t)
      (λ y u p.
        AtEnd-bind (λ ys _. All P ys) (λ ys _. All P ys) (traverse f xs u) _
          (traverse-All P f each xs u) (λ ys v ps. (p, ps)))
