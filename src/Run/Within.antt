-- ===== src/Run/Within.antt =====
-- What a program does to its trace, as a relation of the traces before and after.
use iotop_cpp.Base.{◌≡◌, refl, ◌∙◌, Bool, true, false, if◌then◌else◌}
use iotop_cpp.Run.{Trace, Run, M, done, fault, spin, and_then}
use iotop_cpp.Run.Ends.{AtEnd, AtEnd-mono}

-- A relation that a program can keep step by step.
pub record IsPreorder (R : Trace → Trace → Type 0) : Type 0 where
  pub here : (t : Trace) → R t t
  pub trans : (t u v : Trace) → R t u → R u v → R t v

-- A run that leads along the relation, if it comes back.
abbrev pub Within : {A : Type 0} → (Trace → Trace → Type 0) → Trace → Run A → Type 0
Within R t r = AtEnd r (λ _ u. R t u)

-- A program that does so after any trace.
abbrev pub Along : {A : Type 0} → (Trace → Trace → Type 0) → M A → Type 0
Along R m = (t : Trace) → Within R t (m t)

-- A view of the trace that stays as it is.
abbrev pub Same : {A : Type 0} → (Trace → A) → Trace → Trace → Type 0
Same view t u = view u ≡ view t

pub Same-IsPreorder : {A : Type 0} (view : Trace → A) → IsPreorder (Same view)
Same-IsPreorder view = record { here = λ t. refl; trans = λ t u v h g. g ∙ h }

-- What a run that comes back has done.
pub Within-done :
    {A : Type 0} (R : Trace → Trace → Type 0) (t : Trace) (r : Run A) (a : A) (u : Trace)
    → Within R t r
    → r ≡ done a u
    → R t u
Within-done R t r a u h e = rw e at h

pub Within-mono :
    {A : Type 0} (R Q : Trace → Trace → Type 0) (t : Trace) (r : Run A)
    → ((u : Trace) → R t u → Q t u)
    → Within R t r
    → Within Q t r
Within-mono R Q t r wider h = AtEnd-mono (λ _ u. R t u) (λ _ u. Q t u) r h (λ _ u. wider u)

pub Within-if :
    {A : Type 0} (R : Trace → Trace → Type 0) (b : Bool) (m k : M A) (t u : Trace)
    → Within R t (m u)
    → Within R t (k u)
    → Within R t ((if b then m else k) u)
Within-if R true m k t u h g = h
Within-if R false m k t u h g = g

module _ {R : Trace → Trace → Type 0} (pre : IsPreorder R) where
  -- A step in front.
  pub Within-step : {A : Type 0} (t u : Trace) (r : Run A) → R t u → Within R u r → Within R t r
  Within-step t u (done a v) g h = pre.trans t u v g h
  Within-step t u fault g h = tt
  Within-step t u spin g h = tt

  pub Within-bind :
      {A B : Type 0} (t : Trace) (r : Run A) (f : A → M B)
      → Within R t r
      → ((a : A) → Along R (f a))
      → Within R t (and_then r f)
  Within-bind t (done a u) f h k = Within-step t u (f a u) h (k a u)
  Within-bind t fault f h k = tt
  Within-bind t spin f h k = tt
