-- ===== src/Run/Calls.antt =====
-- Which calls a program makes: the part of the trace that it adds.
use mathlib.Core.List.{append_assoc}
use iotop_cpp.Base.{
  All-append, ◌≡◌, refl, sym, ap, ◌∙◌, Bool, List, [], ◌∷◌, ◌++◌, if◌then◌else◌, All,
}
use iotop_cpp.Run.{Call, Trace, Run, M, done, and_then}
use iotop_cpp.Run.Within.{
  IsPreorder, Within, Along, Within-bind, Within-step, Within-if, Within-done, Within-mono,
}

module _ (P : Call → Type 0) where
  -- A trace that goes on from another one by calls that meet P.
  pub record GoesOn (t u : Trace) : Type 0 where
    pub calls : List Call
    pub added : u ≡ calls ++ t
    pub allowed : All P calls

  -- A run that makes such calls only, if it comes back.
  abbrev pub Only : {A : Type 0} → Trace → Run A → Type 0
  Only = Within GoesOn

  -- A program that makes such calls only.
  abbrev pub Calls : {A : Type 0} → M A → Type 0
  Calls = Along GoesOn

  pub GoesOn-refl : (t : Trace) → GoesOn t t
  GoesOn-refl t = record { calls = []; added = refl; allowed = tt }

  pub GoesOn-trans : (t u v : Trace) → GoesOn t u → GoesOn u v → GoesOn t v
  GoesOn-trans t u v g h = record {
    calls = h.calls ++ g.calls;
    added = h.added ∙ ap (◌++◌ h.calls) g.added ∙ sym (append_assoc h.calls g.calls t);
    allowed = All-append P h.calls g.calls h.allowed g.allowed;
  }

  pub GoesOn-IsPreorder : IsPreorder GoesOn
  GoesOn-IsPreorder = record { here = GoesOn-refl; trans = GoesOn-trans }

  pub GoesOn-call : (c : Call) (t u : Trace) → P c → GoesOn (c ∷ t) u → GoesOn t u
  GoesOn-call c t u p =
      GoesOn-trans t (c ∷ t) u (record { calls = c ∷ []; added = refl; allowed = (p, tt) })

  -- A call in front.
  pub Only-call : {A : Type 0} (c : Call) (t : Trace) (r : Run A) → P c → Only (c ∷ t) r → Only t r
  Only-call c t r p =
      Within-step GoesOn-IsPreorder t (c ∷ t) r (GoesOn-call c t (c ∷ t) p (GoesOn-refl (c ∷ t)))

  pub Only-bind :
      {A B : Type 0} (t : Trace) (r : Run A) (f : A → M B)
      → Only t r
      → ((a : A) → Calls (f a))
      → Only t (and_then r f)
  Only-bind = Within-bind GoesOn-IsPreorder

  pub Only-if :
      {A : Type 0} (b : Bool) (m k : M A) (t : Trace)
      → Only t (m t)
      → Only t (k t)
      → Only t ((if b then m else k) t)
  Only-if b m k t = Within-if GoesOn b m k t t

  -- What a run that comes back has added.
  pub Only-done :
      {A : Type 0} (t : Trace) (r : Run A) (a : A) (u : Trace)
      → Only t r
      → r ≡ done a u
      → GoesOn t u
  Only-done = Within-done GoesOn

  -- What each of the calls does to the trace, all of them do.
  module _ {R : Trace → Trace → Type 0} (pre : IsPreorder R)
      (step : (c : Call) (t : Trace) → P c → R t (c ∷ t)) where
    pub GoesOn-fold : (t u : Trace) → GoesOn t u → R t u
    GoesOn-fold t u g = rw g.added (all g.calls g.allowed)
      where
        all : (calls : List Call) → All P calls → R t (calls ++ t)
        all [] h = pre.here t
        all (c ∷ calls) h = pre.trans t _ _ (all calls h.1) (step c (calls ++ t) h.0)

    pub Only-Within : {A : Type 0} (t : Trace) (r : Run A) → Only t r → Within R t r
    Only-Within t r = Within-mono GoesOn R t r (GoesOn-fold t)

-- More calls are allowed.
module _ (P Q : Call → Type 0) (wider : (c : Call) → P c → Q c) where
  pub GoesOn-mono : (t u : Trace) → GoesOn P t u → GoesOn Q t u
  GoesOn-mono =
      GoesOn-fold P (GoesOn-IsPreorder Q)
        (λ c t p. GoesOn-call Q c t (c ∷ t) (wider c p) (GoesOn-refl Q (c ∷ t)))

  pub Only-mono : {A : Type 0} (t : Trace) (r : Run A) → Only P t r → Only Q t r
  Only-mono t r = Within-mono (GoesOn P) (GoesOn Q) t r (GoesOn-mono t)
