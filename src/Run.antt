-- ===== src/Run.antt =====
-- Programs that talk to the operating system. A run carries the trace of the calls made so far,
-- the newest first; what a call returns is chosen by the environment from that trace. A run may
-- also have undefined behaviour, or use up the rounds that a loop is given.
pub mod Ends
pub mod Within
pub mod Calls
use iotop_cpp.Base.{
  ℕ, ◌≡◌, refl, ap, ℤ, List, [], ◌⊎◌, inl, inr, ◌∷◌, Bool, true, false, if◌then◌else◌,
}
use iotop_cpp.Text.{Text}

-- The calls of the program that other code answers, with their arguments.
pub data Call : Type 0 where
  ioprio_get : ℕ → ℤ → Call
  sched_getscheduler : ℤ → Call
  getpriority : ℤ → Call
  ioprio_set : ℤ → ℤ → ℕ → Call
  fopen : Text → Call
  getline : ℕ → Call
  fclose : ℕ → Call
  stat : Text → Call
  openat : Text → Call
  fdopendir : ℕ → Call
  readdir : ℕ → Call
  closedir : ℕ → Call
  close : ℕ → Call
  getpwuid : ℤ → Call
  clock_gettime : Call
  getpid : Call
  socket : Call
  bind : ℕ → Call
  fcntl_getfl : ℕ → Call
  fcntl_setfl : ℕ → ℕ → Call
  sendto : ℤ → Text → Call
  recv : ℤ → Call
  init_terminal : Call
  end_terminal : Call
  max_yx : Call
  print_at : ℕ → ℕ → Text → Call
  draw : Call
  clear : Call
  sleep : ℕ → Call

abbrev pub Trace : Type 0
Trace = List Call

pub data Run {ℓ} (A : Type ℓ) : Type ℓ where
  done : A → Trace → Run A
  fault : Run A
  spin : Run A

abbrev pub M {ℓ} : Type ℓ → Type ℓ
M A = Trace → Run A

abbrev pub pure {ℓ} : {A : Type ℓ} → A → M A
pure a t = done a t

abbrev pub stop {ℓ} : {A : Type ℓ} → M A
stop t = fault

-- The rounds of a loop are used up.
abbrev pub exhaust {ℓ} : {A : Type ℓ} → M A
exhaust t = spin

abbrev pub and_then {ℓ κ} : {A : Type ℓ} {B : Type κ} → Run A → (A → M B) → Run B
and_then (done a t) f = f a t
and_then fault f = fault
and_then spin f = spin

infixl 5 ◌>>=◌ ◌>>◌
abbrev pub ◌>>=◌ {ℓ κ} : {A : Type ℓ} {B : Type κ} → M A → (A → M B) → M B
◌>>=◌ m f t = and_then (m t) f

abbrev pub ◌>>◌ {ℓ κ} : {A : Type ℓ} {B : Type κ} → M A → M B → M B
m >> k = m >>= λ _. k

-- A call, and the answer that the environment gives after the trace so far.
abbrev pub ask {ℓ} : {A : Type ℓ} → Call → (Trace → A) → M A
ask c answer t = done (answer t) (c ∷ t)

-- A call whose answer is not used.
abbrev pub tell : Call → M (Unit {0})
tell c t = done tt (c ∷ t)

-- Inversion of a bind that has come back.
pub and_then-done {ℓ κ} :
    {A : Type ℓ} {B : Type κ} (r : Run A) (f : A → M B) {b : B} {t' : Trace}
    → and_then r f ≡ done b t'
    → (a : A) × (u : Trace) × (r ≡ done a u) × (f a u ≡ done b t')
and_then-done (done a u) f h = (a, u, refl, h)
and_then-done fault f h = cc
and_then-done spin f h = cc

-- A run that comes back with a result that meets P.
abbrev pub Returns : {A : Type 0} → Run A → (A → Trace → Type 0) → Type 0
Returns (done a t) P = P a t
Returns fault P = ⊥
Returns spin P = ⊥

pub Returns-bind :
    {A B : Type 0} (P : A → Trace → Type 0) (Q : B → Trace → Type 0) (r : Run A) (f : A → M B)
    → Returns r P
    → ((a : A) (t : Trace) → P a t → Returns (f a t) Q)
    → Returns (and_then r f) Q
Returns-bind P Q (done a t) f h k = k a t h
Returns-bind P Q fault f h k = absurd h
Returns-bind P Q spin f h k = absurd h

pub Returns-if :
    {A : Type 0} (P : A → Trace → Type 0) (b : Bool) (m k : M A) (t : Trace)
    → (b ≡ true → Returns (m t) P)
    → (b ≡ false → Returns (k t) P)
    → Returns ((if b then m else k) t) P
Returns-if P true m k t h g = h refl
Returns-if P false m k t h g = g refl

pub Returns-mono :
    {A : Type 0} (P Q : A → Trace → Type 0) (r : Run A)
    → Returns r P
    → ((a : A) (t : Trace) → P a t → Q a t)
    → Returns r Q
Returns-mono P Q (done a t) h k = k a t h
Returns-mono P Q fault h k = absurd h
Returns-mono P Q spin h k = absurd h

pub Returns-done :
    {A : Type 0} (P : A → Trace → Type 0) (r : Run A)
    → Returns r P
    → (a : A) × (t : Trace) × (r ≡ done a t) × P a t
Returns-done P (done a t) h = (a, t, refl, h)
Returns-done P fault h = absurd h
Returns-done P spin h = absurd h

-- A run that comes back with one known result.
pub Returns-result :
    {A : Type 0} {Q : Trace → Type 0} (r : Run A) (a : A)
    → Returns r (λ b t. (b ≡ a) × Q t)
    → (t : Trace) × (r ≡ done a t) × Q t
Returns-result (done b t) a h = (t, ap (λ x. done x t) h.0, h.1)
Returns-result fault a h = absurd h
Returns-result spin a h = absurd h

-- How a run can end.
pub Run-cases :
    {A : Type 0} (r : Run A) → ((a : A) × (t : Trace) × (r ≡ done a t)) ⊎ ((r ≡ fault) ⊎ (r ≡ spin))
Run-cases (done a t) = inl (a, t, refl)
Run-cases fault = inr (inl refl)
Run-cases spin = inr (inr refl)

pub and_then_assoc :
    {A B C : Type 0} (r : Run A) (f : A → M B) (g : B → M C)
    → and_then (and_then r f) g ≡ and_then r (λ a t. and_then (f a t) g)
and_then_assoc (done a t) f g = refl
and_then_assoc fault f g = refl
and_then_assoc spin f g = refl

-- Two continuations that agree.
pub and_then-ext :
    {A B : Type 0} (r : Run A) (f g : A → M B)
    → ((a : A) (t : Trace) → f a t ≡ g a t)
    → and_then r f ≡ and_then r g
and_then-ext (done a t) f g h = h a t
and_then-ext fault f g h = refl
and_then-ext spin f g h = refl

-- A program run on each item of a list, in order.
unfoldable pub traverse : {A B : Type 0} → (A → M B) → List A → M (List B)
traverse f [] = pure []
traverse f (x ∷ xs) = do y ← f x; ys ← traverse f xs; pure (y ∷ ys)
