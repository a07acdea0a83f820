-- ===== src/Runner/Begins.antt =====
-- What a start that succeeds has done.
use iotop_cpp.Base.{ℕ, ◌≡◌, false, ◌∷◌, arith, Bool-cases, inl, inr, ℤ, is_neg}
use iotop_cpp.Float.{Float}
use iotop_cpp.Run.{Trace, init_terminal, end_terminal}
use iotop_cpp.Run.Ends.{AtEnd, AtEnd-bind}
use iotop_cpp.Os.{Os}
use iotop_cpp.Abi.{Abi}
use iotop_cpp.Netlink.Socket
use iotop_cpp.Monitor
use iotop_cpp.View
use iotop_cpp.Runner.{sources, IoRunner, init}

-- What holds unless the code is negative.
abbrev pub IfFine : (Trace → Type 0) → ℤ → Trace → Type 0
IfFine Q code u = is_neg code ≡ false → Q u

module _ (F : Float) (os : Os) (abi : Abi) (rounds : ℕ) (Q : Trace → Type 0)
    (quiet : (u : Trace) → Q u → Q (end_terminal ∷ init_terminal ∷ u)) where
  -- What the connection does, the whole start does: the terminal is but begun and ended.
  pub init-IfFine :
      (this : IoRunner F os abi rounds) (t : Trace)
      → AtEnd (Socket.init os abi rounds this.netlink_io_obj t) (λ r u. IfFine Q r.0 u)
      → AtEnd (init F os abi rounds this t) (λ r u. IfFine Q r.0 u)
  unfolding init Monitor.init View.init
  init-IfFine this t begun =
      AtEnd-bind (λ r u. IfFine Q r.0 u) (λ r u. IfFine Q r.0 u)
        (Monitor.init F (sources F os abi rounds) this t) _
        (AtEnd-bind (λ r u. IfFine Q r.0 u) (λ r u. IfFine Q r.0 u)
          (Socket.init os abi rounds this.netlink_io_obj t) _ begun
          (λ r u fine h. fine (ground (arith, h))))
        (λ r u fine. elim (Bool-cases (is_neg r.0)) [
          | inl failed ↦ rw failed (λ h. cc)
          | inr positive ↦ rw positive (λ h. quiet u (fine positive))
        ])
