-- ===== src/Netlink/Patience.antt =====
-- A socket that refuses bytes now and then.
use mathlib.Core.List.{append-nil}
use native.Mathlib.Nat.{mul-le-mul_right, suc-mul}
use iotop_cpp.Base.{
  ℕ, zero, suc, ◌+◌, ◌*◌, ◌≤◌, ◌<◌, ◌≡◌, refl, ◌∙◌, ◌⊎◌, inl, inr, true, ◌∷◌, ◌++◌, arith, ltb,
  ltb→lt, lt→ltb, Bool-cases, length, length-drop, drop, ℤ, pos, negsuc,
}
use iotop_cpp.Text.{Text}
use iotop_cpp.Run.{Trace, sendto, Returns, Returns-mono}
use iotop_cpp.Os.{Os}
use iotop_cpp.Abi.{Abi}
use iotop_cpp.Netlink.{max_netlink_msg_size}
use iotop_cpp.Netlink.Socket.{send_loop}
use iotop_cpp.Netlink.Sending.{stream, Accepts, Sent, resent, sent_all}

-- A socket that takes no byte, and asks to try again.
abbrev pub Refuses : Os → ℤ → Trace → Text → Type 0
Refuses os fd t buf =
    ((os.sendto t fd buf ≡ pos 0) ⊎ ((n : ℕ) × (os.sendto t fd buf ≡ negsuc n)))
    × (os.again (sendto fd buf ∷ t) ≡ true)

-- A socket that takes a byte whenever it is offered some, but for a bounded number of times in a row.
pub record IsPatient (os : Os) (fd : ℤ) (bound : ℕ) (patience : Trace → ℕ) : Type 0 where
  pub bounded : (t : Trace) → patience t ≤ bound
  pub answers :
      (t : Trace) (buf : Text)
      → Accepts (os.sendto t fd buf)
        ⊎ (Refuses os fd t buf × (patience (sendto fd buf ∷ t) < patience t))

-- The rounds that are left when some bytes have been taken.
fewer_rounds :
    (bound l l' p p' rounds : ℕ)
    → l' < l
    → p' ≤ bound
    → l * suc bound + p < suc rounds
    → l' * suc bound + p' < rounds
fewer_rounds bound l l' p p' rounds less h enough =
    omega (arith, mul-le-mul_right {m = suc l'} {n = l} (suc bound) less, suc-mul l' (suc bound))

module _ (os : Os) (fd : ℤ) (bound : ℕ) (patience : Trace → ℕ)
    (patient : IsPatient os fd bound patience) where
  -- Where the socket, each time it is offered bytes, takes at least one, or takes none and asks to
  -- try again, and the latter no more than b times in a row, the loop of `send_netlink_cmd`, with
  -- more rounds than b + 1 for each byte and the tries that are left at the start, ends with 0, and
  -- the bytes that the socket took are those of the buffer, in order, each once, however they were
  -- split.
  pub send_loop-Sent :
      (rounds : ℕ) (buf : Text) (t : Trace)
      → length buf * suc bound + patience t < rounds
      → Returns (send_loop os rounds fd buf t) (Sent os (stream os t ++ buf))
  unfolding send_loop
  send_loop-Sent zero buf t h = absurd (omega arith)
  send_loop-Sent (suc rounds) buf t h =
      let t' : Trace = sendto fd buf ∷ t in
      elim (patient.answers t buf) [
        | inl (n, some_byte, e) ↦
            rw (e, send_loop)
              (elim (Bool-cases (ltb n (length buf))) [
                | inl part ↦
                    rw (part, lt→ltb 0 n some_byte)
                      (Returns-mono (Sent os (stream os t' ++ drop n buf))
                        (Sent os (stream os t ++ buf)) (send_loop os rounds fd (drop n buf) t')
                        (send_loop-Sent rounds (drop n buf) t' (
                          fewer_rounds bound (length buf) (length (drop n buf)) (patience t)
                            (patience t') rounds
                            (omega (arith, length-drop n buf, ltb→lt n (length buf) part))
                            (patient.bounded t') h))
                        (λ r u k. (k.0, k.1 ∙ resent os fd t buf n e)))
                | inr whole ↦ rw whole (refl, sent_all os fd t buf n e (ground (arith, whole)))
              ])
        | inr ((inl e, again), less) ↦
            rw (e, send_loop)
              (elim (Bool-cases (ltb 0 (length buf))) [
                | inr whole ↦ rw whole (refl, sent_all os fd t buf 0 e (ground (arith, whole)))
                | inl part ↦
                    rw (part, again)
                      (Returns-mono (Sent os (stream os t' ++ buf)) (Sent os (stream os t ++ buf))
                        (send_loop os rounds fd buf t') (send_loop-Sent rounds buf t' (omega arith))
                        (λ r u k. (k.0, k.1 ∙ resent os fd t buf 0 e)))
              ])
        | inr ((inr (n, e), again), less) ↦
            rw (e, send_loop)
              (rw again (
                Returns-mono (Sent os (stream os t' ++ buf)) (Sent os (stream os t ++ buf))
                  (send_loop os rounds fd buf t') (send_loop-Sent rounds buf t' (omega arith))
                  (λ r u k. (k.0, k.1 ∙ rw (e, append-nil (stream os t)) refl))))
      ]

-- A socket that never refuses.
pub send_loop-stream :
    (os : Os) (fd : ℤ)
    → ((t : Trace) (buf : Text) → Accepts (os.sendto t fd buf))
    → (rounds : ℕ) (buf : Text) (t : Trace) → length buf < rounds
    → Returns (send_loop os rounds fd buf t) (Sent os (stream os t ++ buf))
send_loop-stream os fd accepts rounds buf t h =
    send_loop-Sent os fd 0 (λ _. 0)
      (record { bounded = λ u. omega arith; answers = λ u bytes. inl (accepts u bytes) }) rounds buf
      t (omega arith)

-- A patient socket, and rounds that suffice for a message of any length that is sent.
pub record IsReady (os : Os) (abi : Abi) (rounds : ℕ) (fd : ℤ) : Type 0 where
  pub bound : ℕ
  pub patience : Trace → ℕ
  pub patient : IsPatient os fd bound patience
  pub enough :
      (abi.nlmsg_hdrlen + abi.genl_hdrlen + max_netlink_msg_size) * suc bound + bound < rounds

-- A message is sent whole.
pub ready-Sent :
    (os : Os) (abi : Abi) (rounds : ℕ) (fd : ℤ) (ready : IsReady os abi rounds fd) (buf : Text)
    (t : Trace)
    → length buf ≤ abi.nlmsg_hdrlen + abi.genl_hdrlen + max_netlink_msg_size
    → Returns (send_loop os rounds fd buf t) (Sent os (stream os t ++ buf))
ready-Sent os abi rounds fd ready buf t fits =
    send_loop-Sent os fd ready.bound ready.patience ready.patient rounds buf t (
      omega (arith, mul-le-mul_right (suc ready.bound) fits, ready.patient.bounded t, ready.enough))

-- A socket that always takes a byte is ready.
pub Accepts-IsReady :
    (os : Os) (abi : Abi) (rounds : ℕ) (fd : ℤ)
    → ((t : Trace) (buf : Text) → Accepts (os.sendto t fd buf))
    → abi.nlmsg_hdrlen + abi.genl_hdrlen + max_netlink_msg_size < rounds
    → IsReady os abi rounds fd
Accepts-IsReady os abi rounds fd accepts enough = record {
  bound = 0;
  patience = λ t. 0;
  patient = record { bounded = λ t. omega arith; answers = λ t buf. inl (accepts t buf) };
  enough = omega (arith, enough);
}
