-- ===== src/Netlink/Failing.antt =====
-- What goes out on the socket, whatever the socket does.
use iotop_cpp.Base.{
  take-all, ℕ, zero, suc, ◌≡◌, refl, ◌∙◌, ◌⊎◌, inl, inr, [], ◌∷◌, ◌++◌, arith, ltb, Bool-cases,
  length, take, drop, take-append-drop, ℤ, pos, negsuc,
}
use mathlib.Core.List.{append_assoc}
use iotop_cpp.Text.{Text}
use iotop_cpp.Run.{Trace, Run, done, fault, spin, sendto}
use iotop_cpp.Os.{Os}
use iotop_cpp.Netlink.Socket.{send_loop}
use iotop_cpp.Netlink.Sending.{stream}

pub sign_cases : (z : ℤ) → ((n : ℕ) × (z ≡ pos n)) ⊎ ((n : ℕ) × (z ≡ negsuc n))
sign_cases (pos n) = inl (n, refl)
sign_cases (negsuc n) = inr (n, refl)

-- A run without undefined behaviour, which meets P if it comes to its end within its rounds.
abbrev pub IfEnds : {A : Type 0} → Run A → (A → Trace → Type 0) → Type 0
IfEnds (done a t) P = P a t
IfEnds fault P = ⊥
IfEnds spin P = Unit {0}

IfEnds-mono :
    {A : Type 0} (P Q : A → Trace → Type 0) (r : Run A)
    → IfEnds r P
    → ((a : A) (t : Trace) → P a t → Q a t)
    → IfEnds r Q
IfEnds-mono P Q (done a t) h k = k a t h
IfEnds-mono P Q fault h k = h
IfEnds-mono P Q spin h k = tt

module _ (os : Os) (fd : ℤ) where
  -- All of the bytes went out, or some of them up to an error.
  abbrev pub SentPart : Trace → Text → ℤ → Trace → Type 0
  SentPart t buf r u =
      ((r ≡ pos 0) × (stream os u ≡ stream os t ++ buf))
      ⊎ ((r ≡ negsuc 0)
          × ((sent rest : Text) × (sent ++ rest ≡ buf) × (stream os u ≡ stream os t ++ sent)))

  later :
      (t : Trace) (a b : Text) (r : ℤ) (u : Trace) (t' : Trace)
      → stream os t' ≡ stream os t ++ a
      → SentPart t' b r u
      → SentPart t (a ++ b) r u
  later t a b r u t' e (inl (ok, s)) = inl (ok, s ∙ rw (e, append_assoc))
  later t a b r u t' e (inr (failed, (sent, rest, d, s))) =
      inr (failed, (a ++ sent, rest, rw (append_assoc, d), s ∙ rw (e, append_assoc)))

  nothing :
      (t : Trace) (buf : Text)
      → stream os (sendto fd buf ∷ t) ≡ stream os t ++ []
      → SentPart t buf (negsuc 0) (sendto fd buf ∷ t)
  nothing t buf e = inr (refl, ([], buf, refl, e))

  next :
      (rounds : ℕ) (t t' : Trace) (a b buf : Text)
      → a ++ b ≡ buf
      → stream os t' ≡ stream os t ++ a
      → IfEnds (send_loop os rounds fd b t') (SentPart t' b)
      → IfEnds (send_loop os rounds fd b t') (SentPart t buf)
  next rounds t t' a b buf d e h =
      IfEnds-mono (SentPart t' b) (SentPart t buf) (send_loop os rounds fd b t') h
        (λ r u k. rw d at (later t a b r u t' e k))

  -- Whatever the socket does, the loop of `send_netlink_cmd` has no undefined behaviour, and if it
  -- ends within its rounds, then with 0 and the buffer sent whole, or with -1 and a first part of
  -- the buffer sent, each byte once and in order.
  pub send_loop-SentPart :
      (rounds : ℕ) (buf : Text) (t : Trace) → IfEnds (send_loop os rounds fd buf t) (SentPart t buf)
  unfolding send_loop
  send_loop-SentPart zero buf t = tt
  send_loop-SentPart (suc rounds) buf t =
      let t' : Trace = sendto fd buf ∷ t in
      elim (sign_cases (os.sendto t fd buf)) [
        | inl (n, e) ↦
            let sent : stream os t' ≡ stream os t ++ take n buf = rw e refl in
            let go_on =
              next rounds t t' (take n buf) (drop n buf) buf (take-append-drop n buf) sent
                (send_loop-SentPart rounds (drop n buf) t') in
            rw (e, send_loop)
              (elim (Bool-cases (ltb n (length buf))) [
                | inr whole ↦
                    rw whole (inl (refl, rw (take-all n buf (ground (arith, whole))) at sent))
                | inl part ↦ rw part (elim (Bool-cases (ltb 0 n)) [
                  | inl some_bytes ↦ rw some_bytes go_on
                  | inr no_bytes ↦
                      let z : n ≡ 0 = ground (arith, no_bytes) in
                      rw no_bytes (elim (Bool-cases (os.again t')) [
                        | inl again ↦ rw again go_on
                        | inr failed ↦ rw failed (nothing t buf (rw z at sent))
                      ])
                ])
              ])
        | inr (n, e) ↦
            let sent : stream os t' ≡ stream os t ++ [] = rw e refl in
            rw (e, send_loop)
              (elim (Bool-cases (os.again t')) [
                | inl again ↦
                    rw again
                      (next rounds t t' [] buf buf refl sent (send_loop-SentPart rounds buf t'))
                | inr failed ↦ rw failed (nothing t buf sent)
              ])
      ]
