-- ===== src/Netlink/Enough.antt =====
-- The rounds of the loop over the attributes of a message, on any bytes.
use iotop_cpp.Base.{
  ℕ, zero, suc, ◌+◌, ◌≤◌, ◌<◌, ◌≡◌, refl, sym, ◌∙◌, ◌⊎◌, inl, inr, arith, ltb, length, drop,
  Bool-cases, if◌then◌else◌,
}
use iotop_cpp.Text.{Text}
use iotop_cpp.Float.{Float}
use iotop_cpp.Run.{Trace, M, done, pure}
use iotop_cpp.Abi.{Abi}
use iotop_cpp.Task.{TaskIoInfo}
use iotop_cpp.Netlink.Readable.{is_aggregate}
use iotop_cpp.Netlink.{genlmsg_data, nla_data, nla_payload, read_aggr, read_reply}
use iotop_cpp.Netlink.Aggregates.{
  len_at, Faults, Spins, Writes, read_at-cases, zero_or_more, read_aggr-cases,
}

module _ (F : Float) (abi : Abi) (msg : Text) where
  -- What a round does with the attribute at a pointer.
  abbrev pub item : ℕ → TaskIoInfo F → M (TaskIoInfo F)
  item na info =
      if is_aggregate abi msg na
      then read_aggr F abi (suc (suc (suc (length msg)))) msg (nla_data abi na) 0
          (nla_payload abi (abi.nla_len (drop na msg))) info
      else pure info

  pub item-cases :
      (na : ℕ)
      → Faults F abi msg (item na) ⊎ (Spins F abi msg (item na) ⊎ Writes F abi msg (item na))
  item-cases na = elim (Bool-cases (is_aggregate abi msg na)) [
    | inr other ↦ inr (inr ((λ info. info), λ info t. rw other refl))
    | inl aggr ↦
        elim (read_aggr-cases F abi msg (suc (suc (suc (length msg)))) (nla_data abi na) 0
          (nla_payload abi (abi.nla_len (drop na msg)))) [
            | inl k ↦ inl (λ info t. rw aggr (k info t))
            | inr (inl k) ↦ inr (inl (λ info t. rw aggr (k info t)))
            | inr (inr (f, k)) ↦ inr (inr (f, λ info t. rw aggr (k info t)))
          ]
  ]

  -- Where the loop is once it has counted some length.
  abbrev pub loop : ℕ → ℕ → ℕ → TaskIoInfo F → M (TaskIoInfo F)
  loop rep_len rounds len = read_reply F abi rounds msg (genlmsg_data abi + len) len rep_len

  abbrev pub next : ℕ → ℕ
  next len = len + len_at F abi msg (genlmsg_data abi + len)

  -- The header of the attribute there lies within the message.
  abbrev pub Fits : ℕ → Type 0
  Fits len = genlmsg_data abi + len + abi.nla_hdrlen ≤ length msg

  -- The header ends behind the message, or the attribute is not gone through.
  abbrev pub IsBroken : ℕ → Type 0
  IsBroken len =
      (length msg < genlmsg_data abi + len + abi.nla_hdrlen)
      ⊎ (Fits len × Faults F abi msg (item (genlmsg_data abi + len)))

  -- What a round of the loop does.
  pub data ReplyRound (rep_len len : ℕ) : Type 0 where
    ends :
        rep_len ≤ len
        → ((rounds : ℕ) (info : TaskIoInfo F) (t : Trace)
            → loop rep_len (suc rounds) len info t ≡ done info t)
        → ReplyRound rep_len len
    faults :
        len < rep_len
        → IsBroken len
        → ((rounds : ℕ) → Faults F abi msg (loop rep_len (suc rounds) len))
        → ReplyRound rep_len len
    spins :
        (len < rep_len) × Fits len
        → Spins F abi msg (item (genlmsg_data abi + len))
        → ((rounds : ℕ) → Spins F abi msg (loop rep_len (suc rounds) len))
        → ReplyRound rep_len len
    goes :
        (len < rep_len) × Fits len
        → (w : Writes F abi msg (item (genlmsg_data abi + len)))
        → ((rounds : ℕ) (info : TaskIoInfo F) (t : Trace)
            → loop rep_len (suc rounds) len info t ≡ loop rep_len rounds (next len) (w.0 info) t)
        → ReplyRound rep_len len

  pub reply_round : (rep_len len : ℕ) → ReplyRound rep_len len
  unfolding read_reply
  reply_round rep_len len = elim (Bool-cases (ltb len rep_len)) [
    | inr over ↦ ends (ground (arith, over)) (λ rounds info t. rw over refl)
    | inl more ↦ elim (read_at-cases F abi msg (genlmsg_data abi + len) abi.nla_hdrlen) [
      | inr past ↦
          faults (ground (arith, more)) (inl past.0) (λ rounds info t. rw more (rw (past.1 t) refl))
      | inl (fits, head) ↦ elim (item-cases (genlmsg_data abi + len)) [
        | inl k ↦
            faults (ground (arith, more)) (inr (fits, k))
              (λ rounds info t. rw (more, head t) (rw (k info t) refl))
        | inr (inl k) ↦
            spins (ground (arith, more), fits) k
              (λ rounds info t. rw (more, head t) (rw (k info t) refl))
        | inr (inr (g, k)) ↦
            goes (ground (arith, more), fits) (g, k)
              (λ rounds info t. rw (more, head t) (rw (k info t) refl))
      ]
    ]
  ]

  -- Where an attribute has length 0, every round is like the one before.
  pub loop_stays :
      (rep_len len : ℕ) (g : TaskIoInfo F → TaskIoInfo F)
      → next len ≡ len
      → ((rounds : ℕ) (info : TaskIoInfo F) (t : Trace)
          → loop rep_len (suc rounds) len info t ≡ loop rep_len rounds (next len) (g info) t)
      → (rounds : ℕ) → Spins F abi msg (loop rep_len rounds len)
  unfolding read_reply
  loop_stays rep_len len g same h zero info t = refl
  loop_stays rep_len len g same h (suc rounds) info t =
      h rounds info t ∙ rw same (loop_stays rep_len len g same h rounds (g info) t)

  loop_enough :
      (rep_len rounds rounds' len : ℕ) (info : TaskIoInfo F) (t : Trace)
      → (0 < rounds) × (0 < rounds')
      → (rep_len < rounds + len) × (rep_len < rounds' + len)
      → loop rep_len rounds len info t ≡ loop rep_len rounds' len info t
  loop_enough rep_len zero rounds' len info t p q = absurd (omega (arith, p))
  loop_enough rep_len (suc rounds) zero len info t p q = absurd (omega (arith, p))
  loop_enough rep_len (suc rounds) (suc rounds') len info t p q = elim (reply_round rep_len len) [
    | ends over h ↦ h rounds info t ∙ sym (h rounds' info t)
    | faults more broken h ↦ h rounds info t ∙ sym (h rounds' info t)
    | spins at k h ↦ h rounds info t ∙ sym (h rounds' info t)
    | goes (more, fits) (g, body) h ↦
        elim (zero_or_more (len_at F abi msg (genlmsg_data abi + len))) [
          | inl empty ↦
              let stays = loop_stays rep_len len g (omega (arith, empty)) h in
              stays (suc rounds) info t ∙ sym (stays (suc rounds') info t)
          | inr some ↦
              h rounds info t
              ∙ loop_enough rep_len rounds rounds' (next len) (g info) t
                  (omega (arith, q, more), omega (arith, q, more))
                  (omega (arith, q, some), omega (arith, q, some))
              ∙ sym (h rounds' info t)
        ]
  ]

  -- On any bytes, and whatever the task, any two numbers of rounds that are more than the length of
  -- the payload give the loops over a reply the same end.
  pub read_reply_enough :
      (rep_len rounds rounds' : ℕ) (info : TaskIoInfo F) (t : Trace)
      → rep_len < rounds
      → rep_len < rounds'
      → read_reply F abi rounds msg (genlmsg_data abi) 0 rep_len info t
        ≡ read_reply F abi rounds' msg (genlmsg_data abi) 0 rep_len info t
  read_reply_enough rep_len rounds rounds' info t p q =
      let place : genlmsg_data abi + 0 ≡ genlmsg_data abi = omega arith in
      rw place at (
        loop_enough rep_len rounds rounds' 0 info t (omega (arith, p), omega (arith, q))
          (omega (arith, p), omega (arith, q)))
