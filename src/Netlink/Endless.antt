-- ===== src/Netlink/Endless.antt =====
-- The replies on which the loops have no end.
use iotop_cpp.Base.{
  true, ℕ, zero, suc, ◌+◌, ◌<◌, ◌≡◌, refl, sym, ◌∙◌, inl, inr, arith, lt→ltb, le→leb, Bool-cases,
  ◌↔◌,
}
use iotop_cpp.Text.{Text}
use iotop_cpp.Float.{Float}
use iotop_cpp.Run.{Trace, done, spin}
use iotop_cpp.Abi.{Abi}
use iotop_cpp.Task.{TaskIoInfo}
use iotop_cpp.Netlink.{genlmsg_data, nla_data, read_at, read_reply}
use iotop_cpp.Netlink.Aggregates.{len_at, Spins, zero_or_more}
use iotop_cpp.Netlink.Readable.{is_aggregate, room_at, Stalls, Hangs, stays, within, later}
use iotop_cpp.Netlink.Through.{item-IsThrough, IsThrough-item}
use iotop_cpp.Netlink.Stalls.{read_aggr-Stalls, Stalls-read_aggr}
use iotop_cpp.Netlink.Enough.{
  item, loop, next, Fits, ends, faults, spins, goes, reply_round, loop_stays,
}

module _ (F : Float) (abi : Abi) (msg : Text) where
  -- An aggregate whose first attribute is read, and has length 0.
  abbrev StallsAt : ℕ → Type 0
  StallsAt na =
      (is_aggregate abi msg na ≡ true) × Stalls abi msg (nla_data abi na) (room_at abi msg na)

  item-StallsAt :
      (na : ℕ) (info : TaskIoInfo F) (t : Trace) → item F abi msg na info t ≡ spin → StallsAt na
  item-StallsAt na info t e = elim (Bool-cases (is_aggregate abi msg na)) [
    | inr other ↦ let back : done info t ≡ spin = rw other at e in cc
    | inl aggr ↦ (aggr, read_aggr-Stalls F abi msg (nla_data abi na) _ info t (rw aggr at e))
  ]

  StallsAt-item : (na : ℕ) → StallsAt na → Spins F abi msg (item F abi msg na)
  StallsAt-item na (aggr, stalls) info t =
      rw aggr (Stalls-read_aggr F abi msg (nla_data abi na) _ stalls _ info t)

  loop-Hangs :
      (rep_len rounds len : ℕ) (info : TaskIoInfo F) (t : Trace)
      → 0 < rounds
      → rep_len < rounds + len
      → loop F abi msg rep_len rounds len info t ≡ spin
      → Hangs abi msg rep_len len
  loop-Hangs rep_len zero len info t p q e = absurd (omega (arith, p))
  loop-Hangs rep_len (suc rounds) len info t p q e = elim (reply_round F abi msg rep_len len) [
    | ends over h ↦ let back : done info t ≡ spin = sym (h rounds info t) ∙ e in cc
    | faults more broken h ↦ cc (h rounds info t)
    | spins at k h ↦
        let (aggr, stalls) = item-StallsAt (genlmsg_data abi + len) info t (k info t) in
        within at aggr stalls
    | goes at w h ↦ elim (zero_or_more (len_at F abi msg (genlmsg_data abi + len))) [
      | inl empty ↦
          stays at
            (item-IsThrough F abi msg (genlmsg_data abi + len) info (w.0 info) t t (w.1 info t))
            empty
      | inr some ↦
          later at
            (item-IsThrough F abi msg (genlmsg_data abi + len) info (w.0 info) t t (w.1 info t))
            (loop-Hangs rep_len rounds (next F abi msg len) (w.0 info) t (omega (arith, q, at.0))
              (omega (arith, q, some)) (sym (h rounds info t) ∙ e))
    ]
  ]

  -- A round, where the attribute is read and gone through.
  pub loop_goes :
      (rep_len len : ℕ) (g : TaskIoInfo F → TaskIoInfo F)
      → (len < rep_len) × Fits F abi msg len
      → ((info : TaskIoInfo F) (t : Trace)
          → item F abi msg (genlmsg_data abi + len) info t ≡ done (g info) t)
      → (rounds : ℕ) (info : TaskIoInfo F) (t : Trace)
      → loop F abi msg rep_len (suc rounds) len info t
        ≡ loop F abi msg rep_len rounds (next F abi msg len) (g info) t
  unfolding read_reply read_at
  loop_goes rep_len len g (more, fits) body rounds info t =
      rw (lt→ltb len rep_len more, le→leb _ _ fits) (rw (body info t) refl)

  loop-Spins :
      (rep_len len : ℕ)
      → (len < rep_len) × Fits F abi msg len
      → Spins F abi msg (item F abi msg (genlmsg_data abi + len))
      → (rounds : ℕ) → Spins F abi msg (loop F abi msg rep_len rounds len)
  unfolding read_reply read_at
  loop-Spins rep_len len (more, fits) body zero info t = refl
  loop-Spins rep_len len (more, fits) body (suc rounds) info t =
      rw (lt→ltb len rep_len more, le→leb _ _ fits) (rw (body info t) refl)

  Hangs-loop :
      (rep_len len : ℕ)
      → Hangs abi msg rep_len len
      → (rounds : ℕ) → Spins F abi msg (loop F abi msg rep_len rounds len)
  unfolding read_reply
  Hangs-loop rep_len len h zero info t = refl
  Hangs-loop rep_len len (stays at through empty) (suc rounds) info t =
      let (g, body) = IsThrough-item F abi msg (genlmsg_data abi + len) through in
      loop_stays F abi msg rep_len len g (omega (arith, empty)) (loop_goes rep_len len g at body)
        (suc rounds) info t
  Hangs-loop rep_len len (within at aggr stalls) (suc rounds) info t =
      loop-Spins rep_len len at (StallsAt-item (genlmsg_data abi + len) (aggr, stalls)) (suc rounds)
        info t
  Hangs-loop rep_len len (later at through h) (suc rounds) info t =
      let (g, body) = IsThrough-item F abi msg (genlmsg_data abi + len) through in
      loop_goes rep_len len g at body rounds info t
      ∙ Hangs-loop rep_len (next F abi msg len) h rounds (g info) t

  -- On any bytes, whatever the task, and with more rounds than the length of the payload, the loops
  -- over a reply use up their rounds exactly if they come, after attributes that they go through,
  -- to one that they go through and whose aligned length is 0, or to an aggregate with something in
  -- it, whose first attribute lies within the buffer, as far as it is read, and has the aligned
  -- length 0.
  pub read_reply_spins_iff :
      (rep_len rounds : ℕ) (info : TaskIoInfo F) (t : Trace)
      → rep_len < rounds
      → (read_reply F abi rounds msg (genlmsg_data abi) 0 rep_len info t ≡ spin)
        ↔ Hangs abi msg rep_len 0
  read_reply_spins_iff rep_len rounds info t enough =
      let place : genlmsg_data abi + 0 ≡ genlmsg_data abi = omega arith in
      (
        λ e.
            loop-Hangs rep_len rounds 0 info t (omega (arith, enough)) (omega (arith, enough))
              (rw place e),
        λ h. rw place at (Hangs-loop rep_len 0 h rounds info t),
      )
