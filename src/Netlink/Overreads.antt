-- ===== src/Netlink/Overreads.antt =====
-- The replies on which the loops read past the end of the message.
use iotop_cpp.Base.{
  true, ℕ, zero, suc, ◌+◌, ◌<◌, ◌≡◌, refl, sym, ◌∙◌, inl, inr, false, arith, lt→ltb, le→leb, leb,
  length, Bool-cases, ◌↔◌,
}
use iotop_cpp.Text.{Text}
use iotop_cpp.Float.{Float}
use iotop_cpp.Run.{Trace, done, fault}
use iotop_cpp.Abi.{Abi}
use iotop_cpp.Task.{TaskIoInfo}
use iotop_cpp.Netlink.{genlmsg_data, nla_data, read_at, read_reply}
use iotop_cpp.Netlink.Aggregates.{Faults}
use iotop_cpp.Netlink.Readable.{is_aggregate, room_at, Leaves, Overreads, past, within, later}
use iotop_cpp.Netlink.Through.{item-IsThrough, IsThrough-item}
use iotop_cpp.Netlink.Leaving.{read_aggr-Leaves, Leaves-read_aggr}
use iotop_cpp.Netlink.Enough.{
  item, loop, next, ends, faults, spins, goes, reply_round, read_reply_enough,
}
use iotop_cpp.Netlink.Endless.{loop_goes}

module _ (F : Float) (abi : Abi) (msg : Text) where
  -- An aggregate within which the loop comes to an attribute that is not whole.
  abbrev LeavesAt : ℕ → Type 0
  LeavesAt na =
      (is_aggregate abi msg na ≡ true) × Leaves abi msg (room_at abi msg na) (nla_data abi na) 0

  item-LeavesAt :
      (na : ℕ) (info : TaskIoInfo F) (t : Trace) → item F abi msg na info t ≡ fault → LeavesAt na
  item-LeavesAt na info t e = elim (Bool-cases (is_aggregate abi msg na)) [
    | inr other ↦ let back : done info t ≡ fault = rw other at e in cc
    | inl aggr ↦ (
      aggr,
      read_aggr-Leaves F abi msg (suc (suc (suc (length msg)))) (nla_data abi na) 0 _ info t
          (rw aggr at e),
    )
  ]

  LeavesAt-item : (na : ℕ) → LeavesAt na → Faults F abi msg (item F abi msg na)
  LeavesAt-item na (aggr, leaves) info t =
      rw aggr (Leaves-read_aggr F abi msg (nla_data abi na) _ leaves info t)

  loop-Overreads :
      (rep_len rounds len : ℕ) (info : TaskIoInfo F) (t : Trace)
      → loop F abi msg rep_len rounds len info t ≡ fault
      → Overreads abi msg rep_len len
  unfolding read_reply
  loop-Overreads rep_len zero len info t e = absurd (cc e)
  loop-Overreads rep_len (suc rounds) len info t e = elim (reply_round F abi msg rep_len len) [
    | ends over h ↦ let back : done info t ≡ fault = sym (h rounds info t) ∙ e in cc
    | spins at k h ↦ absurd (cc (sym (h rounds info t) ∙ e))
    | faults more (inl behind) h ↦ past more behind
    | faults more (inr (fits, k)) h ↦
        let (aggr, leaves) = item-LeavesAt (genlmsg_data abi + len) info t (k info t) in
        within (more, fits) aggr leaves
    | goes at w h ↦
        later at
          (item-IsThrough F abi msg (genlmsg_data abi + len) info (w.0 info) t t (w.1 info t))
          (loop-Overreads rep_len rounds (next F abi msg len) (w.0 info) t
            (sym (h rounds info t) ∙ e))
  ]

  -- More rounds do not help.
  overread_stays :
      (rep_len rounds more len : ℕ) (info : TaskIoInfo F) (t : Trace)
      → loop F abi msg rep_len rounds len info t ≡ fault
      → loop F abi msg rep_len (rounds + more) len info t ≡ fault
  unfolding read_reply
  overread_stays rep_len zero more len info t e = absurd (cc e)
  overread_stays rep_len (suc rounds) more len info t e =
      let succ : suc rounds + more ≡ suc (rounds + more) = omega arith in
      rw succ (elim (reply_round F abi msg rep_len len) [
        | ends over h ↦ let back : done info t ≡ fault = sym (h rounds info t) ∙ e in cc
        | spins at k h ↦ absurd (cc (sym (h rounds info t) ∙ e))
        | faults _ broken h ↦ h (rounds + more) info t
        | goes at w h ↦
            h (rounds + more) info t
            ∙ overread_stays rep_len rounds more (next F abi msg len) (w.0 info) t
                (sym (h rounds info t) ∙ e)
      ])

  Overreads-some :
      (rep_len len : ℕ)
      → Overreads abi msg rep_len len
      → (info : TaskIoInfo F) (t : Trace)
      → (rounds : ℕ) × (loop F abi msg rep_len rounds len info t ≡ fault)
  unfolding read_reply read_at
  Overreads-some rep_len len (past more behind) info t =
      let outside : leb (genlmsg_data abi + len + abi.nla_hdrlen) (length msg) ≡ false =
        ground (arith, behind) in
      (1, rw (lt→ltb len rep_len more, outside) refl)
  Overreads-some rep_len len (within (more, fits) aggr leaves) info t = (
    1,
    rw (lt→ltb len rep_len more, le→leb _ _ fits)
        (rw (LeavesAt-item (genlmsg_data abi + len) (aggr, leaves) info t) refl),
  )
  Overreads-some rep_len len (later at through h) info t =
      let (g, body) = IsThrough-item F abi msg (genlmsg_data abi + len) through in
      let (rounds, e) = Overreads-some rep_len (next F abi msg len) h (g info) t in
      (suc rounds, loop_goes F abi msg rep_len len g at body rounds info t ∙ e)

  -- On any bytes, whatever the task, and with more rounds than the length of the payload, the loops
  -- over a reply read past the end of the message exactly if they come, after attributes that they
  -- go through, to one whose header ends behind the message, or to an aggregate within which they
  -- come, at the places where the inner loop looks, to an attribute whose header ends behind the
  -- message, or to statistics of which a field that is read ends there.
  pub read_reply_faults_iff :
      (rep_len rounds : ℕ) (info : TaskIoInfo F) (t : Trace)
      → rep_len < rounds
      → (read_reply F abi rounds msg (genlmsg_data abi) 0 rep_len info t ≡ fault)
        ↔ Overreads abi msg rep_len 0
  read_reply_faults_iff rep_len rounds info t enough =
      let place : genlmsg_data abi + 0 ≡ genlmsg_data abi = omega arith in
      (
        λ e. loop-Overreads rep_len rounds 0 info t (rw place e),
        λ h.
            let (some_rounds, e) = Overreads-some rep_len 0 h info t in
            read_reply_enough F abi msg rep_len rounds (some_rounds + rounds) info t enough
              (omega (arith, enough))
            ∙ rw place at (overread_stays rep_len some_rounds rounds 0 info t e),
      )
