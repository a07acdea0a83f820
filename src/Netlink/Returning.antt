-- ===== src/Netlink/Returning.antt =====
-- The replies that the loops come through, and no others.
use iotop_cpp.Base.{ℕ, zero, suc, ◌+◌, ◌<◌, ◌≡◌, refl, sym, ◌∙◌, false, arith, ltb, ◌↔◌}
use iotop_cpp.Text.{Text}
use iotop_cpp.Float.{Float}
use iotop_cpp.Run.{Trace, done, fault}
use iotop_cpp.Abi.{Abi}
use iotop_cpp.Task.{TaskIoInfo}
use iotop_cpp.Netlink.{genlmsg_data, read_at, read_reply}
use iotop_cpp.Netlink.Readable.{Readable, over, step}
use iotop_cpp.Netlink.Through.{item-IsThrough, IsThrough-item}
use iotop_cpp.Netlink.Endless.{loop_goes}
use iotop_cpp.Netlink.Enough.{loop, next, ends, faults, spins, goes, reply_round, read_reply_enough}

module _ (F : Float) (abi : Abi) (msg : Text) where
  loop-Readable :
      (rep_len rounds len : ℕ) (info info' : TaskIoInfo F) (t u : Trace)
      → loop F abi msg rep_len rounds len info t ≡ done info' u
      → Readable abi msg rep_len len
  unfolding read_reply
  loop-Readable rep_len zero len info info' t u e = absurd (cc e)
  loop-Readable rep_len (suc rounds) len info info' t u e =
      elim (reply_round F abi msg rep_len len) [
        | ends counted h ↦ over counted
        | spins at k h ↦ absurd (cc (sym (h rounds info t) ∙ e))
        | faults more broken h ↦ let past : fault ≡ done info' u = sym (h rounds info t) ∙ e in cc
        | goes at w h ↦
            step at
              (item-IsThrough F abi msg (genlmsg_data abi + len) info (w.0 info) t t (w.1 info t))
              (loop-Readable rep_len rounds (next F abi msg len) (w.0 info) info' t u
                (sym (h rounds info t) ∙ e))
      ]

  -- More rounds change nothing.
  return_stays :
      (rep_len rounds more len : ℕ) (info info' : TaskIoInfo F) (t u : Trace)
      → loop F abi msg rep_len rounds len info t ≡ done info' u
      → loop F abi msg rep_len (rounds + more) len info t ≡ done info' u
  unfolding read_reply
  return_stays rep_len zero more len info info' t u e = absurd (cc e)
  return_stays rep_len (suc rounds) more len info info' t u e =
      let succ : suc rounds + more ≡ suc (rounds + more) = omega arith in
      rw succ (elim (reply_round F abi msg rep_len len) [
        | ends counted h ↦ h (rounds + more) info t ∙ sym (h rounds info t) ∙ e
        | spins at k h ↦ h (rounds + more) info t ∙ sym (h rounds info t) ∙ e
        | faults less broken h ↦ h (rounds + more) info t ∙ sym (h rounds info t) ∙ e
        | goes at w h ↦
            h (rounds + more) info t
            ∙ return_stays rep_len rounds more (next F abi msg len) (w.0 info) info' t u
                (sym (h rounds info t) ∙ e)
      ])

  Readable-some :
      (rep_len len : ℕ)
      → Readable abi msg rep_len len
      → (info : TaskIoInfo F) (t : Trace)
      → (rounds : ℕ) × (info' : TaskIoInfo F) × (loop F abi msg rep_len rounds len info t
          ≡ done info' t)
  unfolding read_reply read_at
  Readable-some rep_len len (over counted) info t =
      let not_less : ltb len rep_len ≡ false = ground (arith, counted) in
      (1, info, rw not_less refl)
  Readable-some rep_len len (step at through later) info t =
      let (g, body) = IsThrough-item F abi msg (genlmsg_data abi + len) through in
      let (rounds, info', e) = Readable-some rep_len (next F abi msg len) later (g info) t in
      (suc rounds, info', loop_goes F abi msg rep_len len g at body rounds info t ∙ e)

  -- On any bytes, whatever the task, and with more rounds than the length of the payload, the loops
  -- over a reply come back exactly if the message can be read: its attributes, one behind the other
  -- until the lengths add up to that of the payload, have their headers within the buffer, and what
  -- an aggregate holds is passed through, each attribute at the places where the inner loop looks
  -- with its header and the fields of any statistics that are read within the buffer, until the
  -- length that is counted reaches that of the aggregate.
  pub read_reply_returns_iff :
      (rep_len rounds : ℕ) (info : TaskIoInfo F) (t : Trace)
      → rep_len < rounds
      → ((info' : TaskIoInfo F) × (read_reply F abi rounds msg (genlmsg_data abi) 0 rep_len info t
            ≡ done info' t))
        ↔ Readable abi msg rep_len 0
  read_reply_returns_iff rep_len rounds info t enough =
      let place : genlmsg_data abi + 0 ≡ genlmsg_data abi = omega arith in
      (
        λ (info', e). loop-Readable rep_len rounds 0 info info' t t (rw place e),
        λ h.
            let (some_rounds, info', e) = Readable-some rep_len 0 h info t in
            (
              info',
              read_reply_enough F abi msg rep_len rounds (some_rounds + rounds) info t enough
                    (omega (arith, enough))
                  ∙ rw place at (return_stays rep_len some_rounds rounds 0 info info' t t e),
            ),
      )
