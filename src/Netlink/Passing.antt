-- ===== src/Netlink/Passing.antt =====
-- Aggregates that the inner loop of a reply comes through.
use iotop_cpp.Base.{ℕ, zero, suc, ◌+◌, ◌≡◌, refl, sym, ◌∙◌, false, arith, ltb, length}
use iotop_cpp.Text.{Text}
use iotop_cpp.Float.{Float}
use iotop_cpp.Run.{Trace, done, fault}
use iotop_cpp.Abi.{Abi}
use iotop_cpp.Task.{TaskIoInfo}
use iotop_cpp.Netlink.{read_aggr}
use iotop_cpp.Netlink.Aggregates.{ends, faults, goes, aggr_round, read_aggr_enough}
use iotop_cpp.Netlink.Stalls.{aggr_goes}
use iotop_cpp.Netlink.Whole.{IsWhole-read_stats, read_stats-IsWhole}
use iotop_cpp.Netlink.Readable.{Passes, over, step}

module _ (F : Float) (abi : Abi) (msg : Text) where
  pub read_aggr-Passes :
      (rounds na len2 aggr_len : ℕ) (info info' : TaskIoInfo F) (t u : Trace)
      → read_aggr F abi rounds msg na len2 aggr_len info t ≡ done info' u
      → Passes abi msg aggr_len na len2
  unfolding read_aggr
  read_aggr-Passes zero na len2 aggr_len info info' t u e = absurd (cc e)
  read_aggr-Passes (suc rounds) na len2 aggr_len info info' t u e =
      elim (aggr_round F abi msg na len2 aggr_len) [
        | ends counted h ↦ over counted
        | faults more past h ↦ let broken : fault ≡ done info' u = sym (h rounds info t) ∙ e in cc
        | goes (inside, more) (f, body) h ↦
            step more (read_stats-IsWhole F abi msg na info (f info) t t (body info t))
              (read_aggr-Passes rounds _ _ aggr_len (f info) info' t u (sym (h rounds info t) ∙ e))
      ]

  -- More rounds change nothing.
  return_stays :
      (rounds more na len2 aggr_len : ℕ) (info info' : TaskIoInfo F) (t u : Trace)
      → read_aggr F abi rounds msg na len2 aggr_len info t ≡ done info' u
      → read_aggr F abi (rounds + more) msg na len2 aggr_len info t ≡ done info' u
  unfolding read_aggr
  return_stays zero more na len2 aggr_len info info' t u e = absurd (cc e)
  return_stays (suc rounds) more na len2 aggr_len info info' t u e =
      let next : suc rounds + more ≡ suc (rounds + more) = omega arith in
      rw next (elim (aggr_round F abi msg na len2 aggr_len) [
        | ends counted h ↦ h (rounds + more) info t ∙ sym (h rounds info t) ∙ e
        | faults _ past h ↦ h (rounds + more) info t ∙ sym (h rounds info t) ∙ e
        | goes inside (f, body) h ↦
            h (rounds + more) info t
            ∙ return_stays rounds more _ _ aggr_len (f info) info' t u (sym (h rounds info t) ∙ e)
      ])

  Passes-some :
      (aggr_len na len2 : ℕ)
      → Passes abi msg aggr_len na len2
      → (info : TaskIoInfo F) (t : Trace)
      → (rounds : ℕ) × (info' : TaskIoInfo F) × (read_aggr F abi rounds msg na len2 aggr_len info t
          ≡ done info' t)
  unfolding read_aggr
  Passes-some aggr_len na len2 (over counted) info t =
      let not_less : ltb len2 aggr_len ≡ false = ground (arith, counted) in
      (1, info, rw not_less refl)
  Passes-some aggr_len na len2 (step more whole later) info t =
      let (f, body) = IsWhole-read_stats F abi msg na whole in
      let (rounds, info', e) = Passes-some aggr_len _ _ later (f info) t in
      (suc rounds, info', aggr_goes F abi msg na len2 aggr_len f more body rounds info t ∙ e)

  pub Passes-read_aggr :
      (na aggr_len : ℕ)
      → Passes abi msg aggr_len na 0
      → (info : TaskIoInfo F) (t : Trace)
      → (info' : TaskIoInfo F) × (read_aggr F abi
            (suc (suc (suc (length msg))))
            msg
            na
            0
            aggr_len
            info
            t
          ≡ done info' t)
  Passes-read_aggr na aggr_len h info t =
      let (rounds, info', e) = Passes-some aggr_len na 0 h info t in
      (
        info',
        read_aggr_enough F abi msg (suc (suc (suc (length msg)))) (rounds + (length msg + 3)) na
              aggr_len info t (omega arith, omega arith)
            ∙ return_stays rounds (length msg + 3) na 0 aggr_len info info' t t e,
      )
