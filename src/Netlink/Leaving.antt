-- ===== src/Netlink/Leaving.antt =====
-- Aggregates on which the inner loop of a reply reads past the end of the message.
use iotop_cpp.Base.{ℕ, zero, suc, ◌+◌, ◌≡◌, refl, sym, ◌∙◌, arith, lt→ltb, length}
use iotop_cpp.Text.{Text}
use iotop_cpp.Float.{Float}
use iotop_cpp.Run.{Trace, done, fault}
use iotop_cpp.Abi.{Abi}
use iotop_cpp.Task.{TaskIoInfo}
use iotop_cpp.Netlink.{read_aggr}
use iotop_cpp.Netlink.Aggregates.{Faults, ends, faults, goes, aggr_round, read_aggr_enough}
use iotop_cpp.Netlink.Readable.{Leaves, out, on}
use iotop_cpp.Netlink.Whole.{
  IsCut-read_stats, read_stats-IsCut, IsWhole-read_stats, read_stats-IsWhole,
}
use iotop_cpp.Netlink.Stalls.{aggr_goes}

module _ (F : Float) (abi : Abi) (msg : Text) where
  pub read_aggr-Leaves :
      (rounds na len2 aggr_len : ℕ) (info : TaskIoInfo F) (t : Trace)
      → read_aggr F abi rounds msg na len2 aggr_len info t ≡ fault
      → Leaves abi msg aggr_len na len2
  unfolding read_aggr
  read_aggr-Leaves zero na len2 aggr_len info t e = absurd (cc e)
  read_aggr-Leaves (suc rounds) na len2 aggr_len info t e =
      elim (aggr_round F abi msg na len2 aggr_len) [
        | ends over h ↦ let back : done info t ≡ fault = sym (h rounds info t) ∙ e in cc
        | faults more past h ↦ out more (read_stats-IsCut F abi msg na info t (past info t))
        | goes (inside, more) body h ↦
            on more (read_stats-IsWhole F abi msg na info (body.0 info) t t (body.1 info t))
              (read_aggr-Leaves rounds _ _ aggr_len (body.0 info) t (sym (h rounds info t) ∙ e))
      ]

  -- More rounds do not help.
  fault_stays :
      (rounds more na len2 aggr_len : ℕ) (info : TaskIoInfo F) (t : Trace)
      → read_aggr F abi rounds msg na len2 aggr_len info t ≡ fault
      → read_aggr F abi (rounds + more) msg na len2 aggr_len info t ≡ fault
  unfolding read_aggr
  fault_stays zero more na len2 aggr_len info t e = absurd (cc e)
  fault_stays (suc rounds) more na len2 aggr_len info t e =
      let next : suc rounds + more ≡ suc (rounds + more) = omega arith in
      rw next (elim (aggr_round F abi msg na len2 aggr_len) [
        | ends over h ↦ let back : done info t ≡ fault = sym (h rounds info t) ∙ e in cc
        | faults _ past h ↦ h (rounds + more) info t
        | goes inside body h ↦
            h (rounds + more) info t
            ∙ fault_stays rounds more _ _ aggr_len (body.0 info) t (sym (h rounds info t) ∙ e)
      ])

  Leaves-some :
      (aggr_len na len2 : ℕ)
      → Leaves abi msg aggr_len na len2
      → (info : TaskIoInfo F) (t : Trace)
      → (rounds : ℕ) × (read_aggr F abi rounds msg na len2 aggr_len info t ≡ fault)
  unfolding read_aggr
  Leaves-some aggr_len na len2 (out more past) info t =
      (1, rw (lt→ltb len2 aggr_len more) (rw (IsCut-read_stats F abi msg na past info t) refl))
  Leaves-some aggr_len na len2 (on more whole later) info t =
      let (f, body) = IsWhole-read_stats F abi msg na whole in
      let (rounds, e) = Leaves-some aggr_len _ _ later (f info) t in
      (suc rounds, aggr_goes F abi msg na len2 aggr_len f more body rounds info t ∙ e)

  pub Leaves-read_aggr :
      (na aggr_len : ℕ)
      → Leaves abi msg aggr_len na 0
      → Faults F abi msg (read_aggr F abi (suc (suc (suc (length msg)))) msg na 0 aggr_len)
  Leaves-read_aggr na aggr_len h info t =
      let (rounds, e) = Leaves-some aggr_len na 0 h info t in
      read_aggr_enough F abi msg (suc (suc (suc (length msg)))) (rounds + (length msg + 3)) na
        aggr_len info t (omega arith, omega arith)
      ∙ fault_stays rounds (length msg + 3) na 0 aggr_len info t e
