-- ===== src/Netlink/Stalls.antt =====
-- Aggregates on which the inner loop of a reply has no end.
use iotop_cpp.Base.{
  ℕ, zero, suc, ◌+◌, ◌<◌, ◌≡◌, ◌≢◌, refl, sym, ◌∙◌, inl, inr, arith, lt→ltb, length,
}
use iotop_cpp.Text.{Text}
use iotop_cpp.Float.{Float}
use iotop_cpp.Run.{Trace, done, fault, spin}
use iotop_cpp.Abi.{Abi}
use iotop_cpp.Task.{TaskIoInfo}
use iotop_cpp.Netlink.{read_stats, read_aggr}
use iotop_cpp.Netlink.Readable.{Stalls}
use iotop_cpp.Netlink.Whole.{IsWhole-read_stats, read_stats-IsWhole}
use iotop_cpp.Netlink.Aggregates.{
  len_at, Spins, ends, faults, goes, aggr_round, zero_or_more, read_stats-cases, read_aggr_stays,
  stay,
}

module _ (F : Float) (abi : Abi) (msg : Text) where
  -- Once some length is counted, so many rounds do not run out.
  read_aggr_leaves :
      (rounds na len2 aggr_len : ℕ) (info : TaskIoInfo F) (t : Trace)
      → 0 < len2
      → 0 < rounds
      → length msg + 1 < rounds + na
      → read_aggr F abi rounds msg na len2 aggr_len info t ≢ spin
  read_aggr_leaves zero na len2 aggr_len info t some p q e = absurd (omega (arith, p))
  read_aggr_leaves (suc rounds) na len2 aggr_len info t some p q e =
      elim (aggr_round F abi msg na len2 aggr_len) [
        | ends over h ↦ cc (h rounds info t)
        | faults more past h ↦ cc (h rounds info t)
        | goes inside (g, body) h ↦
            read_aggr_leaves rounds (na + (len2 + len_at F abi msg na)) (len2 + len_at F abi msg na)
              aggr_len (g info) t (omega (arith, some)) (omega (arith, q, inside))
              (omega (arith, q, some)) (sym (h rounds info t) ∙ e)
      ]

  -- So many rounds run out exactly where the first attribute has length 0.
  pub read_aggr-Stalls :
      (na aggr_len : ℕ) (info : TaskIoInfo F) (t : Trace)
      → read_aggr F abi (suc (suc (suc (length msg)))) msg na 0 aggr_len info t ≡ spin
      → Stalls abi msg na aggr_len
  read_aggr-Stalls na aggr_len info t e = elim (aggr_round F abi msg na 0 aggr_len) [
    | ends over h ↦ absurd (cc (h (suc (suc (length msg))) info t))
    | faults more past h ↦ absurd (cc (h (suc (suc (length msg))) info t))
    | goes (inside, some) body h ↦ elim (zero_or_more (len_at F abi msg na)) [
      | inl empty ↦
          (some, read_stats-IsWhole F abi msg na info (body.0 info) t t (body.1 info t), empty)
      | inr moved ↦ absurd (
          read_aggr_leaves (suc (suc (length msg))) (na + (0 + len_at F abi msg na))
            (0 + len_at F abi msg na) aggr_len (body.0 info) t (omega (arith, moved)) (omega arith)
            (omega (arith, moved)) (sym (h (suc (suc (length msg))) info t) ∙ e))
    ]
  ]

  -- A round, where the attribute is gone through.
  pub aggr_goes :
      (na len2 aggr_len : ℕ) (f : TaskIoInfo F → TaskIoInfo F)
      → len2 < aggr_len
      → ((info : TaskIoInfo F) (t : Trace) → read_stats F abi msg na info t ≡ done (f info) t)
      → (rounds : ℕ) (info : TaskIoInfo F) (t : Trace)
      → read_aggr F abi (suc rounds) msg na len2 aggr_len info t
        ≡ read_aggr F abi rounds msg
            (na + (len2 + len_at F abi msg na))
            (len2 + len_at F abi msg na)
            aggr_len
            (f info)
            t
  unfolding read_aggr
  aggr_goes na len2 aggr_len f more reads rounds info t = elim (read_stats-cases F abi msg na) [
    | inr past ↦ let both : fault ≡ done (f info) t = sym (past info t) ∙ reads info t in cc
    | inl (inside, head, _) ↦ rw (lt→ltb len2 aggr_len more) (rw (reads info t, head t) refl)
  ]

  pub Stalls-read_aggr :
      (na aggr_len : ℕ)
      → Stalls abi msg na aggr_len
      → (rounds : ℕ) → Spins F abi msg (read_aggr F abi rounds msg na 0 aggr_len)
  Stalls-read_aggr na aggr_len (some, whole, empty) =
      let (f, reads) = IsWhole-read_stats F abi msg na whole in
      read_aggr_stays F abi msg na aggr_len f
        (stay F abi msg na aggr_len f empty (aggr_goes na 0 aggr_len f some reads))
