-- ===== src/Netlink/Whole.antt =====
-- Attributes that lie within the message, and others, as the inner loop of a reply reads them.
use iotop_cpp.Base.{
  ℕ, ◌+◌, ◌≤◌, ◌<◌, ◌≡◌, refl, inl, inr, false, arith, leb, le→leb, ◌==◌, length, drop, Bool-cases,
}
use native.Mathlib.Decide.{dec_le}
use iotop_cpp.Text.{Text}
use iotop_cpp.Float.{Float}
use iotop_cpp.Run.{Trace, done, fault}
use iotop_cpp.Abi.{Abi}
use iotop_cpp.Task.{TaskIoInfo}
use iotop_cpp.Netlink.{nla_data, read_at, with_stats, read_stats}
use iotop_cpp.Netlink.Aggregates.{Faults, Writes}
use iotop_cpp.Netlink.Readable.{IsWhole, IsCut, header, stats}

module _ (F : Float) (abi : Abi) (msg : Text) where
  pub cut_at :
      (na size : ℕ) → length msg < na + size → (t : Trace) → read_at abi msg na size t ≡ fault
  unfolding read_at
  cut_at na size h t =
      let past : leb (na + size) (length msg) ≡ false = ground (arith, h) in rw past refl

  pub whole_at :
      (na size : ℕ)
      → na + size ≤ length msg
      → (t : Trace) → read_at abi msg na size t ≡ done (drop na msg) t
  unfolding read_at
  whole_at na size h t = rw (le→leb _ _ h) refl

  pub IsCut-read_stats : (na : ℕ) → IsCut abi msg na → Faults F abi msg (read_stats F abi msg na)
  unfolding read_stats
  IsCut-read_stats na (header past) info t = rw (cut_at na abi.nla_hdrlen past t) refl
  IsCut-read_stats na (stats fits found past) info t =
      rw (whole_at na abi.nla_hdrlen fits t)
        (rw found (rw (cut_at (nla_data abi na) abi.end_of_write_bytes past t) refl))

  pub read_stats-IsCut :
      (na : ℕ) (info : TaskIoInfo F) (t : Trace)
      → read_stats F abi msg na info t ≡ fault
      → IsCut abi msg na
  unfolding read_stats
  read_stats-IsCut na info t e = elim (dec_le (na + abi.nla_hdrlen) (length msg)) [
    | no past ↦ header (omega (arith, past))
    | yes fits ↦ elim (Bool-cases (abi.nla_type (drop na msg) == abi.taskstats_type_stats)) [
      | inr other ↦
          let back : done info t ≡ fault =
            rw other at (rw (whole_at na abi.nla_hdrlen fits t) at e) in
          cc
      | inl found ↦ elim (dec_le (nla_data abi na + abi.end_of_write_bytes) (length msg)) [
        | no past ↦ stats fits found (omega (arith, past))
        | yes room ↦
            let back : done _ t ≡ fault =
              rw (whole_at (nla_data abi na) abi.end_of_write_bytes room t) at
                (rw found at (rw (whole_at na abi.nla_hdrlen fits t) at e)) in
            cc
      ]
    ]
  ]

  pub IsWhole-read_stats :
      (na : ℕ) → IsWhole abi msg na → Writes F abi msg (read_stats F abi msg na)
  unfolding read_stats
  IsWhole-read_stats na (fits, room) =
      elim (Bool-cases (abi.nla_type (drop na msg) == abi.taskstats_type_stats)) [
        | inr other ↦
            ((λ info. info), λ info t. rw (whole_at na abi.nla_hdrlen fits t) (rw other refl))
        | inl found ↦ (
          (λ info. with_stats F abi (drop (nla_data abi na) msg) info),
          λ info t. rw (whole_at na abi.nla_hdrlen fits t) (
              rw found
                (rw (whole_at (nla_data abi na) abi.end_of_write_bytes (room found) t) refl)),
        )
      ]

  pub read_stats-IsWhole :
      (na : ℕ) (info info' : TaskIoInfo F) (t u : Trace)
      → read_stats F abi msg na info t ≡ done info' u
      → IsWhole abi msg na
  unfolding read_stats
  read_stats-IsWhole na info info' t u e = elim (dec_le (na + abi.nla_hdrlen) (length msg)) [
    | no past ↦
        let broken : fault ≡ done info' u =
          rw (cut_at na abi.nla_hdrlen (omega (arith, past)) t) at e in
        cc
    | yes fits ↦ (
      fits,
      λ found. elim (dec_le (nla_data abi na + abi.end_of_write_bytes) (length msg)) [
        | yes room ↦ room
        | no past ↦
            let broken : fault ≡ done info' u =
              rw (cut_at (nla_data abi na) abi.end_of_write_bytes (omega (arith, past)) t) at
                (rw found at (rw (whole_at na abi.nla_hdrlen fits t) at e)) in
            cc
      ],
    )
  ]
