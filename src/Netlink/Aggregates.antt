-- ===== src/Netlink/Aggregates.antt =====
-- The rounds of the loop over an aggregate, on any bytes.
use iotop_cpp.Base.{
  ℕ, zero, suc, ◌+◌, ◌≤◌, ◌<◌, ◌≡◌, refl, sym, ◌∙◌, ◌⊎◌, inl, inr, arith, leb, ltb, ◌==◌, length,
  drop, Bool-cases,
}
use iotop_cpp.Text.{Text}
use iotop_cpp.Float.{Float}
use iotop_cpp.Run.{Trace, M, done, fault, spin}
use iotop_cpp.Abi.{Abi}
use iotop_cpp.Task.{TaskIoInfo}
use iotop_cpp.Netlink.Readable.{size_at}
use iotop_cpp.Netlink.{nla_data, read_at, with_stats, read_stats, read_aggr}

pub zero_or_more : (n : ℕ) → (n ≡ 0) ⊎ (0 < n)
zero_or_more zero = inl refl
zero_or_more (suc n) = inr (omega arith)

module _ (F : Float) (abi : Abi) (msg : Text) where
  -- The aligned length of the attribute at a pointer.
  abbrev pub len_at : ℕ → ℕ
  len_at = size_at abi msg

  -- A part of the loops ends alike for every task.
  abbrev pub Faults : (TaskIoInfo F → M (TaskIoInfo F)) → Type 0
  Faults m = (info : TaskIoInfo F) (t : Trace) → m info t ≡ fault

  abbrev pub Spins : (TaskIoInfo F → M (TaskIoInfo F)) → Type 0
  Spins m = (info : TaskIoInfo F) (t : Trace) → m info t ≡ spin

  abbrev pub Writes : (TaskIoInfo F → M (TaskIoInfo F)) → Type 0
  Writes m =
      (g : TaskIoInfo F → TaskIoInfo F) × ((info : TaskIoInfo F) (t : Trace)
        → m info t ≡ done (g info) t)

  pub read_at-cases :
      (na size : ℕ)
      → ((na + size ≤ length msg)
          × ((t : Trace) → read_at abi msg na size t ≡ done (drop na msg) t))
        ⊎ ((length msg < na + size) × ((t : Trace) → read_at abi msg na size t ≡ fault))
  unfolding read_at
  read_at-cases na size = elim (Bool-cases (leb (na + size) (length msg))) [
    | inl fits ↦ inl (ground (arith, fits), λ t. rw fits refl)
    | inr past ↦ inr (ground (arith, past), λ t. rw past refl)
  ]

  pub read_stats-cases :
      (na : ℕ)
      → ((na ≤ length msg)
          × ((t : Trace) → read_at abi msg na abi.nla_hdrlen t ≡ done (drop na msg) t)
          × Writes (read_stats F abi msg na))
        ⊎ Faults (read_stats F abi msg na)
  unfolding read_stats
  read_stats-cases na = elim (read_at-cases na abi.nla_hdrlen) [
    | inr past ↦ inr (λ info t. rw (past.1 t) refl)
    | inl (fits, head) ↦
        elim (Bool-cases (abi.nla_type (drop na msg) == abi.taskstats_type_stats)) [
          | inr other ↦
              inl (omega (arith, fits), head, ((λ info. info), λ info t. rw (head t, other) refl))
          | inl stats ↦ elim (read_at-cases (nla_data abi na) abi.end_of_write_bytes) [
            | inr past ↦ inr (λ info t. rw (head t, stats) (rw (past.1 t) refl))
            | inl (fits', body) ↦ inl (
              omega (arith, fits),
              head,
              (
                (λ info. with_stats F abi (drop (nla_data abi na) msg) info),
                λ info t. rw (head t, stats) (rw (body t) refl),
              ),
            )
          ]
        ]
  ]

  -- What a round of the loop over an aggregate does.
  pub data AggrRound (na len2 aggr_len : ℕ) : Type 0 where
    ends :
        aggr_len ≤ len2
        → ((rounds : ℕ) (info : TaskIoInfo F) (t : Trace)
            → read_aggr F abi (suc rounds) msg na len2 aggr_len info t ≡ done info t)
        → AggrRound na len2 aggr_len
    faults :
        len2 < aggr_len
        → Faults (read_stats F abi msg na)
        → ((rounds : ℕ) → Faults (read_aggr F abi (suc rounds) msg na len2 aggr_len))
        → AggrRound na len2 aggr_len
    goes :
        (na ≤ length msg) × (len2 < aggr_len)
        → (w : Writes (read_stats F abi msg na))
        → ((rounds : ℕ) (info : TaskIoInfo F) (t : Trace)
            → read_aggr F abi (suc rounds) msg na len2 aggr_len info t
              ≡ read_aggr F abi rounds msg
                  (na + (len2 + len_at na))
                  (len2 + len_at na)
                  aggr_len
                  (w.0 info)
                  t)
        → AggrRound na len2 aggr_len

  pub aggr_round : (na len2 aggr_len : ℕ) → AggrRound na len2 aggr_len
  unfolding read_aggr
  aggr_round na len2 aggr_len = elim (Bool-cases (ltb len2 aggr_len)) [
    | inr over ↦ ends (ground (arith, over)) (λ rounds info t. rw over refl)
    | inl more ↦ elim (read_stats-cases na) [
      | inr past ↦
          faults (ground (arith, more)) past (λ rounds info t. rw more (rw (past info t) refl))
      | inl (inside, head, (g, body)) ↦
          goes (inside, ground (arith, more)) (g, body)
            (λ rounds info t. rw more (rw (body info t, head t) refl))
    ]
  ]

  -- Once some length is counted, every round moves on, until the pointer is behind the message.
  read_aggr_moves :
      (rounds rounds' na len2 aggr_len : ℕ) (info : TaskIoInfo F) (t : Trace)
      → 0 < len2
      → (0 < rounds) × (0 < rounds')
      → (length msg + 1 < rounds + na) × (length msg + 1 < rounds' + na)
      → read_aggr F abi rounds msg na len2 aggr_len info t
        ≡ read_aggr F abi rounds' msg na len2 aggr_len info t
  read_aggr_moves zero rounds' na len2 aggr_len info t some p q = absurd (omega (arith, p))
  read_aggr_moves (suc rounds) zero na len2 aggr_len info t some p q = absurd (omega (arith, p))
  read_aggr_moves (suc rounds) (suc rounds') na len2 aggr_len info t some p q =
      elim (aggr_round na len2 aggr_len) [
        | ends over h ↦ h rounds info t ∙ sym (h rounds' info t)
        | faults more past h ↦ h rounds info t ∙ sym (h rounds' info t)
        | goes inside (g, body) h ↦
            h rounds info t
            ∙ read_aggr_moves rounds rounds' (na + (len2 + len_at na)) (len2 + len_at na) aggr_len
                (g info) t (omega (arith, some))
                (omega (arith, q, inside), omega (arith, q, inside))
                (omega (arith, q, some), omega (arith, q, some))
            ∙ sym (h rounds' info t)
      ]

  -- Where the first attribute has length 0, every round is like the first one.
  pub read_aggr_stays :
      (na aggr_len : ℕ) (g : TaskIoInfo F → TaskIoInfo F)
      → ((rounds : ℕ) (info : TaskIoInfo F) (t : Trace)
          → read_aggr F abi (suc rounds) msg na 0 aggr_len info t
            ≡ read_aggr F abi rounds msg na 0 aggr_len (g info) t)
      → (rounds : ℕ) → Spins (read_aggr F abi rounds msg na 0 aggr_len)
  unfolding read_aggr
  read_aggr_stays na aggr_len g h zero info t = refl
  read_aggr_stays na aggr_len g h (suc rounds) info t =
      h rounds info t ∙ read_aggr_stays na aggr_len g h rounds (g info) t

  pub stay :
      (na aggr_len : ℕ) (g : TaskIoInfo F → TaskIoInfo F)
      → len_at na ≡ 0
      → ((rounds : ℕ) (info : TaskIoInfo F) (t : Trace)
          → read_aggr F abi (suc rounds) msg na 0 aggr_len info t
            ≡ read_aggr F abi rounds msg (na + (0 + len_at na)) (0 + len_at na) aggr_len (g info) t)
      → (rounds : ℕ) (info : TaskIoInfo F) (t : Trace)
      → read_aggr F abi (suc rounds) msg na 0 aggr_len info t
        ≡ read_aggr F abi rounds msg na 0 aggr_len (g info) t
  stay na aggr_len g empty h rounds info t =
      let same : na + 0 ≡ na = omega arith in rw same at (rw empty at (h rounds info t))

  -- More rounds than the length of the message and two more are enough.
  pub read_aggr_enough :
      (rounds rounds' na aggr_len : ℕ) (info : TaskIoInfo F) (t : Trace)
      → (length msg + 2 < rounds) × (length msg + 2 < rounds')
      → read_aggr F abi rounds msg na 0 aggr_len info t
        ≡ read_aggr F abi rounds' msg na 0 aggr_len info t
  read_aggr_enough zero rounds' na aggr_len info t q = absurd (omega (arith, q))
  read_aggr_enough (suc rounds) zero na aggr_len info t q = absurd (omega (arith, q))
  read_aggr_enough (suc rounds) (suc rounds') na aggr_len info t q =
      elim (aggr_round na 0 aggr_len) [
        | ends over h ↦ h rounds info t ∙ sym (h rounds' info t)
        | faults more past h ↦ h rounds info t ∙ sym (h rounds' info t)
        | goes inside (g, body) h ↦ elim (zero_or_more (len_at na)) [
          | inl empty ↦
              let stays = read_aggr_stays na aggr_len g (stay na aggr_len g empty h) in
              stays (suc rounds) info t ∙ sym (stays (suc rounds') info t)
          | inr some ↦
              h rounds info t
              ∙ read_aggr_moves rounds rounds' (na + (0 + len_at na)) (0 + len_at na) aggr_len
                  (g info) t (omega (arith, some)) (omega (arith, q), omega (arith, q))
                  (omega (arith, q), omega (arith, q))
              ∙ sym (h rounds' info t)
        ]
      ]

  -- However many rounds it is given, the loop ends alike for every task.
  pub read_aggr-cases :
      (rounds na len2 aggr_len : ℕ)
      → Faults (read_aggr F abi rounds msg na len2 aggr_len)
        ⊎ (Spins (read_aggr F abi rounds msg na len2 aggr_len)
            ⊎ Writes (read_aggr F abi rounds msg na len2 aggr_len))
  unfolding read_aggr
  read_aggr-cases zero na len2 aggr_len = inr (inl (λ info t. refl))
  read_aggr-cases (suc rounds) na len2 aggr_len = elim (aggr_round na len2 aggr_len) [
    | ends over h ↦ inr (inr ((λ info. info), λ info t. h rounds info t))
    | faults more past h ↦ inl (h rounds)
    | goes inside (g, body) h ↦
        elim (read_aggr-cases rounds (na + (len2 + len_at na)) (len2 + len_at na) aggr_len) [
          | inl k ↦ inl (λ info t. h rounds info t ∙ k (g info) t)
          | inr (inl k) ↦ inr (inl (λ info t. h rounds info t ∙ k (g info) t))
          | inr (inr (f, k)) ↦
              inr (inr ((λ info. f (g info)), λ info t. h rounds info t ∙ k (g info) t))
        ]
  ]
