-- ===== src/Netlink/Overrun.antt =====
-- Replies on which the loop over an aggregate leaves the message.
use iotop_cpp.Base.{
  ℕ, suc, ◌+◌, ◌≤◌, ◌<◌, ◌≡◌, refl, true, false, ◌||◌, arith, leb, lt→ltb, le→leb, ltb, ◌==◌,
  length, drop,
}
use iotop_cpp.Text.{Text}
use iotop_cpp.Float.{Float}
use iotop_cpp.Run.{Trace, done, fault}
use iotop_cpp.Abi.{Abi}
use iotop_cpp.Task.{TaskIoInfo}
use iotop_cpp.Netlink.{
  genlmsg_data, nla_data, nla_payload, read_at, read_stats, read_aggr, read_reply,
}

module _ (F : Float) (abi : Abi) (msg : Text) (t : Trace) where
  inside-done :
      (na size : ℕ) → na + size ≤ length msg → read_at abi msg na size t ≡ done (drop na msg) t
  unfolding read_at
  inside-done na size h = rw (le→leb _ _ h)

  outside-fault : (na size : ℕ) → length msg < na + size → read_at abi msg na size t ≡ fault
  unfolding read_at
  outside-fault na size h =
      let past : leb (na + size) (length msg) ≡ false = ground (arith, h) in rw past

  -- The attribute at the place of a pointer.
  abbrev pub len_at : ℕ → ℕ
  len_at na = abi.nla_align (abi.nla_len (drop na msg))

  read_aggr_overruns :
      (na aggr_len rounds : ℕ) (info : TaskIoInfo F)
      → na + abi.nla_hdrlen ≤ length msg
      → (abi.nla_type (drop na msg) == abi.taskstats_type_stats) ≡ false
      → len_at na < aggr_len
      → length msg < na + len_at na + abi.nla_hdrlen
      → read_aggr F abi (suc (suc rounds)) msg na 0 aggr_len info t ≡ fault
  unfolding read_aggr read_stats
  read_aggr_overruns na aggr_len rounds info inside other more past =
      let some_left : ltb 0 aggr_len ≡ true = ground (arith, more) in
      let e : 0 + len_at na ≡ len_at na = omega arith in
      rw (some_left, inside-done na abi.nla_hdrlen inside, other)
        (rw (inside-done na abi.nla_hdrlen inside) (
          rw
            (
              e,
              lt→ltb (len_at na) aggr_len more,
              outside-fault (na + len_at na) abi.nla_hdrlen past,
            )
            refl))

  -- The first attribute of the payload, and the first one inside it.
  abbrev pub outer : ℕ
  outer = genlmsg_data abi

  abbrev pub inner : ℕ
  inner = nla_data abi outer

  -- Where the payload is not empty, its first attribute is an aggregate, the first attribute inside
  -- that one is no statistics and has its header within the message, and by its length, which is
  -- less than what the aggregate claims to hold, the next one would have its header past the end of
  -- the message, the loops over a reply have undefined behaviour: they read past the end of the
  -- message.
  pub read_reply_overruns :
      (rounds rep_len : ℕ) (info : TaskIoInfo F)
      → 0 < rep_len
      → outer + abi.nla_hdrlen + abi.nla_hdrlen ≤ length msg
      → (abi.nla_type (drop outer msg) == abi.taskstats_type_aggr_tgid
          || abi.nla_type (drop outer msg) == abi.taskstats_type_aggr_pid)
        ≡ true
      → (abi.nla_type (drop inner msg) == abi.taskstats_type_stats) ≡ false
      → len_at inner < nla_payload abi (abi.nla_len (drop outer msg))
      → length msg < inner + len_at inner + abi.nla_hdrlen
      → read_reply F abi (suc rounds) msg outer 0 rep_len info t ≡ fault
  unfolding read_reply
  read_reply_overruns rounds rep_len info left inside aggr other more past =
      rw (lt→ltb 0 rep_len left, inside-done outer abi.nla_hdrlen (omega (arith, inside)), aggr)
        (rw
          (read_aggr_overruns inner (nla_payload abi (abi.nla_len (drop outer msg)))
            (suc (length msg)) info (omega (arith, inside)) other more past)
          refl)
