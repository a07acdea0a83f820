-- ===== src/Netlink/Reading.antt =====
-- Rounds of the loops over a reply.
use iotop_cpp.Base.{
  ℕ, zero, suc, ◌+◌, ◌^◌, ◌≤◌, ◌<◌, ◌≡◌, ◌≢◌, true, false, ◌++◌, arith, ltb, ==_iff, length,
  length-append,
}
use iotop_cpp.Text.{Text}
use iotop_cpp.Float.{Float}
use iotop_cpp.Run.{Trace, done}
use iotop_cpp.Abi.{Abi, IsLinux}
use iotop_cpp.Task.{TaskIoInfo}
use iotop_cpp.Netlink.{read_at, with_stats, read_stats, read_aggr, read_reply}
use iotop_cpp.Netlink.Offsets.{Stands, Stands-behind, read_at-Stands, test_ne}

module _ (F : Float) (abi : Abi) (linux : IsLinux abi) where
  pub attr_at :
      (msg : Text) (na len type : ℕ) (rest : Text) (t : Trace)
      → Stands msg na (abi.put_nlattr len type ++ rest)
      → read_at abi msg na abi.nla_hdrlen t ≡ done (abi.put_nlattr len type ++ rest) t
  attr_at msg na len type rest t at =
      read_at-Stands abi msg na abi.nla_hdrlen (abi.put_nlattr len type ++ rest) t at
        (omega (arith, length-append (abi.put_nlattr len type) rest, linux.length-nlattr len type))

  -- An attribute other than the statistics is passed over.
  pub read_stats_other :
      (msg : Text) (na len type : ℕ) (rest : Text) (info : TaskIoInfo F) (t : Trace)
      → Stands msg na (abi.put_nlattr len type ++ rest)
      → type < 2 ^ 16
      → type ≢ abi.taskstats_type_stats
      → read_stats F abi msg na info t ≡ done info t
  unfolding read_stats
  read_stats_other msg na len type rest info t at small other =
      rw (attr_at msg na len type rest t at)
        (rw (linux.nla_type-put len type rest small, test_ne other))

  pub read_stats_found :
      (msg : Text) (na len type : ℕ) (ts : Text) (info : TaskIoInfo F) (t : Trace)
      → Stands msg na (abi.put_nlattr len type ++ ts)
      → type < 2 ^ 16
      → type ≡ abi.taskstats_type_stats
      → abi.end_of_write_bytes ≤ length ts
      → read_stats F abi msg na info t ≡ done (with_stats F abi ts info) t
  unfolding read_stats
  read_stats_found msg na len type ts info t at small e room =
      let behind =
        Stands-behind msg na abi.nla_hdrlen (abi.put_nlattr len type) ts
          (linux.length-nlattr len type) at in
      rw (attr_at msg na len type ts t at) (
        rw (linux.nla_type-put len type ts small, (==_iff type abi.taskstats_type_stats).1 e)
          (rw
            (read_at-Stands abi msg (na + abi.nla_hdrlen) abi.end_of_write_bytes ts t behind room)))

  pub read_aggr_end :
      (rounds : ℕ) (msg : Text) (na len2 aggr_len : ℕ) (info : TaskIoInfo F) (t : Trace)
      → ltb len2 aggr_len ≡ false
      → read_aggr F abi (suc rounds) msg na len2 aggr_len info t ≡ done info t
  unfolding read_aggr
  read_aggr_end rounds msg na len2 aggr_len info t h = rw h

  -- One round over an attribute that stands in the message.
  pub read_aggr_step :
      (rounds : ℕ) (msg : Text) (na len2 aggr_len len type : ℕ) (rest : Text)
      (info info' : TaskIoInfo F) (t : Trace)
      → ltb len2 aggr_len ≡ true
      → len < 2 ^ 16
      → Stands msg na (abi.put_nlattr len type ++ rest)
      → read_stats F abi msg na info t ≡ done info' t
      → read_aggr F abi (suc rounds) msg na len2 aggr_len info t
        ≡ read_aggr F abi rounds msg
            (na + (len2 + abi.nla_align len))
            (len2 + abi.nla_align len)
            aggr_len
            info'
            t
  unfolding read_aggr
  read_aggr_step rounds msg na len2 aggr_len len type rest info info' t h short at e =
      rw (h, e, attr_at msg na len type rest t at, linux.nla_len-put len type rest short)

  pub read_reply_end :
      (rounds : ℕ) (msg : Text) (na len rep_len : ℕ) (info : TaskIoInfo F) (t : Trace)
      → 0 < rounds
      → ltb len rep_len ≡ false
      → read_reply F abi rounds msg na len rep_len info t ≡ done info t
  unfolding read_reply
  read_reply_end zero msg na len rep_len info t some_left h = absurd (omega arith)
  read_reply_end (suc rounds) msg na len rep_len info t some_left h = rw h
