-- ===== src/Netlink/Readable.antt =====
-- How the loops over a reply end, by the layout of its bytes.
use iotop_cpp.Base.{ℕ, ◌+◌, ◌≤◌, ◌<◌, ◌≡◌, true, false, Bool, ◌||◌, ◌==◌, length, drop}
use iotop_cpp.Text.{Text}
use iotop_cpp.Abi.{Abi}
use iotop_cpp.Netlink.{genlmsg_data, nla_data, nla_payload}

module _ (abi : Abi) (msg : Text) where
  -- The aligned length of the attribute at a pointer.
  abbrev pub size_at : ℕ → ℕ
  size_at na = abi.nla_align (abi.nla_len (drop na msg))

  -- An attribute that lies within the message as far as the inner loop reads it: its header, and the
  -- struct of statistics.
  abbrev pub IsWhole : ℕ → Type 0
  IsWhole na =
      (na + abi.nla_hdrlen ≤ length msg)
      × ((abi.nla_type (drop na msg) == abi.taskstats_type_stats) ≡ true
          → nla_data abi na + abi.end_of_write_bytes ≤ length msg)

  -- An attribute that does not: its header ends behind the message, or it is statistics, whose struct
  -- does.
  pub data IsCut (na : ℕ) : Type 0 where
    header : length msg < na + abi.nla_hdrlen → IsCut na
    stats :
        na + abi.nla_hdrlen ≤ length msg
        → (abi.nla_type (drop na msg) == abi.taskstats_type_stats) ≡ true
        → length msg < nla_data abi na + abi.end_of_write_bytes
        → IsCut na

  -- The places within an aggregate at which the inner loop looks, until it has counted the length of
  -- the aggregate: the pointer moves by what has been counted, not by the last length alone.
  pub data Passes (aggr_len : ℕ) : ℕ → ℕ → Type 0 where
    over : {na len2 : ℕ} → aggr_len ≤ len2 → Passes aggr_len na len2
    step :
        {na len2 : ℕ}
        → len2 < aggr_len
        → IsWhole na
        → Passes aggr_len (na + (len2 + size_at na)) (len2 + size_at na)
        → Passes aggr_len na len2

  -- At those places the inner loop comes to an attribute that is not whole.
  pub data Leaves (aggr_len : ℕ) : ℕ → ℕ → Type 0 where
    out : {na len2 : ℕ} → len2 < aggr_len → IsCut na → Leaves aggr_len na len2
    on :
        {na len2 : ℕ}
        → len2 < aggr_len
        → IsWhole na
        → Leaves aggr_len (na + (len2 + size_at na)) (len2 + size_at na)
        → Leaves aggr_len na len2

  -- The first attribute of an aggregate is read, and has length 0.
  abbrev pub Stalls : ℕ → ℕ → Type 0
  Stalls na aggr_len = (0 < aggr_len) × IsWhole na × (size_at na ≡ 0)

  abbrev pub is_aggregate : ℕ → Bool
  is_aggregate na =
      abi.nla_type (drop na msg) == abi.taskstats_type_aggr_tgid
      || abi.nla_type (drop na msg) == abi.taskstats_type_aggr_pid

  -- What the inner loop runs over in the aggregate at a pointer.
  abbrev pub room_at : ℕ → ℕ
  room_at na = nla_payload abi (abi.nla_len (drop na msg))

  -- An attribute that the outer loop goes through.
  pub data IsThrough (na : ℕ) : Type 0 where
    plain : is_aggregate na ≡ false → IsThrough na
    aggregate : is_aggregate na ≡ true → Passes (room_at na) (nla_data abi na) 0 → IsThrough na

  -- The attribute behind some length of the payload, which is not all of it, has its header within the
  -- message.
  abbrev pub Begins : ℕ → ℕ → Type 0
  Begins rep_len len = (len < rep_len) × (genlmsg_data abi + len + abi.nla_hdrlen ≤ length msg)

  -- The attributes of a payload, one behind the other, behind a length that has been counted: the loop
  -- goes through all of them.
  pub data Readable (rep_len : ℕ) : ℕ → Type 0 where
    over : {len : ℕ} → rep_len ≤ len → Readable rep_len len
    step :
        {len : ℕ}
        → Begins rep_len len
        → IsThrough (genlmsg_data abi + len)
        → Readable rep_len (len + size_at (genlmsg_data abi + len))
        → Readable rep_len len

  -- The loop comes to an attribute of length 0, or to an aggregate whose first attribute has it.
  pub data Hangs (rep_len : ℕ) : ℕ → Type 0 where
    stays :
        {len : ℕ}
        → Begins rep_len len
        → IsThrough (genlmsg_data abi + len)
        → size_at (genlmsg_data abi + len) ≡ 0
        → Hangs rep_len len
    within :
        {len : ℕ}
        → Begins rep_len len
        → is_aggregate (genlmsg_data abi + len) ≡ true
        → Stalls (nla_data abi (genlmsg_data abi + len)) (room_at (genlmsg_data abi + len))
        → Hangs rep_len len
    later :
        {len : ℕ}
        → Begins rep_len len
        → IsThrough (genlmsg_data abi + len)
        → Hangs rep_len (len + size_at (genlmsg_data abi + len))
        → Hangs rep_len len

  -- The loop comes to an attribute whose header ends behind the message, or to an aggregate within
  -- which it comes to an attribute that is not whole.
  pub data Overreads (rep_len : ℕ) : ℕ → Type 0 where
    past :
        {len : ℕ}
        → len < rep_len
        → length msg < genlmsg_data abi + len + abi.nla_hdrlen
        → Overreads rep_len len
    within :
        {len : ℕ}
        → Begins rep_len len
        → is_aggregate (genlmsg_data abi + len) ≡ true
        → Leaves (room_at (genlmsg_data abi + len)) (nla_data abi (genlmsg_data abi + len)) 0
        → Overreads rep_len len
    later :
        {len : ℕ}
        → Begins rep_len len
        → IsThrough (genlmsg_data abi + len)
        → Overreads rep_len (len + size_at (genlmsg_data abi + len))
        → Overreads rep_len len
