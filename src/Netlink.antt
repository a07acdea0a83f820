-- ===== src/Netlink.antt =====
-- src/collect/netlink.h and src/collect/netlink.cpp. The loops take a number of rounds; `spin` says
-- that they were not enough. A pointer into the message is its offset from the beginning.
pub mod Socket
pub mod Stats
pub mod Sending
pub mod Patience
pub mod Offsets
pub mod Reading
pub mod Replies
pub mod Hanging
pub mod Aggregates
pub mod Enough
pub mod Stalls
pub mod Endless
pub mod Leaving
pub mod Overreads
pub mod Readable
pub mod Whole
pub mod Through
pub mod Passing
pub mod Returning
pub mod Keeping
pub mod Safe
pub mod Overrun
pub mod Thirds
pub mod Failing
pub mod Attributes
pub mod Items
pub mod Decoding
pub mod Calling
pub mod Asking
pub mod Connects
pub mod Start
pub mod Connection
pub mod Family
pub mod Request
pub mod Series
use iotop_cpp.Base.{
  ℕ, zero, suc, ◌+◌, ◌-◌, ◌%◌, ◌^◌, Bool, true, false, ◌||◌, not, List, [], ◌∷◌, ◌++◌, Option, none,
  some, ltb, leb, ◌==◌, if◌then◌else◌, length, take, drop, replicate, ℤ, pos, negsuc, neg, is_neg,
  to_int32,
}
use iotop_cpp.Text.{Text}
use iotop_cpp.Float.{Float}
use iotop_cpp.Run.{M, exhaust, pure, stop, ◌>>=◌}
use iotop_cpp.Abi.{Abi}
use iotop_cpp.Task.{TaskIoInfo}

abbrev pub max_netlink_msg_size : ℕ
max_netlink_msg_size = 1024

pub record NetlinkIoStats : Type 0 where
  pub sock_fd : ℤ
  pub netlink_family_id : ℤ

abbrev pub new_netlink : NetlinkIoStats
new_netlink = record { sock_fd = neg 1; netlink_family_id = neg 1 }

-- The low 16 bits of an `int`.
abbrev pub to_uint16 : ℤ → ℕ
to_uint16 (pos n) = n % 2 ^ 16
to_uint16 (negsuc n) = 2 ^ 16 - 1 - n % 2 ^ 16

module _ (abi : Abi) where
  -- GENLMSG_DATA, GENLMSG_PAYLOAD (a 64-bit difference that is kept in an `ssize_t`), NLA_DATA and
  -- NLA_PAYLOAD. A payload below 0 is 0 here: no loop that runs up to it makes a round.
  abbrev pub genlmsg_data : ℕ
  genlmsg_data = abi.nlmsg_hdrlen + abi.genl_hdrlen

  abbrev pub genlmsg_payload : ℕ → ℕ
  genlmsg_payload nlmsg_len = abi.nlmsg_payload nlmsg_len - abi.genl_hdrlen

  abbrev pub nla_data : ℕ → ℕ
  nla_data na = na + abi.nla_hdrlen

  abbrev pub nla_payload : ℕ → ℕ
  nla_payload len = len - abi.nla_hdrlen

  -- The message of `send_netlink_cmd`: the bytes of the template, up to nlmsg_len.
  unfoldable pub netlink_msg : ℕ → ℕ → ℕ → ℕ → Text → Text
  netlink_msg nl_msg_type nl_msg_pid genl_cmd nla_type nla_data = take nlmsg_len (
      abi.put_nlmsghdr nlmsg_len nl_msg_type abi.nlm_f_request 0 nl_msg_pid
      ++ (abi.put_genlmsghdr genl_cmd abi.taskstats_genl_version
          ++ (abi.put_nlattr nla_len nla_type
              ++ (nla_data ++ replicate (max_netlink_msg_size - nla_len) 0))))
    where
      nla_len : ℕ
      nla_len = length nla_data + abi.nla_hdrlen

      nlmsg_len : ℕ
      nlmsg_len = abi.nlmsg_length abi.genl_hdrlen + abi.nlmsg_align nla_len

  -- The bytes at a pointer, if as many as are read lie within the message.
  unfoldable pub read_at : Text → ℕ → ℕ → M Text
  read_at msg na size = if leb (na + size) (length msg) then pure (drop na msg) else stop

module _ (F : Float) (abi : Abi) where
  -- What a TASKSTATS_TYPE_STATS attribute writes to a task.
  unfoldable pub with_stats : Text → TaskIoInfo F → TaskIoInfo F
  with_stats ts info = record info {
    user_id = to_int32 (abi.ac_uid ts);
    io_read_char_b = abi.read_char ts;
    io_write_char_b = abi.write_char ts;
    io_real_read_b = abi.read_bytes ts;
    io_real_write_b = abi.write_bytes ts;
    swapin_delay_total_ns = abi.swapin_delay_total ts;
    blkio_delay_total_ns = abi.blkio_delay_total ts;
  }

  -- The body of the inner loop, on the attribute at na.
  unfoldable pub read_stats : Text → ℕ → TaskIoInfo F → M (TaskIoInfo F)
  read_stats msg na info = do
    attr ← read_at abi msg na abi.nla_hdrlen
    if abi.nla_type attr == abi.taskstats_type_stats
        then (do
          ts ← read_at abi msg (nla_data abi na) abi.end_of_write_bytes
          pure (with_stats ts info))
        else pure info

  -- The inner loop, over the attributes of an aggregate.
  unfoldable pub read_aggr : ℕ → Text → ℕ → ℕ → ℕ → TaskIoInfo F → M (TaskIoInfo F)
  read_aggr zero msg na len2 aggr_len info = exhaust
  read_aggr (suc rounds) msg na len2 aggr_len info =
      let round : M (TaskIoInfo F) = (do
        info' ← read_stats msg na info
        attr ← read_at abi msg na abi.nla_hdrlen
        let len2' = len2 + abi.nla_align (abi.nla_len attr)
        read_aggr rounds msg (na + len2') len2' aggr_len info') in
      if ltb len2 aggr_len then round else pure info

  -- The outer loop, over the attributes of the message.
  unfoldable pub read_reply : ℕ → Text → ℕ → ℕ → ℕ → TaskIoInfo F → M (TaskIoInfo F)
  read_reply zero msg na len rep_len info = exhaust
  read_reply (suc rounds) msg na len rep_len info =
      let round : M (TaskIoInfo F) = (do
        attr ← read_at abi msg na abi.nla_hdrlen
        let len' = len + abi.nla_align (abi.nla_len attr)
        info' ←
            (if abi.nla_type attr == abi.taskstats_type_aggr_tgid
                || abi.nla_type attr == abi.taskstats_type_aggr_pid
              then read_aggr (suc (suc (suc (length msg)))) msg (nla_data abi na) 0
                  (nla_payload abi (abi.nla_len attr)) info
              else pure info)
        read_reply rounds msg (genlmsg_data abi + len') len' rep_len info') in
      if ltb len rep_len then round else pure info
