-- ===== src/Netlink/Family.antt =====
-- The number of the family, from the kernel's reply.
use mathlib.Core.List.{append_assoc}
use iotop_cpp.Base.{
  ℕ, ◌+◌, ◌^◌, ◌≤◌, ◌<◌, ◌≡◌, refl, true, false, ◌++◌, arith, length, length-append, ◌==◌, ==_iff,
  if◌then◌else◌, pos, neg,
}
use iotop_cpp.Text.{Text}
use iotop_cpp.Run.{Trace, done}
use iotop_cpp.Os.{Os}
use iotop_cpp.Abi.{Abi, IsLinux}
use iotop_cpp.Netlink.{NetlinkIoStats, genlmsg_data, read_at}
use iotop_cpp.Netlink.Socket.{read_family_id}
use iotop_cpp.Netlink.Offsets.{Stands, Stands-behind, read_at-Stands}

-- The reply to CTRL_CMD_GETFAMILY: the name of the family, then its number.
pub record IsFamilyReply (abi : Abi) (msg : Text) (rep_len : ℕ) (number : Text) : Type 0 where
  pub name_len : ℕ
  pub name_type : ℕ
  pub name : Text
  pub number_len : ℕ
  pub stands : Stands msg (genlmsg_data abi) (
      abi.put_nlattr name_len name_type
      ++ (name ++ (abi.put_nlattr number_len abi.ctrl_attr_family_id ++ number)))
  pub name_size : abi.nla_hdrlen + length name ≡ abi.nla_align name_len
  pub number_size : 2 ≤ length number
  pub short : (name_len < 2 ^ 16) × (abi.ctrl_attr_family_id < 2 ^ 16)
  pub ok : abi.nlmsg_ok (abi.nlmsg_len msg) rep_len ≡ true
  pub no_error : (abi.nlmsg_type msg == abi.nlmsg_error) ≡ false

module _ (os : Os) (abi : Abi) (linux : IsLinux abi) (rounds : ℕ) (this : NetlinkIoStats)
    (msg number : Text) (rep_len : ℕ) (reply : IsFamilyReply abi msg rep_len number)
    (t : Trace) where
  abbrev first : ℕ
  first = genlmsg_data abi

  abbrev second : ℕ
  second = genlmsg_data abi + abi.nla_align reply.name_len

  second-Stands :
      Stands msg second (abi.put_nlattr reply.number_len abi.ctrl_attr_family_id ++ number)
  second-Stands =
      Stands-behind msg first (abi.nla_align reply.name_len)
        (abi.put_nlattr reply.name_len reply.name_type ++ reply.name) _
        (omega (
          arith,
          length-append (abi.put_nlattr reply.name_len reply.name_type) reply.name,
          linux.length-nlattr reply.name_len reply.name_type,
          reply.name_size,
        ))
        (rw append_assoc reply.stands)

  header_at :
      (at len type : ℕ) (rest : Text)
      → Stands msg at (abi.put_nlattr len type ++ rest)
      → read_at abi msg at abi.nla_hdrlen t ≡ done (abi.put_nlattr len type ++ rest) t
  header_at at len type rest h =
      read_at-Stands abi msg at abi.nla_hdrlen _ t h
        (omega (arith, length-append (abi.put_nlattr len type) rest, linux.length-nlattr len type))

  -- Where the kernel's headers meet their laws, and on a whole reply that is no error and holds the
  -- name of a family and then its number, `read_family_id` comes back with that number as the
  -- number of the family, reads nothing outside the message, and gives 0, or -6 where the number is
  -- 0.
  pub read_family_id-IsFamilyReply :
      read_family_id os abi rounds this msg rep_len t
      ≡ done
          (
            if abi.get_u16 number == 0 then neg 6 else pos 0,
            record this { netlink_family_id = pos (abi.get_u16 number) },
          )
          t
  unfolding read_family_id
  read_family_id-IsFamilyReply =
      let value =
        Stands-behind msg second abi.nla_hdrlen _ number
          (linux.length-nlattr reply.number_len abi.ctrl_attr_family_id) second-Stands in
      rw (reply.ok, reply.no_error, header_at first _ _ _ reply.stands)
        (rw
          (
            linux.nla_len-put reply.name_len reply.name_type _ reply.short.0,
            header_at second _ _ _ second-Stands,
          )
          (rw
            (
              linux.nla_type-put reply.number_len abi.ctrl_attr_family_id number reply.short.1,
              (==_iff abi.ctrl_attr_family_id abi.ctrl_attr_family_id).1 refl,
            )
            (rw
              (read_at-Stands abi msg (second + abi.nla_hdrlen) 2 number t value reply.number_size)
              refl)))
