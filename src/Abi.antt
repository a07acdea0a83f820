-- ===== src/Abi.antt =====
-- What <linux/netlink.h>, <linux/genetlink.h> and <linux/taskstats.h> define: constants, macros, and
-- the layout of the structs as they are written to bytes and read from the bytes at a pointer.
use iotop_cpp.Base.{ℕ, ◌+◌, ◌^◌, ◌≤◌, ◌<◌, ◌≡◌, Bool, ◌++◌, length}
use iotop_cpp.Text.{Text}

pub record Abi : Type 0 where
  pub nlmsg_hdrlen : ℕ
  pub genl_hdrlen : ℕ
  pub nla_hdrlen : ℕ
  pub nlmsg_align : ℕ → ℕ
  pub nla_align : ℕ → ℕ
  pub nlmsg_length : ℕ → ℕ
  -- NLMSG_PAYLOAD(nlh, 0) and NLMSG_OK(nlh, len), from nlmsg_len.
  pub nlmsg_payload : ℕ → ℕ
  pub nlmsg_ok : ℕ → ℕ → Bool
  -- struct nlmsghdr: length, type, flags, sequence number and port.
  pub put_nlmsghdr : ℕ → ℕ → ℕ → ℕ → ℕ → Text
  pub nlmsg_len : Text → ℕ
  pub nlmsg_type : Text → ℕ
  -- struct genlmsghdr: command and version.
  pub put_genlmsghdr : ℕ → ℕ → Text
  -- struct nlattr: length and type.
  pub put_nlattr : ℕ → ℕ → Text
  pub nla_len : Text → ℕ
  pub nla_type : Text → ℕ
  pub put_u64 : ℕ → Text
  pub get_u16 : Text → ℕ
  -- struct taskstats: the end of write_bytes, the last of the fields that the code reads, and those
  -- fields.
  pub end_of_write_bytes : ℕ
  pub ac_uid : Text → ℕ
  pub read_char : Text → ℕ
  pub write_char : Text → ℕ
  pub read_bytes : Text → ℕ
  pub write_bytes : Text → ℕ
  pub swapin_delay_total : Text → ℕ
  pub blkio_delay_total : Text → ℕ
  pub nlm_f_request : ℕ
  pub nlmsg_error : ℕ
  pub genl_id_ctrl : ℕ
  pub ctrl_cmd_getfamily : ℕ
  pub ctrl_attr_family_id : ℕ
  pub ctrl_attr_family_name : ℕ
  pub taskstats_genl_name : Text
  pub taskstats_genl_version : ℕ
  pub taskstats_cmd_get : ℕ
  pub taskstats_cmd_attr_pid : ℕ
  pub taskstats_type_stats : ℕ
  pub taskstats_type_aggr_pid : ℕ
  pub taskstats_type_aggr_tgid : ℕ

-- What the code relies on: an aligned length is no shorter, a header has its length, and the fields
-- of an attribute are read back as they were written.
pub record IsLinux (abi : Abi) : Type 0 where
  pub align : (n : ℕ) → n ≤ abi.nla_align n
  pub align_msg : (n : ℕ) → n ≤ abi.nlmsg_align n
  pub align_msg_room : (n : ℕ) → n ≤ 1024 → abi.nlmsg_align n ≤ 1024
  pub length_msg : (n : ℕ) → abi.nlmsg_length n ≡ abi.nlmsg_hdrlen + n
  pub length-nlmsghdr :
      (len type flags seq pid : ℕ)
      → length (abi.put_nlmsghdr len type flags seq pid) ≡ abi.nlmsg_hdrlen
  pub length-genlmsghdr :
      (cmd version : ℕ) → length (abi.put_genlmsghdr cmd version) ≡ abi.genl_hdrlen
  pub length-nlattr : (len type : ℕ) → length (abi.put_nlattr len type) ≡ abi.nla_hdrlen
  pub nla_len-put :
      (len type : ℕ) (rest : Text)
      → len < 2 ^ 16
      → abi.nla_len (abi.put_nlattr len type ++ rest) ≡ len
  pub nla_type-put :
      (len type : ℕ) (rest : Text)
      → type < 2 ^ 16
      → abi.nla_type (abi.put_nlattr len type ++ rest) ≡ type
