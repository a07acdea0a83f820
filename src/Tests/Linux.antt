-- ===== src/Tests/Linux.antt =====
-- The layout of the messages on a 64-bit Linux with little-endian numbers.
use iotop_cpp.Base.{
  ℕ, zero, suc, ◌+◌, ◌-◌, ◌*◌, ◌/◌, ◌%◌, ◌^◌, ◌<◌, ◌≡◌, refl, ◌&&◌, [], ◌∷◌, ◌++◌, arith, leb, drop,
}
use iotop_cpp.Text.{Text, text}
use iotop_cpp.Abi.{Abi, IsLinux}

-- The lowest bytes of a number.
abbrev pub bytes : ℕ → ℕ → Text
bytes zero v = []
bytes (suc k) v = (v % 256) ∷ bytes k (v / 256)

-- The number in the first bytes.
abbrev pub number : ℕ → Text → ℕ
number zero s = 0
number (suc k) [] = 0
number (suc k) (c ∷ s) = c % 256 + 256 * number k s

abbrev align4 : ℕ → ℕ
align4 n = (n + 3) / 4 * 4

abbrev pub linux : Abi
linux = record {
  nlmsg_hdrlen = 16;
  genl_hdrlen = 4;
  nla_hdrlen = 4;
  nlmsg_align = align4;
  nla_align = align4;
  nlmsg_length = λ n. 16 + n;
  nlmsg_payload = λ len. len - 16;
  nlmsg_ok = λ len received. leb 16 received && (leb 16 len && leb len received);
  put_nlmsghdr = λ len type flags seq pid.
      bytes 4 len ++ (bytes 2 type ++ (bytes 2 flags ++ (bytes 4 seq ++ bytes 4 pid)));
  nlmsg_len = number 4;
  nlmsg_type = λ s. number 2 (drop 4 s);
  put_genlmsghdr = λ cmd version. bytes 1 cmd ++ (bytes 1 version ++ bytes 2 0);
  put_nlattr = λ len type. bytes 2 len ++ bytes 2 type;
  nla_len = number 2;
  nla_type = λ s. number 2 (drop 2 s);
  put_u64 = bytes 8;
  get_u16 = number 2;
  end_of_write_bytes = 264;
  ac_uid = λ s. number 4 (drop 120 s);
  read_char = λ s. number 8 (drop 216 s);
  write_char = λ s. number 8 (drop 224 s);
  read_bytes = λ s. number 8 (drop 248 s);
  write_bytes = λ s. number 8 (drop 256 s);
  swapin_delay_total = λ s. number 8 (drop 56 s);
  blkio_delay_total = λ s. number 8 (drop 40 s);
  nlm_f_request = 1;
  nlmsg_error = 2;
  genl_id_ctrl = 16;
  ctrl_cmd_getfamily = 3;
  ctrl_attr_family_id = 1;
  ctrl_attr_family_name = 2;
  taskstats_genl_name = text "TASKSTATS";
  taskstats_genl_version = 1;
  taskstats_cmd_get = 1;
  taskstats_cmd_attr_pid = 1;
  taskstats_type_stats = 3;
  taskstats_type_aggr_pid = 4;
  taskstats_type_aggr_tgid = 5;
}

two_bytes : (n : ℕ) → n < 2 ^ 16 → n % 256 % 256 + 256 * (n / 256 % 256 % 256 + 256 * 0) ≡ n
two_bytes n h = omega arith

pub linux-IsLinux : IsLinux linux
linux-IsLinux = record {
  align = λ n. omega arith;
  align_msg = λ n. omega arith;
  align_msg_room = λ n h. omega arith;
  length_msg = λ n. refl;
  length-nlmsghdr = λ len type flags seq pid. refl;
  length-genlmsghdr = λ cmd version. refl;
  length-nlattr = λ len type. refl;
  nla_len-put = λ len type rest h. two_bytes len h;
  nla_type-put = λ len type rest h. two_bytes type h;
}
