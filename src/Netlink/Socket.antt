-- ===== src/Netlink/Socket.antt =====
-- src/collect/netlink.cpp: sending a command, and the start of the connection.
use iotop_cpp.Base.{
  ℕ, zero, suc, ◌+◌, ◌%◌, ◌^◌, ◌++◌, none, some, ltb, ◌==◌, if◌then◌else◌, length, drop, ℤ, pos,
  negsuc, neg, is_neg, not, ◌∷◌, [],
}
use iotop_cpp.Text.{Text}
use iotop_cpp.Run.{
  M, exhaust, stop, pure, ◌>>=◌, ◌>>◌, ask, tell, getpid, socket, bind, fcntl_getfl, fcntl_setfl,
  close, sendto, recv,
}
use iotop_cpp.Os.{Os}
use iotop_cpp.Abi.{Abi}
use iotop_cpp.Netlink.{NetlinkIoStats, max_netlink_msg_size, netlink_msg, genlmsg_data, read_at}

module _ (os : Os) where
  -- The loop of `send_netlink_cmd`: buf and buf_len are the bytes that are left.
  unfoldable pub send_loop : ℕ → ℤ → Text → M ℤ
  send_loop zero sock_fd buf = exhaust
  send_loop (suc rounds) sock_fd buf = do
    cur_send_byte ← ask (sendto sock_fd buf) (λ t. os.sendto t sock_fd buf)
    elim cur_send_byte [
      | pos n ↦
          let rest = send_loop rounds sock_fd (drop n buf) in
          let retry : M ℤ = λ t. (if os.again t then rest else pure (neg 1)) t in
          if ltb n (length buf) then (if ltb 0 n then rest else retry) else pure (pos 0)
      | negsuc n ↦
          let rest = send_loop rounds sock_fd buf in
          λ t. (if os.again t then rest else pure (neg 1)) t
    ]

module _ (os : Os) (abi : Abi) (rounds : ℕ) where
  -- A payload with no room in the template would be written past its end.
  unfoldable pub send_netlink_cmd : ℤ → ℕ → ℕ → ℕ → ℕ → Text → M ℤ
  send_netlink_cmd sock_fd nl_msg_type nl_msg_pid genl_cmd nla_type nla_data =
      if ltb max_netlink_msg_size (length nla_data + abi.nla_hdrlen)
      then stop
      else send_loop os rounds sock_fd
          (netlink_msg abi nl_msg_type (nl_msg_pid % 2 ^ 32) genl_cmd nla_type nla_data)

  -- The code, and the file descriptor that is kept.
  unfoldable pub init_sock : NetlinkIoStats → M (ℤ × NetlinkIoStats)
  init_sock this = do
    created ← ask socket os.socket
    elim created [
      | none ↦ pure (neg 1, record this { sock_fd = neg 1 })
      | some fd ↦ do
        let this' = record this { sock_fd = pos fd }
        bound ← ask (bind fd) (λ t. os.bind t fd)
        if bound
            then (do
              flags ← ask (fcntl_getfl fd) (λ t. os.fcntl_getfl t fd)
              set ← ask (fcntl_setfl fd (os.o_nonblock flags)) (λ t. os.fcntl_setfl t fd)
              pure (if set then pos 0 else neg 3, this'))
            else (do tell (close fd); pure (neg 2, this'))
    ]

  -- What `init_netlink_family_id` reads in the reply: the second attribute.
  unfoldable pub read_family_id : NetlinkIoStats → Text → ℕ → M (ℤ × NetlinkIoStats)
  read_family_id this msg rep_len =
      if not (abi.nlmsg_ok (abi.nlmsg_len msg) rep_len)
      then pure (neg 3, this)
      else if abi.nlmsg_type msg == abi.nlmsg_error
      then pure (neg 4, this)
      else do
        first ← read_at abi msg (genlmsg_data abi) abi.nla_hdrlen
        let na = genlmsg_data abi + abi.nla_align (abi.nla_len first)
        second ← read_at abi msg na abi.nla_hdrlen
        if abi.nla_type second == abi.ctrl_attr_family_id
            then (do
              value ← read_at abi msg (na + abi.nla_hdrlen) 2
              let id = abi.get_u16 value
              pure (if id == 0 then neg 6 else pos 0, record this { netlink_family_id = pos id }))
            else pure (neg 5, this)

  unfoldable pub init_netlink_family_id : NetlinkIoStats → M (ℤ × NetlinkIoStats)
  init_netlink_family_id this = do
    pid ← ask getpid os.getpid
    res ←
        send_netlink_cmd this.sock_fd abi.genl_id_ctrl pid abi.ctrl_cmd_getfamily
          abi.ctrl_attr_family_name (abi.taskstats_genl_name ++ (0 ∷ []))
    if is_neg res then pure (neg 1, this) else (do
      got ← ask (recv this.sock_fd) (λ t. os.recv t this.sock_fd)
      elim got [
        | none ↦ pure (neg 2, this)
        | some (msg, rep_len) ↦ read_family_id this msg rep_len
      ])

  unfoldable pub init : NetlinkIoStats → M (ℤ × NetlinkIoStats)
  init this = do
    (res, this') ← init_sock this
    if is_neg res then pure (neg 1, this') else (do
      (res', this'') ← init_netlink_family_id this'
      pure (if is_neg res' then neg 2 else pos 0, this''))
