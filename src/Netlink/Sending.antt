-- ===== src/Netlink/Sending.antt =====
-- What goes out on the socket.
use mathlib.Core.List.{append_assoc}
use iotop_cpp.Base.{
  take-all, ℕ, zero, suc, ◌+◌, ◌-◌, ◌^◌, ◌%◌, ◌≤◌, ◌<◌, ◌≡◌, ap, ◌∙◌, [], ◌∷◌, ◌++◌, arith, length,
  length-take, length-append, length-replicate, take, drop, take-append-drop, ℤ, pos, pos_part,
  replicate,
}
use iotop_cpp.Text.{Text}
use iotop_cpp.Run.{Trace, sendto}
use iotop_cpp.Os.{Os}
use iotop_cpp.Abi.{Abi, IsLinux}
use iotop_cpp.Netlink.{NetlinkIoStats, to_uint16, netlink_msg, max_netlink_msg_size}

-- The bytes that the socket took in the course of a trace, in order.
abbrev pub stream : Os → Trace → Text
stream os [] = []
stream os (sendto fd buf ∷ t) = stream os t ++ take (pos_part (os.sendto t fd buf)) buf
stream os (c ∷ t) = stream os t

-- The message that asks for the statistics of a task.
abbrev pub request : Abi → NetlinkIoStats → ℕ → Text
request abi this task_id =
    netlink_msg abi (to_uint16 this.netlink_family_id) (task_id % 2 ^ 32) abi.taskstats_cmd_get
      abi.taskstats_cmd_attr_pid (abi.put_u64 task_id)

-- The message that asks for the family, in the name of a process.
abbrev pub family_request : Abi → ℕ → Text
family_request abi pid =
    netlink_msg abi abi.genl_id_ctrl (pid % 2 ^ 32) abi.ctrl_cmd_getfamily abi.ctrl_attr_family_name
      (abi.taskstats_genl_name ++ (0 ∷ []))

-- The socket takes at least one byte whenever it is offered some.
abbrev pub Accepts : ℤ → Type 0
Accepts answer = (n : ℕ) × (0 < n) × (answer ≡ pos n)

take-append_le :
    (xs ys : Text) (n : ℕ) → length xs ≤ n → take n (xs ++ ys) ≡ xs ++ take (n - length xs) ys
take-append_le [] ys n h = let e : n - 0 ≡ n = omega arith in rw e
take-append_le (x ∷ xs) ys zero h = absurd (omega arith)
take-append_le (x ∷ xs) ys (suc n) h =
    let e : suc n - suc (length xs) ≡ n - length xs = omega arith in
    rw e (ap (◌∷◌ x) (take-append_le xs ys n (omega arith)))

-- The loop ends with 0, and the socket has taken the given bytes.
abbrev pub Sent : Os → Text → ℤ → Trace → Type 0
Sent os bytes r u = (r ≡ pos 0) × (stream os u ≡ bytes)

module _ (os : Os) (fd : ℤ) where
  pub resent :
      (t : Trace) (buf : Text) (n : ℕ)
      → os.sendto t fd buf ≡ pos n
      → stream os (sendto fd buf ∷ t) ++ drop n buf ≡ stream os t ++ buf
  resent t buf n e = rw (e, append_assoc, take-append-drop)

  pub sent_all :
      (t : Trace) (buf : Text) (n : ℕ)
      → os.sendto t fd buf ≡ pos n
      → length buf ≤ n
      → stream os (sendto fd buf ∷ t) ≡ stream os t ++ buf
  sent_all t buf n e h = rw (e, take-all n buf h)

-- The parts of the message of `send_netlink_cmd`, as long as its payload has room in the template.
module _ (abi : Abi) (linux : IsLinux abi) (type pid cmd attr : ℕ) (payload : Text)
    (room : length payload + abi.nla_hdrlen ≤ max_netlink_msg_size) where
  abbrev pub attr_len : ℕ
  attr_len = length payload + abi.nla_hdrlen

  abbrev pub msg_len : ℕ
  msg_len = abi.nlmsg_length abi.genl_hdrlen + abi.nlmsg_align attr_len

  abbrev header : Text
  header = abi.put_nlmsghdr msg_len type abi.nlm_f_request 0 pid

  abbrev genl : Text
  genl = abi.put_genlmsghdr cmd abi.taskstats_genl_version

  abbrev attribute : Text
  attribute = abi.put_nlattr attr_len attr

  length-netlink_msg : length (netlink_msg abi type pid cmd attr payload) ≡ msg_len
  unfolding netlink_msg
  length-netlink_msg = omega (
    arith,
    length-take msg_len
        (header ++ (genl ++ (attribute ++ (payload ++ replicate (1024 - attr_len) 0)))),
    length-append header (genl ++ (attribute ++ (payload ++ replicate (1024 - attr_len) 0))),
    length-append genl (attribute ++ (payload ++ replicate (1024 - attr_len) 0)),
    length-append attribute (payload ++ replicate (1024 - attr_len) 0),
    length-append payload (replicate (1024 - attr_len) 0),
    length-replicate {A = ℕ} (1024 - attr_len) 0,
    linux.length-nlmsghdr msg_len type abi.nlm_f_request 0 pid,
    linux.length-genlmsghdr cmd abi.taskstats_genl_version,
    linux.length-nlattr attr_len attr,
    linux.length_msg abi.genl_hdrlen,
    linux.align_msg_room attr_len room,
  )

  -- Where the kernel's headers meet their laws and the payload has room in the template, the
  -- message of a command is as long as its header says, and consists of the two headers, the header
  -- of the attribute with the length of that attribute, the payload whole, and padding.
  pub netlink_msg-parts :
      (length (netlink_msg abi type pid cmd attr payload) ≡ msg_len)
      × ((padding : Text) × (netlink_msg abi type pid cmd attr payload
            ≡ abi.put_nlmsghdr msg_len type abi.nlm_f_request 0 pid
              ++ (abi.put_genlmsghdr cmd abi.taskstats_genl_version
                  ++ (abi.put_nlattr attr_len attr ++ (payload ++ padding)))))
  unfolding netlink_msg
  netlink_msg-parts = (
    length-netlink_msg,
    (
      _,
      take-append_le header _ msg_len (omega (arith, facts))
          ∙ ap (◌++◌ header) (
              take-append_le genl _ _ (omega (arith, facts))
              ∙ ap (◌++◌ genl) (
                  take-append_le attribute _ _ (omega (arith, facts))
                  ∙ ap (◌++◌ attribute) (take-append_le payload _ _ (omega (arith, facts))))),
    ),
  )
    where
      facts :
          (length header ≡ abi.nlmsg_hdrlen)
          × (length genl ≡ abi.genl_hdrlen)
          × (length attribute ≡ abi.nla_hdrlen)
          × (abi.nlmsg_length abi.genl_hdrlen ≡ abi.nlmsg_hdrlen + abi.genl_hdrlen)
          × (attr_len ≤ abi.nlmsg_align attr_len)
      facts = (
        linux.length-nlmsghdr msg_len type abi.nlm_f_request 0 pid,
        linux.length-genlmsghdr cmd abi.taskstats_genl_version,
        linux.length-nlattr attr_len attr,
        linux.length_msg abi.genl_hdrlen,
        linux.align_msg attr_len,
      )
