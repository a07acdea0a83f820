-- ===== src/Netlink/Request.antt =====
-- The whole of `NetlinkIoStats::get_task_io_info`.
use iotop_cpp.Base.{
  List, All, ℕ, ◌+◌, ◌^◌, ◌%◌, ◌≤◌, ◌≡◌, ◌⊎◌, true, false, inl, inr, ◌++◌, Option, none, some,
  arith, ltb, ◌==◌, Bool-cases, Option-cases, length, ℤ, pos, neg,
}
use iotop_cpp.Text.{Text}
use iotop_cpp.Float.{Float}
use iotop_cpp.Run.{Trace, done, Returns, Returns-result, Returns-mono}
use iotop_cpp.Os.{Os}
use iotop_cpp.Abi.{Abi, IsLinux}
use iotop_cpp.Task.{TaskIoInfo}
use iotop_cpp.Netlink.{
  NetlinkIoStats, to_uint16, genlmsg_data, genlmsg_payload, netlink_msg, max_netlink_msg_size,
}
use iotop_cpp.Netlink.Socket.{send_netlink_cmd}
use iotop_cpp.Netlink.Stats.{handle_reply, get_task_io_info}
use iotop_cpp.Netlink.Sending.{stream, request, netlink_msg-parts}
use iotop_cpp.Netlink.Patience.{IsReady, ready-Sent}
use iotop_cpp.Netlink.Attributes.{Item, IsItem, encode, payload, decode}
use iotop_cpp.Netlink.Offsets.{Stands}
use iotop_cpp.Netlink.Decoding.{read_reply-decode}

-- The payload of a request has room in the template.
abbrev pub HasRoom : Abi → Text → Type 0
HasRoom abi payload = length payload + abi.nla_hdrlen ≤ max_netlink_msg_size

module _ (os : Os) (abi : Abi) (linux : IsLinux abi) (rounds : ℕ) (fd : ℤ)
    (ready : IsReady os abi rounds fd) (type pid cmd attr : ℕ) (payload : Text)
    (room : HasRoom abi payload) (t : Trace) where
  -- Where the kernel's headers meet their laws, the socket takes at least one byte whenever it is
  -- offered some, unless it takes none and asks to try again, which it does a bounded number of
  -- times in a row, the payload has room in the template and the rounds suffice for a message,
  -- `send_netlink_cmd` returns 0 and the socket has taken just the one message of the command.
  pub send_netlink_cmd-Sent :
      Returns (send_netlink_cmd os abi rounds fd type pid cmd attr payload t) (λ r u.
        (r ≡ pos 0)
        × (stream os u ≡ stream os t ++ netlink_msg abi type (pid % 2 ^ 32) cmd attr payload))
  unfolding send_netlink_cmd
  send_netlink_cmd-Sent =
      let fits : ltb max_netlink_msg_size (length payload + abi.nla_hdrlen) ≡ false =
        ground (arith, room) in
      rw fits (
        ready-Sent os abi rounds fd ready (netlink_msg abi type (pid % 2 ^ 32) cmd attr payload) t (
          omega (
            arith,
            room,
            (netlink_msg-parts abi linux type (pid % 2 ^ 32) cmd attr payload room).0,
            linux.length_msg abi.genl_hdrlen,
            linux.align_msg_room (length payload + abi.nla_hdrlen) room,
          )))

-- A message whose payload is a sequence of attributes: each is no aggregate, or an aggregate of one or
-- two attributes.
pub record HoldsItems (abi : Abi) (msg : Text) : Type 0 where
  pub items : List (Item abi)
  pub behind : Text
  pub are_items : All (IsItem abi) items
  pub stands : Stands msg (genlmsg_data abi) (encode abi items ++ behind)
  pub whole : genlmsg_payload abi (abi.nlmsg_len msg) ≡ payload abi items

-- What the kernel answers to a request: nothing, a message that is cut off or reports an error, or
-- attributes, such as those with the statistics of the task.
abbrev pub IsAnswer : Abi → Option (Text × ℕ) → Type 0
IsAnswer abi none = Unit {0}
IsAnswer abi (some (msg, rep_len)) =
    (abi.nlmsg_ok (abi.nlmsg_len msg) rep_len ≡ false)
    ⊎ ((abi.nlmsg_type msg == abi.nlmsg_error) ≡ true)
    ⊎ HoldsItems abi msg

-- What becomes of a task, by what was received for it: nothing, a message that is cut off, an error,
-- or a message whose attributes are written to the task.
pub data IsOutcome (F : Float) (abi : Abi)
    : Option (Text × ℕ) → TaskIoInfo F → ℤ × TaskIoInfo F → Type 0 where
  nothing : {info : TaskIoInfo F} → IsOutcome F abi none info (neg 3, info)
  cut_off :
      {msg : Text} {rep_len : ℕ} {info : TaskIoInfo F}
      → abi.nlmsg_ok (abi.nlmsg_len msg) rep_len ≡ false
      → IsOutcome F abi (some (msg, rep_len)) info (neg 4, info)
  refused :
      {msg : Text} {rep_len : ℕ} {info : TaskIoInfo F}
      → abi.nlmsg_ok (abi.nlmsg_len msg) rep_len ≡ true
      → (abi.nlmsg_type msg == abi.nlmsg_error) ≡ true
      → IsOutcome F abi (some (msg, rep_len)) info (neg 5, info)
  given :
      {msg : Text} {rep_len : ℕ} {info : TaskIoInfo F}
      → abi.nlmsg_ok (abi.nlmsg_len msg) rep_len ≡ true
      → (abi.nlmsg_type msg == abi.nlmsg_error) ≡ false
      → (holds : HoldsItems abi msg)
      → IsOutcome F abi
          (some (msg, rep_len))
          info
          (pos 0, decode F abi holds.items holds.behind info)

module _ (F : Float) (os : Os) (abi : Abi) (linux : IsLinux abi) (rounds : ℕ) where
  handle_reply-IsOutcome :
      (msg : Text) (rep_len : ℕ) (info : TaskIoInfo F) (t : Trace)
      → IsAnswer abi (some (msg, rep_len))
      → Returns
          (handle_reply F os abi rounds msg rep_len info t)
          (λ r _. IsOutcome F abi (some (msg, rep_len)) info r)
  unfolding handle_reply
  handle_reply-IsOutcome msg rep_len info t answer =
      elim (Bool-cases (abi.nlmsg_ok (abi.nlmsg_len msg) rep_len)) [
        | inr cut ↦ rw cut (cut_off cut)
        | inl ok ↦ elim (Bool-cases (abi.nlmsg_type msg == abi.nlmsg_error)) [
          | inl error ↦ rw (ok, error) (refused ok error)
          | inr fine ↦
              let holds = items_of ok fine answer in
              rw (ok, fine)
                (rw holds.whole (
                  rw
                    (read_reply-decode F abi linux msg t holds.items holds.behind info
                      holds.are_items holds.stands)
                    (given ok fine holds)))
        ]
      ]
    where
      items_of :
          abi.nlmsg_ok (abi.nlmsg_len msg) rep_len ≡ true
          → (abi.nlmsg_type msg == abi.nlmsg_error) ≡ false
          → IsAnswer abi (some (msg, rep_len))
          → HoldsItems abi msg
      items_of ok fine (inl cut) = cc
      items_of ok fine (inr (inl error)) = cc
      items_of ok fine (inr (inr found)) = found

module _ (os : Os) (abi : Abi) (linux : IsLinux abi) (rounds : ℕ) (this : NetlinkIoStats)
    (ready : IsReady os abi rounds this.sock_fd)
    (room : (id : ℕ) → HasRoom abi (abi.put_u64 id)) where
  pub request-done :
      (task_id : ℕ) (t : Trace)
      → (u : Trace) × (send_netlink_cmd os abi rounds this.sock_fd
            (to_uint16 this.netlink_family_id)
            task_id
            abi.taskstats_cmd_get
            abi.taskstats_cmd_attr_pid
            (abi.put_u64 task_id)
            t
          ≡ done (pos 0) u)
        × (stream os u ≡ stream os t ++ request abi this task_id)
  request-done task_id t =
      let (u, e, s) = Returns-result _ (pos 0) (
        send_netlink_cmd-Sent os abi linux rounds this.sock_fd ready
          (to_uint16 this.netlink_family_id) task_id abi.taskstats_cmd_get
          abi.taskstats_cmd_attr_pid (abi.put_u64 task_id) (room task_id) t) in
      (u, e, s)

module _ (F : Float) (os : Os) (abi : Abi) (linux : IsLinux abi) (rounds : ℕ)
    (this : NetlinkIoStats) (ready : IsReady os abi rounds this.sock_fd)
    (room : (id : ℕ) → HasRoom abi (abi.put_u64 id))
    (answers : (t : Trace) → IsAnswer abi (os.recv t this.sock_fd)) where
  -- A request that has been sent, after which r was made of what was received.
  abbrev pub Answered : ℕ → TaskIoInfo F → Trace → ℤ × TaskIoInfo F → Type 0
  Answered task_id info t r =
      (u : Trace) × (send_netlink_cmd os abi rounds this.sock_fd (to_uint16 this.netlink_family_id)
          task_id abi.taskstats_cmd_get abi.taskstats_cmd_attr_pid (abi.put_u64 task_id) t
        ≡ done (pos 0) u)
      × IsOutcome F abi (os.recv u this.sock_fd) info r

  received-IsOutcome :
      (task_id : ℕ) (info : TaskIoInfo F) (t u : Trace)
      → send_netlink_cmd os abi rounds this.sock_fd
          (to_uint16 this.netlink_family_id)
          task_id
          abi.taskstats_cmd_get
          abi.taskstats_cmd_attr_pid
          (abi.put_u64 task_id)
          t
        ≡ done (pos 0) u
      → Returns
          (get_task_io_info F os abi rounds this task_id info t)
          (λ r _. IsOutcome F abi (os.recv u this.sock_fd) info r)
  unfolding get_task_io_info
  received-IsOutcome task_id info t u e =
      rw (e, get_task_io_info)
        (elim (Option-cases (os.recv u this.sock_fd)) [
          | inl none_left ↦ rw (none_left, get_task_io_info) nothing
          | inr ((msg, rep_len), got) ↦
              rw (got, get_task_io_info)
                (handle_reply-IsOutcome F os abi linux rounds msg rep_len info _
                  (rw got at (answers u)))
        ])

  -- Where the kernel's headers meet their laws, the socket takes at least one byte of what it is
  -- offered, unless it takes none and asks to try again, which it does a bounded number of times in
  -- a row, the payload has room and the rounds suffice for a message, and whatever is received is
  -- nothing, a message that is cut off or an error, or a message whose payload is a sequence of
  -- attributes, each no aggregate, or one without padding, of one or two attributes, of which any
  -- statistics have room for the fields of a struct taskstats that are read, `get_task_io_info`
  -- always comes back, having sent the request for the task whole and then received: with -3 and
  -- the task as it was where nothing is received, with -4 and the task as it was where the message
  -- is cut off, with -5 and the task as it was where it reports an error, and else with 0 and what
  -- the attributes of the message say, one after the other, written to the task.
  pub get_task_io_info-IsOutcome :
      (task_id : ℕ) (info : TaskIoInfo F) (t : Trace)
      → Returns
          (get_task_io_info F os abi rounds this task_id info t)
          (λ r _. Answered task_id info t r)
  get_task_io_info-IsOutcome task_id info t =
      let (u, e, _) = request-done os abi linux rounds this ready room task_id t in
      Returns-mono (λ r _. IsOutcome F abi (os.recv u this.sock_fd) info r)
        (λ r _. Answered task_id info t r) (get_task_io_info F os abi rounds this task_id info t)
        (received-IsOutcome task_id info t u e) (λ r _ h. (u, e, h))
