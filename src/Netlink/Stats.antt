-- ===== src/Netlink/Stats.antt =====
-- src/collect/netlink.cpp: `NetlinkIoStats::get_task_io_info`.
use iotop_cpp.Base.{ℕ, suc, ◌==◌, none, some, if◌then◌else◌, ℤ, pos, neg, is_neg, not}
use iotop_cpp.Text.{Text}
use iotop_cpp.Float.{Float}
use iotop_cpp.Run.{M, pure, ◌>>=◌, ask, recv}
use iotop_cpp.Os.{Os}
use iotop_cpp.Abi.{Abi}
use iotop_cpp.Task.{TaskIoInfo}
use iotop_cpp.Netlink.{NetlinkIoStats, to_uint16, genlmsg_data, genlmsg_payload, read_reply}
use iotop_cpp.Netlink.Socket.{send_netlink_cmd}

module _ (F : Float) (os : Os) (abi : Abi) (rounds : ℕ) where
  -- What is done with the reply.
  unfoldable pub handle_reply : Text → ℕ → TaskIoInfo F → M (ℤ × TaskIoInfo F)
  handle_reply msg rep_len io_stats =
      if not (abi.nlmsg_ok (abi.nlmsg_len msg) rep_len)
      then pure (neg 4, io_stats)
      else if abi.nlmsg_type msg == abi.nlmsg_error
      then pure (neg 5, io_stats)
      else do
        io_stats' ←
            read_reply F abi (suc (genlmsg_payload abi (abi.nlmsg_len msg))) msg (genlmsg_data abi)
              0 (genlmsg_payload abi (abi.nlmsg_len msg)) io_stats
        pure (pos 0, io_stats')

  unfoldable pub get_task_io_info : NetlinkIoStats → ℕ → TaskIoInfo F → M (ℤ × TaskIoInfo F)
  get_task_io_info this task_id io_stats = do
    res ←
        send_netlink_cmd os abi rounds this.sock_fd (to_uint16 this.netlink_family_id) task_id
          abi.taskstats_cmd_get abi.taskstats_cmd_attr_pid (abi.put_u64 task_id)
    if is_neg res then pure (neg 2, io_stats) else (do
      got ← ask (recv this.sock_fd) (λ t. os.recv t this.sock_fd)
      elim got [
        | none ↦ pure (neg 3, io_stats)
        | some (msg, rep_len) ↦ handle_reply msg rep_len io_stats
      ])
