-- ===== src/Netlink/Asking.antt =====
-- The bytes that a request for the statistics of a task sends.
use iotop_cpp.Base.{ℕ, ◌≡◌, ◌∙◌, inl, inr, ◌∷◌, ◌++◌, Option-cases, pos}
use iotop_cpp.Float.{Float}
use iotop_cpp.Run.{Call, Trace, recv, Returns-result}
use iotop_cpp.Run.Ends.{AtEnd, AtEnd-mono}
use iotop_cpp.Run.Within.{Same-IsPreorder}
use iotop_cpp.Run.Calls.{Only-Within}
use iotop_cpp.Os.{Os}
use iotop_cpp.Abi.{Abi, IsLinux}
use iotop_cpp.Task.{TaskIoInfo}
use iotop_cpp.Netlink.{NetlinkIoStats, to_uint16}
use iotop_cpp.Netlink.Stats.{handle_reply, get_task_io_info}
use iotop_cpp.Netlink.Calling.{handle_reply-Calls}
use iotop_cpp.Netlink.Sending.{stream, request}
use iotop_cpp.Netlink.Patience.{IsReady}
use iotop_cpp.Netlink.Request.{HasRoom, send_netlink_cmd-Sent}

-- The calls that send nothing.
abbrev pub IsSilent : Os → Call → Type 0
IsSilent os c = (t : Trace) → stream os (c ∷ t) ≡ stream os t

module _ (F : Float) (os : Os) (abi : Abi) (linux : IsLinux abi) (rounds : ℕ)
    (this : NetlinkIoStats) (ready : IsReady os abi rounds this.sock_fd)
    (room : (id : ℕ) → HasRoom abi (abi.put_u64 id)) where
  pub get_task_io_info-stream :
      (task_id : ℕ) (info : TaskIoInfo F) (t : Trace)
      → AtEnd
          (get_task_io_info F os abi rounds this task_id info t)
          (λ _ u. stream os u ≡ stream os t ++ request abi this task_id)
  unfolding get_task_io_info
  get_task_io_info-stream task_id info t =
      let (u, e, s) = Returns-result _ (pos 0) (
        send_netlink_cmd-Sent os abi linux rounds this.sock_fd ready
          (to_uint16 this.netlink_family_id) task_id abi.taskstats_cmd_get
          abi.taskstats_cmd_attr_pid (abi.put_u64 task_id) (room task_id) t) in
      rw (e, get_task_io_info)
        (elim (Option-cases (os.recv u this.sock_fd)) [
          | inl none_left ↦ rw (none_left, get_task_io_info) s
          | inr ((msg, rep_len), got) ↦
              rw (got, get_task_io_info)
                (AtEnd-mono _ _
                  (handle_reply F os abi rounds msg rep_len info (recv this.sock_fd ∷ u))
                  (Only-Within (IsSilent os) (Same-IsPreorder (stream os)) (λ c t h. h t) _ _
                    (handle_reply-Calls (IsSilent os) F os abi rounds msg rep_len info _))
                  (λ r v g. g ∙ s))
        ])
