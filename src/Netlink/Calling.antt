-- ===== src/Netlink/Calling.antt =====
-- The calls of the connection.
use iotop_cpp.Base.{
  ◌∷◌, ℕ, zero, suc, ◌+◌, not, ◌||◌, Option-cases, inl, inr, ℤ, is_neg, ltb, leb, length, drop,
  ◌==◌,
}
use iotop_cpp.Text.{Text}
use iotop_cpp.Float.{Float}
use iotop_cpp.Run.{Call, sendto, recv}
use iotop_cpp.Run.Calls.{Calls, GoesOn-refl, Only-call, Only-bind, Only-if}
use iotop_cpp.Os.{Os}
use iotop_cpp.Abi.{Abi}
use iotop_cpp.Task.{TaskIoInfo}
use iotop_cpp.Netlink.{
  NetlinkIoStats, max_netlink_msg_size, nla_data, genlmsg_data, genlmsg_payload, read_at,
  read_stats, read_aggr, read_reply,
}
use iotop_cpp.Netlink.Socket.{send_loop, send_netlink_cmd}
use iotop_cpp.Netlink.Stats.{handle_reply, get_task_io_info}
use iotop_cpp.Netlink.Failing.{sign_cases}

pub send_loop-Calls :
    (P : Call → Type 0) (send : (fd : ℤ) (buf : Text) → P (sendto fd buf)) (os : Os) (rounds : ℕ)
    (fd : ℤ) (buf : Text)
    → Calls P (send_loop os rounds fd buf)
unfolding send_loop
send_loop-Calls P send os zero fd buf t = tt
send_loop-Calls P send os (suc rounds) fd buf t =
    Only-call P (sendto fd buf) t _ (send fd buf) (elim (sign_cases (os.sendto t fd buf)) [
      | inl (n, e) ↦
          rw (e, send_loop)
            (Only-if P (ltb n (length buf)) _ _ _
              (Only-if P (ltb 0 n) _ _ _ (send_loop-Calls P send os rounds fd (drop n buf) _) (
                Only-if P (os.again (sendto fd buf ∷ t)) _ _ _
                  (send_loop-Calls P send os rounds fd (drop n buf) _) (GoesOn-refl P _)))
              (GoesOn-refl P _))
      | inr (n, e) ↦
          rw (e, send_loop)
            (Only-if P (os.again (sendto fd buf ∷ t)) _ _ _
              (send_loop-Calls P send os rounds fd buf _) (GoesOn-refl P _))
    ])

pub read_at-Calls :
    (P : Call → Type 0) (abi : Abi) (msg : Text) (na size : ℕ) → Calls P (read_at abi msg na size)
unfolding read_at
read_at-Calls P abi msg na size t =
    Only-if P (leb (na + size) (length msg)) _ _ t (GoesOn-refl P t) tt

module _ (P : Call → Type 0) (F : Float) (abi : Abi) (msg : Text) where
  read_stats-Calls : (na : ℕ) (info : TaskIoInfo F) → Calls P (read_stats F abi msg na info)
  unfolding read_stats
  read_stats-Calls na info t =
      Only-bind P t (read_at abi msg na abi.nla_hdrlen t) _
        (read_at-Calls P abi msg na abi.nla_hdrlen t)
        (λ attr u.
          Only-if P (abi.nla_type attr == abi.taskstats_type_stats) _ _ u
            (Only-bind P u (read_at abi msg (nla_data abi na) abi.end_of_write_bytes u) _
              (read_at-Calls P abi msg (nla_data abi na) abi.end_of_write_bytes u)
              (λ ts v. GoesOn-refl P v))
            (GoesOn-refl P u))

  read_aggr-Calls :
      (rounds na len2 aggr_len : ℕ) (info : TaskIoInfo F)
      → Calls P (read_aggr F abi rounds msg na len2 aggr_len info)
  unfolding read_aggr
  read_aggr-Calls zero na len2 aggr_len info t = tt
  read_aggr-Calls (suc rounds) na len2 aggr_len info t =
      Only-if P (ltb len2 aggr_len) _ _ t
        (Only-bind P t (read_stats F abi msg na info t) _ (read_stats-Calls na info t) (λ info' u.
          Only-bind P u (read_at abi msg na abi.nla_hdrlen u) _
            (read_at-Calls P abi msg na abi.nla_hdrlen u)
            (λ attr. read_aggr-Calls rounds _ _ aggr_len info')))
        (GoesOn-refl P t)

  read_reply-Calls :
      (rounds na len rep_len : ℕ) (info : TaskIoInfo F)
      → Calls P (read_reply F abi rounds msg na len rep_len info)
  unfolding read_reply
  read_reply-Calls zero na len rep_len info t = tt
  read_reply-Calls (suc rounds) na len rep_len info t =
      Only-if P (ltb len rep_len) _ _ t
        (Only-bind P t (read_at abi msg na abi.nla_hdrlen t) _
          (read_at-Calls P abi msg na abi.nla_hdrlen t)
          (λ attr u.
            Only-bind P u _ _
              (Only-if P
                (abi.nla_type attr == abi.taskstats_type_aggr_tgid
                  || abi.nla_type attr == abi.taskstats_type_aggr_pid)
                _ _ u (read_aggr-Calls _ _ 0 _ info u) (GoesOn-refl P u))
              (λ info'. read_reply-Calls rounds _ _ rep_len info')))
        (GoesOn-refl P t)

module _ (P : Call → Type 0) (F : Float) (os : Os) (abi : Abi) (rounds : ℕ) where
  pub handle_reply-Calls :
      (msg : Text) (rep_len : ℕ) (info : TaskIoInfo F)
      → Calls P (handle_reply F os abi rounds msg rep_len info)
  unfolding handle_reply
  handle_reply-Calls msg rep_len info t =
      Only-if P (not (abi.nlmsg_ok (abi.nlmsg_len msg) rep_len)) _ _ t (GoesOn-refl P t) (
        Only-if P (abi.nlmsg_type msg == abi.nlmsg_error) _ _ t (GoesOn-refl P t) (
          Only-bind P t _ _
            (read_reply-Calls P F abi msg (suc (genlmsg_payload abi (abi.nlmsg_len msg)))
              (genlmsg_data abi) 0 (genlmsg_payload abi (abi.nlmsg_len msg)) info t)
            (λ _ u. GoesOn-refl P u)))

module _ (P : Call → Type 0) (send : (fd : ℤ) (buf : Text) → P (sendto fd buf))
    (receive : (fd : ℤ) → P (recv fd)) (F : Float) (os : Os) (abi : Abi) (rounds : ℕ) where
  pub get_task_io_info-Calls :
      (this : NetlinkIoStats) (task_id : ℕ) (info : TaskIoInfo F)
      → Calls P (get_task_io_info F os abi rounds this task_id info)
  unfolding get_task_io_info send_netlink_cmd
  get_task_io_info-Calls this task_id info t =
      Only-bind P t _ _
        (Only-if P (ltb max_netlink_msg_size (length (abi.put_u64 task_id) + abi.nla_hdrlen)) _ _ t
          tt (send_loop-Calls P send os rounds this.sock_fd _ t))
        (λ res u. Only-if P (is_neg res) _ _ u (GoesOn-refl P u) (
          Only-call P (recv this.sock_fd) u _ (receive this.sock_fd)
            (elim (Option-cases (os.recv u this.sock_fd)) [
              | inl e ↦ rw (e, get_task_io_info) (GoesOn-refl P _)
              | inr ((msg, rep_len), e) ↦
                  rw (e, get_task_io_info) (handle_reply-Calls P F os abi rounds msg rep_len info _)
            ])))
