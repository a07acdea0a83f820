-- ===== src/Netlink/Keeping.antt =====
-- What the loops over a reply keep of a task, on any bytes.
use iotop_cpp.Base.{ℕ, zero, suc, ◌||◌, inl, inr, ltb, ◌==◌, Option-cases, is_neg, not}
use iotop_cpp.Text.{Text}
use iotop_cpp.Float.{Float}
use iotop_cpp.Run.{Trace}
use iotop_cpp.Run.Ends.{AtEnd, AtEnd-bind, AtEnd-Any, Any, AtEnd-if}
use iotop_cpp.Os.{Os}
use iotop_cpp.Abi.{Abi}
use iotop_cpp.Task.{TaskIoInfo}
use iotop_cpp.Netlink.{
  NetlinkIoStats, nla_data, read_at, with_stats, read_stats, read_aggr, read_reply, to_uint16,
}
use iotop_cpp.Netlink.Socket.{send_netlink_cmd}
use iotop_cpp.Netlink.Stats.{handle_reply, get_task_io_info}

-- What holds of a task, and still does when statistics are written to it.
module _ (F : Float) (abi : Abi) (P : TaskIoInfo F → Type 0)
    (written : (ts : Text) (i : TaskIoInfo F) → P i → P (with_stats F abi ts i)) where
  abbrev Kept : TaskIoInfo F → Trace → Type 0
  Kept i _ = P i

  read_stats_keeps :
      (msg : Text) (na : ℕ) (i : TaskIoInfo F) (t : Trace)
      → P i
      → AtEnd (read_stats F abi msg na i t) Kept
  unfolding read_stats
  read_stats_keeps msg na i t h =
      AtEnd-bind Any Kept (read_at abi msg na abi.nla_hdrlen t) _ (AtEnd-Any _) (λ attr u _.
        AtEnd-if Kept (abi.nla_type attr == abi.taskstats_type_stats) _ _ u
          (AtEnd-bind Any Kept (read_at abi msg (nla_data abi na) abi.end_of_write_bytes u) _
            (AtEnd-Any _) (λ ts v _. written ts i h))
          h)

  read_aggr_keeps :
      (rounds : ℕ) (msg : Text) (na len2 aggr_len : ℕ) (i : TaskIoInfo F) (t : Trace)
      → P i
      → AtEnd (read_aggr F abi rounds msg na len2 aggr_len i t) Kept
  unfolding read_aggr
  read_aggr_keeps zero msg na len2 aggr_len i t h = tt
  read_aggr_keeps (suc rounds) msg na len2 aggr_len i t h =
      AtEnd-if Kept (ltb len2 aggr_len) _ _ t
        (AtEnd-bind Kept Kept (read_stats F abi msg na i t) _ (read_stats_keeps msg na i t h)
          (λ j u k.
            AtEnd-bind Any Kept (read_at abi msg na abi.nla_hdrlen u) _ (AtEnd-Any _)
              (λ attr v _. read_aggr_keeps rounds msg _ _ aggr_len j v k)))
        h

  read_reply_keeps :
      (rounds : ℕ) (msg : Text) (na len rep_len : ℕ) (i : TaskIoInfo F) (t : Trace)
      → P i
      → AtEnd (read_reply F abi rounds msg na len rep_len i t) Kept
  unfolding read_reply
  read_reply_keeps zero msg na len rep_len i t h = tt
  read_reply_keeps (suc rounds) msg na len rep_len i t h =
      AtEnd-if Kept (ltb len rep_len) _ _ t
        (AtEnd-bind Any Kept (read_at abi msg na abi.nla_hdrlen t) _ (AtEnd-Any _) (λ attr u _.
          AtEnd-bind Kept Kept _ _
            (AtEnd-if Kept
              (abi.nla_type attr == abi.taskstats_type_aggr_tgid
                || abi.nla_type attr == abi.taskstats_type_aggr_pid)
              _ _ u (read_aggr_keeps _ msg _ 0 _ i u h) h)
            (λ j v k. read_reply_keeps rounds msg _ _ rep_len j v k)))
        h

  module _ (os : Os) (rounds : ℕ) where
    handle_reply_keeps :
        (msg : Text) (rep_len : ℕ) (i : TaskIoInfo F) (t : Trace)
        → P i
        → AtEnd (handle_reply F os abi rounds msg rep_len i t) (λ r _. P r.1)
    unfolding handle_reply
    handle_reply_keeps msg rep_len i t h =
        AtEnd-if (λ r _. P r.1) (not (abi.nlmsg_ok (abi.nlmsg_len msg) rep_len)) _ _ t h
          (AtEnd-if (λ r _. P r.1) (abi.nlmsg_type msg == abi.nlmsg_error) _ _ t h
            (AtEnd-bind Kept (λ r _. P r.1) (read_reply F abi _ msg _ 0 _ i t) _
              (read_reply_keeps _ msg _ 0 _ i t h) (λ j u k. k)))

    pub get_task_io_info_keeps :
        (this : NetlinkIoStats) (id : ℕ) (i : TaskIoInfo F) (t : Trace)
        → P i
        → AtEnd (get_task_io_info F os abi rounds this id i t) (λ r _. P r.1)
    unfolding get_task_io_info
    get_task_io_info_keeps this id i t h =
        AtEnd-bind Any (λ r _. P r.1)
          (send_netlink_cmd os abi rounds this.sock_fd (to_uint16 this.netlink_family_id) id
            abi.taskstats_cmd_get abi.taskstats_cmd_attr_pid (abi.put_u64 id) t)
          _ (AtEnd-Any _)
          (λ res u _.
            AtEnd-if (λ r _. P r.1) (is_neg res) _ _ u h
              (elim (Option-cases (os.recv u this.sock_fd)) [
                | inl e ↦ rw (e, get_task_io_info) h
                | inr ((msg, rep_len), e) ↦
                    rw (e, get_task_io_info) (handle_reply_keeps msg rep_len i _ h)
              ]))
