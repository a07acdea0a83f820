-- ===== src/Netlink/Series.antt =====
-- Requests in a row: which reply is taken for which.
use iotop_cpp.Base.{
  ℕ, suc, ◌+◌, ◌≡◌, refl, ap, ◌∙◌, inl, inr, List, [], ◌∷◌, Option, some, Option-cases, ltb, length,
  ℤ, pos,
}
use iotop_cpp.Text.{Text}
use iotop_cpp.Float.{Float}
use iotop_cpp.Run.{Call, Trace, done, recv, Returns, Returns-done, traverse}
use iotop_cpp.Run.Ends.{AtEnd}
use iotop_cpp.Run.Within.{Within, Same, Same-IsPreorder, Within-if, Within-done}
use iotop_cpp.Run.Calls.{Only-Within}
use iotop_cpp.Os.{Os}
use iotop_cpp.Abi.{Abi, IsLinux}
use iotop_cpp.Task.{TaskIoInfo}
use iotop_cpp.Netlink.{NetlinkIoStats, to_uint16, max_netlink_msg_size}
use iotop_cpp.Netlink.Socket.{send_netlink_cmd}
use iotop_cpp.Netlink.Stats.{get_task_io_info}
use iotop_cpp.Netlink.Calling.{send_loop-Calls, handle_reply-Calls}
use iotop_cpp.Netlink.Patience.{IsReady}
use iotop_cpp.Netlink.Request.{HasRoom, IsAnswer, IsOutcome, Answered, get_task_io_info-IsOutcome}

-- How often something was received.
abbrev pub received : Trace → ℕ
received [] = 0
received (recv fd ∷ t) = suc (received t)
received (c ∷ t) = received t

-- The messages of a stream: what is pending at first, and then the reply to each task in turn, so that
-- the reply to a task comes when the next one is asked for.
abbrev pub Lags : (ℕ → Option (Text × ℕ)) → (ℕ → Text × ℕ) → Option (Text × ℕ) → ℕ → List ℕ → Type 0
Lags stream reply pending n [] = Unit {0}
Lags stream reply pending n (id ∷ ids) =
    (stream n ≡ pending) × Lags stream reply (some (reply id)) (suc n) ids

-- Each task has what was pending when it was asked for: the reply to the task before it.
abbrev pub HasEarlier :
    (F : Float)
    → Abi
    → (ℕ → Text × ℕ)
    → (ℕ → TaskIoInfo F)
    → Option (Text × ℕ)
    → List ℕ
    → List (ℤ × TaskIoInfo F)
    → Type 0
HasEarlier F abi reply info pending [] rs = rs ≡ []
HasEarlier F abi reply info pending (id ∷ ids) rs =
    (r : ℤ × TaskIoInfo F) × (later : List (ℤ × TaskIoInfo F)) × (rs ≡ r ∷ later)
    × IsOutcome F abi pending (info id) r
    × HasEarlier F abi reply info (some (reply id)) ids later

-- The calls that receive nothing.
abbrev IsDeaf : Call → Type 0
IsDeaf c = (t : Trace) → received (c ∷ t) ≡ received t

send-received :
    (os : Os) (abi : Abi) (rounds : ℕ) (fd : ℤ) (type pid cmd attr : ℕ) (payload : Text) (t : Trace)
    → Within (Same received) t (send_netlink_cmd os abi rounds fd type pid cmd attr payload t)
unfolding send_netlink_cmd
send-received os abi rounds fd type pid cmd attr payload t =
    Within-if (Same received) (ltb max_netlink_msg_size (length payload + abi.nla_hdrlen)) _ _ t t
      tt
      (Only-Within IsDeaf (Same-IsPreorder received) (λ c u h. h u) t _
        (send_loop-Calls IsDeaf (λ fd buf u. refl) os rounds fd _ t))

module _ (F : Float) (os : Os) (abi : Abi) (linux : IsLinux abi) (rounds : ℕ)
    (this : NetlinkIoStats) (ready : IsReady os abi rounds this.sock_fd)
    (room : (id : ℕ) → HasRoom abi (abi.put_u64 id))
    (answers : (t : Trace) → IsAnswer abi (os.recv t this.sock_fd)) where
  get_task_io_info-received :
      (task_id : ℕ) (info : TaskIoInfo F) (t u : Trace)
      → send_netlink_cmd os abi rounds this.sock_fd
          (to_uint16 this.netlink_family_id)
          task_id
          abi.taskstats_cmd_get
          abi.taskstats_cmd_attr_pid
          (abi.put_u64 task_id)
          t
        ≡ done (pos 0) u
      → AtEnd
          (get_task_io_info F os abi rounds this task_id info t)
          (λ _ w. received w ≡ suc (received u))
  unfolding get_task_io_info
  get_task_io_info-received task_id info t u e =
      rw (e, get_task_io_info)
        (elim (Option-cases (os.recv u this.sock_fd)) [
          | inl none_left ↦ rw (none_left, get_task_io_info) refl
          | inr ((msg, rep_len), got) ↦
              rw (got, get_task_io_info)
                (Only-Within IsDeaf (Same-IsPreorder received) (λ c v h. h v)
                  (recv this.sock_fd ∷ u) _
                  (handle_reply-Calls IsDeaf F os abi rounds msg rep_len info _))
        ])

  module _ (stream : ℕ → Option (Text × ℕ))
      (in_order : (t : Trace) → os.recv t this.sock_fd ≡ stream (received t)) where
    -- A request takes the next message of the stream.
    next-IsOutcome :
        (task_id : ℕ) (info : TaskIoInfo F) (t : Trace)
        → Returns
            (get_task_io_info F os abi rounds this task_id info t)
            (λ r w. IsOutcome F abi (stream (received t)) info r × (received w ≡ suc (received t)))
    next-IsOutcome task_id info t =
        let (r, w, d, (u, e, outcome)) =
          Returns-done
            (λ r _. Answered F os abi linux rounds this ready room answers task_id info t r) _
            (get_task_io_info-IsOutcome F os abi linux rounds this ready room answers task_id info
              t) in
        let same =
          Within-done (Same received) t _ (pos 0) u
            (send-received os abi rounds this.sock_fd (to_uint16 this.netlink_family_id) task_id
              abi.taskstats_cmd_get abi.taskstats_cmd_attr_pid (abi.put_u64 task_id) t)
            e in
        let after = rw d at (get_task_io_info-received task_id info t u e) in
        rw d (rw (in_order u, same) at outcome, after ∙ ap suc same)

    -- Where the kernel's headers meet their laws, the socket takes at least one byte of what it is
    -- offered, unless it takes none and asks to try again, which it does a bounded number of times
    -- in a row, the payload has room and the rounds suffice for a message, what is received is as
    -- `get_task_io_info` needs it and is, in order, a stream of messages, and where the messages of
    -- that stream come one late, first what is pending and then the reply to each task when the
    -- next one is asked for, a series of requests comes back, and each task is given what comes of
    -- the message that was pending when it was asked for, the reply to the task before it,
    -- whichever task that message is about.
    pub series-HasEarlier :
        (reply : ℕ → Text × ℕ) (info : ℕ → TaskIoInfo F) (pending : Option (Text × ℕ))
        (ids : List ℕ) (t : Trace)
        → Lags stream reply pending (received t) ids
        → Returns
            (traverse (λ id. get_task_io_info F os abi rounds this id (info id)) ids t)
            (λ rs _. HasEarlier F abi reply info pending ids rs)
    unfolding traverse
    series-HasEarlier reply info pending [] t h = refl
    series-HasEarlier reply info pending (id ∷ ids) t h =
        let (r, u, e, (outcome, after)) =
          Returns-done
            (λ r w.
              IsOutcome F abi (stream (received t)) (info id) r × (received w ≡ suc (received t)))
            (get_task_io_info F os abi rounds this id (info id) t)
            (next-IsOutcome id (info id) t) in
        let (rs, w, d, later) =
          Returns-done (λ rs _. HasEarlier F abi reply info (some (reply id)) ids rs)
            (traverse (λ id. get_task_io_info F os abi rounds this id (info id)) ids u)
            (series-HasEarlier reply info (some (reply id)) ids u (rw after h.1)) in
        rw e (rw d (r, rs, refl, rw h.0 at outcome, later))
