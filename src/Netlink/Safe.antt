-- ===== src/Netlink/Safe.antt =====
-- Requests whose answer can be read.
use iotop_cpp.Base.{
  ℕ, suc, ◌≡◌, ◌⊎◌, ◌++◌, inl, inr, true, false, [], Bool-cases, Option-cases, Option, none, some,
  arith, ◌==◌, pos,
}
use iotop_cpp.Text.{Text}
use iotop_cpp.Float.{Float}
use iotop_cpp.Run.{Trace, Returns}
use iotop_cpp.Os.{Os}
use iotop_cpp.Abi.{Abi, IsLinux}
use iotop_cpp.Task.{TaskIoInfo, new_task}
use iotop_cpp.Netlink.{NetlinkIoStats, genlmsg_payload}
use iotop_cpp.Netlink.Stats.{handle_reply, get_task_io_info}
use iotop_cpp.Netlink.Sending.{stream, request}
use iotop_cpp.Netlink.Patience.{IsReady}
use iotop_cpp.Netlink.Readable.{Readable}
use iotop_cpp.Netlink.Returning.{read_reply_returns_iff}
use iotop_cpp.Netlink.Attributes.{payload, decode}
use iotop_cpp.Netlink.Decoding.{read_reply-decode}
use iotop_cpp.Netlink.Request.{HasRoom, HoldsItems, IsAnswer, request-done}

-- What may be received: nothing, a message that is cut off or reports an error, or one that the loops
-- come through.
abbrev pub IsSafe : Abi → Option (Text × ℕ) → Type 0
IsSafe abi none = Unit {0}
IsSafe abi (some (msg, rep_len)) =
    (abi.nlmsg_ok (abi.nlmsg_len msg) rep_len ≡ false)
    ⊎ ((abi.nlmsg_type msg == abi.nlmsg_error) ≡ true)
    ⊎ Readable abi msg (genlmsg_payload abi (abi.nlmsg_len msg)) 0

abbrev Comes : {A : Type 0} → A → Trace → Type 0
Comes _ _ = Unit {0}

module _ (F : Float) (abi : Abi) (linux : IsLinux abi) where
  HoldsItems-Readable :
      (msg : Text)
      → HoldsItems abi msg
      → Readable abi msg (genlmsg_payload abi (abi.nlmsg_len msg)) 0
  HoldsItems-Readable msg holds =
      let task = new_task F (pos 0) true in
      rw holds.whole (
        (read_reply_returns_iff F abi msg (payload abi holds.items) (suc (payload abi holds.items))
            task [] (omega arith)).0
          (
            decode F abi holds.items holds.behind task,
            read_reply-decode F abi linux msg [] holds.items holds.behind task holds.are_items
                holds.stands,
          ))

  -- Attributes as the kernel is expected to send them can be read.
  pub IsAnswer-IsSafe : (got : Option (Text × ℕ)) → IsAnswer abi got → IsSafe abi got
  IsAnswer-IsSafe none h = tt
  IsAnswer-IsSafe (some (msg, rep_len)) (inl cut) = inl cut
  IsAnswer-IsSafe (some (msg, rep_len)) (inr (inl error)) = inr (inl error)
  IsAnswer-IsSafe (some (msg, rep_len)) (inr (inr holds)) =
      inr (inr (HoldsItems-Readable msg holds))

module _ (F : Float) (os : Os) (abi : Abi) (rounds : ℕ) where
  handle_reply-Returns :
      (msg : Text) (rep_len : ℕ) (info : TaskIoInfo F) (t : Trace)
      → IsSafe abi (some (msg, rep_len))
      → Returns (handle_reply F os abi rounds msg rep_len info t) Comes
  unfolding handle_reply
  handle_reply-Returns msg rep_len info t safe =
      elim (Bool-cases (abi.nlmsg_ok (abi.nlmsg_len msg) rep_len)) [
        | inr cut ↦ rw cut tt
        | inl ok ↦ elim (Bool-cases (abi.nlmsg_type msg == abi.nlmsg_error)) [
          | inl error ↦ rw (ok, error) tt
          | inr fine ↦
              let (info', e) =
                (read_reply_returns_iff F abi msg (genlmsg_payload abi (abi.nlmsg_len msg))
                    (suc (genlmsg_payload abi (abi.nlmsg_len msg))) info t (omega arith)).1
                  (readable ok fine safe) in
              rw (ok, fine) (rw e tt)
        ]
      ]
    where
      readable :
          abi.nlmsg_ok (abi.nlmsg_len msg) rep_len ≡ true
          → (abi.nlmsg_type msg == abi.nlmsg_error) ≡ false
          → IsSafe abi (some (msg, rep_len))
          → Readable abi msg (genlmsg_payload abi (abi.nlmsg_len msg)) 0
      readable ok fine (inl cut) = cc
      readable ok fine (inr (inl error)) = cc
      readable ok fine (inr (inr found)) = found

module _ (F : Float) (os : Os) (abi : Abi) (linux : IsLinux abi) (rounds : ℕ)
    (this : NetlinkIoStats) (ready : IsReady os abi rounds this.sock_fd)
    (room : (id : ℕ) → HasRoom abi (abi.put_u64 id))
    (safe : (id : ℕ) (s : Text) (u : Trace)
      → stream os u ≡ s ++ request abi this id
      → IsSafe abi (os.recv u this.sock_fd)) where
  pub get_task_io_info-Returns :
      (task_id : ℕ) (info : TaskIoInfo F) (t : Trace)
      → Returns (get_task_io_info F os abi rounds this task_id info t) Comes
  unfolding get_task_io_info
  get_task_io_info-Returns task_id info t =
      let (u, e, sent) = request-done os abi linux rounds this ready room task_id t in
      rw (e, get_task_io_info)
        (elim (Option-cases (os.recv u this.sock_fd)) [
          | inl none_left ↦ rw (none_left, get_task_io_info) tt
          | inr ((msg, rep_len), got) ↦
              rw (got, get_task_io_info)
                (handle_reply-Returns F os abi rounds msg rep_len info _
                  (rw got at (safe task_id (stream os t) u sent)))
        ])
