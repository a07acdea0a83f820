-- ===== src/Runner/Outgoing.antt =====
-- What the program sends, from its start on.
use mathlib.Core.List.{append_assoc}
use iotop_cpp.Base.{
  ℕ, ◌≡◌, refl, ◌∙◌, ◌⊎◌, inl, inr, List, [], ◌∷◌, ◌++◌, Option-cases, Bool-cases, ℤ, pos, negsuc,
  is_neg,
}
use iotop_cpp.Text.{Text}
use iotop_cpp.Float.{Float}
use iotop_cpp.Run.{Trace, Returns, Returns-result, Returns-bind, and_then, pure, recv, getpid}
use iotop_cpp.Run.Ends.{AtEnd, AtEnd-bind, Returns-AtEnd}
use iotop_cpp.Run.Within.{Same, Same-IsPreorder, Within-mono}
use iotop_cpp.Run.Calls.{Only-Within}
use iotop_cpp.Os.{Os}
use iotop_cpp.Abi.{Abi, IsLinux}
use iotop_cpp.Netlink.{NetlinkIoStats}
use iotop_cpp.Netlink.Socket
use iotop_cpp.Netlink.Socket.{init_sock, init_netlink_family_id}
use iotop_cpp.Netlink.Sending.{stream, family_request}
use iotop_cpp.Netlink.Patience.{IsReady}
use iotop_cpp.Netlink.Asking.{IsSilent}
use iotop_cpp.Netlink.Request.{HasRoom, send_netlink_cmd-Sent}
use iotop_cpp.Netlink.Start.{IsFamilyAnswer}
use iotop_cpp.Monitor.Collect.{IsValid}
use iotop_cpp.Runner.{IoRunner, new_runner, init, run, main}
use iotop_cpp.Runner.Answers.{Answers}
use iotop_cpp.Runner.Begins.{IfFine, init-IfFine}
use iotop_cpp.Netlink.Connection.{init_sock-silent}
use iotop_cpp.Netlink.Connects.{read_family_id-Calls}
use iotop_cpp.Runner.History.{History}
use iotop_cpp.Runner.Streams.{asked, run-stream}
use iotop_cpp.Runner.Whole.{init-Started}

module _ (os : Os) (abi : Abi) (linux : IsLinux abi) (rounds : ℕ)
    (ready : (fd : ℤ) → IsReady os abi rounds fd)
    (room : HasRoom abi (abi.taskstats_genl_name ++ (0 ∷ []))) where
  family-stream :
      (this : NetlinkIoStats) (t : Trace)
      → AtEnd
          (init_netlink_family_id os abi rounds this t)
          (λ _ w. stream os w ≡ stream os t ++ family_request abi (os.getpid t))
  unfolding init_netlink_family_id
  family-stream this t =
      let (v, e, s) = Returns-result _ (pos 0) (
        send_netlink_cmd-Sent os abi linux rounds this.sock_fd (ready this.sock_fd) abi.genl_id_ctrl
          (os.getpid t) abi.ctrl_cmd_getfamily abi.ctrl_attr_family_name
          (abi.taskstats_genl_name ++ (0 ∷ [])) room (getpid ∷ t)) in
      rw (e, init_netlink_family_id)
        (elim (Option-cases (os.recv v this.sock_fd)) [
          | inl none_left ↦ rw (none_left, init_netlink_family_id) s
          | inr ((msg, rep_len), got) ↦
              rw (got, init_netlink_family_id)
                (Within-mono (Same (stream os))
                  (λ u w. stream os w ≡ stream os t ++ family_request abi (os.getpid t))
                  (recv this.sock_fd ∷ v) _ (λ w same. same ∙ s)
                  (Only-Within (IsSilent os) (Same-IsPreorder (stream os)) (λ c u h. h u) _ _
                    (read_family_id-Calls (IsSilent os) os abi rounds this msg rep_len _)))
        ])

  -- The one request of the start.
  abbrev Introduced : Trace → Trace → Type 0
  Introduced t w = (v : Trace) × (stream os w ≡ stream os t ++ family_request abi (os.getpid v))

  init-Introduced :
      (this : NetlinkIoStats) (t : Trace)
      → AtEnd (Socket.init os abi rounds this t) (λ r w. IfFine (Introduced t) r.0 w)
  unfolding Socket.init
  init-Introduced this t =
      AtEnd-bind (λ _ u. Same (stream os) t u) (λ r w. IfFine (Introduced t) r.0 w)
        (init_sock os abi rounds this t) _ (init_sock-silent os abi rounds this t)
        (λ r u same. elim (Bool-cases (is_neg r.0)) [
          | inl failed ↦ rw failed (λ h. cc)
          | inr fine ↦ rw fine (
              AtEnd-bind (λ _ w. stream os w ≡ stream os u ++ family_request abi (os.getpid u))
                (λ r w. IfFine (Introduced t) r.0 w) (init_netlink_family_id os abi rounds r.1 u) _
                (family-stream r.1 u) (λ r' w s h. (u, s ∙ rw same refl)))
        ])

module _ (F : Float) (os : Os) (abi : Abi) (rounds : ℕ) (good : Answers os abi rounds)
    (room : HasRoom abi (abi.taskstats_genl_name ++ (0 ∷ [])))
    (families : (fd : ℤ) (pid : ℕ) (s : Text) (u : Trace)
      → stream os u ≡ s ++ family_request abi pid
      → IsFamilyAnswer abi (os.recv u fd)) where
  -- The program fails to start, or has a history that accounts for all that it sends.
  abbrev pub Sends : ℕ → Trace → ℤ × IoRunner F os abi rounds → Trace → Type 0
  Sends n t r w =
      (r.0 ≡ negsuc 0)
      ⊎ ((r.0 ≡ pos 0)
          × ((this : IoRunner F os abi rounds) × (u v : Trace) × (printed : List (ℕ × Text))
              × (history : History F os abi rounds n this u printed r.1 w) × (stream os w
                  ≡ stream os t ++ (family_request abi (os.getpid v) ++ asked history))))

  run-Sends :
      (n : ℕ) (this : IoRunner F os abi rounds) (t u v : Trace)
      → IsValid this
      → stream os u ≡ stream os t ++ family_request abi (os.getpid v)
      → Returns (and_then (run F os abi rounds n this u) (λ last. pure (pos 0, last))) (Sends n t)
  run-Sends n this t u v valid begins =
      Returns-bind _ (Sends n t) (run F os abi rounds n this u) _
        (run-stream F os abi rounds good n this u valid)
        (λ last w (_, (printed, history, _, sent)). inr (
          refl,
          (
            this,
            u,
            v,
            printed,
            history,
            sent ∙ rw begins (append_assoc (stream os t) _ (asked history)),
          ),
        ))

  -- On a Linux kernel (the kernel's headers meet their laws, the payload of a request has room and
  -- the rounds suffice for a message, the socket takes at least one byte of what it is offered,
  -- unless it takes none and asks to try again, which it does a bounded number of times in a row,
  -- when the last that the socket has taken is a request for the statistics of a task, what is
  -- received is nothing, a message that is cut off or an error, or a message that can be read (as
  -- far as its payload, the headers of its attributes lie within the buffer, and within each
  -- aggregate, at the places where the inner loop looks, the headers and the fields of the
  -- statistics that are read do, until the lengths add up), and user names and first lines are no
  -- longer than 128 bytes), and where, when the last that the socket has taken is the request for
  -- the family, what is received is nothing, a message that is cut off or an error, or has room for
  -- the two attributes that a family is read from, the program with n rounds of its loop comes
  -- back, for every n: with -1, or with 0 and a history of n rounds, and then the bytes that the
  -- socket has taken in the whole run are one message that asks for the family, and for each round
  -- of that history, in order, the messages that ask for the statistics of the tasks that were
  -- listed in that round, each message whole and one for each task, each process before its
  -- threads.
  pub main-Sends : (n : ℕ) (t : Trace) → Returns (main F os abi rounds n t) (Sends n t)
  unfolding main
  main-Sends n t =
      let new = new_runner F os abi rounds in
      Returns-bind
        (λ r u.
          (((r.0 ≡ negsuc 0) ⊎ (r.0 ≡ pos 0)) × IsValid r.1)
          × IfFine (Introduced os abi good.linux rounds good.ready room t) r.0 u)
        (Sends n t) (init F os abi rounds new t) _
        (Returns-AtEnd _ _ (init F os abi rounds new t)
          (init-Started F os abi rounds good room families t)
          (init-IfFine F os abi rounds (Introduced os abi good.linux rounds good.ready room t)
            (λ w h. h) new t
            (init-Introduced os abi good.linux rounds good.ready room new.netlink_io_obj t)))
        (λ r u (started, introduced). elim (Bool-cases (is_neg r.0)) [
          | inl failed ↦ rw failed (inl refl)
          | inr fine ↦
              let (v, begins) = introduced fine in rw fine (run-Sends n r.1 t u v started.1 begins)
        ])
