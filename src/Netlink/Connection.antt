-- ===== src/Netlink/Connection.antt =====
-- The whole start of the connection.
use iotop_cpp.Base.{
  ℕ, ◌<◌, ◌≡◌, refl, ◌∙◌, ◌⊎◌, inl, inr, true, false, [], ◌∷◌, ◌++◌, some, if◌then◌else◌,
  Bool-cases, Option-cases, ℤ, pos, neg, is_neg,
}
use iotop_cpp.Text.{Text}
use iotop_cpp.Run.{
  Trace, Returns, Returns-done, Returns-if, Returns-result, Returns-mono, socket, getpid,
}
use iotop_cpp.Run.Ends.{Returns-AtEnd}
use iotop_cpp.Run.Within.{Within, Same, Same-IsPreorder}
use iotop_cpp.Run.Calls.{Only-Within}
use iotop_cpp.Os.{Os}
use iotop_cpp.Abi.{Abi, IsLinux}
use iotop_cpp.Proc.Scan.{closings}
use iotop_cpp.Netlink.{NetlinkIoStats}
use iotop_cpp.Netlink.Socket.{init_sock, init_netlink_family_id, init}
use iotop_cpp.Netlink.Sending.{stream, family_request}
use iotop_cpp.Netlink.Patience.{IsReady}
use iotop_cpp.Netlink.Request.{HasRoom, send_netlink_cmd-Sent}
use iotop_cpp.Netlink.Connects.{family-Calls}
use iotop_cpp.Netlink.Start.{
  IsOpening, init_sock-IsOpening, second_number, IsFamilyAnswer, IsFamily, read_family_id-IsFamily,
}

module _ (os : Os) (abi : Abi) (rounds : ℕ) where
  pub init_sock-silent :
      (this : NetlinkIoStats) (t : Trace)
      → Within (Same (stream os)) t (init_sock os abi rounds this t)
  unfolding init_sock
  init_sock-silent this t = elim (Option-cases (os.socket t)) [
    | inl e ↦ rw (e, init_sock) refl
    | inr (fd, e) ↦
        rw (e, init_sock)
          (elim (Bool-cases (os.bind (socket ∷ t) fd)) [
            | inr failed ↦ rw failed refl
            | inl bound ↦ rw bound refl
          ])
  ]

  family-closings :
      (this : NetlinkIoStats) (fd : ℕ) (t : Trace)
      → Within (Same (closings fd)) t (init_netlink_family_id os abi rounds this t)
  family-closings this fd t =
      Only-Within (λ c. (u : Trace) → closings fd (c ∷ u) ≡ closings fd u)
        (Same-IsPreorder (closings fd)) (λ c u h. h u) t _
        (family-Calls (λ c. (u : Trace) → closings fd (c ∷ u) ≡ closings fd u) (λ u. refl)
          (λ fd buf u. refl) (λ fd u. refl) os abi rounds this t)

-- A start: what is received when the family has been asked for, and an error or a connection, with the
-- number of the family from what was received.
abbrev pub Knows : Os → Abi → Trace → NetlinkIoStats → ℤ × NetlinkIoStats → Trace → Type 0
Knows os abi t this r _ =
    (r.1.sock_fd ≡ this.sock_fd)
    × ((is_neg r.0 ≡ true)
        ⊎ ((r.0 ≡ pos 0)
            × ((pid : ℕ) × (v : Trace) × (msg : Text) × (rep_len : ℕ) × (stream os v
                  ≡ stream os t ++ family_request abi pid)
                × (os.recv v this.sock_fd ≡ some (msg, rep_len))
                × (0 < second_number abi msg)
                × (r.1.netlink_family_id ≡ pos (second_number abi msg)))))

-- A connection: the socket that the system gave and that has not been closed, and the family from the
-- answer to the one message that was sent on it, which asks for the family.
abbrev pub IsConnected : Os → Abi → Trace → ℤ × NetlinkIoStats → Trace → Type 0
IsConnected os abi t r w =
    (fd : ℕ) × (os.socket t ≡ some fd)
    × (r.1.sock_fd ≡ pos fd)
    × (closings fd w ≡ closings fd t)
    × ((pid : ℕ) × (v : Trace) × (msg : Text) × (rep_len : ℕ) × (stream os v
          ≡ stream os t ++ family_request abi pid)
        × (os.recv v (pos fd) ≡ some (msg, rep_len))
        × (0 < second_number abi msg)
        × (r.1.netlink_family_id ≡ pos (second_number abi msg)))

module _ (os : Os) (abi : Abi) (linux : IsLinux abi) (rounds : ℕ)
    (ready : (fd : ℤ) → IsReady os abi rounds fd)
    (room : HasRoom abi (abi.taskstats_genl_name ++ (0 ∷ [])))
    (answers : (fd : ℤ) (pid : ℕ) (s : Text) (u : Trace)
      → stream os u ≡ s ++ family_request abi pid
      → IsFamilyAnswer abi (os.recv u fd))
    (this : NetlinkIoStats) (t : Trace) where
  init_netlink_family_id-Knows :
      (that : NetlinkIoStats) (u : Trace)
      → Returns (init_netlink_family_id os abi rounds that u) (Knows os abi u that)
  unfolding init_netlink_family_id
  init_netlink_family_id-Knows that u =
      let (v, e, sent) = Returns-result _ (pos 0) (
        send_netlink_cmd-Sent os abi linux rounds that.sock_fd (ready that.sock_fd) abi.genl_id_ctrl
          (os.getpid u) abi.ctrl_cmd_getfamily abi.ctrl_attr_family_name
          (abi.taskstats_genl_name ++ (0 ∷ [])) room (getpid ∷ u)) in
      rw (e, init_netlink_family_id)
        (elim (Option-cases (os.recv v that.sock_fd)) [
          | inl none_left ↦ rw (none_left, init_netlink_family_id) (refl, inl refl)
          | inr ((msg, rep_len), got) ↦
              rw (got, init_netlink_family_id)
                (Returns-mono (IsFamily abi that msg) (Knows os abi u that) _
                  (read_family_id-IsFamily os abi rounds that msg rep_len _
                    (rw got at (answers that.sock_fd (os.getpid u) (stream os u) v sent)))
                  (known that u v msg rep_len (os.getpid u) sent got))
        ])
    where
      known :
          (that : NetlinkIoStats) (u v : Trace) (msg : Text) (rep_len pid : ℕ)
          → stream os v ≡ stream os u ++ family_request abi pid
          → os.recv v that.sock_fd ≡ some (msg, rep_len)
          → (r : ℤ × NetlinkIoStats) (w : Trace) → IsFamily abi that msg r w
          → Knows os abi u that r w
      known that u v msg rep_len pid sent got r w (kept, inl failed) = (kept, inl failed)
      known that u v msg rep_len pid sent got r w (kept, inr (fine, positive, number)) =
          (kept, inr (fine, (pid, v, msg, rep_len, sent, got, positive, number)))

  abbrev Ends : ℤ × NetlinkIoStats → Trace → Type 0
  Ends r w = (is_neg r.0 ≡ true) ⊎ ((r.0 ≡ pos 0) × IsConnected os abi t r w)

  -- The socket that is given and not closed, where the code is not negative.
  abbrev Opened : NetlinkIoStats → Trace → Type 0
  Opened that u =
      (fd : ℕ) × (os.socket t ≡ some fd) × (that.sock_fd ≡ pos fd) × (closings fd u ≡ closings fd t)

  opened :
      (r : ℤ × NetlinkIoStats) (u : Trace) → IsOpening os t r u → is_neg r.0 ≡ false → Opened r.1 u
  opened r u (inl (e, failed, _, _)) fine = cc (rw failed at fine)
  opened r u (inr (fd, e, h, inl (_, same))) fine = (fd, e, h, same)
  opened r u (inr (fd, e, h, inr (inl (failed, _)))) fine = cc (rw failed at fine)
  opened r u (inr (fd, e, h, inr (inr (failed, _)))) fine = cc (rw failed at fine)

  connected :
      (that : NetlinkIoStats) (u : Trace) (r : ℤ × NetlinkIoStats) (w : Trace)
      → stream os u ≡ stream os t
      → Opened that u
      → Knows os abi u that r w
      → ((fd : ℕ) → closings fd w ≡ closings fd u)
      → Ends (if is_neg r.0 then neg 2 else pos 0, r.1) w
  connected that u r w quiet holds (kept, inl failed) same = rw failed (inl refl)
  connected that u r w quiet (fd, given, h, unclosed)
        (kept, inr (fine, (pid, v, msg, rep_len, sent, got, positive, number))) same =
      rw fine (
        inr (
          refl,
          (
            fd,
            given,
            kept ∙ h,
            same fd ∙ unclosed,
            (pid, v, msg, rep_len, rw quiet at sent, rw h at got, positive, number),
          ),
        ))

  -- Where the kernel's headers meet their laws, the name of the family has room in a message and
  -- the rounds suffice for one, the socket takes at least one byte of what it is offered, unless it
  -- takes none and asks to try again, which it does a bounded number of times in a row, and, when
  -- the last that the socket has taken is the request for the family, what is received is nothing,
  -- a message that is cut off or an error, or has room for two attributes, `NetlinkIoStats::init`
  -- comes back: with a negative code, or with 0, and then it has the socket that the system gave,
  -- which it has not closed; what it had sent when it received is just the one message that asks
  -- for the family; and the number of the family is the one in the second attribute of what was
  -- received then on that socket, and is not 0.
  pub init-IsConnected :
      Returns
        (init os abi rounds this t)
        (λ r w. (is_neg r.0 ≡ true) ⊎ ((r.0 ≡ pos 0) × IsConnected os abi t r w))
  unfolding init
  init-IsConnected =
      let (r, u, e, (opening, quiet)) = Returns-done _ (init_sock os abi rounds this t) (
        Returns-AtEnd _ (λ _ u. stream os u ≡ stream os t) _
          (init_sock-IsOpening os abi rounds this t) (init_sock-silent os abi rounds this t)) in
      rw e (
        Returns-if Ends (is_neg r.0) _ _ u (λ _. inl refl)
          (λ fine.
            let (r', v, d, knows) =
              Returns-done _ (init_netlink_family_id os abi rounds r.1 u)
                (init_netlink_family_id-Knows r.1 u) in
            rw d (
              connected r.1 u r' v quiet (opened r u opening fine) knows
                (λ fd. rw d at (family-closings os abi rounds r.1 fd u)))))
