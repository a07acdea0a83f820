-- ===== src/Netlink/Connects.antt =====
-- The calls of the start of the connection.
use iotop_cpp.Base.{
  ℕ, ◌+◌, ◌≡◌, refl, Bool, true, false, not, [], ◌∷◌, ◌++◌, Option-cases, inl, inr, ℤ, is_neg, ltb,
  length, ◌==◌,
}
use iotop_cpp.Text.{Text}
use iotop_cpp.Run.{Call, socket, bind, fcntl_getfl, fcntl_setfl, close, getpid, sendto, recv}
use iotop_cpp.Run.Calls.{Calls, GoesOn-refl, GoesOn-call, Only-call, Only-bind, Only-if}
use iotop_cpp.Os.{Os}
use iotop_cpp.Abi.{Abi}
use iotop_cpp.Netlink.{NetlinkIoStats, max_netlink_msg_size, genlmsg_data, read_at}
use iotop_cpp.Netlink.Socket.{
  send_netlink_cmd, init_sock, read_family_id, init_netlink_family_id, init,
}
use iotop_cpp.Netlink.Calling.{send_loop-Calls, read_at-Calls}

-- The calls of the socket.
abbrev pub connects : Call → Bool
connects socket = true
connects (bind fd) = true
connects (fcntl_getfl fd) = true
connects (fcntl_setfl fd flags) = true
connects (close fd) = true
connects getpid = true
connects (sendto fd buf) = true
connects (recv fd) = true
connects c = false

abbrev pub Connects : Call → Type 0
Connects c = connects c ≡ true

module _ (P : Call → Type 0) (os : Os) (abi : Abi) (rounds : ℕ) where
  pub read_family_id-Calls :
      (this : NetlinkIoStats) (msg : Text) (rep_len : ℕ)
      → Calls P (read_family_id os abi rounds this msg rep_len)
  unfolding read_family_id
  read_family_id-Calls this msg rep_len t =
      Only-if P (not (abi.nlmsg_ok (abi.nlmsg_len msg) rep_len)) _ _ t (GoesOn-refl P t) (
        Only-if P (abi.nlmsg_type msg == abi.nlmsg_error) _ _ t (GoesOn-refl P t) (
          Only-bind P t (read_at abi msg (genlmsg_data abi) abi.nla_hdrlen t) _
            (read_at-Calls P abi msg (genlmsg_data abi) abi.nla_hdrlen t)
            (λ first u.
              Only-bind P u (read_at abi msg (na first) abi.nla_hdrlen u) _
                (read_at-Calls P abi msg (na first) abi.nla_hdrlen u)
                (λ second v.
                  Only-if P (abi.nla_type second == abi.ctrl_attr_family_id) _ _ v
                    (Only-bind P v (read_at abi msg (na first + abi.nla_hdrlen) 2 v) _
                      (read_at-Calls P abi msg (na first + abi.nla_hdrlen) 2 v)
                      (λ value w. GoesOn-refl P w))
                    (GoesOn-refl P v)))))
    where
      na : Text → ℕ
      na first = genlmsg_data abi + abi.nla_align (abi.nla_len first)

module _ (P : Call → Type 0) (identify : P getpid)
    (send : (fd : ℤ) (buf : Text) → P (sendto fd buf)) (receive : (fd : ℤ) → P (recv fd)) (os : Os)
    (abi : Abi) (rounds : ℕ) where
  pub family-Calls : (this : NetlinkIoStats) → Calls P (init_netlink_family_id os abi rounds this)
  unfolding init_netlink_family_id send_netlink_cmd
  family-Calls this t = Only-call P getpid t _ identify (
      Only-bind P _ _ _
        (Only-if P
          (ltb max_netlink_msg_size (length (abi.taskstats_genl_name ++ (0 ∷ [])) + abi.nla_hdrlen))
          _ _ _ tt (send_loop-Calls P send os rounds this.sock_fd _ _))
        (λ res u. Only-if P (is_neg res) _ _ u (GoesOn-refl P u) (
          Only-call P (recv this.sock_fd) u _ (receive this.sock_fd)
            (elim (Option-cases (os.recv u this.sock_fd)) [
              | inl e ↦ rw (e, init_netlink_family_id) (GoesOn-refl P _)
              | inr ((msg, rep_len), e) ↦
                  rw (e, init_netlink_family_id)
                    (read_family_id-Calls P os abi rounds this msg rep_len _)
            ]))))

module _ (os : Os) (abi : Abi) (rounds : ℕ) where
  init_sock-Connects : (this : NetlinkIoStats) → Calls Connects (init_sock os abi rounds this)
  unfolding init_sock
  init_sock-Connects this t =
      Only-call Connects socket t _ refl (elim (Option-cases (os.socket t)) [
        | inl e ↦ rw (e, init_sock) (GoesOn-refl Connects _)
        | inr (fd, e) ↦
            rw (e, init_sock)
              (Only-call Connects (bind fd) _ _ refl (
                Only-if Connects (os.bind (socket ∷ t) fd) _ _ _
                  (GoesOn-call Connects (fcntl_getfl fd) _ _ refl
                    (GoesOn-call Connects (fcntl_setfl fd _) _ _ refl (GoesOn-refl Connects _)))
                  (GoesOn-call Connects (close fd) _ _ refl (GoesOn-refl Connects _))))
      ])

  pub init-Connects : (this : NetlinkIoStats) → Calls Connects (init os abi rounds this)
  unfolding init
  init-Connects this t =
      Only-bind Connects t (init_sock os abi rounds this t) _ (init_sock-Connects this t) (λ r u.
        Only-if Connects (is_neg r.0) _ _ u (GoesOn-refl Connects u) (
          Only-bind Connects u (init_netlink_family_id os abi rounds r.1 u) _
            (family-Calls Connects refl (λ fd buf. refl) (λ fd. refl) os abi rounds r.1 u)
            (λ r' v. GoesOn-refl Connects v)))
