-- ===== src/Netlink/Start.antt =====
-- The start of the connection.
use iotop_cpp.Base.{
  ℕ, ◌+◌, ◌≤◌, ◌<◌, ◌≡◌, refl, ◌⊎◌, inl, inr, true, false, ◌∷◌, Option, none, some, arith, le→leb,
  ◌==◌, Bool-cases, Option-cases, length, drop, ℤ, pos, negsuc, is_neg,
}
use iotop_cpp.Text.{Text}
use iotop_cpp.Run.{Trace, done, Returns, socket, bind, fcntl_getfl}
use iotop_cpp.Os.{Os}
use iotop_cpp.Abi.{Abi}
use iotop_cpp.Proc.Scan.{closings}
use iotop_cpp.Netlink.{NetlinkIoStats, genlmsg_data, read_at}
use iotop_cpp.Netlink.Socket.{init_sock, read_family_id}

-- How `init_sock` can end: there is no socket; or there is one and it is kept, either ready or, where
-- its flags could not be set, with the code -3; or it could not be bound, and is closed.
abbrev pub IsOpening : Os → Trace → ℤ × NetlinkIoStats → Trace → Type 0
IsOpening os t r u =
    ((os.socket t ≡ none) × (r.0 ≡ negsuc 0) × (r.1.sock_fd ≡ negsuc 0) × (u ≡ socket ∷ t))
    ⊎ ((fd : ℕ) × (os.socket t ≡ some fd)
        × (r.1.sock_fd ≡ pos fd)
        × (((r.0 ≡ pos 0) × (closings fd u ≡ closings fd t))
            ⊎ ((r.0 ≡ negsuc 1) × (closings fd u ≡ closings fd t + 1))
            ⊎ ((r.0 ≡ negsuc 2) × (closings fd u ≡ closings fd t))))

pub init_sock-IsOpening :
    (os : Os) (abi : Abi) (rounds : ℕ) (this : NetlinkIoStats) (t : Trace)
    → Returns (init_sock os abi rounds this t) (IsOpening os t)
unfolding init_sock
init_sock-IsOpening os abi rounds this t = elim (Option-cases (os.socket t)) [
  | inl e ↦ rw (e, init_sock) (inl (e, refl, refl, refl))
  | inr (fd, e) ↦
      let t' : Trace = socket ∷ t in
      rw (e, init_sock)
        (elim (Bool-cases (os.bind t' fd)) [
          | inr failed ↦ rw failed (inr (fd, e, refl, inr (inl (refl, ground arith))))
          | inl bound ↦
              let flags = os.fcntl_getfl (bind fd ∷ t') fd in
              rw bound (elim (Bool-cases (os.fcntl_setfl (fcntl_getfl fd ∷ bind fd ∷ t') fd)) [
                | inl set ↦ rw set (inr (fd, e, refl, inl (refl, refl)))
                | inr failed ↦ rw failed (inr (fd, e, refl, inr (inr (refl, refl))))
              ])
        ])
]

-- A message with room for two attributes, the second of which has a value of two bytes.
abbrev pub HoldsFamily : Abi → Text → Type 0
HoldsFamily abi msg =
    (genlmsg_data abi + abi.nla_hdrlen ≤ length msg)
    × (genlmsg_data abi
          + abi.nla_align (abi.nla_len (drop (genlmsg_data abi) msg))
          + abi.nla_hdrlen
          + 2
        ≤ length msg)

-- What the kernel answers when it is asked for the family: nothing, a message that is cut off or
-- reports an error, or two attributes.
abbrev pub IsFamilyAnswer : Abi → Option (Text × ℕ) → Type 0
IsFamilyAnswer abi none = Unit {0}
IsFamilyAnswer abi (some (msg, rep_len)) =
    (abi.nlmsg_ok (abi.nlmsg_len msg) rep_len ≡ false)
    ⊎ ((abi.nlmsg_type msg == abi.nlmsg_error) ≡ true)
    ⊎ HoldsFamily abi msg

-- The number in the second attribute of a message.
abbrev pub second_number : Abi → Text → ℕ
second_number abi msg = abi.get_u16 (
    drop
      (genlmsg_data abi
        + abi.nla_align (abi.nla_len (drop (genlmsg_data abi) msg))
        + abi.nla_hdrlen)
      msg)

-- An error, or the family whose number, other than 0, is in the message.
abbrev pub IsFamily : Abi → NetlinkIoStats → Text → ℤ × NetlinkIoStats → Trace → Type 0
IsFamily abi this msg r _ =
    (r.1.sock_fd ≡ this.sock_fd)
    × ((is_neg r.0 ≡ true)
        ⊎ ((r.0 ≡ pos 0)
            × (0 < second_number abi msg)
            × (r.1.netlink_family_id ≡ pos (second_number abi msg))))

module _ (os : Os) (abi : Abi) (rounds : ℕ) (this : NetlinkIoStats) where
  read_at-done :
      (msg : Text) (na size : ℕ) (t : Trace)
      → na + size ≤ length msg
      → read_at abi msg na size t ≡ done (drop na msg) t
  unfolding read_at
  read_at-done msg na size t h = rw (le→leb _ _ h)

  pub read_family_id-IsFamily :
      (msg : Text) (rep_len : ℕ) (t : Trace)
      → IsFamilyAnswer abi (some (msg, rep_len))
      → Returns (read_family_id os abi rounds this msg rep_len t) (IsFamily abi this msg)
  unfolding read_family_id
  read_family_id-IsFamily msg rep_len t answer =
      elim (Bool-cases (abi.nlmsg_ok (abi.nlmsg_len msg) rep_len)) [
        | inr cut ↦ rw cut (refl, inl refl)
        | inl ok ↦ elim (Bool-cases (abi.nlmsg_type msg == abi.nlmsg_error)) [
          | inl error ↦ rw (ok, error) (refl, inl refl)
          | inr fine ↦
              let (one, two) = holds ok fine answer in
              rw (ok, fine)
                (rw
                  (
                    read_at-done msg (genlmsg_data abi) abi.nla_hdrlen t one,
                    read_at-done msg na abi.nla_hdrlen t (omega (arith, two)),
                  )
                  (elim (Bool-cases (abi.nla_type (drop na msg) == abi.ctrl_attr_family_id)) [
                    | inr other ↦ rw other (refl, inl refl)
                    | inl found ↦
                        rw (found, read_at-done msg (na + abi.nla_hdrlen) 2 t two)
                          (elim (Bool-cases (abi.get_u16 (drop (na + abi.nla_hdrlen) msg) == 0)) [
                            | inl z ↦ rw z (refl, inl refl)
                            | inr p ↦ rw p (refl, inr (refl, ground (arith, p), refl))
                          ])
                  ]))
        ]
      ]
    where
      na : ℕ
      na = genlmsg_data abi + abi.nla_align (abi.nla_len (drop (genlmsg_data abi) msg))

      holds :
          abi.nlmsg_ok (abi.nlmsg_len msg) rep_len ≡ true
          → (abi.nlmsg_type msg == abi.nlmsg_error) ≡ false
          → IsFamilyAnswer abi (some (msg, rep_len))
          → HoldsFamily abi msg
      holds ok fine (inl cut) = cc
      holds ok fine (inr (inl error)) = cc
      holds ok fine (inr (inr found)) = found
