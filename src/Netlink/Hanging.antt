-- ===== src/Netlink/Hanging.antt =====
-- Replies and sockets on which the loops never end.
use iotop_cpp.Base.{
  ℕ, zero, suc, ◌+◌, ◌≤◌, ◌<◌, ◌≡◌, refl, false, ◌||◌, arith, lt→ltb, le→leb, ◌==◌, length, drop,
  true, ◌∷◌, ℤ, negsuc,
}
use iotop_cpp.Text.{Text}
use iotop_cpp.Float.{Float}
use iotop_cpp.Run.{Trace, done, spin, sendto}
use iotop_cpp.Os.{Os}
use iotop_cpp.Netlink.Socket.{send_loop}
use iotop_cpp.Abi.{Abi}
use iotop_cpp.Task.{TaskIoInfo}
use iotop_cpp.Netlink.{genlmsg_data, read_at, read_reply}

module _ (F : Float) (abi : Abi) (msg : Text) (rep_len : ℕ) (info : TaskIoInfo F) (t : Trace) where
  header_at :
      genlmsg_data abi + abi.nla_hdrlen ≤ length msg
      → read_at abi msg (genlmsg_data abi) abi.nla_hdrlen t ≡ done (drop (genlmsg_data abi) msg) t
  unfolding read_at
  header_at h = rw (le→leb _ _ h)

  -- Where the first attribute of a reply is within the message, is no aggregate and has an aligned
  -- length of 0, and the payload is not empty, the loop over the attributes uses up any number of
  -- rounds: it has no end.
  pub read_reply_hangs :
      0 < rep_len
      → genlmsg_data abi + abi.nla_hdrlen ≤ length msg
      → abi.nla_align (abi.nla_len (drop (genlmsg_data abi) msg)) ≡ 0
      → (abi.nla_type (drop (genlmsg_data abi) msg) == abi.taskstats_type_aggr_tgid
          || abi.nla_type (drop (genlmsg_data abi) msg) == abi.taskstats_type_aggr_pid)
        ≡ false
      → (rounds : ℕ) → read_reply F abi rounds msg (genlmsg_data abi) 0 rep_len info t ≡ spin
  unfolding read_reply
  read_reply_hangs left inside empty other zero = refl
  read_reply_hangs left inside empty other (suc rounds) =
      let same : genlmsg_data abi + 0 ≡ genlmsg_data abi = omega arith in
      rw (lt→ltb 0 rep_len left, header_at inside, empty, other)
        (rw same (read_reply_hangs left inside empty other rounds))

-- Where a non-blocking socket takes no byte and asks to try again, whenever it is offered some, the
-- loop of `send_netlink_cmd` uses up any number of rounds: it asks on without a pause.
pub send_loop_hangs :
    (os : Os) (fd : ℤ) (buf : Text)
    → ((t : Trace) → os.sendto t fd buf ≡ negsuc 0)
    → ((t : Trace) → os.again t ≡ true)
    → (rounds : ℕ) (t : Trace) → send_loop os rounds fd buf t ≡ spin
unfolding send_loop
send_loop_hangs os fd buf refused again zero t = refl
send_loop_hangs os fd buf refused again (suc rounds) t =
    rw (refused t, send_loop)
      (rw (again (sendto fd buf ∷ t))
        (send_loop_hangs os fd buf refused again rounds (sendto fd buf ∷ t)))
