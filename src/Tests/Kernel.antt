-- ===== src/Tests/Kernel.antt =====
-- A machine whose socket answers what it is asked: the request for the family by its number, and a
-- request for the statistics of a task by statistics.
use iotop_cpp.Base.{
  ℕ, suc, ◌-◌, ◌≤◌, ◌≡◌, refl, sym, ◌∙◌, ◌⊎◌, inr, true, is_neg, [], ◌∷◌, ◌++◌, Option, some, arith,
  ◌==◌, if◌then◌else◌, length, length-append, drop, ℤ, pos,
}
use iotop_cpp.Text.{Text}
use iotop_cpp.Run.{Trace, done, Returns, sendto}
use iotop_cpp.Os.{Os}
use iotop_cpp.Netlink.{NetlinkIoStats, netlink_msg, new_netlink, read_at}
use iotop_cpp.Netlink.Sending.{stream, request, family_request}
use iotop_cpp.Netlink.Start.{IsFamilyAnswer}
use iotop_cpp.Netlink.Socket.{
  init, init_sock, init_netlink_family_id, send_netlink_cmd, send_loop, read_family_id,
}
use iotop_cpp.Netlink.Patience.{IsReady, Accepts-IsReady}
use iotop_cpp.Netlink.Connection.{IsConnected, init-IsConnected}
use iotop_cpp.Netlink.Safe.{IsSafe, IsAnswer-IsSafe}
use iotop_cpp.Tests.Setting.{whole}
use iotop_cpp.Tests.Linux.{linux, linux-IsLinux}
use iotop_cpp.Tests.Messages.{answering, reply, reply-HoldsItems}
use iotop_cpp.Tests.Connections.{name-HasRoom, family_reply}

abbrev first : Text → ℕ
first [] = 0
first (c ∷ s) = c

-- The request for the family ends with the name TASKSTATS and three zeros.
abbrev pub answer_to : Text → Option (Text × ℕ)
answer_to sent =
    if first (drop (length sent - 12) sent) == b'T'
    then some (family_reply, 80)
    else some (reply, 364)

drop-end :
    (s r : Text) → 12 ≤ length r → drop (length (s ++ r) - 12) (s ++ r) ≡ drop (length r - 12) r
drop-end [] r h = refl
drop-end (c ∷ s) r h =
    let e : suc (length (s ++ r)) - 12 ≡ suc (length (s ++ r) - 12) =
      omega (arith, h, length-append s r) in
    rw e (drop-end s r h)

pub answer_to-request :
    (s : Text) (this : NetlinkIoStats) (id : ℕ)
    → answer_to (s ++ request linux this id) ≡ some (reply, 364)
unfolding netlink_msg
answer_to-request s this id = rw (drop-end s (request linux this id) (omega arith)) refl

pub answer_to-family_request :
    (s : Text) (pid : ℕ) → answer_to (s ++ family_request linux pid) ≡ some (family_reply, 80)
unfolding netlink_msg
answer_to-family_request s pid = rw (drop-end s (family_request linux pid) (omega arith)) refl

pub answers_request :
    (this : NetlinkIoStats) (id : ℕ) (s sent : Text)
    → sent ≡ s ++ request linux this id
    → IsSafe linux (answer_to sent)
answers_request this id s sent e =
    rw (e, answer_to-request s this id)
      (IsAnswer-IsSafe whole linux linux-IsLinux (some (reply, 364)) (inr (inr reply-HoldsItems)))

pub answers_family :
    (pid : ℕ) (s sent : Text)
    → sent ≡ s ++ family_request linux pid
    → IsFamilyAnswer linux (answer_to sent)
answers_family pid s sent e =
    rw (e, answer_to-family_request s pid) (inr (inr (omega arith, omega arith)))

-- The socket takes 20 bytes at a time.
abbrev pub kernel : Os
kernel = record answering { recv = λ t fd. answer_to (stream answering t) }

stream-kernel : (t : Trace) → stream kernel t ≡ stream answering t
stream-kernel [] = refl
stream-kernel (sendto fd buf ∷ t) = rw (stream-kernel t) refl
stream-kernel (_ ∷ t) = stream-kernel t

pub kernel_stats :
    (this : NetlinkIoStats) (id : ℕ) (s : Text) (u : Trace)
    → stream kernel u ≡ s ++ request linux this id
    → IsSafe linux (kernel.recv u this.sock_fd)
kernel_stats this id s u e =
    answers_request this id s (stream answering u) (sym (stream-kernel u) ∙ e)

pub kernel_families :
    (fd : ℤ) (pid : ℕ) (s : Text) (u : Trace)
    → stream kernel u ≡ s ++ family_request linux pid
    → IsFamilyAnswer linux (kernel.recv u fd)
kernel_families fd pid s u e = answers_family pid s (stream answering u) (sym (stream-kernel u) ∙ e)

pub kernel-IsReady : (fd : ℤ) → IsReady kernel linux 2000 fd
kernel-IsReady fd =
    Accepts-IsReady kernel linux 2000 fd (λ t buf. (20, omega arith, refl)) (omega arith)

-- The start succeeds there, with the number of the family.
init-kernel :
    (u : Trace) × (init kernel linux 2000 new_netlink []
      ≡ done (pos 0, record { sock_fd = pos 5; netlink_family_id = pos 23 }) u)
unfolding init init_sock init_netlink_family_id send_netlink_cmd send_loop netlink_msg
    read_family_id read_at
init-kernel = (_, refl)

init-IsConnected_example :
    Returns
      (init kernel linux 2000 new_netlink [])
      (λ r w. (is_neg r.0 ≡ true) ⊎ ((r.0 ≡ pos 0) × IsConnected kernel linux [] r w))
init-IsConnected_example =
    init-IsConnected kernel linux linux-IsLinux 2000 kernel-IsReady name-HasRoom kernel_families
      new_netlink []
