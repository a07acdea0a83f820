-- ===== src/Tests/Messages.antt =====
-- Messages on concrete inputs: a request for the task 42, and a reply with its statistics.
use iotop_cpp.Base.{
  ℕ, ℤ, true, false, neg, inl, Bool-cases, if◌then◌else◌, ◌<◌, ◌≡◌, refl, inr, Bool, [], ◌∷◌, ◌++◌,
  take, drop, some, arith, length, pos, replicate,
}
use iotop_cpp.Text.{Text}
use iotop_cpp.Run.{Trace, done, Returns, sendto}
use iotop_cpp.Os.{Os}
use iotop_cpp.Task.{TaskIoInfo, new_task}
use iotop_cpp.Netlink.{
  NetlinkIoStats, netlink_msg, with_stats, read_reply, read_at, read_aggr, read_stats,
}
use iotop_cpp.Netlink.Socket.{send_loop, send_netlink_cmd}
use iotop_cpp.Netlink.Stats.{get_task_io_info}
use iotop_cpp.Netlink.Sending.{stream, Sent, netlink_msg-parts}
use iotop_cpp.Netlink.Patience.{IsReady, IsPatient, Accepts-IsReady, send_loop-Sent}
use iotop_cpp.Netlink.Attributes.{Attribute, IsRoomy, pair}
use iotop_cpp.Netlink.Request.{
  HasRoom, HoldsItems, Answered, send_netlink_cmd-Sent, get_task_io_info-IsOutcome,
}
use iotop_cpp.Tests.Setting.{whole, machine_of}
use iotop_cpp.Tests.Linux.{bytes, linux, linux-IsLinux}

-- A struct taskstats with ten bytes read and twenty written, and the rest of the buffer behind it.
abbrev pub stats : Text
stats =
    replicate 120 0
    ++ (bytes 4 1000 ++ (replicate 124 0 ++ (bytes 8 10 ++ (bytes 8 20 ++ replicate 744 0))))

-- The attribute with the number of the task takes 8 bytes, the one with the statistics 332.
abbrev pub reply : Text
reply =
    linux.put_nlmsghdr 364 23 0 0 42
    ++ (linux.put_genlmsghdr 1 1
        ++ (linux.put_nlattr 344 4
            ++ (linux.put_nlattr 8 1 ++ (bytes 4 42 ++ (linux.put_nlattr 332 3 ++ stats)))))

abbrev pub answering : Os
answering = machine_of (some (reply, 364))

abbrev pub connected : NetlinkIoStats
connected = record { sock_fd = pos 5; netlink_family_id = pos 23 }

abbrev pub task : TaskIoInfo whole
task = new_task whole (pos 42) Bool.true

abbrev pub id_attribute : Attribute linux
id_attribute = record {
  len = 8;
  type = 1;
  value = bytes 4 42;
  size = refl;
  positive = omega arith;
  short = (omega arith, omega arith);
}

-- The statistics as an attribute of their own.
abbrev pub stats_attribute : Attribute linux
stats_attribute = record {
  len = 332;
  type = 3;
  value = take 328 stats;
  size = refl;
  positive = omega arith;
  short = (omega arith, omega arith);
}

pub roomy : (x : Attribute linux) → x.type < 3 → IsRoomy linux x
roomy x h = record { room = λ e. absurd (omega (arith, e)) }

pub statistics : IsRoomy linux stats_attribute
statistics = record { room = λ e. omega arith }

pub reply-HoldsItems : HoldsItems linux reply
reply-HoldsItems = record {
  items = pair 4 id_attribute stats_attribute ∷ [];
  behind = drop 328 stats;
  are_items = (
    (
      record { aggr = refl; short = (omega arith, omega arith); aligned = refl },
      roomy id_attribute (omega arith),
      statistics,
    ),
    tt,
  );
  stands = (refl, omega arith);
  whole = refl;
}

pub room : (id : ℕ) → HasRoom linux (linux.put_u64 id)
room id = omega arith

pub answering-IsReady : (fd : ℤ) → IsReady answering linux 2000 fd
answering-IsReady fd =
    Accepts-IsReady answering linux 2000 fd (λ t buf. (20, omega arith, refl)) (omega arith)

read_reply_stats :
    (u : Trace) × (info : TaskIoInfo whole) × (read_reply whole linux 400 reply 20 0 344 task []
      ≡ done info u)
    × (info.io_real_read_b ≡ 10)
    × (info.user_id ≡ pos 1000)
unfolding read_reply read_at read_aggr read_stats with_stats
read_reply_stats = (_, _, refl, refl, refl)

-- A socket that asks to try again, unless it has just been tried, and then takes 20 bytes at a time.
abbrev pub is_retry : Trace → Bool
is_retry (sendto fd buf ∷ t) = true
is_retry t = false

abbrev pub hesitant : Os
hesitant = record answering {
  sendto = λ t fd buf. if is_retry t then pos 20 else neg 1;
  again = λ t. true;
}

-- The refusals that are left.
abbrev pub left : Trace → ℕ
left t = if is_retry t then 0 else 1

pub hesitant-IsPatient : (fd : ℤ) → IsPatient hesitant fd 1 left
hesitant-IsPatient fd = record {
  bounded = λ t. elim (Bool-cases (is_retry t)) [
    | inl retry ↦ rw retry (omega arith)
    | inr first ↦ rw first (omega arith)
  ];
  answers = λ t buf. elim (Bool-cases (is_retry t)) [
    | inl retry ↦ inl (20, omega arith, rw retry refl)
    | inr first ↦ inr ((inr (0, rw first refl), refl), rw first (omega arith))
  ];
}

send_loop-Sent_example :
    Returns
      (send_loop hesitant 120 (pos 5) (replicate 50 7) [])
      (Sent hesitant (stream hesitant [] ++ replicate 50 7))
send_loop-Sent_example =
    send_loop-Sent hesitant (pos 5) 1 left (hesitant-IsPatient (pos 5)) 120 (replicate 50 7) []
      (omega arith)

netlink_msg-parts_example :
    (length (netlink_msg linux 23 42 1 1 (bytes 8 42)) ≡ 32)
    × ((padding : Text) × (netlink_msg linux 23 42 1 1 (bytes 8 42)
          ≡ linux.put_nlmsghdr 32 23 1 0 42
            ++ (linux.put_genlmsghdr 1 1 ++ (linux.put_nlattr 12 1 ++ (bytes 8 42 ++ padding)))))
netlink_msg-parts_example =
    netlink_msg-parts linux linux-IsLinux 23 42 1 1 (bytes 8 42) (omega arith)

send_netlink_cmd-Sent_example :
    Returns (send_netlink_cmd answering linux 2000 (pos 5) 23 42 1 1 (bytes 8 42) []) (λ r u.
      (r ≡ pos 0)
      × (stream answering u ≡ stream answering [] ++ netlink_msg linux 23 42 1 1 (bytes 8 42)))
send_netlink_cmd-Sent_example =
    send_netlink_cmd-Sent answering linux linux-IsLinux 2000 (pos 5) (answering-IsReady (pos 5)) 23
      42 1 1 (bytes 8 42) (room 42) []

get_task_io_info-IsOutcome_example :
    Returns (get_task_io_info whole answering linux 2000 connected 42 task []) (λ r _.
      Answered whole answering linux linux-IsLinux 2000 connected
        (answering-IsReady (pos 5))
        room
        (λ t. inr (inr reply-HoldsItems))
        42
        task
        []
        r)
get_task_io_info-IsOutcome_example =
    get_task_io_info-IsOutcome whole answering linux linux-IsLinux 2000 connected
      (answering-IsReady (pos 5)) room (λ t. inr (inr reply-HoldsItems)) 42 task []
