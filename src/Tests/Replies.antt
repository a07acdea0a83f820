-- ===== src/Tests/Replies.antt =====
-- A reply that can be read, one without an end, and one that leads past the end of the buffer.
use iotop_cpp.Base.{◌≡◌, refl, ◌↔◌, true, [], ◌++◌, arith, pos, replicate}
use iotop_cpp.Text.{Text}
use iotop_cpp.Run.{done, fault, spin}
use iotop_cpp.Task.{TaskIoInfo, new_task}
use iotop_cpp.Netlink.{genlmsg_data, read_at, read_stats, read_aggr, read_reply}
use iotop_cpp.Netlink.Readable.{Readable, Hangs, Overreads}
use iotop_cpp.Netlink.Returning.{read_reply_returns_iff}
use iotop_cpp.Netlink.Endless.{read_reply_spins_iff}
use iotop_cpp.Netlink.Overreads.{read_reply_faults_iff}
use iotop_cpp.Tests.Setting.{whole}
use iotop_cpp.Tests.Linux.{linux}
use iotop_cpp.Tests.Messages.{reply}

-- All lengths are 0.
abbrev empty_reply : Text
empty_reply = replicate 60 0

-- An aggregate whose first attribute reaches past the end of the buffer.
abbrev long_reply : Text
long_reply =
    replicate 20 0 ++ (linux.put_nlattr 2000 4 ++ (linux.put_nlattr 1500 1 ++ replicate 1000 0))

abbrev task : TaskIoInfo whole
task = new_task whole (pos 42) true

read_reply_returns_iff_example :
    ((info : TaskIoInfo whole) × (read_reply whole linux 400 reply
          (genlmsg_data linux)
          0
          344
          task
          []
        ≡ done info []))
    ↔ Readable linux reply 344 0
read_reply_returns_iff_example =
    read_reply_returns_iff whole linux reply 344 400 task [] (omega arith)

read_reply_spins_iff_example :
    (read_reply whole linux 41 empty_reply (genlmsg_data linux) 0 40 task [] ≡ spin)
    ↔ Hangs linux empty_reply 40 0
read_reply_spins_iff_example =
    read_reply_spins_iff whole linux empty_reply 40 41 task [] (omega arith)

read_reply_faults_iff_example :
    (read_reply whole linux 400 long_reply (genlmsg_data linux) 0 340 task [] ≡ fault)
    ↔ Overreads linux long_reply 340 0
read_reply_faults_iff_example =
    read_reply_faults_iff whole linux long_reply 340 400 task [] (omega arith)

-- The first reply has no end, and the second one leads past the end of the buffer.
empty_reply-Hangs : Hangs linux empty_reply 40 0
unfolding read_reply read_at
empty_reply-Hangs =
    (read_reply_spins_iff whole linux empty_reply 40 41 task [] (omega arith)).0 refl

long_reply-Overreads : Overreads linux long_reply 340 0
unfolding read_reply read_aggr read_stats read_at
long_reply-Overreads =
    (read_reply_faults_iff whole linux long_reply 340 400 task [] (omega arith)).0 refl
