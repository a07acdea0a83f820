-- ===== src/Tests/Connections.antt =====
-- Connections on concrete inputs: the start, and a socket that fails.
use iotop_cpp.Base.{◌≡◌, refl, [], ◌∷◌, ◌++◌, arith, pos, replicate}
use iotop_cpp.Text.{Text, text}
use iotop_cpp.Run.{done}
use iotop_cpp.Netlink.{new_netlink}
use iotop_cpp.Netlink.Socket.{send_loop, read_family_id}
use iotop_cpp.Netlink.Request.{HasRoom}
use iotop_cpp.Netlink.Failing.{IfEnds, SentPart, send_loop-SentPart}
use iotop_cpp.Netlink.Family.{IsFamilyReply, read_family_id-IsFamilyReply}
use iotop_cpp.Tests.Setting.{machine}
use iotop_cpp.Tests.Linux.{bytes, linux, linux-IsLinux}
use iotop_cpp.Tests.Messages.{answering}

pub name-HasRoom : HasRoom linux (text "TASKSTATS" ++ 0 ∷ [])
name-HasRoom = omega arith

send_loop-SentPart_example :
    IfEnds
      (send_loop machine 10 (pos 5) (replicate 50 7) [])
      (SentPart machine (pos 5) [] (replicate 50 7))
send_loop-SentPart_example = send_loop-SentPart machine (pos 5) 10 (replicate 50 7) []

-- The family has the number 23, and other attributes follow.
abbrev number : Text
number = bytes 2 23 ++ replicate 40 0

abbrev pub family_reply : Text
family_reply =
    linux.put_nlmsghdr 80 16 0 0 42
    ++ (linux.put_genlmsghdr 1 2
        ++ (linux.put_nlattr 14 2
            ++ ((text "TASKSTATS" ++ replicate 3 0) ++ (linux.put_nlattr 6 1 ++ number))))

family_reply-IsFamilyReply : IsFamilyReply linux family_reply 80 number
family_reply-IsFamilyReply = record {
  name_len = 14;
  name_type = 2;
  name = text "TASKSTATS" ++ replicate 3 0;
  number_len = 6;
  stands = (refl, omega arith);
  name_size = refl;
  number_size = omega arith;
  short = (omega arith, omega arith);
  ok = refl;
  no_error = refl;
}

read_family_id-IsFamilyReply_example :
    read_family_id answering linux 2000 new_netlink family_reply 80 []
    ≡ done (pos 0, record { sock_fd = new_netlink.sock_fd; netlink_family_id = pos 23 }) []
read_family_id-IsFamilyReply_example =
    read_family_id-IsFamilyReply answering linux linux-IsLinux 2000 new_netlink family_reply number
      80 family_reply-IsFamilyReply []
