-- ===== src/Tests/Attributes.antt =====
-- Messages with several attributes.
use iotop_cpp.Base.{suc, ◌+◌, ◌≡◌, refl, List, [], ◌∷◌, ◌++◌, All, arith}
use iotop_cpp.Text.{Text}
use iotop_cpp.Run.{done}
use iotop_cpp.Netlink.{read_reply, genlmsg_data, read_aggr}
use iotop_cpp.Netlink.Offsets.{Stands}
use iotop_cpp.Netlink.Attributes.{
  Attribute, Item, plain, pair, IsItem, encode, payload, apply, decode,
}
use iotop_cpp.Netlink.Thirds.{read_aggr_third}
use iotop_cpp.Netlink.Decoding.{read_reply-decode}
use iotop_cpp.Tests.Setting.{whole}
use iotop_cpp.Tests.Linux.{bytes, linux, linux-IsLinux}
use iotop_cpp.Tests.Messages.{stats, task, id_attribute, stats_attribute, roomy, statistics}

-- A reply in which an attribute of 4 bytes, of the type 0, stands before the statistics.
abbrev padded : Text
padded =
    linux.put_nlmsghdr 368 23 0 0 42
    ++ (linux.put_genlmsghdr 1 1
        ++ (linux.put_nlattr 348 4
            ++ (linux.put_nlattr 8 1
                ++ (bytes 4 42 ++ (linux.put_nlattr 4 0 ++ (linux.put_nlattr 332 3 ++ stats))))))

abbrev pad_attribute : Attribute linux
pad_attribute = record {
  len = 4;
  type = 0;
  value = [];
  size = refl;
  positive = omega arith;
  short = (omega arith, omega arith);
}

read_aggr_third_example :
    Stands padded (24 + 8 + 4) (linux.put_nlattr 332 3 ++ stats)
    × (read_aggr whole linux 10 padded 24 0 344 task []
        ≡ read_aggr whole linux 8 padded
            (24 + 8 + 4 + 8)
            (8 + 4)
            344
            (apply whole linux pad_attribute (linux.put_nlattr 332 3 ++ stats) (
              apply whole linux id_attribute
                (linux.put_nlattr 4 0 ++ ([] ++ (linux.put_nlattr 332 3 ++ stats)))
                task))
            [])
read_aggr_third_example =
    read_aggr_third whole linux linux-IsLinux id_attribute pad_attribute
      (roomy id_attribute (omega arith), roomy pad_attribute (omega arith)) padded
      (linux.put_nlattr 332 3 ++ stats) 24 344 (refl, omega arith) (omega arith) 8 task []

-- A padding, and the statistics of two tasks.
abbrev items : List (Item linux)
items =
    plain pad_attribute
    ∷ pair 4 id_attribute stats_attribute
    ∷ pair 4 id_attribute stats_attribute
    ∷ []

items-IsItem : All (IsItem linux) items
items-IsItem =
    let task_number = roomy id_attribute (omega arith) in
    (
      refl,
      (
        (
          record { aggr = refl; short = (omega arith, omega arith); aligned = refl },
          task_number,
          statistics,
        ),
        (
          (
            record { aggr = refl; short = (omega arith, omega arith); aligned = refl },
            task_number,
            statistics,
          ),
          tt,
        ),
      ),
    )

abbrev message : Text
message =
    linux.put_nlmsghdr 720 23 0 0 42 ++ (linux.put_genlmsghdr 1 1 ++ (encode linux items ++ []))

read_reply-decode_example :
    read_reply whole linux
      (suc (payload linux items))
      message
      (genlmsg_data linux)
      0
      (payload linux items)
      task
      []
    ≡ done (decode whole linux items [] task) []
read_reply-decode_example =
    read_reply-decode whole linux linux-IsLinux message [] items [] task items-IsItem
      (refl, omega arith)
