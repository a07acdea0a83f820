-- ===== src/Netlink/Attributes.antt =====
-- Sequences of attributes, and what a reply that consists of them says of a task.
use iotop_cpp.Base.{
  ℕ, ◌+◌, ◌^◌, ◌≤◌, ◌<◌, ◌≡◌, Bool, false, true, List, [], ◌∷◌, ◌++◌, ◌==◌, ◌||◌, if◌then◌else◌,
  length,
}
use iotop_cpp.Text.{Text}
use iotop_cpp.Float.{Float}
use iotop_cpp.Abi.{Abi}
use iotop_cpp.Task.{TaskIoInfo}
use iotop_cpp.Netlink.{with_stats}

-- An attribute: its length, its type and its padded value.
pub record Attribute (abi : Abi) : Type 0 where
  pub len : ℕ
  pub type : ℕ
  pub value : Text
  pub size : abi.nla_hdrlen + length value ≡ abi.nla_align len
  pub positive : 0 < len
  pub short : (len < 2 ^ 16) × (type < 2 ^ 16)

module _ (abi : Abi) where
  -- Statistics have room for a struct taskstats.
  pub record IsRoomy (x : Attribute abi) : Type 0 where
    pub room : x.type ≡ abi.taskstats_type_stats → abi.end_of_write_bytes ≤ length x.value

  -- An attribute of the message: one that is no aggregate, or an aggregate of one or two attributes.
  pub data Item : Type 0 where
    plain : Attribute abi → Item
    single : ℕ → Attribute abi → Item
    pair : ℕ → Attribute abi → Attribute abi → Item

  abbrev pub is_aggr : ℕ → Bool
  is_aggr type = type == abi.taskstats_type_aggr_tgid || type == abi.taskstats_type_aggr_pid

  -- The bytes of an attribute.
  abbrev pub attribute : Attribute abi → Text
  attribute x = abi.put_nlattr x.len x.type ++ x.value

  abbrev pub inner_len : Item → ℕ
  inner_len (plain x) = 0
  inner_len (single type x) = abi.nla_align x.len
  inner_len (pair type x y) = abi.nla_align x.len + abi.nla_align y.len

  abbrev pub item_len : Item → ℕ
  item_len (plain x) = x.len
  item_len item = abi.nla_hdrlen + inner_len item

  abbrev pub item_type : Item → ℕ
  item_type (plain x) = x.type
  item_type (single type x) = type
  item_type (pair type x y) = type

  abbrev pub item_value : Item → Text
  item_value (plain x) = x.value
  item_value (single type x) = attribute x
  item_value (pair type x y) = attribute x ++ attribute y

  -- The bytes of the attributes of a message.
  abbrev pub encode : List Item → Text
  encode [] = []
  encode (item ∷ items) =
      abi.put_nlattr (item_len item) (item_type item) ++ (item_value item ++ encode items)

  abbrev pub payload : List Item → ℕ
  payload [] = 0
  payload (item ∷ items) = abi.nla_align (item_len item) + payload items

  -- What holds of an aggregate: its type, the size of its length, and that it needs no padding.
  pub record IsAggr (item : Item) : Type 0 where
    pub aggr : is_aggr (item_type item) ≡ true
    pub short : (item_len item < 2 ^ 16) × (item_type item < 2 ^ 16)
    pub aligned : abi.nla_align (item_len item) ≡ item_len item

  abbrev pub IsItem : Item → Type 0
  IsItem (plain x) = is_aggr x.type ≡ false
  IsItem (single type x) = IsAggr (single type x) × IsRoomy x
  IsItem (pair type x y) = IsAggr (pair type x y) × IsRoomy x × IsRoomy y

module _ (F : Float) (abi : Abi) where
  -- An attribute of an aggregate writes to the task if it is the statistics. Behind it there is more
  -- of the message.
  abbrev pub apply : Attribute abi → Text → TaskIoInfo F → TaskIoInfo F
  apply x behind info =
      if x.type == abi.taskstats_type_stats then with_stats F abi (x.value ++ behind) info else info

  abbrev pub apply_item : Item abi → Text → TaskIoInfo F → TaskIoInfo F
  apply_item (plain x) behind info = info
  apply_item (single type x) behind info = apply x behind info
  apply_item (pair type x y) behind info = apply y behind (apply x (attribute abi y ++ behind) info)

  -- What a whole message writes, attribute by attribute.
  abbrev pub decode : List (Item abi) → Text → TaskIoInfo F → TaskIoInfo F
  decode [] behind info = info
  decode (item ∷ items) behind info =
      decode items behind (apply_item item (encode abi items ++ behind) info)
