-- ===== src/Netlink/Decoding.antt =====
-- A whole reply, as a sequence of attributes.
use mathlib.Core.List.{append_assoc}
use iotop_cpp.Base.{
  ℕ, zero, suc, ◌+◌, ◌-◌, ◌<◌, ◌≡◌, refl, ◌∙◌, List, [], ◌∷◌, ◌++◌, arith, All, length,
  length-append,
}
use iotop_cpp.Text.{Text}
use iotop_cpp.Float.{Float}
use iotop_cpp.Run.{Trace, done}
use iotop_cpp.Abi.{Abi, IsLinux}
use iotop_cpp.Task.{TaskIoInfo}
use iotop_cpp.Netlink.{genlmsg_data, read_reply}
use iotop_cpp.Netlink.Attributes.{
  Attribute, Item, plain, single, pair, attribute, item_len, item_type, item_value, encode, payload,
  IsItem, apply_item, decode,
}
use iotop_cpp.Netlink.Offsets.{Stands, Stands-behind, le→ltb_false}
use iotop_cpp.Netlink.Reading.{read_reply_end}
use iotop_cpp.Netlink.Items.{length-attribute, read_aggr_single, read_aggr_pair, over_header}

module _ (F : Float) (abi : Abi) (linux : IsLinux abi) (msg : Text) (t : Trace) where
  item_size :
      (item : Item abi)
      → IsItem abi item
      → length (abi.put_nlattr (item_len abi item) (item_type abi item) ++ item_value abi item)
        ≡ abi.nla_align (item_len abi item)
  item_size (plain x) h = length-attribute F abi linux msg t x.len x.type x.value ∙ x.size
  item_size (single type x) h = omega (
    arith,
    length-attribute F abi linux msg t (abi.nla_hdrlen + abi.nla_align x.len) type
        (attribute abi x),
    length-attribute F abi linux msg t x.len x.type x.value,
    x.size,
    h.0.aligned,
  )
  item_size (pair type x y) h = omega (
    arith,
    length-attribute F abi linux msg t
        (abi.nla_hdrlen + (abi.nla_align x.len + abi.nla_align y.len)) type
        (attribute abi x ++ attribute abi y),
    length-append (attribute abi x) (attribute abi y),
    length-attribute F abi linux msg t x.len x.type x.value,
    length-attribute F abi linux msg t y.len y.type y.value,
    x.size,
    y.size,
    h.0.aligned,
  )

  item_positive : (item : Item abi) → 0 < abi.nla_align (item_len abi item)
  item_positive (plain x) = omega (arith, linux.align x.len, x.positive)
  item_positive (single type x) =
      omega
        (arith, linux.align (abi.nla_hdrlen + abi.nla_align x.len), linux.align x.len, x.positive)
  item_positive (pair type x y) = omega (
    arith,
    linux.align (abi.nla_hdrlen + (abi.nla_align x.len + abi.nla_align y.len)),
    linux.align x.len,
    x.positive,
  )

  over_item :
      (item : Item abi) (at rep_len rounds : ℕ) (rest : Text) (info : TaskIoInfo F)
      → IsItem abi item
      → at < rep_len
      → Stands msg
          (genlmsg_data abi + at)
          (abi.put_nlattr (item_len abi item) (item_type abi item) ++ (item_value abi item ++ rest))
      → read_reply F abi (suc rounds) msg (genlmsg_data abi + at) at rep_len info t
        ≡ read_reply F abi rounds msg
            (genlmsg_data abi + (at + abi.nla_align (item_len abi item)))
            (at + abi.nla_align (item_len abi item))
            rep_len
            (apply_item F abi item rest info)
            t
  over_item (plain x) at rep_len rounds rest info wf lt h =
      over_header F abi linux msg t x.len x.type at rep_len rounds (x.value ++ rest) info info lt
        x.short h (rw wf refl)
  over_item (single type x) at rep_len rounds rest info (wf, roomy) lt h =
      let inner = abi.nla_align x.len in
      let behind : abi.nla_hdrlen + inner - abi.nla_hdrlen ≡ inner = omega arith in
      over_header F abi linux msg t (abi.nla_hdrlen + inner) type at rep_len rounds _ info _ lt
        wf.short h
        (rw (wf.aggr, behind)
          (read_aggr_single F abi linux msg t x _ (suc (suc (suc (length msg)))) rest info roomy
            (rw (← append_assoc (abi.put_nlattr x.len x.type) x.value rest) (
              Stands-behind msg (genlmsg_data abi + at) abi.nla_hdrlen _ _ (linux.length-nlattr _ _)
                h))
            (omega arith)))
  over_item (pair type x y) at rep_len rounds rest info (wf, roomy_x, roomy_y) lt h =
      let inner = abi.nla_align x.len + abi.nla_align y.len in
      let behind : abi.nla_hdrlen + inner - abi.nla_hdrlen ≡ inner = omega arith in
      over_header F abi linux msg t (abi.nla_hdrlen + inner) type at rep_len rounds _ info _ lt
        wf.short h
        (rw (wf.aggr, behind)
          (read_aggr_pair F abi linux msg t x y _ (suc (suc (suc (length msg)))) rest info roomy_x
            roomy_y
            (rw (flat x y rest) (
              Stands-behind msg (genlmsg_data abi + at) abi.nla_hdrlen _ _ (linux.length-nlattr _ _)
                h))
            (omega arith)))
    where
      flat :
          (x y : Attribute abi) (rest : Text)
          → abi.put_nlattr x.len x.type
              ++ (x.value ++ (abi.put_nlattr y.len y.type ++ (y.value ++ rest)))
            ≡ (attribute abi x ++ attribute abi y) ++ rest
      flat x y rest =
          rw
            (
              append_assoc (attribute abi x) (attribute abi y) rest,
              append_assoc (abi.put_nlattr x.len x.type) x.value (attribute abi y ++ rest),
              append_assoc (abi.put_nlattr y.len y.type) y.value rest,
            )
            refl

  decode_from :
      (items : List (Item abi)) (at rounds : ℕ) (behind : Text) (info : TaskIoInfo F)
      → All (IsItem abi) items
      → Stands msg (genlmsg_data abi + at) (encode abi items ++ behind)
      → payload abi items < rounds
      → read_reply F abi rounds msg (genlmsg_data abi + at) at (at + payload abi items) info t
        ≡ done (decode F abi items behind info) t
  decode_from [] at rounds behind info wf h enough =
      read_reply_end F abi linux rounds msg _ at (at + 0) info t (omega (arith, enough))
        (le→ltb_false _ _ (omega arith))
  decode_from (item ∷ items) at zero behind info wf h enough = absurd (omega (arith, enough))
  decode_from (item ∷ items) at (suc rounds) behind info wf h enough =
      let size = abi.nla_align (item_len abi item) in
      let sum : at + (size + payload abi items) ≡ at + size + payload abi items = omega arith in
      let place : genlmsg_data abi + at + size ≡ genlmsg_data abi + (at + size) = omega arith in
      let head = abi.put_nlattr (item_len abi item) (item_type abi item) in
      let rest = encode abi items ++ behind in
      let stands : Stands msg (genlmsg_data abi + at) (head ++ (item_value abi item ++ rest)) =
        rw (← append_assoc (item_value abi item) (encode abi items) behind)
          (rw (← append_assoc head (item_value abi item ++ encode abi items) behind) h) in
      over_item item at (at + (size + payload abi items)) rounds rest info wf.0
        (omega (arith, item_positive item)) stands
      ∙ rw sum (
          decode_from items (at + size) rounds behind (apply_item F abi item rest info) wf.1
            (rw (← place) (
              Stands-behind msg (genlmsg_data abi + at) size (head ++ item_value abi item) rest
                (item_size item wf.0) (rw append_assoc stands)))
            (omega (arith, enough, item_positive item)))

  -- Where the kernel's headers meet their laws, and on any sequence of attributes, each of them no
  -- aggregate, or an aggregate that needs no padding, of one or two attributes, of which any
  -- statistics have room for the fields of a struct taskstats that are read, the loops over a reply
  -- come to an end within one round more than the length of the payload, read nothing outside the
  -- message, and write to the task what the attributes say one after the other.
  pub read_reply-decode :
      (items : List (Item abi)) (behind : Text) (info : TaskIoInfo F)
      → All (IsItem abi) items
      → Stands msg (genlmsg_data abi) (encode abi items ++ behind)
      → read_reply F abi
          (suc (payload abi items))
          msg
          (genlmsg_data abi)
          0
          (payload abi items)
          info
          t
        ≡ done (decode F abi items behind info) t
  read_reply-decode items behind info wf h =
      let place : genlmsg_data abi + 0 ≡ genlmsg_data abi = omega arith in
      let sum : 0 + payload abi items ≡ payload abi items = omega arith in
      rw (place, sum) at
        (decode_from items 0 (suc (payload abi items)) behind info wf (rw place h) (omega arith))
