-- ===== src/Netlink/Items.antt =====
-- The loops over a reply on any sequence of attributes.
use mathlib.Core.List.{append_assoc}
use iotop_cpp.Base.{
  ℕ, zero, suc, ◌+◌, ◌-◌, ◌^◌, ◌≤◌, ◌<◌, ◌≡◌, refl, ◌∙◌, inl, inr, ◌++◌, arith, lt→ltb, ◌==◌,
  ==_iff, if◌then◌else◌, Bool-cases, length, length-append,
}
use iotop_cpp.Text.{Text}
use iotop_cpp.Float.{Float}
use iotop_cpp.Run.{Trace, done, pure}
use iotop_cpp.Abi.{Abi, IsLinux}
use iotop_cpp.Task.{TaskIoInfo}
use iotop_cpp.Netlink.{genlmsg_data, read_stats, read_aggr, read_reply}
use iotop_cpp.Netlink.Attributes.{Attribute, IsRoomy, is_aggr, attribute, apply}
use iotop_cpp.Netlink.Offsets.{Stands, Stands-behind, le→ltb_false}
use iotop_cpp.Netlink.Reading.{
  attr_at, read_stats_other, read_stats_found, read_aggr_step, read_aggr_end,
}

module _ (F : Float) (abi : Abi) (linux : IsLinux abi) (msg : Text) (t : Trace) where
  pub length-attribute :
      (len type : ℕ) (value : Text)
      → length (abi.put_nlattr len type ++ value) ≡ abi.nla_hdrlen + length value
  length-attribute len type value =
      length-append (abi.put_nlattr len type) value ∙ rw (linux.length-nlattr len type) refl

  pub behind_Attribute :
      (x : Attribute abi) (at : ℕ) (rest : Text)
      → Stands msg at (abi.put_nlattr x.len x.type ++ (x.value ++ rest))
      → Stands msg (at + abi.nla_align x.len) rest
  behind_Attribute x at rest h =
      Stands-behind msg at (abi.nla_align x.len) (attribute abi x) rest
        (length-attribute x.len x.type x.value ∙ x.size) (rw append_assoc h)

  read_stats-apply :
      (x : Attribute abi) (at : ℕ) (rest : Text) (info : TaskIoInfo F)
      → IsRoomy abi x
      → Stands msg at (abi.put_nlattr x.len x.type ++ (x.value ++ rest))
      → read_stats F abi msg at info t ≡ done (apply F abi x rest info) t
  read_stats-apply x at rest info roomy h = elim (Bool-cases (x.type == abi.taskstats_type_stats)) [
    | inl found ↦
        let same = (==_iff x.type abi.taskstats_type_stats).0 found in
        rw found (
          read_stats_found F abi linux msg at x.len x.type (x.value ++ rest) info t h x.short.1 same
            (omega (arith, length-append x.value rest, roomy.room same)))
    | inr other ↦ rw other (
        read_stats_other F abi linux msg at x.len x.type (x.value ++ rest) info t h x.short.1
          (λ same. cc ((==_iff x.type abi.taskstats_type_stats).1 same)))
  ]

  -- A round over an attribute.
  pub over_Attribute :
      (x : Attribute abi) (at len2 total rounds : ℕ) (rest : Text) (info : TaskIoInfo F)
      → IsRoomy abi x
      → Stands msg at (abi.put_nlattr x.len x.type ++ (x.value ++ rest))
      → len2 < total
      → read_aggr F abi (suc rounds) msg at len2 total info t
        ≡ read_aggr F abi rounds msg
            (at + (len2 + abi.nla_align x.len))
            (len2 + abi.nla_align x.len)
            total
            (apply F abi x rest info)
            t
  over_Attribute x at len2 total rounds rest info roomy h lt =
      read_aggr_step F abi linux rounds msg at len2 total x.len x.type (x.value ++ rest) info
        (apply F abi x rest info) t (lt→ltb len2 total lt) x.short.0 h
        (read_stats-apply x at rest info roomy h)

  pub read_aggr_single :
      (x : Attribute abi) (at rounds : ℕ) (rest : Text) (info : TaskIoInfo F)
      → IsRoomy abi x
      → Stands msg at (abi.put_nlattr x.len x.type ++ (x.value ++ rest))
      → 2 ≤ rounds
      → read_aggr F abi rounds msg at 0 (abi.nla_align x.len) info t
        ≡ done (apply F abi x rest info) t
  read_aggr_single x at (suc (suc rounds)) rest info roomy h enough =
      over_Attribute x at 0 (abi.nla_align x.len) (suc rounds) rest info roomy h
        (omega (arith, linux.align x.len, x.positive))
      ∙ read_aggr_end F abi linux rounds msg _ _ (abi.nla_align x.len) (apply F abi x rest info) t
          (le→ltb_false _ _ (omega arith))
  read_aggr_single x at (suc zero) rest info roomy h enough = absurd (omega arith)
  read_aggr_single x at zero rest info roomy h enough = absurd (omega arith)

  pub read_aggr_pair :
      (x y : Attribute abi) (at rounds : ℕ) (rest : Text) (info : TaskIoInfo F)
      → IsRoomy abi x
      → IsRoomy abi y
      → Stands msg at (
          abi.put_nlattr x.len x.type
          ++ (x.value ++ (abi.put_nlattr y.len y.type ++ (y.value ++ rest))))
      → 3 ≤ rounds
      → read_aggr F abi rounds msg at 0 (abi.nla_align x.len + abi.nla_align y.len) info t
        ≡ done (apply F abi y rest (apply F abi x (attribute abi y ++ rest) info)) t
  read_aggr_pair x y at (suc (suc (suc rounds))) rest info roomy_x roomy_y h enough =
      let total = abi.nla_align x.len + abi.nla_align y.len in
      let info' = apply F abi x (abi.put_nlattr y.len y.type ++ (y.value ++ rest)) info in
      let sum : 0 + abi.nla_align x.len ≡ abi.nla_align x.len = omega arith in
      over_Attribute x at 0 total (suc (suc rounds)) _ info roomy_x h
        (omega (arith, linux.align x.len, x.positive))
      ∙ rw (sum) (
          over_Attribute y (at + abi.nla_align x.len) (abi.nla_align x.len) total (suc rounds) rest
            info' roomy_y (behind_Attribute x at _ h) (omega (arith, linux.align y.len, y.positive))
          ∙ read_aggr_end F abi linux rounds msg _ _ total (apply F abi y rest info') t
              (le→ltb_false _ _ (omega arith))
          ∙ rw (append_assoc (abi.put_nlattr y.len y.type) y.value rest) refl)
  read_aggr_pair x y at (suc (suc zero)) rest info roomy_x roomy_y h enough = absurd (omega arith)
  read_aggr_pair x y at (suc zero) rest info roomy_x roomy_y h enough = absurd (omega arith)
  read_aggr_pair x y at zero rest info roomy_x roomy_y h enough = absurd (omega arith)

  -- What the outer loop does in a round over an item.
  pub over_header :
      (len type at rep_len rounds : ℕ) (rest : Text) (info info' : TaskIoInfo F)
      → at < rep_len
      → (len < 2 ^ 16) × (type < 2 ^ 16)
      → Stands msg (genlmsg_data abi + at) (abi.put_nlattr len type ++ rest)
      → (if is_aggr abi type
            then read_aggr F abi
                (suc (suc (suc (length msg))))
                msg
                (genlmsg_data abi + at + abi.nla_hdrlen)
                0
                (len - abi.nla_hdrlen)
                info
            else pure info)
          t
        ≡ done info' t
      → read_reply F abi (suc rounds) msg (genlmsg_data abi + at) at rep_len info t
        ≡ read_reply F abi rounds msg
            (genlmsg_data abi + (at + abi.nla_align len))
            (at + abi.nla_align len)
            rep_len
            info'
            t
  unfolding read_reply
  over_header len type at rep_len rounds rest info info' lt short h e =
      rw (lt→ltb at rep_len lt, attr_at F abi linux msg (genlmsg_data abi + at) len type rest t h)
        (rw (linux.nla_len-put len type rest short.0, linux.nla_type-put len type rest short.1)
          (rw e refl))
