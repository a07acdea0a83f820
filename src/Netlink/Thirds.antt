-- ===== src/Netlink/Thirds.antt =====
-- Aggregates with a third attribute, such as those in which the kernel pads the statistics.
use iotop_cpp.Base.{ℕ, suc, ◌+◌, ◌<◌, ◌≡◌, refl, ◌∙◌, ◌++◌, arith}
use iotop_cpp.Text.{Text}
use iotop_cpp.Float.{Float}
use iotop_cpp.Run.{Trace}
use iotop_cpp.Abi.{Abi, IsLinux}
use iotop_cpp.Task.{TaskIoInfo}
use iotop_cpp.Netlink.{read_aggr}
use iotop_cpp.Netlink.Attributes.{Attribute, IsRoomy, apply}
use iotop_cpp.Netlink.Offsets.{Stands}
use iotop_cpp.Netlink.Items.{behind_Attribute, over_Attribute}

module _ (F : Float) (abi : Abi) (linux : IsLinux abi) (a b : Attribute abi)
    (roomy : IsRoomy abi a × IsRoomy abi b) (msg third : Text) (na total : ℕ)
    (stands : Stands msg na (
      abi.put_nlattr a.len a.type
      ++ (a.value ++ (abi.put_nlattr b.len b.type ++ (b.value ++ third)))))
    (more : abi.nla_align a.len + abi.nla_align b.len < total) where
  -- Where the kernel's headers meet their laws, and an aggregate that goes on behind them begins
  -- with two attributes, of which any statistics have room for the fields of a struct taskstats
  -- that are read, a third attribute stands behind the two; the first two rounds of the loop write
  -- the statistics among the two to the task, but then the loop goes on behind the place of the
  -- third attribute by the aligned length of the first: it does not look at the third attribute.
  pub read_aggr_third :
      (rounds : ℕ) (info : TaskIoInfo F) (t : Trace)
      → Stands msg (na + abi.nla_align a.len + abi.nla_align b.len) third
        × (read_aggr F abi (suc (suc rounds)) msg na 0 total info t
            ≡ read_aggr F abi rounds msg
                (na + abi.nla_align a.len + abi.nla_align b.len + abi.nla_align a.len)
                (abi.nla_align a.len + abi.nla_align b.len)
                total
                (apply F abi b third
                  (apply F abi a (abi.put_nlattr b.len b.type ++ (b.value ++ third)) info))
                t)
  read_aggr_third rounds info t =
      let sum : 0 + abi.nla_align a.len ≡ abi.nla_align a.len = omega arith in
      let place : na + abi.nla_align a.len + (abi.nla_align a.len + abi.nla_align b.len)
          ≡ na + abi.nla_align a.len + abi.nla_align b.len + abi.nla_align a.len =
        omega arith in
      let second = behind_Attribute F abi linux msg t a na _ stands in
      let info' = apply F abi a (abi.put_nlattr b.len b.type ++ (b.value ++ third)) info in
      (
        behind_Attribute F abi linux msg t b (na + abi.nla_align a.len) third second,
        over_Attribute F abi linux msg t a na 0 total (suc rounds) _ info roomy.0 stands
              (omega arith)
            ∙ rw sum (
                over_Attribute F abi linux msg t b (na + abi.nla_align a.len) (abi.nla_align a.len)
                  total rounds third info' roomy.1 second (omega arith)
                ∙ rw place refl),
      )
