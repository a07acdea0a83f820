-- ===== src/Netlink/Through.antt =====
-- Attributes that the outer loop of a reply goes through.
use iotop_cpp.Base.{ℕ, suc, ◌≡◌, refl, sym, ◌∙◌, inl, inr, true, [], Bool-cases, length, pos}
use iotop_cpp.Text.{Text}
use iotop_cpp.Float.{Float}
use iotop_cpp.Run.{Trace, done, fault, spin}
use iotop_cpp.Abi.{Abi}
use iotop_cpp.Task.{TaskIoInfo, new_task}
use iotop_cpp.Netlink.{nla_data}
use iotop_cpp.Netlink.Aggregates.{Writes}
use iotop_cpp.Netlink.Readable.{is_aggregate, IsThrough, plain, aggregate}
use iotop_cpp.Netlink.Passing.{read_aggr-Passes, Passes-read_aggr}
use iotop_cpp.Netlink.Enough.{item, item-cases}

module _ (F : Float) (abi : Abi) (msg : Text) where
  pub item-IsThrough :
      (na : ℕ) (info info' : TaskIoInfo F) (t u : Trace)
      → item F abi msg na info t ≡ done info' u
      → IsThrough abi msg na
  item-IsThrough na info info' t u e = elim (Bool-cases (is_aggregate abi msg na)) [
    | inr other ↦ plain other
    | inl aggr ↦ aggregate aggr (
        read_aggr-Passes F abi msg (suc (suc (suc (length msg)))) (nla_data abi na) 0 _ info info' t
          u (rw aggr at e))
  ]

  item-done :
      (na : ℕ) (info : TaskIoInfo F) (t : Trace)
      → IsThrough abi msg na
      → (info' : TaskIoInfo F) × (item F abi msg na info t ≡ done info' t)
  item-done na info t (plain other) = (info, rw other refl)
  item-done na info t (aggregate aggr passes) =
      let (info', e) = Passes-read_aggr F abi msg (nla_data abi na) _ passes info t in
      (info', rw aggr e)

  pub IsThrough-item : (na : ℕ) → IsThrough abi msg na → Writes F abi msg (item F abi msg na)
  IsThrough-item na h =
      let task = new_task F (pos 0) true in
      let (info', e) = item-done na task [] h in
      elim (item-cases F abi msg na) [
        | inl k ↦ let both : fault ≡ done info' [] = sym (k task []) ∙ e in cc
        | inr (inl k) ↦ let both : spin ≡ done info' [] = sym (k task []) ∙ e in cc
        | inr (inr w) ↦ w
      ]
