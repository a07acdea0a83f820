-- ===== src/Tests/Series.antt =====
-- A kernel whose replies come one request late.
use iotop_cpp.Base.{ℕ, zero, suc, refl, inr, [], ◌∷◌, Option, none, some, arith, pos}
use iotop_cpp.Text.{Text}
use iotop_cpp.Run.{Returns, traverse}
use iotop_cpp.Os.{Os}
use iotop_cpp.Netlink.Stats.{get_task_io_info}
use iotop_cpp.Netlink.Patience.{IsReady, Accepts-IsReady}
use iotop_cpp.Netlink.Request.{IsAnswer}
use iotop_cpp.Netlink.Series.{received, HasEarlier, series-HasEarlier}
use iotop_cpp.Tests.Setting.{whole}
use iotop_cpp.Tests.Linux.{linux, linux-IsLinux}
use iotop_cpp.Tests.Messages.{answering, connected, task, reply, reply-HoldsItems, room}

abbrev late_stream : ℕ → Option (Text × ℕ)
late_stream zero = none
late_stream (suc n) = some (reply, 364)

abbrev lagging : Os
lagging = record answering { recv = λ t fd. late_stream (received t) }

lagging-IsReady : IsReady lagging linux 2000 (pos 5)
lagging-IsReady =
    Accepts-IsReady lagging linux 2000 (pos 5) (λ t buf. (20, omega arith, refl)) (omega arith)

late-IsAnswer : (n : ℕ) → IsAnswer linux (late_stream n)
late-IsAnswer zero = tt
late-IsAnswer (suc n) = inr (inr reply-HoldsItems)

-- The first task has nothing, and the second one the reply to the first.
series-HasEarlier_example :
    Returns
      (traverse
        (λ id. get_task_io_info whole lagging linux 2000 connected id task)
        (42 ∷ 43 ∷ 44 ∷ [])
        [])
      (λ rs _. HasEarlier whole linux (λ id. (reply, 364)) (λ id. task) none (42 ∷ 43 ∷ 44 ∷ []) rs)
series-HasEarlier_example =
    series-HasEarlier whole lagging linux linux-IsLinux 2000 connected lagging-IsReady room
      (λ t. late-IsAnswer (received t)) late_stream (λ t. refl) (λ id. (reply, 364)) (λ id. task)
      none (42 ∷ 43 ∷ 44 ∷ []) [] (refl, (refl, (refl, tt)))
