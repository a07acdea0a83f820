-- ===== src/Tests/Clocks.antt =====
-- The clock of the program on a machine that answers each request.
use iotop_cpp.Base.{ℕ, ◌+◌, ◌≤◌, ◌≡◌, refl, [], List, pos, arith}
use iotop_cpp.Text.{Text}
use iotop_cpp.Run.{Returns}
use iotop_cpp.Os.{Os}
use iotop_cpp.Netlink.Patience.{Accepts-IsReady}
use iotop_cpp.Monitor.Collect.{IsValid}
use iotop_cpp.Runner.{new_runner, run}
use iotop_cpp.Runner.History.{History}
use iotop_cpp.Runner.Answers.{Answers}
use iotop_cpp.Runner.Clock.{now, IsSteady, intervals, run-intervals}
use iotop_cpp.Tests.Setting.{whole}
use iotop_cpp.Tests.Linux.{linux}
use iotop_cpp.Tests.Messages.{answering}
use iotop_cpp.Tests.Rounds.{answering-Answers}

-- The same machine, on which every task has one priority.
abbrev even : Os
even = record answering { ioprio_get = λ t which id. pos 16388 }

even-Answers : Answers even linux 2000
even-Answers = record {
  linux = answering-Answers.linux;
  room = answering-Answers.room;
  ready = λ fd. Accepts-IsReady even linux 2000 fd (λ t buf. (20, omega arith, refl)) (omega arith);
  answers = answering-Answers.answers;
  names = answering-Answers.names;
  lines = answering-Answers.lines;
}

even-IsSteady : IsSteady even
even-IsSteady = record { onward = λ c t. omega arith; room = λ t. omega arith }

run-intervals_example :
    let runner = new_runner whole even linux 2000 in
    Returns (run whole even linux 2000 3 runner []) (λ last w.
      IsValid last
      × ((printed : List (ℕ × Text)) × (history : History whole even linux 2000 3 runner [] printed
            last w)
          × (last.origin_collect_timestamp_ns ≡ 0 + intervals history)
          × (last.origin_collect_timestamp_ns ≤ now even w)))
run-intervals_example =
    run-intervals whole even linux 2000 even-Answers even-IsSteady 3
      (new_runner whole even linux 2000) [] (record { distinct = tt; shown = tt }) (omega arith)
