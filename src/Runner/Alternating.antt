-- ===== src/Runner/Alternating.antt =====
-- A task that is listed in every round of the program.
use iotop_cpp.Base.{elem, ℕ, zero, suc, ◌≡◌, refl, ap, ◌∙◌, Bool, true, false, not, List, is_neg}
use iotop_cpp.Text.{Text}
use iotop_cpp.Float.{Float}
use iotop_cpp.Run.{Trace, done, Returns, Returns-mono}
use iotop_cpp.Run.Ends.{AtEnd}
use iotop_cpp.Os.{Os}
use iotop_cpp.Abi.{Abi}
use iotop_cpp.Netlink.{NetlinkIoStats}
use iotop_cpp.Proc.{get_all_task_id}
use iotop_cpp.Task.{TaskIoInfo, lookup, is_none}
use iotop_cpp.Task.Table.{NodupKeys}
use iotop_cpp.Netlink.Stats.{get_task_io_info}
use iotop_cpp.Monitor.Loops.{ids}
use iotop_cpp.Monitor.Collect.{table_of, IsValid}
use iotop_cpp.Monitor.Toggling.{collect_timed_toggles}
use iotop_cpp.Runner.{IoRunner, run}
use iotop_cpp.Runner.Answers.{Answers, sources-IsSound}
use iotop_cpp.Runner.History.{Round, History, ended, round, Ran, run-Ran}

-- A truth that changes with every round.
abbrev pub flips : ℕ → Bool → Bool
flips zero b = b
flips (suc n) b = flips n (not b)

module _ (F : Float) (os : Os) (abi : Abi) (rounds : ℕ) (good : Answers os abi rounds) (k : ℕ)
    (given : (netlink : NetlinkIoStats) (id : ℕ) (info : TaskIoInfo F) (t : Trace)
      → AtEnd (get_task_io_info F os abi rounds netlink id info t) (λ r _. is_neg r.0 ≡ false))
    (listed : (tasks : List (ℕ × List ℕ)) (u v : Trace)
      → get_all_task_id os false u ≡ done tasks v
      → elem k (ids tasks) ≡ true) where
  Round-toggles :
      {this next : IoRunner F os abi rounds} {t u : Trace} {printed : List (ℕ × Text)}
      → Round F os abi rounds this t printed next u
      → NodupKeys (table_of this)
      → NodupKeys (table_of next)
        × (is_none (lookup k (table_of next)) ≡ not (is_none (lookup k (table_of this))))
  Round-toggles {this} {next} {t} a distinct =
      let toggled =
        collect_timed_toggles (sources-IsSound F os abi rounds good) k given listed this t
          distinct in
      let h = rw (a.collected) at toggled in (h.1, h.2)

  History-toggles :
      {n : ℕ} {this last : IoRunner F os abi rounds} {t w : Trace} {printed : List (ℕ × Text)}
      → History F os abi rounds n this t printed last w
      → NodupKeys (table_of this)
      → is_none (lookup k (table_of last)) ≡ flips n (is_none (lookup k (table_of this)))
  History-toggles ended distinct = refl
  History-toggles (round {n} a later) distinct =
      let (distinct', toggled) = Round-toggles a distinct in
      History-toggles later distinct' ∙ ap (flips n) toggled

  -- On a Linux kernel (the kernel's headers meet their laws, the payload of a request has room and
  -- the rounds suffice for a message, the socket takes at least one byte of what it is offered,
  -- unless it takes none and asks to try again, which it does a bounded number of times in a row,
  -- when the last that the socket has taken is a request for the statistics of a task, what is
  -- received is nothing, a message that is cut off or an error, or a message that can be read (as
  -- far as its payload, the headers of its attributes lie within the buffer, and within each
  -- aggregate, at the places where the inner loop looks, the headers and the fields of the
  -- statistics that are read do, until the lengths add up), and user names and first lines are no
  -- longer than 128 bytes), where netlink fails for no task, and a certain task is listed whenever
  -- the tasks are listed, n rounds of the loop from a valid table come back, for every n, with a
  -- valid table and a history of n rounds that end there; that task is in the table at the end,
  -- where n is even, exactly if it was at the start, and where n is odd, exactly if it was not: it
  -- is shown in every other round.
  pub run_toggles :
      (n : ℕ) (this : IoRunner F os abi rounds) (t : Trace)
      → IsValid this
      → Returns (run F os abi rounds n this t) (λ last w.
        Ran F os abi rounds good n this t last w
        × (is_none (lookup k (table_of last)) ≡ flips n (is_none (lookup k (table_of this)))))
  run_toggles n this t valid =
      Returns-mono (Ran F os abi rounds good n this t) _ (run F os abi rounds n this t)
        (run-Ran F os abi rounds good n this t valid)
        (λ last w ran. (ran, History-toggles ran.1.1 valid.distinct))
