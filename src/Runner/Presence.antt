-- ===== src/Runner/Presence.antt =====
-- Which tasks the rounds of the program show.
use iotop_cpp.Base.{ℕ, ◌≡◌, refl, ap, ◌∙◌, Bool, not, ◌&&◌, List, Option, ◌++◌, [], ◌∷◌, arith}
use iotop_cpp.Text.{Text}
use iotop_cpp.Float.{Float}
use iotop_cpp.Run.{Trace, Returns, Returns-mono}
use iotop_cpp.Os.{Os}
use iotop_cpp.Abi.{Abi}
use iotop_cpp.Task.{TaskIoInfo, lookup, is_none}
use iotop_cpp.Monitor.{IoMonitor, Sources}
use iotop_cpp.Monitor.Overdue.{live}
use iotop_cpp.Monitor.Collect.{table_of, IsValid}
use iotop_cpp.Monitor.Reference.{Found, entries}
use iotop_cpp.Monitor.Abstract.{fresh}
use iotop_cpp.View.Lines.{lines}
use iotop_cpp.Runner.{IoRunner, run}
use iotop_cpp.Runner.Answers.{Answers}
use iotop_cpp.Runner.History.{History, ended, round, Ran, run-Ran}

-- Whether a task is in the table.
abbrev pub is_shown : {F : Float} {S : Sources F} → ℕ → IoMonitor F S → Bool
is_shown k m = not (is_none (lookup k (table_of m)))

-- Whether a pass found a task and updated it.
abbrev pub is_sighted : {F : Float} → ℕ → List (Found F) → Bool
is_sighted k found = not (is_none (live (lookup k (entries found))))

-- Whether a task is shown after the given sightings: it is shown after one, unless it was shown before.
abbrev pub follow : List Bool → Bool → Bool
follow [] shown = shown
follow (sighted ∷ later) shown = follow later (sighted && not shown)

fresh-sighted :
    {F : Float} (k : ℕ) (old : ℕ → Option (TaskIoInfo F)) (found : List (Found F))
    → not (is_none (fresh old found k)) ≡ (is_sighted k found && not (not (is_none (old k))))
fresh-sighted k old found = ground arith

module _ {F : Float} {os : Os} {abi : Abi} {rounds : ℕ} (k : ℕ) where
  -- The sightings of a task in the rounds of a history.
  abbrev pub sightings :
      {n : ℕ} {this last : IoRunner F os abi rounds} {t w : Trace} {printed : List (ℕ × Text)}
      → History F os abi rounds n this t printed last w
      → List Bool
  sightings ended = []
  sightings (round a later) = is_sighted k a.pass.found ∷ sightings later

  History-follow :
      {n : ℕ} {this last : IoRunner F os abi rounds} {t w : Trace} {printed : List (ℕ × Text)}
      (history : History F os abi rounds n this t printed last w)
      → is_shown k last ≡ follow (sightings history) (is_shown k this)
  History-follow ended = refl
  History-follow {this} (round a later) =
      History-follow later
      ∙ ap (follow (sightings later)) (
          ap (λ tasks. not (is_none (tasks k))) a.pass.shows
          ∙ fresh-sighted k (λ j. lookup j (table_of this)) a.pass.found)

module _ (F : Float) (os : Os) (abi : Abi) (rounds : ℕ) (good : Answers os abi rounds) where
  -- On a Linux kernel (the kernel's headers meet their laws, the payload of a request has room and
  -- the rounds suffice for a message, the socket takes at least one byte of what it is offered,
  -- unless it takes none and asks to try again, which it does a bounded number of times in a row,
  -- when the last that the socket has taken is a request for the statistics of a task, what is
  -- received is nothing, a message that is cut off or an error, or a message that can be read (as
  -- far as its payload, the headers of its attributes lie within the buffer, and within each
  -- aggregate, at the places where the inner loop looks, the headers and the fields of the
  -- statistics that are read do, until the lengths add up), and user names and first lines are no
  -- longer than 128 bytes), n rounds of the loop from a valid table come back, for every n, with a
  -- valid table and a history of n rounds, whose screens are what is printed; and for any task,
  -- whether it is in the table at the end follows from whether it was at the start and from whether
  -- the passes over the tasks found and updated it, one round after the other, by one rule: after a
  -- round a task is shown exactly if it was found and updated in that round and not shown before
  -- it.
  pub run_follows :
      (k n : ℕ) (this : IoRunner F os abi rounds) (t : Trace)
      → IsValid this
      → Returns (run F os abi rounds n this t) (λ last w.
        IsValid last
        × ((printed : List (ℕ × Text)) × (history : History F os abi rounds n this t printed last w)
            × (lines w ≡ lines t ++ printed)
            × (is_shown k last ≡ follow (sightings k history) (is_shown k this))))
  run_follows k n this t valid =
      Returns-mono (Ran F os abi rounds good n this t) _ (run F os abi rounds n this t)
        (run-Ran F os abi rounds good n this t valid)
        (λ last w (valid_last, (printed, history, shown)).
          (valid_last, (printed, history, shown, History-follow k history)))
