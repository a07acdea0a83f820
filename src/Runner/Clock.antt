-- ===== src/Runner/Clock.antt =====
-- The time between the rounds of the program.
use iotop_cpp.Base.{ℕ, ◌+◌, ◌*◌, ◌%◌, ◌^◌, ◌≤◌, ◌<◌, ◌≡◌, ◌∙◌, ◌∷◌, List, arith, is_neg}
use iotop_cpp.Text.{Text}
use iotop_cpp.Float.{Float}
use iotop_cpp.Run.{Call, Trace, Returns, Returns-mono, done}
use iotop_cpp.Run.Within.{IsPreorder, Along, Within-bind, Within-if, Within-done}
use iotop_cpp.Run.Calls.{Only-Within}
use iotop_cpp.Os.{Os}
use iotop_cpp.Abi.{Abi}
use iotop_cpp.Netlink.Calling.{get_task_io_info-Calls}
use iotop_cpp.Proc.{get_steady_now_time_ns}
use iotop_cpp.Monitor.{collect_timed, sub64}
use iotop_cpp.Monitor.Collect.{IsValid}
use iotop_cpp.Monitor.Calling.{AreAlong, collect_timed-Along}
use iotop_cpp.View.{draw_data}
use iotop_cpp.View.Calling.{draw_data-Calls}
use iotop_cpp.Runner.{sources, IoRunner, run_round, run}
use iotop_cpp.Runner.Requests.{sources-AreQuiet}
use iotop_cpp.Runner.Answers.{Answers}
use iotop_cpp.Runner.History.{Round, History, ended, round, Ran, run-Ran}

module _ (os : Os) where
  -- What the clock shows after a trace, in nanoseconds.
  abbrev pub now : Trace → ℕ
  now t = (os.clock_gettime t).tv_nsec + (os.clock_gettime t).tv_sec * 10 ^ 9

  -- A clock that does not go back, and has room in 64 bits.
  pub record IsSteady : Type 0 where
    pub onward : (c : Call) (t : Trace) → now t ≤ now (c ∷ t)
    pub room : (t : Trace) → now t < 2 ^ 64

  abbrev Later : Trace → Trace → Type 0
  Later t u = now t ≤ now u

  Later-IsPreorder : IsPreorder Later
  Later-IsPreorder = record { here = λ t. omega arith; trans = λ t u v h g. omega (arith, h, g) }

module _ {F : Float} {os : Os} {abi : Abi} {rounds : ℕ} where
  -- The times over which the rates of the rounds are taken, together.
  abbrev pub intervals :
      {n : ℕ} {this last : IoRunner F os abi rounds} {t w : Trace} {printed : List (ℕ × Text)}
      → History F os abi rounds n this t printed last w
      → ℕ
  intervals ended = 0
  intervals (round {this = this} {next = next} a later) =
      sub64 next.origin_collect_timestamp_ns this.origin_collect_timestamp_ns + intervals later

module _ (F : Float) (os : Os) (abi : Abi) (rounds : ℕ) (steady : IsSteady os) where
  sources-AreAlong : AreAlong (Later os) (sources F os abi rounds)
  sources-AreAlong = record {
    quiet = sources-AreQuiet F os abi rounds (Later-IsPreorder os) (λ c t _. steady.onward c t);
    stats = λ netlink id info t.
        Only-Within (λ _. Unit {0}) (Later-IsPreorder os) (λ c u _. steady.onward c u) t _
          (get_task_io_info-Calls (λ _. Unit {0}) (λ fd buf. tt) (λ fd. tt) F os abi rounds netlink
            id info t);
  }

  run_round-Later :
      (this : IoRunner F os abi rounds) → Along (Later os) (run_round F os abi rounds this)
  unfolding run_round
  run_round-Later this t =
      Within-bind (Later-IsPreorder os) t (collect_timed F (sources F os abi rounds) this t) _
        (collect_timed-Along (Later-IsPreorder os) sources-AreAlong this t)
        (λ r u. Within-if (Later os) (is_neg r.0) _ _ u u (omega arith) (
          Within-bind (Later-IsPreorder os) u (draw_data F os r.1.io_stats u) _
            (Only-Within (λ _. Unit {0}) (Later-IsPreorder os) (λ c v _. steady.onward c v) u _
              (draw_data-Calls (λ _. Unit {0}) (λ y s. tt) tt F tt tt tt os r.1.io_stats u))
            (λ _ v. steady.onward _ v)))

  read_clock : (t u : Trace) (tm : ℕ) → get_steady_now_time_ns os t ≡ done tm u → tm ≡ now os t
  unfolding get_steady_now_time_ns
  read_clock t u tm e =
      let wrapped : now os t % 2 ^ 64 ≡ tm = cc e in omega (arith, wrapped, steady.room t)

  Round-Later :
      {this next : IoRunner F os abi rounds} {t u : Trace} {printed : List (ℕ × Text)}
      → Round F os abi rounds this t printed next u
      → (now os t ≤ now os u) × (next.origin_collect_timestamp_ns ≡ now os t)
  Round-Later {this} {next} {t} {u} a = (
    Within-done (Later os) t _ next u (run_round-Later this t) a.ran,
    a.pass.collected_ns ∙ read_clock t a.pass.timed_at a.pass.tm a.pass.timed,
  )

  History-intervals :
      {n : ℕ} {this last : IoRunner F os abi rounds} {t w : Trace} {printed : List (ℕ × Text)}
      (history : History F os abi rounds n this t printed last w)
      → this.origin_collect_timestamp_ns ≤ now os t
      → (last.origin_collect_timestamp_ns ≡ this.origin_collect_timestamp_ns + intervals history)
        × (last.origin_collect_timestamp_ns ≤ now os w)
  History-intervals ended h = (omega arith, h)
  History-intervals {t = t} (round a later) h =
      let (onward, at) = Round-Later a in
      let (sum, bound) = History-intervals later (omega (arith, onward, at)) in
      (omega (arith, at, h, sum, steady.room t), bound)

module _ (F : Float) (os : Os) (abi : Abi) (rounds : ℕ) (good : Answers os abi rounds)
    (steady : IsSteady os) where
  -- On a Linux kernel (the kernel's headers meet their laws, the payload of a request has room and
  -- the rounds suffice for a message, the socket takes at least one byte of what it is offered,
  -- unless it takes none and asks to try again, which it does a bounded number of times in a row,
  -- when the last that the socket has taken is a request for the statistics of a task, what is
  -- received is nothing, a message that is cut off or an error, or a message that can be read (as
  -- far as its payload, the headers of its attributes lie within the buffer, and within each
  -- aggregate, at the places where the inner loop looks, the headers and the fields of the
  -- statistics that are read do, until the lengths add up), and user names and first lines are no
  -- longer than 128 bytes), and where the clock does not go back from call to call and stays below
  -- 2 ^ 64 nanoseconds, n rounds of the loop, from a valid table and a last collection that is not
  -- later than the clock shows, come back, for every n, with a valid table and a history of n
  -- rounds; the times over which the rates of those rounds are taken, each the unsigned 64-bit
  -- difference between two collections, add up to the time from the last collection before them to
  -- that of the last round, which is not later than the clock shows at the end.
  pub run-intervals :
      (n : ℕ) (this : IoRunner F os abi rounds) (t : Trace)
      → IsValid this
      → this.origin_collect_timestamp_ns ≤ now os t
      → Returns (run F os abi rounds n this t) (λ last w.
        IsValid last
        × ((printed : List (ℕ × Text)) × (history : History F os abi rounds n this t printed last w)
            × (last.origin_collect_timestamp_ns
                ≡ this.origin_collect_timestamp_ns + intervals history)
            × (last.origin_collect_timestamp_ns ≤ now os w)))
  run-intervals n this t valid past =
      Returns-mono (Ran F os abi rounds good n this t) _ (run F os abi rounds n this t)
        (run-Ran F os abi rounds good n this t valid)
        (λ last w (valid_last, (printed, history, shown)).
          let (sum, bound) = History-intervals F os abi rounds steady history past in
          (valid_last, (printed, history, sum, bound)))
