-- ===== src/Runner/Rounds.antt =====
-- The rounds of the program on a Linux kernel.
use iotop_cpp.Base.{ℕ, zero, suc, ◌≡◌, ap, true, [], ◌∷◌, List, All, ℤ, pos, to_int32, ◌++◌}
use iotop_cpp.Text.{Text}
use iotop_cpp.Float.{Float}
use iotop_cpp.Run.{Trace, done, Returns, Returns-done, Returns-mono}
use iotop_cpp.Os.{Os}
use iotop_cpp.Abi.{Abi}
use iotop_cpp.Task.{Table}
use iotop_cpp.Monitor.{collect_timed}
use iotop_cpp.Monitor.Names.{IsShown}
use iotop_cpp.Monitor.Collect.{table_of, IsValid, collect_timed-IsValid}
use iotop_cpp.View.{draw_data}
use iotop_cpp.View.Lines.{lines, Prints}
use iotop_cpp.View.Screen.{IsPrintable, Prints-some, screen, draw_data-lines}
use iotop_cpp.Runner.{sources, IoRunner, new_runner, run_round, run}
use iotop_cpp.Run.Calls.{Only-done}
use iotop_cpp.Runner.Reads.{Reads, lines-GoesOn}
use iotop_cpp.Runner.Requests.{collect_timed-Reads}
use iotop_cpp.Runner.Answers.{Answers, sources-IsSound}

module _ (F : Float) (os : Os) (abi : Abi) (rounds : ℕ) (good : Answers os abi rounds) where
  shown-IsPrintable :
      (table : Table F)
      → All
          (λ entry.
            IsShown F (sources F os abi rounds) (to_int32 entry.0) entry.1
            × (entry.1.is_updated ≡ true))
          table
      → All (λ entry. IsPrintable entry.1) table
  shown-IsPrintable [] h = tt
  shown-IsPrintable (entry ∷ table) h =
      ((h.0.0.io_priority, h.0.0.user_name, h.0.0.full_cmdline), shown-IsPrintable table h.1)

  new_runner-IsValid : IsValid (new_runner F os abi rounds)
  new_runner-IsValid = record { distinct = tt; shown = tt }

  module _ (this : IoRunner F os abi rounds) (valid : IsValid this) where
    pub collect-done :
        (t : Trace)
        → (r : ℤ × IoRunner F os abi rounds) × (u : Trace) × (collect_timed F
              (sources F os abi rounds)
              this
              t
            ≡ done r u)
          × ((r.0 ≡ pos 0) × IsValid r.1)
    collect-done t =
        Returns-done _ _
          (collect_timed-IsValid (sources-IsSound F os abi rounds good) this valid.distinct t)

    pub draw-done :
        (next : IoRunner F os abi rounds) (t : Trace)
        → IsValid next
        → (a : Unit {0}) × (u : Trace) × (draw_data F os next.io_stats t ≡ done a u)
          × ((texts : List Text) × Prints (table_of next) texts
              × (lines u ≡ lines t ++ screen F os next.io_stats texts t))
    draw-done next t h =
        let (texts, prints) =
          Prints-some (table_of next) (shown-IsPrintable (table_of next) h.shown) in
        let (a, u, e, shown) =
          Returns-done _ (draw_data F os next.io_stats t)
            (draw_data-lines os next.io_stats texts t prints) in
        (a, u, e, (texts, prints, shown))

    -- Where the environment answers as `Answers` says, a round of the loop from a valid table comes
    -- back with a valid table, which is the one that `collect_timed` left, and the lines that the
    -- whole round prints are its screen: the collection prints nothing.
    pub run_round-Shows :
        (t : Trace)
        → Returns (run_round F os abi rounds this t) (λ next u.
          IsValid next
          × ((v : Trace) × (texts : List Text) × (collect_timed F (sources F os abi rounds) this t
                ≡ done (pos 0, next) v)
              × Prints (table_of next) texts
              × (lines u ≡ lines t ++ screen F os next.io_stats texts v)))
    unfolding run_round
    run_round-Shows t =
        let (r, v, e, (zero_code, h)) = collect-done t in
        let (_, u, d, (texts, prints, shown)) = draw-done r.1 v h in
        let whole : r ≡ (pos 0, r.1) = cc zero_code in
        let e' = ap (λ r'. done r' v) whole in
        let kept =
          lines-GoesOn t v
            (Only-done Reads t _ r v (collect_timed-Reads F os abi rounds this t) e) in
        rw (e, run_round)
          (rw (zero_code, run_round)
            (rw (d, run_round) (h, (v, texts, e', prints, rw kept at shown))))

    run_round-IsValid :
        (t : Trace) → Returns (run_round F os abi rounds this t) (λ next _. IsValid next)
    run_round-IsValid t =
        Returns-mono _ (λ next _. IsValid next) (run_round F os abi rounds this t)
          (run_round-Shows t) (λ _ _ h. h.0)

  pub run-IsValid :
      (n : ℕ) (this : IoRunner F os abi rounds) (t : Trace)
      → IsValid this
      → Returns (run F os abi rounds n this t) (λ next _. IsValid next)
  unfolding run
  run-IsValid zero this t h = h
  run-IsValid (suc n) this t h =
      let (next, u, e, h') =
        Returns-done _ (run_round F os abi rounds this t) (run_round-IsValid this h t) in
      rw (e, run) (run-IsValid n next u h')
