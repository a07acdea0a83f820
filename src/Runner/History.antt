-- ===== src/Runner/History.antt =====
-- The history of the loop: one round after the other.
use mathlib.Core.List.{append_assoc, append-nil}
use iotop_cpp.Base.{
  ℕ, zero, suc, ◌≡◌, refl, sym, ◌∙◌, ◌⊎◌, inl, inr, [], ◌∷◌, List, ◌++◌, ℤ, pos, negsuc, is_neg,
  Bool-cases,
}
use iotop_cpp.Text.{Text}
use iotop_cpp.Float.{Float}
use iotop_cpp.Run.{
  Call, Trace, done, Returns, Returns-done, Returns-mono, print_at, init_terminal, end_terminal,
}
use iotop_cpp.Run.Ends.{Returns-AtEnd}
use iotop_cpp.Run.Within.{Same-IsPreorder}
use iotop_cpp.Run.Calls.{
  GoesOn-fold, Calls, GoesOn, GoesOn-refl, GoesOn-call, Only-bind, Only-if, Only-mono,
}
use iotop_cpp.Os.{Os}
use iotop_cpp.Abi.{Abi}
use iotop_cpp.Netlink.Socket
use iotop_cpp.Netlink.Request.{HasRoom}
use iotop_cpp.Netlink.Sending.{stream, family_request}
use iotop_cpp.Netlink.Start.{IsFamilyAnswer}
use iotop_cpp.Monitor.{collect_timed}
use iotop_cpp.Monitor.Collect.{table_of, IsValid}
use iotop_cpp.Monitor.Abstract.{view}
use iotop_cpp.Monitor.Observed.{Observed, collect_timed-Observed}
use iotop_cpp.View.Lines.{lines, Prints}
use iotop_cpp.View.Screen.{screen}
use iotop_cpp.Runner.{sources, IoRunner, new_runner, init, run_round, run, main}
use iotop_cpp.Monitor.Totals.{HasTotals, Observed-HasTotals}
use iotop_cpp.Runner.Answers.{Answers, sources-IsSound}
use iotop_cpp.Runner.Rounds.{run_round-Shows}
use iotop_cpp.Runner.Whole.{init-Started}
use iotop_cpp.Netlink.Connects.{Connects, init-Connects}
use iotop_cpp.Monitor
use iotop_cpp.View

module _ (F : Float) (os : Os) (abi : Abi) (rounds : ℕ) where
  -- A round: a collection that does not fail, and the screen of what it left in the table.
  pub record Round (this : IoRunner F os abi rounds) (t : Trace) (printed : List (ℕ × Text))
      (next : IoRunner F os abi rounds) (u : Trace) : Type 0 where
    pub ran : run_round F os abi rounds this t ≡ done next u
    pub collected_at : Trace
    pub collected :
        collect_timed F (sources F os abi rounds) this t ≡ done (pos 0, next) collected_at
    pub pass : Observed (view this) t (view next) collected_at
    pub valid : IsValid next
    pub totals :
        HasTotals this.origin_collect_timestamp_ns next.origin_collect_timestamp_ns (table_of next)
    pub texts : List Text
    pub prints : Prints (table_of next) texts
    pub shown : printed ≡ screen F os next.io_stats texts collected_at

  -- The rounds from one runner and trace to another, with the lines that they print.
  pub data History
      : ℕ
        → IoRunner F os abi rounds
        → Trace
        → List (ℕ × Text)
        → IoRunner F os abi rounds
        → Trace
        → Type 0 where
    ended : {this : IoRunner F os abi rounds} {t : Trace} → History 0 this t [] this t
    round :
        {n : ℕ} {this next last : IoRunner F os abi rounds} {t u w : Trace}
        {printed later : List (ℕ × Text)}
        → Round this t printed next u
        → History n next u later last w
        → History (suc n) this t (printed ++ later) last w

module _ (F : Float) (os : Os) (abi : Abi) (rounds : ℕ) (good : Answers os abi rounds) where
  -- The loop has a history, whose lines are printed.
  abbrev pub Ran : ℕ → IoRunner F os abi rounds → Trace → IoRunner F os abi rounds → Trace → Type 0
  Ran n this t last w =
      IsValid last
      × ((printed : List (ℕ × Text)) × History F os abi rounds n this t printed last w
          × (lines w ≡ lines t ++ printed))

  pub run-Ran :
      (n : ℕ) (this : IoRunner F os abi rounds) (t : Trace)
      → IsValid this
      → Returns (run F os abi rounds n this t) (Ran n this t)
  unfolding run
  run-Ran zero this t h = (h, ([], History.ended, sym (append-nil (lines t))))
  run-Ran (suc n) this t h =
      let (next, u, e, (valid, (v, texts, collected, prints, shown))) =
        Returns-done _ (run_round F os abi rounds this t)
          (run_round-Shows F os abi rounds good this h t) in
      let pass = (rw collected at (collect_timed-Observed this t h.distinct)).1 in
      rw (e, run)
        (Returns-mono (Ran n next u) (Ran (suc n) this t) _ (run-Ran n next u valid)
          (λ last w (valid_last, (printed, history, printed_last)). (
            valid_last,
            (
              screen F os next.io_stats texts v ++ printed,
              History.round
                  (record {
                    ran = e;
                    collected_at = v;
                    collected = collected;
                    pass = pass;
                    valid = valid;
                    totals =
                        Observed-HasTotals (sources-IsSound F os abi rounds good) this next t v pass
                          valid.distinct;
                    texts = texts;
                    prints = prints;
                    shown = refl;
                  })
                  history,
              printed_last ∙ rw shown (append_assoc (lines t) _ printed),
            ),
          )))

-- The start prints no line.
abbrev IsMute : Call → Type 0
IsMute c = (t : Trace) → lines (c ∷ t) ≡ lines t

IsMute-Connects : (c : Call) → Connects c → IsMute c
IsMute-Connects (print_at y x s) h t = cc
IsMute-Connects _ h t = refl

lines-IsMute : (t u : Trace) → GoesOn IsMute t u → lines u ≡ lines t
lines-IsMute = GoesOn-fold IsMute (Same-IsPreorder lines) (λ c t h. h t)

init-IsMute :
    (F : Float) (os : Os) (abi : Abi) (rounds : ℕ)
    → Calls IsMute (init F os abi rounds (new_runner F os abi rounds))
unfolding init Monitor.init View.init
init-IsMute F os abi rounds t =
    let new = new_runner F os abi rounds in
    Only-bind IsMute t (Monitor.init F (sources F os abi rounds) new t) _
      (Only-bind IsMute t (Socket.init os abi rounds new.netlink_io_obj t) _
        (Only-mono Connects IsMute IsMute-Connects t _
          (init-Connects os abi rounds new.netlink_io_obj t))
        (λ r u. GoesOn-refl IsMute u))
      (λ r u. Only-if IsMute (is_neg r.0) _ _ u (GoesOn-refl IsMute u) (
        GoesOn-call IsMute init_terminal u _ (λ v. refl)
          (GoesOn-call IsMute end_terminal _ _ (λ v. refl) (GoesOn-refl IsMute _))))

module _ (F : Float) (os : Os) (abi : Abi) (rounds : ℕ) (good : Answers os abi rounds)
    (room : HasRoom abi (abi.taskstats_genl_name ++ (0 ∷ [])))
    (families : (fd : ℤ) (pid : ℕ) (s : Text) (u : Trace)
      → stream os u ≡ s ++ family_request abi pid
      → IsFamilyAnswer abi (os.recv u fd)) where
  -- The program either fails and prints nothing, or has a history that begins with a valid runner.
  abbrev pub MainRan : ℕ → Trace → ℤ × IoRunner F os abi rounds → Trace → Type 0
  MainRan n t r w =
      ((r.0 ≡ negsuc 0) × (lines w ≡ lines t))
      ⊎ ((r.0 ≡ pos 0)
          × ((this : IoRunner F os abi rounds) × (u : Trace) × IsValid this
              × (lines u ≡ lines t)
              × Ran F os abi rounds good n this u r.1 w))

  -- On a Linux kernel (the kernel's headers meet their laws, the payload of a request has room and
  -- the rounds suffice for a message, the socket takes at least one byte of what it is offered,
  -- unless it takes none and asks to try again, which it does a bounded number of times in a row,
  -- when the last that the socket has taken is a request for the statistics of a task, what is
  -- received is nothing, a message that is cut off or an error, or a message that can be read (as
  -- far as its payload, the headers of its attributes lie within the buffer, and within each
  -- aggregate, at the places where the inner loop looks, the headers and the fields of the
  -- statistics that are read do, until the lengths add up), and user names and first lines are no
  -- longer than 128 bytes), and where, when the last that the socket has taken is the request for
  -- the family, what is received is nothing, a message that is cut off or an error, or has room for
  -- the two attributes that a family is read from, the program with n rounds of its loop comes
  -- back, for every n: with -1, having printed nothing, or with 0, having printed nothing before
  -- the loop, and with a history of n rounds, each a collection that gave 0 and ended in a valid
  -- table, in which the rates of each task are its whole counters divided by the time since the
  -- round before, unless that is no more than a millisecond, and the lines that the program prints
  -- are the screens of the tables of that history, in order.
  pub main-MainRan : (n : ℕ) (t : Trace) → Returns (main F os abi rounds n t) (MainRan n t)
  unfolding main
  main-MainRan n t =
      let new = new_runner F os abi rounds in
      let begun = init F os abi rounds new t in
      let (r, u, e, ((code, valid), g)) = Returns-done _ begun (
        Returns-AtEnd _ (λ _ u. GoesOn IsMute t u) begun
          (init-Started F os abi rounds good room families t) (init-IsMute F os abi rounds t)) in
      let same = lines-IsMute t u g in
      rw e (elim (Bool-cases (is_neg r.0)) [
        | inl failed ↦ rw failed (inl (refl, same))
        | inr fine ↦
            let (last, w, d, ran) =
              Returns-done (Ran F os abi rounds good n r.1 u) (run F os abi rounds n r.1 u)
                (run-Ran F os abi rounds good n r.1 u valid) in
            rw fine (rw d (inr (refl, (r.1, u, valid, same, ran))))
      ])
