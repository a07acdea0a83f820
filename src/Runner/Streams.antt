-- ===== src/Runner/Streams.antt =====
-- What the rounds of the program send.
use mathlib.Core.List.{append_assoc, append-nil}
use iotop_cpp.Base.{ℕ, ◌≡◌, refl, sym, ◌∙◌, List, ◌++◌, []}
use iotop_cpp.Text.{Text}
use iotop_cpp.Float.{Float}
use iotop_cpp.Run.{Trace, Returns, Returns-mono}
use iotop_cpp.Run.Within.{Within, Same, Same-IsPreorder, Within-bind, Within-done}
use iotop_cpp.Run.Calls.{Only-Within}
use iotop_cpp.Os.{Os}
use iotop_cpp.Abi.{Abi}
use iotop_cpp.Netlink.Sending.{stream, request}
use iotop_cpp.Netlink.Asking.{IsSilent}
use iotop_cpp.Monitor.Collect.{IsValid}
use iotop_cpp.Monitor.Loops.{ids}
use iotop_cpp.Monitor.Asking.{requests, collect_timed-requests}
use iotop_cpp.View.{draw_data}
use iotop_cpp.View.Calling.{draw_data-Calls}
use iotop_cpp.View.Lines.{lines}
use iotop_cpp.Runner.{IoRunner, run_round, run}
use iotop_cpp.Runner.Answers.{Answers}
use iotop_cpp.Runner.Sends.{sources-Asks}
use iotop_cpp.Runner.History.{Round, History, ended, round, Ran, run-Ran}

module _ {F : Float} {os : Os} {abi : Abi} {rounds : ℕ} where
  -- The requests for the tasks that were listed in the rounds of a history.
  abbrev pub asked :
      {n : ℕ} {this last : IoRunner F os abi rounds} {t w : Trace} {printed : List (ℕ × Text)}
      → History F os abi rounds n this t printed last w
      → Text
  asked ended = []
  asked (round {this = this} a later) =
      requests (request abi this.netlink_io_obj) (ids a.pass.tasks) ++ asked later

module _ (F : Float) (os : Os) (abi : Abi) (rounds : ℕ) (good : Answers os abi rounds) where
  -- The screen sends nothing.
  draw-silent :
      (next : IoRunner F os abi rounds) (t : Trace)
      → Within (Same (stream os)) t (draw_data F os next.io_stats t)
  draw-silent next t =
      Only-Within (IsSilent os) (Same-IsPreorder (stream os)) (λ c u h. h u) t _
        (draw_data-Calls (IsSilent os) (λ y s u. refl) (λ u. refl) F (λ u. refl) (λ u. refl)
          (λ u. refl) os next.io_stats t)

  Round-stream :
      {this next : IoRunner F os abi rounds} {t u : Trace} {printed : List (ℕ × Text)}
      (a : Round F os abi rounds this t printed next u)
      → stream os u ≡ stream os t ++ requests (request abi this.netlink_io_obj) (ids a.pass.tasks)
  unfolding run_round
  Round-stream {this} {next} {t} {u} a =
      let sent = rw a.collected at (
        collect_timed-requests (sources-Asks F os abi rounds good) this t a.pass.timed_at
          a.pass.listed_at a.pass.tm a.pass.tasks a.pass.timed a.pass.listed) in
      let silent =
        Within-done (Same (stream os)) a.collected_at _ next u
          (Within-bind (Same-IsPreorder (stream os)) a.collected_at
            (draw_data F os next.io_stats a.collected_at) _ (draw-silent next a.collected_at)
            (λ _ v. refl))
          (rw (a.collected, run_round) at a.ran) in
      silent ∙ sent

  History-stream :
      {n : ℕ} {this last : IoRunner F os abi rounds} {t w : Trace} {printed : List (ℕ × Text)}
      (history : History F os abi rounds n this t printed last w)
      → stream os w ≡ stream os t ++ asked history
  History-stream {t = t} ended = sym (append-nil (stream os t))
  History-stream {t = t} (round a later) =
      History-stream later ∙ rw (Round-stream a) (append_assoc (stream os t) _ (asked later))

  pub run-stream :
      (n : ℕ) (this : IoRunner F os abi rounds) (t : Trace)
      → IsValid this
      → Returns (run F os abi rounds n this t) (λ last w.
        IsValid last
        × ((printed : List (ℕ × Text)) × (history : History F os abi rounds n this t printed last w)
            × (lines w ≡ lines t ++ printed)
            × (stream os w ≡ stream os t ++ asked history)))
  run-stream n this t valid =
      Returns-mono (Ran F os abi rounds good n this t) _ (run F os abi rounds n this t)
        (run-Ran F os abi rounds good n this t valid)
        (λ last w (valid_last, (printed, history, shown)).
          (valid_last, (printed, history, shown, History-stream history)))
