-- ===== src/Monitor/Loops.antt =====
-- The pass over the tasks: which entries it finds.
use mathlib.Core.List.{map-append}
use iotop_cpp.Base.{
  All-append, ℕ, ◌≡◌, refl, ap, ◌∙◌, Bool, true, false, List, [], ◌∷◌, ◌++◌, map, All, to_int32, ℤ,
}
use iotop_cpp.Float.{Float}
use iotop_cpp.Run.{Trace, done, Returns-done, traverse}
use iotop_cpp.Task.{TaskIoInfo, new_task, Table}
use iotop_cpp.Monitor.{Sources, handle_every_task_io_info}
use iotop_cpp.Monitor.Names.{IsSound, IsShown}
use iotop_cpp.Monitor.Handle.{handle_every_task_io_info-IsShown}
use iotop_cpp.Monitor.Reference.{Found, entries, observe_task, observe}

-- The numbers of the tasks in the order in which they are handled: a process, then its threads.
abbrev pub ids : List (ℕ × List ℕ) → List ℕ
ids [] = []
ids ((pid, tids) ∷ tasks) = pid ∷ (tids ++ ids tasks)

abbrev pub keys : {A : Type 0} → List (ℕ × A) → List ℕ
keys = map (λ entry. entry.0)

module _ {F : Float} (S : Sources F) where
  -- Entries with the given numbers, in order, each fit to be shown.
  pub record Finds (numbers : List ℕ) (found : Table F) : Type 0 where
    pub numbered : keys found ≡ numbers
    pub shown : All (λ entry. IsShown F S (to_int32 entry.0) entry.1) found

  Finds-append :
      (xs ys : List ℕ) (a b : Table F) → Finds xs a → Finds ys b → Finds (xs ++ ys) (a ++ b)
  Finds-append xs ys a b f g = record {
    numbered = map-append _ a b ∙ cc (f.numbered, g.numbered);
    shown = All-append _ a b f.shown g.shown;
  }

module _ {F : Float} {S : Sources F} (sound : IsSound S) (netlink : S.Netlink)
    (origin_ns tm : ℕ) where
  handle-done :
      (id : ℤ) (is_pid : Bool) (t : Trace)
      → (i : TaskIoInfo F) × (u : Trace) × (handle_every_task_io_info F S netlink origin_ns
            (new_task F id is_pid)
            tm
            t
          ≡ done i u)
        × IsShown F S id i
  handle-done id is_pid t =
      Returns-done _ _ (handle_every_task_io_info-IsShown sound netlink origin_ns tm id is_pid t)

  threads-Finds :
      (tids : List ℕ) (t : Trace)
      → (found : Table F) × (u : Trace) × (traverse
            (observe_task F S netlink origin_ns tm false)
            tids
            t
          ≡ done found u)
        × Finds S tids found
  unfolding traverse observe_task
  threads-Finds [] t = ([], t, refl, record { numbered = refl; shown = tt })
  threads-Finds (tid ∷ tids) t =
      let (i, u, e, h) = handle-done (to_int32 tid) false t in
      let (found, v, d, f) = threads-Finds tids u in
      (
        (tid, i) ∷ found,
        v,
        rw e (rw d refl),
        record { numbered = ap (◌∷◌ tid) f.numbered; shown = (h, f.shown) },
      )

  pub observe-Finds :
      (tasks : List (ℕ × List ℕ)) (t : Trace)
      → (found : List (Found F)) × (u : Trace) × (observe F S netlink origin_ns tm tasks t
          ≡ done found u)
        × Finds S (ids tasks) (entries found)
  unfolding observe
  observe-Finds [] t = ([], t, refl, record { numbered = refl; shown = tt })
  observe-Finds ((pid, tids) ∷ tasks) t =
      let (i, u, e, h) = handle-done (to_int32 pid) true t in
      let (threads, v, d, f) = threads-Finds tids u in
      let (found, w, c, g) = observe-Finds tasks v in
      let all = Finds-append S tids (ids tasks) threads (entries found) f g in
      (
        ((pid, i), threads) ∷ found,
        w,
        rw e (rw d (rw c refl)),
        record { numbered = ap (◌∷◌ pid) all.numbered; shown = (h, all.shown) },
      )
