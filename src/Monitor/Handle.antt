-- ===== src/Monitor/Handle.antt =====
-- What `handle_every_task_io_info` makes of one task.
use iotop_cpp.Base.{
  ℕ, ◌≡◌, refl, ◌∙◌, ◌⊎◌, Bool, true, false, inl, inr, if◌then◌else◌, ℤ, pos, negsuc, is_neg,
}
use iotop_cpp.Float.{Float}
use iotop_cpp.Task.{TaskIoInfo, new_task}
use iotop_cpp.Run.{Trace, done, Returns, Returns-done, Returns-if, Returns-mono}
use iotop_cpp.Monitor.{Sources, to_uint64, with_rates, fill_names, handle_every_task_io_info}
use iotop_cpp.Monitor.Names.{
  Keeps, IsSound, IsShown, IsBlank, char_array-IsTerminated, figures, fill_names-IsShown,
}
use iotop_cpp.Monitor.Rates.{
  seconds, IsTotals, figures-IsTotals, with_rates-IsBlank, with_rates-same, with_rates-IsTotals,
}

module _ {F : Float} {S : Sources F} (sound : IsSound S) (netlink : S.Netlink) (origin_ns tm : ℕ)
    (id : ℤ) (is_pid : Bool) where
  -- What is known of a task that has been handled: the figures of an updated one are the rates over
  -- what the call of netlink wrote.
  abbrev Handled : TaskIoInfo F → Type 0
  Handled i =
      IsShown F S id i
      × ((i.is_updated ≡ false)
          ⊎ ((p : ℤ) × (read : TaskIoInfo F) × (figures i
                ≡ figures (
                    with_rates F origin_ns tm (record (new_task F id is_pid) { io_priority = p })
                      read))))

  priority-done : (t : Trace) → (p : ℤ) × (u : Trace) × (S.get_task_io_priority id t ≡ done p u)
  priority-done t = let (p, u, e, _) = Returns-done _ _ (sound.priority id t) in (p, u, e)

  stats-done :
      (info : TaskIoInfo F) (t : Trace)
      → (r : ℤ × TaskIoInfo F) × (u : Trace) × (S.get_task_io_info netlink (to_uint64 id) info t
          ≡ done r u)
        × Keeps info r.1
  stats-done info t = Returns-done _ _ (sound.stats netlink (to_uint64 id) info t)

  shown_priority : (p : ℤ) → is_neg (if is_neg p then pos 0 else p) ≡ false
  shown_priority (pos n) = refl
  shown_priority (negsuc n) = refl

  module _ (p : ℤ) (i : TaskIoInfo F)
      (keeps : Keeps (let new = new_task F id is_pid in record new { io_priority = p }) i) where
    blank : IsBlank F S i
    blank = record {
      user_name = keeps.user_name;
      short_cmdline = keeps.short_cmdline;
      full_cmdline = keeps.full_cmdline;
    }

    unread : is_neg p ≡ false → IsShown F S id i
    unread h = record {
      task_id = keeps.task_id;
      io_priority = rw keeps.io_priority h;
      user_name = rw keeps.user_name (char_array-IsTerminated 128);
      short_cmdline = rw keeps.short_cmdline (char_array-IsTerminated 128);
      full_cmdline = rw keeps.full_cmdline (char_array-IsTerminated 128);
    }

    rated :
        (with_rates F origin_ns tm (record (new_task F id is_pid) { io_priority = p }) i).task_id
        ≡ id
    rated = (with_rates-same F origin_ns tm _ i).0 ∙ keeps.task_id

    rated_priority :
        is_neg p ≡ false
        → is_neg
            (with_rates F origin_ns tm
              (record (new_task F id is_pid) { io_priority = p })
              i).io_priority
          ≡ false
    rated_priority h = rw ((with_rates-same F origin_ns tm _ i).1, keeps.io_priority) h

  handle-Handled :
      (t : Trace)
      → Returns
          (handle_every_task_io_info F S netlink origin_ns (new_task F id is_pid) tm t)
          (λ i _. Handled i)
  unfolding handle_every_task_io_info
  handle-Handled t =
      let (p, u, e) = priority-done t in
      let p' = if is_neg p then pos 0 else p in
      let origin : TaskIoInfo F = record (new_task F id is_pid) { io_priority = p' } in
      let (r, v, d, keeps) = stats-done origin u in
      rw e (
        rw d (
          Returns-if (λ i _. Handled i) (is_neg r.0) _ _ v
            (λ failed. (unread p' r.1 keeps (shown_priority p), inl keeps.is_updated))
            (λ read.
              Returns-mono _ (λ i _. Handled i)
                (fill_names F S (with_rates F origin_ns tm origin r.1) v)
                (fill_names-IsShown sound id (with_rates F origin_ns tm origin r.1) v
                  (rated p' r.1 keeps) (rated_priority p' r.1 keeps (shown_priority p))
                  (with_rates-IsBlank F origin_ns tm {S = S} origin r.1 (blank p' r.1 keeps)))
                (λ i w h. (h.0, inr (p', r.1, h.1))))))

  -- From sound sources `handle_every_task_io_info` always comes back for a new task: the task has
  -- its own number, a priority that is not negative and names that end within their arrays.
  pub handle_every_task_io_info-IsShown :
      (t : Trace)
      → Returns
          (handle_every_task_io_info F S netlink origin_ns (new_task F id is_pid) tm t)
          (λ i _. IsShown F S id i)
  handle_every_task_io_info-IsShown t =
      Returns-mono (λ i _. Handled i) (λ i _. IsShown F S id i) _ (handle-Handled t) (λ i _ h. h.0)

  -- From sound sources, and where the time since the last collection is more than a millisecond,
  -- `handle_every_task_io_info` leaves a new task overdue, or gives it as the four rates in bytes
  -- the whole counters that netlink wrote, divided by that time: no earlier count is subtracted.
  pub handle_every_task_io_info-IsTotals :
      F.lt F.milli (seconds F origin_ns tm) ≡ true
      → (t : Trace)
      → Returns
          (handle_every_task_io_info F S netlink origin_ns (new_task F id is_pid) tm t)
          (λ i _. (i.is_updated ≡ false) ⊎ IsTotals F origin_ns tm i)
  handle_every_task_io_info-IsTotals later t =
      Returns-mono _ _ _ (handle-Handled t) (λ i _ h. totals i h.1)
    where
      totals :
          (i : TaskIoInfo F)
          → (i.is_updated ≡ false)
            ⊎ ((p : ℤ) × (read : TaskIoInfo F) × (figures i
                  ≡ figures (
                      with_rates F origin_ns tm
                        (record (new_task F id is_pid) { io_priority = p })
                        read)))
          → (i.is_updated ≡ false) ⊎ IsTotals F origin_ns tm i
      totals i (inl h) = inl h
      totals i (inr (p, read, e)) = inr (
          figures-IsTotals F origin_ns tm i _ e
            (with_rates-IsTotals F origin_ns tm id is_pid p read later))
