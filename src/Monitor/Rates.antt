-- ===== src/Monitor/Rates.antt =====
-- The rates of a task.
use iotop_cpp.Base.{ℕ, ◌^◌, ◌≡◌, ap, Bool, true, arith, ℤ}
use iotop_cpp.Float.{Float}
use iotop_cpp.Task.{TaskIoInfo, new_task}
use iotop_cpp.Monitor.{Sources, sub64, ull_value_diff, with_rates}
use iotop_cpp.Monitor.Names.{figures, IsBlank}

module _ (F : Float) (origin_ns tm : ℕ) where
  pub with_rates-IsBlank :
      {S : Sources F} (origin i : TaskIoInfo F)
      → IsBlank F S i
      → IsBlank F S (with_rates F origin_ns tm origin i)
  unfolding with_rates
  with_rates-IsBlank origin i b = ground arith

  pub with_rates-same :
      (origin i : TaskIoInfo F)
      → let j = with_rates F origin_ns tm origin i in
        (j.task_id ≡ i.task_id) × (j.io_priority ≡ i.io_priority)
  unfolding with_rates
  with_rates-same origin i = ground arith

  abbrev pub seconds : F.Value
  seconds = F.div (F.of_ℕ (sub64 tm origin_ns)) (F.of_ℕ (10 ^ 9))

  -- A share of the time since the last collection, in percent.
  abbrev pub percent_of_time : ℕ → F.Value
  percent_of_time ns = F.mul (F.div (F.of_ℕ ns) (F.of_ℕ (sub64 tm origin_ns))) (F.of_ℕ (10 ^ 2))

  -- Rates that are the whole counters, and percentages that are the whole delays, divided by the time
  -- since the last collection.
  pub record IsTotals (i : TaskIoInfo F) : Type 0 where
    pub read_char : i.io_read_char_period_b_s ≡ F.div (F.of_ℕ i.io_read_char_b) seconds
    pub write_char : i.io_write_char_period_b_s ≡ F.div (F.of_ℕ i.io_write_char_b) seconds
    pub real_read : i.io_real_read_period_b_s ≡ F.div (F.of_ℕ i.io_real_read_b) seconds
    pub real_write : i.io_real_write_period_b_s ≡ F.div (F.of_ℕ i.io_real_write_b) seconds
    pub swapin : i.swapin_delay_period_percent ≡ percent_of_time i.swapin_delay_total_ns
    pub blkio : i.blkio_delay_period_percent ≡ percent_of_time i.blkio_delay_total_ns

  diff-zero : (n : ℕ) → ull_value_diff n 0 ≡ n
  diff-zero n = ground arith

  pub with_rates-IsTotals :
      (id : ℤ) (is_pid : Bool) (p : ℤ) (i : TaskIoInfo F)
      → F.lt F.milli seconds ≡ true
      → IsTotals (with_rates F origin_ns tm (record (new_task F id is_pid) { io_priority = p }) i)
  unfolding with_rates
  with_rates-IsTotals id is_pid p i h =
      rw (h, with_rates)
        (record {
          read_char = ap rate (diff-zero i.io_read_char_b);
          write_char = ap rate (diff-zero i.io_write_char_b);
          real_read = ap rate (diff-zero i.io_real_read_b);
          real_write = ap rate (diff-zero i.io_real_write_b);
          swapin = ap percent_of_time (diff-zero i.swapin_delay_total_ns);
          blkio = ap percent_of_time (diff-zero i.blkio_delay_total_ns);
        })
    where
      rate : ℕ → F.Value
      rate n = F.div (F.of_ℕ n) seconds

  -- The rates are among the figures.
  pub figures-IsTotals : (i j : TaskIoInfo F) → figures i ≡ figures j → IsTotals j → IsTotals i
  figures-IsTotals i j e h = record {
    read_char = transfer (λ x. x.io_read_char_period_b_s) (λ x. x.io_read_char_b) h.read_char;
    write_char = transfer (λ x. x.io_write_char_period_b_s) (λ x. x.io_write_char_b) h.write_char;
    real_read = transfer (λ x. x.io_real_read_period_b_s) (λ x. x.io_real_read_b) h.real_read;
    real_write = transfer (λ x. x.io_real_write_period_b_s) (λ x. x.io_real_write_b) h.real_write;
    swapin = share (λ x. x.swapin_delay_period_percent) (λ x. x.swapin_delay_total_ns) h.swapin;
    blkio = share (λ x. x.blkio_delay_period_percent) (λ x. x.blkio_delay_total_ns) h.blkio;
  }
    where
      transfer :
          (r : TaskIoInfo F → F.Value) (c : TaskIoInfo F → ℕ)
          → r (figures j) ≡ F.div (F.of_ℕ (c (figures j))) seconds
          → r (figures i) ≡ F.div (F.of_ℕ (c (figures i))) seconds
      transfer r c h = rw e h

      share :
          (r : TaskIoInfo F → F.Value) (c : TaskIoInfo F → ℕ)
          → r (figures j) ≡ percent_of_time (c (figures j))
          → r (figures i) ≡ percent_of_time (c (figures i))
      share r c h = rw e h
