-- ===== src/Monitor/Reference.antt =====
-- The collection as a pass over the tasks, with what becomes of the table and of the sums apart.
use iotop_cpp.Base.{
  ℕ, ◌≡◌, refl, sym, ap, ◌∙◌, Bool, true, false, List, [], ◌∷◌, ◌++◌, to_int32, inl, inr,
}
use iotop_cpp.Float.{Float}
use iotop_cpp.Run.{
  M, Trace, done, pure, ◌>>=◌, and_then, Run-cases, and_then_assoc, and_then-ext, traverse,
}
use iotop_cpp.Task.{TaskIoInfo, new_task, Table, SystemIoInfo, emplace}
use iotop_cpp.Task.Table.{emplace_all, emplace_all-append}
use iotop_cpp.Monitor.{Sources, handle_every_task_io_info, collect_threads, get_task_io_info}

-- What was found of a process: its own entry, and those of its threads.
abbrev pub Found : Float → Type 0
Found F = (ℕ × TaskIoInfo F) × List (ℕ × TaskIoInfo F)

-- The entries in the order in which they were found.
abbrev pub entries : {F : Float} → List (Found F) → Table F
entries [] = []
entries ((process, threads) ∷ found) = process ∷ (threads ++ entries found)

-- The sum of a figure of the processes, their threads left out, onto a start.
abbrev pub total : (F : Float) → (TaskIoInfo F → F.Value) → F.Value → List (Found F) → F.Value
total F figure acc [] = acc
total F figure acc (((pid, info), threads) ∷ found) = total F figure (F.add acc (figure info)) found

module _ (F : Float) (S : Sources F) (netlink : S.Netlink) (origin_ns tm : ℕ) where
  unfoldable pub observe_task : Bool → ℕ → M (ℕ × TaskIoInfo F)
  observe_task is_pid id = do
    info ← handle_every_task_io_info F S netlink origin_ns (new_task F (to_int32 id) is_pid) tm
    pure (id, info)

  unfoldable pub observe_process : ℕ × List ℕ → M (Found F)
  unfolding observe_task traverse
  observe_process (pid, tids) = do
    process ← observe_task true pid
    threads ← traverse (observe_task false) tids
    pure (process, threads)

  -- The pass: no table and no sums.
  unfoldable pub observe : List (ℕ × List ℕ) → M (List (Found F))
  unfolding traverse observe_process
  observe = traverse observe_process

  -- What the pass makes of the statistics.
  abbrev pub gathered : SystemIoInfo F → List (Found F) → SystemIoInfo F
  gathered stats found = record {
    curr_disk_read_b_s = total F (λ i. i.io_real_read_period_b_s) stats.curr_disk_read_b_s found;
    curr_disk_write_b_s = total F (λ i. i.io_real_write_period_b_s) stats.curr_disk_write_b_s found;
    task_io_stats_table = emplace_all (entries found) stats.task_io_stats_table;
  }

  -- The statistics with one process and its threads.
  abbrev after_process :
      ℕ → TaskIoInfo F → List (ℕ × TaskIoInfo F) → SystemIoInfo F → SystemIoInfo F
  after_process pid info threads stats = record {
    curr_disk_read_b_s = F.add stats.curr_disk_read_b_s info.io_real_read_period_b_s;
    curr_disk_write_b_s = F.add stats.curr_disk_write_b_s info.io_real_write_period_b_s;
    task_io_stats_table = emplace_all threads (emplace pid info stats.task_io_stats_table);
  }

  gathered-cons :
      (pid : ℕ) (info : TaskIoInfo F) (threads : List (ℕ × TaskIoInfo F)) (found : List (Found F))
      (stats : SystemIoInfo F)
      → gathered (after_process pid info threads stats) found
        ≡ gathered stats (((pid, info), threads) ∷ found)
  gathered-cons pid info threads found stats =
      rw (emplace_all-append threads (entries found) (emplace pid info stats.task_io_stats_table))

  collect_threads-traverse :
      (tids : List ℕ) (table : Table F) (t : Trace)
      → collect_threads F S netlink origin_ns tm tids table t
        ≡ and_then (traverse (observe_task false) tids t) (λ found. pure (emplace_all found table))
  unfolding collect_threads traverse observe_task
  collect_threads-traverse [] table t = refl
  collect_threads-traverse (tid ∷ tids) table t =
      elim (Run-cases
        (handle_every_task_io_info F S netlink origin_ns (new_task F (to_int32 tid) false) tm t)) [
          | inl (info, u, e) ↦ rw e (
              collect_threads-traverse tids (emplace tid info table) u
              ∙ sym (and_then_assoc (traverse (observe_task false) tids u) _ _))
          | inr (inl e) ↦ rw e refl
          | inr (inr e) ↦ rw e refl
        ]

  -- For any sources, the two loops of `get_task_io_info` have the same end and the same calls as
  -- one pass over the tasks without a table, after which the entries that were found are put into
  -- the table in order, and the rates of the processes, those of their threads left out, are added
  -- to the sums.
  pub get_task_io_info-observe :
      (tasks : List (ℕ × List ℕ)) (stats : SystemIoInfo F) (t : Trace)
      → get_task_io_info F S netlink origin_ns tm tasks stats t
        ≡ and_then (observe tasks t) (λ found. pure (gathered stats found))
  unfolding get_task_io_info observe
  get_task_io_info-observe [] stats t = refl
  get_task_io_info-observe ((pid, tids) ∷ tasks) stats t =
      elim (Run-cases
        (handle_every_task_io_info F S netlink origin_ns (new_task F (to_int32 pid) true) tm t)) [
          | inl (info, u, e) ↦
              rw (e, collect_threads-traverse tids (emplace pid info stats.task_io_stats_table) u)
                (elim (Run-cases (traverse (observe_task false) tids u)) [
                  | inl (threads, v, d) ↦ rw d (
                      get_task_io_info-observe tasks (after_process pid info threads stats) v
                      ∙ and_then-ext (observe tasks v) _ _ (λ found w.
                        ap (λ r. done r w) (gathered-cons pid info threads found stats))
                      ∙ sym (and_then_assoc (observe tasks v) _ _))
                  | inr (inl d) ↦ rw d refl
                  | inr (inr d) ↦ rw d refl
                ])
          | inr (inl e) ↦ rw e refl
          | inr (inr e) ↦ rw e refl
        ]
