-- ===== src/Proc/Scan.antt =====
-- The scan of /proc and of the threads of a process.
use mathlib.Core.List.{filter_map}
use iotop_cpp.Base.{
  All, ℕ, ◌+◌, ◌≡◌, refl, ap, Bool, true, false, List, [], ◌∷◌, ◌++◌, map, Option, none, some,
  arith, ◌==◌, if◌then◌else◌, Option-cases, inl, inr,
}
use iotop_cpp.Text.{Text, text, decimal}
use iotop_cpp.Run.{
  M, Trace, done, Returns, Returns-done, openat, fdopendir, readdir, closedir, close,
}
use iotop_cpp.Os.{Os, Dirent}
use iotop_cpp.Proc.{
  with_task, scan_threads, task_of_entry, get_all_thread_id, scan_tasks, get_all_task_id, add_task,
}

-- The directory of a process's threads.
abbrev pub task_path : ℕ → Text
task_path pid = text "/proc/" ++ decimal pid ++ text "/task"

-- What a scan of an opened directory finds: the entries that name tasks, in order; nothing, where the
-- directory cannot be opened.
abbrev pub listed : Os → Option (List Dirent) → List ℕ
listed os none = []
listed os (some entries) = filter_map (task_of_entry os) entries

-- How often a trace closes a descriptor: `closedir` closes the one of its stream.
abbrev pub closings : ℕ → Trace → ℕ
closings fd [] = 0
closings fd (closedir f ∷ t) = (if f == fd then 1 else 0) + closings fd t
closings fd (close f ∷ t) = (if f == fd then 1 else 0) + closings fd t
closings fd (c ∷ t) = closings fd t

filter_map-with_task :
    (os : Os) (entry : Dirent) (entries : List Dirent)
    → filter_map (task_of_entry os) (entry ∷ entries)
      ≡ with_task os (task_of_entry os entry) (filter_map (task_of_entry os) entries)
unfolding filter_map
filter_map-with_task os entry entries = ground arith

-- The calls of a loop over a directory.
abbrev pub read_through : ℕ → List Dirent → Trace → Trace
read_through fd [] t = readdir fd ∷ t
read_through fd (entry ∷ entries) t = read_through fd entries (readdir fd ∷ t)

closings-read_through :
    (k fd : ℕ) (entries : List Dirent) (t : Trace)
    → closings k (read_through fd entries t) ≡ closings k t
closings-read_through k fd [] t = refl
closings-read_through k fd (entry ∷ entries) t = closings-read_through k fd entries (readdir fd ∷ t)

scan_threads-done :
    (os : Os) (fd : ℕ) (entries : List Dirent) (t : Trace)
    → scan_threads os fd entries t
      ≡ done (filter_map (task_of_entry os) entries) (read_through fd entries t)
unfolding scan_threads filter_map
scan_threads-done os fd [] t = refl
scan_threads-done os fd (entry ∷ entries) t =
    rw (filter_map-with_task os entry entries)
      (rw (scan_threads-done os fd entries (readdir fd ∷ t)) refl)

module _ (os : Os) (pid fd : ℕ) (t : Trace) (opened : os.openat t (task_path pid) ≡ some fd) where
  -- Where the directory of a process's threads can be opened and read, `get_all_thread_id` comes
  -- back with the entries that name threads, and has closed the descriptor that it opened twice.
  pub get_all_thread_id-closings :
      (entries : List Dirent)
      → os.fdopendir (openat (task_path pid) ∷ t) fd ≡ some entries
      → Returns (get_all_thread_id os pid t) (λ tids u.
        (tids ≡ filter_map (task_of_entry os) entries) × (closings fd u ≡ closings fd t + 2))
  unfolding get_all_thread_id
  get_all_thread_id-closings entries e =
      rw (opened, get_all_thread_id)
        (rw (e, get_all_thread_id)
          (rw (scan_threads-done os fd entries (fdopendir fd ∷ openat (task_path pid) ∷ t)) (
            refl,
            counted (read_through fd entries (fdopendir fd ∷ openat (task_path pid) ∷ t))
                (closings-read_through fd fd entries (fdopendir fd ∷ openat (task_path pid) ∷ t)),
          )))
    where
      counted :
          (u : Trace)
          → closings fd u ≡ closings fd t
          → closings fd (close fd ∷ closedir fd ∷ u) ≡ closings fd t + 2
      counted u h = ground (arith, h)

-- The entries of a directory, if it can be read.
abbrev pub dir_entries : Os → Trace → Text → Option (List Dirent)
dir_entries os t path = entries_at (os.openat t path)
  where
    entries_at : Option ℕ → Option (List Dirent)
    entries_at none = none
    entries_at (some fd) = os.fdopendir (openat path ∷ t) fd

-- The threads always come back, with what the directory holds when it is opened.
get_all_thread_id-done :
    (os : Os) (pid : ℕ) (t : Trace)
    → (u : Trace) × (get_all_thread_id os pid t
        ≡ done (listed os (dir_entries os t (task_path pid))) u)
unfolding get_all_thread_id
get_all_thread_id-done os pid t = elim (Option-cases (os.openat t (task_path pid))) [
  | inl e ↦ rw (e, get_all_thread_id) (_, refl)
  | inr (fd, e) ↦
      rw (e, get_all_thread_id)
        (elim (Option-cases (os.fdopendir (openat (task_path pid) ∷ t) fd)) [
          | inl d ↦ rw (d, get_all_thread_id) (_, refl)
          | inr (entries, d) ↦
              rw (d, get_all_thread_id) (rw (scan_threads-done os fd entries _) (_, refl))
        ])
]

-- The processes of what a scan of /proc gives.
abbrev pub pids : List (ℕ × List ℕ) → List ℕ
pids = map (λ task. task.0)

-- A process with its threads: those in its directory at the time when it is read, or none where
-- only processes are asked for.
abbrev pub HasThreads : Os → Bool → ℕ × List ℕ → Type 0
HasThreads os true (pid, tids) = tids ≡ []
HasThreads os false (pid, tids) =
    (u : Trace) × (tids ≡ listed os (dir_entries os u (task_path pid)))

abbrev pub Lists : Os → Bool → List ℕ → List (ℕ × List ℕ) → Trace → Type 0
Lists os is_only_pid found tasks _ = (pids tasks ≡ found) × All (HasThreads os is_only_pid) tasks

add_task-Lists :
    (os : Os) (is_only_pid : Bool) (task : Option ℕ) (m : M (List (ℕ × List ℕ))) (found : List ℕ)
    → ((t : Trace) → Returns (m t) (Lists os is_only_pid found))
    → (t : Trace)
    → Returns (add_task os is_only_pid task m t) (Lists os is_only_pid (with_task os task found))
add_task-Lists os is_only_pid none m found h t = h t
add_task-Lists os true (some pid) m found h t =
    let (tasks, u, e, p) = Returns-done (Lists os true found) (m t) (h t) in
    rw e (ap (◌∷◌ pid) p.0, (refl, p.1))
add_task-Lists os false (some pid) m found h t =
    let (u, e) = get_all_thread_id-done os pid t in
    let (tasks, v, d, p) = Returns-done (Lists os false found) (m u) (h u) in
    rw e (rw d (ap (◌∷◌ pid) p.0, ((t, refl), p.1)))

scan_tasks-Lists :
    (os : Os) (fd : ℕ) (is_only_pid : Bool) (entries : List Dirent) (t : Trace)
    → Returns
        (scan_tasks os fd is_only_pid entries t)
        (Lists os is_only_pid (filter_map (task_of_entry os) entries))
unfolding scan_tasks filter_map
scan_tasks-Lists os fd is_only_pid [] t = (refl, tt)
scan_tasks-Lists os fd is_only_pid (entry ∷ entries) t =
    rw (filter_map-with_task os entry entries) (
      add_task-Lists os is_only_pid (task_of_entry os entry) _ _
        (scan_tasks-Lists os fd is_only_pid entries) (readdir fd ∷ t))

-- `get_all_task_id` always comes back with the processes that the entries of /proc name, each once
-- for its entry and in order, with none where /proc cannot be read; each has with it the threads
-- that the entries of its own directory name when it is read, in order, with none where that cannot
-- be read, and none where only processes are asked for.
pub get_all_task_id-Lists :
    (os : Os) (is_only_pid : Bool) (t : Trace)
    → Returns (get_all_task_id os is_only_pid t) (λ tasks _.
      (pids tasks ≡ listed os (dir_entries os t (text "/proc")))
      × All (HasThreads os is_only_pid) tasks)
unfolding get_all_task_id
get_all_task_id-Lists os is_only_pid t = elim (Option-cases (os.openat t (text "/proc"))) [
  | inl e ↦ rw (e, get_all_task_id) (refl, tt)
  | inr (fd, e) ↦
      rw (e, get_all_task_id)
        (elim (Option-cases (os.fdopendir (openat (text "/proc") ∷ t) fd)) [
          | inl d ↦ rw (d, get_all_task_id) (refl, tt)
          | inr (entries, d) ↦
              let (tasks, u, s, p) =
                Returns-done (Lists os is_only_pid (filter_map (task_of_entry os) entries))
                  (scan_tasks os fd is_only_pid entries (fdopendir fd ∷ openat (text "/proc") ∷ t))
                  (scan_tasks-Lists os fd is_only_pid entries _) in
              rw (d, get_all_task_id) (rw (s, get_all_task_id) p)
        ])
]
