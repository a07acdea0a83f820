-- ===== src/Proc.antt =====
-- src/common/util.cpp: what the program reads below /proc, the user names and the clock.
pub mod Names
pub mod Files
pub mod Scan
pub mod Lengths
pub mod Paths
pub mod Delayacct
pub mod Descriptors
use mathlib.Core.List.{filter_map}
use iotop_cpp.Base.{
  ℕ, ◌+◌, ◌*◌, ◌%◌, ◌^◌, Bool, true, false, ◌&&◌, ◌||◌, not, List, [], ◌∷◌, ◌++◌, Option, none,
  some, ltb, ◌==◌, if◌then◌else◌, ℤ, pos, is_neg, neg, length, get_or, drop,
}
use iotop_cpp.Text.{
  Text, text, strtoul, ulong_max, until_nul, find_first_of, decimal, decimal_int, snprintf, atoi,
}
use iotop_cpp.Run.{
  M, Run, pure, ◌>>=◌, ◌>>◌, ask, tell, fopen, getline, fclose, stat, openat, fdopendir, readdir,
  closedir, close, getpwuid, clock_gettime,
}
use iotop_cpp.Os.{Os, Dirent, Timespec}

module _ (os : Os) where
  -- The code, and the string that `line` points to afterwards.
  unfoldable pub get_file_first_line : Text → Text → M (ℤ × Text)
  get_file_first_line path line = do
    opened ← ask (fopen path) (λ t. os.fopen t path)
    elim opened [
      | none ↦ pure (neg 1, line)
      | some fp ↦ do
        got ← ask (getline fp) (λ t. os.getline t fp)
        tell (fclose fp)
        elim got [
          | none ↦ pure (neg 2, line)
          | some (tmp_line, len) ↦
              pure (if ltb 0 len then (pos 0, until_nul tmp_line) else (neg 3, line))
        ]
    ]

  unfoldable pub read_task_delayacct : M ℤ
  read_task_delayacct = do
    (res, line) ← get_file_first_line (text "/proc/sys/kernel/task_delayacct") []
    pure (if is_neg res then pos 0 else if ltb 0 (length line) then atoi line else pos 0)

-- A command line whose first word is a path.
abbrev pub starts_as_path : Text → Bool
starts_as_path s =
    (get_or s 0 0 == b'/')
    || ((ltb 1 (length s) && get_or s 0 0 == b'.' && get_or s 1 0 == b'/')
        || (ltb 2 (length s)
            && get_or s 0 0 == b'.'
            && get_or s 1 0 == b'.'
            && get_or s 2 0 == b'/'))

-- `substr(found + 1)` behind the first c, where there is something behind it.
unfoldable pub after_first : ℕ → Text → Text
unfolding find_first_of
after_first c s = elim (find_first_of c s) [
  | none ↦ s
  | some found ↦ if ltb (found + 1) (length s) then drop (found + 1) s else s
]

unfoldable pub shorten : Bool → Text → Text
unfolding after_first
shorten is_short s = if is_short && starts_as_path s then after_first b'/' s else s

-- The path of a file below /proc/<pid>, in a buffer of 30 bytes.
unfoldable pub proc_path : ℤ → Text → Text
proc_path pid file = snprintf 30 (text "/proc/" ++ decimal_int pid ++ file)

module _ (os : Os) where
  -- The first line of the status file, behind its tab.
  unfoldable pub get_cmdline_from_status : ℤ → Text → M (ℤ × Text)
  get_cmdline_from_status pid cmdline = do
    (res, line) ← get_file_first_line os (proc_path pid (text "/status")) cmdline
    pure (
        if not (is_neg res) && ltb 0 (length line)
        then (pos 0, after_first b'\t' line)
        else (neg 1, line))

  unfoldable pub get_task_cmdline : ℤ → Bool → Text → M (ℤ × Text)
  get_task_cmdline pid is_short cmdline = do
    (res, line) ← get_file_first_line os (proc_path pid (text "/cmdline")) cmdline
    if not (is_neg res) && ltb 0 (length line)
        then pure (pos 0, shorten is_short line)
        else get_cmdline_from_status pid line

  unfoldable pub is_process : ℤ → M Bool
  is_process task = do
    st ← ask (stat (proc_path task [])) (λ t. os.stat t (proc_path task []))
    pure (elim st [ none ↦ false | some mode ↦ os.is_dir mode ])

  unfoldable pub get_user_name : ℤ → M Text
  get_user_name user_id = do
    name ← ask (getpwuid user_id) (λ t. os.getpwuid t user_id)
    pure (elim name [ none ↦ text "<unknown>" | some n ↦ n ])

  unfoldable pub get_steady_now_time_ns : M ℕ
  get_steady_now_time_ns = do
    tm ← ask clock_gettime os.clock_gettime
    pure ((tm.tv_nsec + tm.tv_sec * 10 ^ 9) % 2 ^ 64)

-- A leading dot hides a thread on some systems.
unfoldable pub strip_dot : Text → Text
strip_dot [] = []
strip_dot (c ∷ s) = if c == b'.' then s else c ∷ s

abbrev pub is_empty : Text → Bool
is_empty [] = true
is_empty (c ∷ s) = false

-- The number that names a task's directory.
unfoldable pub parse_task_name : Text → Option ℕ
unfolding strip_dot strtoul
parse_task_name d_name =
    let name = strip_dot d_name in
    let (pid, end_ptr) = strtoul name in
    if ltb (get_or name 0 0) b'0' || ltb b'9' (get_or name 0 0)
    then none
    else if pid == 0 || pid == ulong_max || not (is_empty end_ptr)
    then none
    else some pid

module _ (os : Os) where
  -- What the loops over a directory keep of an entry.
  unfoldable pub task_of_entry : Dirent → Option ℕ
  unfolding parse_task_name
  task_of_entry entry =
      if not (entry.d_type == os.dt_dir) && not (entry.d_type == os.dt_unknown)
      then none
      else parse_task_name entry.d_name

  -- What has been found, with a task that an entry names, or with none.
  abbrev pub with_task : Option ℕ → List ℕ → List ℕ
  with_task none found = found
  with_task (some id) found = id ∷ found

  -- The loop over the threads of a process, up to the null pointer of `readdir`.
  unfoldable pub scan_threads : ℕ → List Dirent → M (List ℕ)
  scan_threads fd [] = do tell (readdir fd); pure []
  scan_threads fd (entry ∷ entries) = do
    tell (readdir fd)
    tids ← scan_threads fd entries
    pure (with_task (task_of_entry entry) tids)

  unfoldable pub get_all_thread_id : ℕ → M (List ℕ)
  get_all_thread_id pid = do
    let path = text "/proc/" ++ decimal pid ++ text "/task"
    dir_fd ← ask (openat path) (λ t. os.openat t path)
    elim dir_fd [
      | none ↦ pure []
      | some fd ↦ do
        dir ← ask (fdopendir fd) (λ t. os.fdopendir t fd)
        elim dir [
          | none ↦ do tell (close fd); pure []
          | some entries ↦ do
            tids ← scan_threads fd entries
            tell (closedir fd)
            tell (close fd)
            pure tids
        ]
    ]

  -- One round of the loop over /proc, for an entry that names a task or none.
  abbrev pub add_task : Bool → Option ℕ → M (List (ℕ × List ℕ)) → M (List (ℕ × List ℕ))
  add_task is_only_pid none rest = rest
  add_task true (some pid) rest = do tasks ← rest; pure ((pid, []) ∷ tasks)
  add_task false (some pid) rest = do
    tids ← get_all_thread_id pid
    tasks ← rest
    pure ((pid, tids) ∷ tasks)

  -- The loop over /proc, up to the null pointer of `readdir`.
  unfoldable pub scan_tasks : ℕ → Bool → List Dirent → M (List (ℕ × List ℕ))
  scan_tasks fd is_only_pid [] = do tell (readdir fd); pure []
  scan_tasks fd is_only_pid (entry ∷ entries) = do
    tell (readdir fd)
    add_task is_only_pid (task_of_entry entry) (scan_tasks fd is_only_pid entries)

  unfoldable pub get_all_task_id : Bool → M (List (ℕ × List ℕ))
  get_all_task_id is_only_pid = do
    dir_fd ← ask (openat (text "/proc")) (λ t. os.openat t (text "/proc"))
    elim dir_fd [
      | none ↦ pure []
      | some fd ↦ do
        dir ← ask (fdopendir fd) (λ t. os.fdopendir t fd)
        elim dir [
          | none ↦ do tell (close fd); pure []
          | some entries ↦ do
            task_ids ← scan_tasks fd is_only_pid entries
            tell (closedir fd)
            tell (close fd)
            pure task_ids
        ]
    ]
