-- ===== src/Runner/Reads.antt =====
-- Which calls a collection makes: those that read, and those that speak over the socket.
use iotop_cpp.Base.{
  ℕ, ◌≡◌, refl, Bool, true, false, not, ◌||◌, ◌&&◌, List, [], ◌∷◌, Option, none, some, Option-cases,
  inl, inr, ℤ, pos, is_neg, ltb, length,
}
use iotop_cpp.Text.{Text, text}
use iotop_cpp.Run.{
  Call, Trace, M, ioprio_get, sched_getscheduler, getpriority, fopen, getline, fclose, openat,
  fdopendir, readdir, closedir, close, getpwuid, clock_gettime, sendto, recv, print_at,
}
use iotop_cpp.Run.Within.{Same-IsPreorder}
use iotop_cpp.Run.Calls.{
  Calls, GoesOn, GoesOn-fold, GoesOn-refl, GoesOn-call, Only-call, Only-bind, Only-if,
}
use iotop_cpp.Os.{Os, Dirent}
use iotop_cpp.Prio.{
  get_task_io_priority, get_task_io_priority_from_sched, same_int, io_class_of, ioprio_class_none,
  ioprio_who_process,
}
use iotop_cpp.View.Lines.{lines}
use iotop_cpp.Proc.Scan.{task_path}
use iotop_cpp.Proc.{
  get_file_first_line, get_cmdline_from_status, get_task_cmdline, get_user_name,
  get_steady_now_time_ns, task_of_entry, scan_threads, get_all_thread_id, add_task, scan_tasks,
  get_all_task_id, proc_path,
}

-- The calls that change nothing.
abbrev pub peeks : Call → Bool
peeks (ioprio_get which id) = true
peeks (sched_getscheduler id) = true
peeks (getpriority id) = true
peeks (getpwuid uid) = true
peeks clock_gettime = true
peeks c = false

abbrev pub Peeks : Call → Type 0
Peeks c = peeks c ≡ true

-- The calls that change nothing but the open files.
abbrev pub looks : Call → Bool
looks (fopen path) = true
looks (getline fp) = true
looks (fclose fp) = true
looks (openat path) = true
looks (fdopendir fd) = true
looks (readdir fd) = true
looks (closedir fd) = true
looks (close fd) = true
looks c = peeks c

abbrev pub Looks : Call → Type 0
Looks c = looks c ≡ true

-- ... and those that speak over the socket.
abbrev pub reads : Call → Bool
reads (sendto fd buf) = true
reads (recv fd) = true
reads c = looks c

abbrev pub Reads : Call → Type 0
Reads c = reads c ≡ true

pub Peeks-Looks : (c : Call) → Peeks c → Looks c
Peeks-Looks (ioprio_get which id) h = refl
Peeks-Looks (sched_getscheduler id) h = refl
Peeks-Looks (getpriority id) h = refl
Peeks-Looks (getpwuid uid) h = refl
Peeks-Looks clock_gettime h = refl
Peeks-Looks _ h = absurd (cc h)

pub Looks-Reads : (c : Call) → Looks c → Reads c
Looks-Reads (sendto fd buf) h = refl
Looks-Reads (recv fd) h = refl
Looks-Reads _ h = h

ended : (t : Trace) → GoesOn Looks t t
ended = GoesOn-refl Looks

lines-Reads : (c : Call) (t : Trace) → Reads c → lines (c ∷ t) ≡ lines t
lines-Reads (print_at y x s) t h = cc
lines-Reads _ t h = refl

-- Such calls print nothing, and do not sleep.
pub lines-GoesOn : (t u : Trace) → GoesOn Reads t u → lines u ≡ lines t
lines-GoesOn = GoesOn-fold Reads (Same-IsPreorder lines) lines-Reads

module _ (os : Os) where
  pub get_steady_now_time_ns-Peeks : Calls Peeks (get_steady_now_time_ns os)
  unfolding get_steady_now_time_ns
  get_steady_now_time_ns-Peeks t = GoesOn-call Peeks clock_gettime t _ refl (GoesOn-refl Peeks _)

  pub get_user_name-Peeks : (uid : ℤ) → Calls Peeks (get_user_name os uid)
  unfolding get_user_name
  get_user_name-Peeks uid t = GoesOn-call Peeks (getpwuid uid) t _ refl (GoesOn-refl Peeks _)

  sched-Peeks : (id : ℤ) → Calls Peeks (get_task_io_priority_from_sched os id)
  unfolding get_task_io_priority_from_sched
  sched-Peeks id t = Only-call Peeks (sched_getscheduler id) t _ refl (
      Only-call Peeks (getpriority id) _ _ refl (
        Only-if Peeks (same_int scheduler os.sched_fifo || same_int scheduler os.sched_rr) _ _ _
          (GoesOn-refl Peeks _)
          (Only-if Peeks (same_int scheduler os.sched_idle) _ _ _ (GoesOn-refl Peeks _)
            (GoesOn-refl Peeks _))))
    where
      scheduler : ℤ
      scheduler = os.sched_getscheduler t id

  pub get_task_io_priority-Peeks : (id : ℤ) → Calls Peeks (get_task_io_priority os id)
  unfolding get_task_io_priority
  get_task_io_priority-Peeks id t = Only-call Peeks (ioprio_get ioprio_who_process id) t _ refl (
      Only-if Peeks (is_neg (os.ioprio_get t ioprio_who_process id)) _ _ _ (GoesOn-refl Peeks _) (
        Only-if Peeks
          (same_int (io_class_of (os.ioprio_get t ioprio_who_process id)) (pos ioprio_class_none)) _
          _ _ (sched-Peeks id _) (GoesOn-refl Peeks _)))

  first_line-Looks : (path line : Text) → Calls Looks (get_file_first_line os path line)
  unfolding get_file_first_line
  first_line-Looks path line t =
      Only-call Looks (fopen path) t _ refl (elim (Option-cases (os.fopen t path)) [
        | inl e ↦ rw (e, get_file_first_line) (ended _)
        | inr (fp, e) ↦
            rw (e, get_file_first_line)
              (Only-call Looks (getline fp) _ _ refl (
                Only-call Looks (fclose fp) _ _ refl
                  (elim (Option-cases (os.getline (fopen path ∷ t) fp)) [
                    | inl d ↦ rw (d, get_file_first_line) (ended _)
                    | inr (got, d) ↦ rw (d, get_file_first_line) (ended _)
                  ])))
      ])

  pub get_task_cmdline-Looks :
      (pid : ℤ) (is_short : Bool) (cmdline : Text)
      → Calls Looks (get_task_cmdline os pid is_short cmdline)
  unfolding get_task_cmdline get_cmdline_from_status
  get_task_cmdline-Looks pid is_short cmdline t =
      Only-bind Looks t (get_file_first_line os (proc_path pid (text "/cmdline")) cmdline t) _
        (first_line-Looks _ cmdline t)
        (λ r u. Only-if Looks (not (is_neg r.0) && ltb 0 (length r.1)) _ _ u (ended _) (
          Only-bind Looks u (get_file_first_line os (proc_path pid (text "/status")) r.1 u) _
            (first_line-Looks _ r.1 u) (λ _ v. ended _)))

  scan_threads-Looks : (fd : ℕ) (entries : List Dirent) → Calls Looks (scan_threads os fd entries)
  unfolding scan_threads
  scan_threads-Looks fd [] t = GoesOn-call Looks (readdir fd) t _ refl (ended _)
  scan_threads-Looks fd (entry ∷ entries) t = Only-call Looks (readdir fd) t _ refl (
      Only-bind Looks _ (scan_threads os fd entries _) _ (scan_threads-Looks fd entries _)
        (λ _ u. ended _))

  get_all_thread_id-Looks : (pid : ℕ) → Calls Looks (get_all_thread_id os pid)
  unfolding get_all_thread_id
  get_all_thread_id-Looks pid t =
      Only-call Looks (openat (task_path pid)) t _ refl
        (elim (Option-cases (os.openat t (task_path pid))) [
          | inl e ↦ rw (e, get_all_thread_id) (ended _)
          | inr (fd, e) ↦
              rw (e, get_all_thread_id)
                (Only-call Looks (fdopendir fd) _ _ refl
                  (elim (Option-cases (os.fdopendir (openat (task_path pid) ∷ t) fd)) [
                    | inl d ↦
                        rw (d, get_all_thread_id) (GoesOn-call Looks (close fd) _ _ refl (ended _))
                    | inr (entries, d) ↦
                        rw (d, get_all_thread_id)
                          (Only-bind Looks _ (scan_threads os fd entries _) _
                            (scan_threads-Looks fd entries _)
                            (λ _ u.
                              GoesOn-call Looks (closedir fd) _ _ refl
                                (GoesOn-call Looks (close fd) _ _ refl (ended _))))
                  ]))
        ])

  add_task-Looks :
      (is_only_pid : Bool) (task : Option ℕ) (m : M (List (ℕ × List ℕ)))
      → Calls Looks m
      → Calls Looks (add_task os is_only_pid task m)
  add_task-Looks is_only_pid none m h t = h t
  add_task-Looks true (some pid) m h t = Only-bind Looks t (m t) _ (h t) (λ _ u. ended _)
  add_task-Looks false (some pid) m h t =
      Only-bind Looks t (get_all_thread_id os pid t) _ (get_all_thread_id-Looks pid t)
        (λ _ u. Only-bind Looks u (m u) _ (h u) (λ _ v. ended _))

  scan_tasks-Looks :
      (fd : ℕ) (is_only_pid : Bool) (entries : List Dirent)
      → Calls Looks (scan_tasks os fd is_only_pid entries)
  unfolding scan_tasks
  scan_tasks-Looks fd is_only_pid [] t = GoesOn-call Looks (readdir fd) t _ refl (ended _)
  scan_tasks-Looks fd is_only_pid (entry ∷ entries) t = Only-call Looks (readdir fd) t _ refl (
      add_task-Looks is_only_pid (task_of_entry os entry) _
        (scan_tasks-Looks fd is_only_pid entries) _)

  pub get_all_task_id-Looks : (is_only_pid : Bool) → Calls Looks (get_all_task_id os is_only_pid)
  unfolding get_all_task_id
  get_all_task_id-Looks is_only_pid t =
      Only-call Looks (openat (text "/proc")) t _ refl
        (elim (Option-cases (os.openat t (text "/proc"))) [
          | inl e ↦ rw (e, get_all_task_id) (ended _)
          | inr (fd, e) ↦
              rw (e, get_all_task_id)
                (Only-call Looks (fdopendir fd) _ _ refl
                  (elim (Option-cases (os.fdopendir (openat (text "/proc") ∷ t) fd)) [
                    | inl d ↦
                        rw (d, get_all_task_id) (GoesOn-call Looks (close fd) _ _ refl (ended _))
                    | inr (entries, d) ↦
                        rw (d, get_all_task_id)
                          (Only-bind Looks _ (scan_tasks os fd is_only_pid entries _) _
                            (scan_tasks-Looks fd is_only_pid entries _)
                            (λ _ u.
                              GoesOn-call Looks (closedir fd) _ _ refl
                                (GoesOn-call Looks (close fd) _ _ refl (ended _))))
                  ]))
        ])
