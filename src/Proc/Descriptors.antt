-- ===== src/Proc/Descriptors.antt =====
-- The descriptors and streams that reading below /proc opens are closed again.
use iotop_cpp.Base.{
  ℕ, suc, ◌≡◌, refl, ap, ◌∙◌, Bool, true, false, not, ◌&&◌, List, [], ◌∷◌, Option, none, some,
  arith, Option-cases, inl, inr, ltb, length, elem, remove, remove-absent, remove-head, ℤ, is_neg,
}
use iotop_cpp.Text.{Text, text}
use iotop_cpp.Run.{
  Trace, M, fopen, getline, fclose, openat, fdopendir, readdir, closedir, close, socket,
}
use iotop_cpp.Run.Ends.{AtEnd-bind, AtEnd-mono}
use iotop_cpp.Run.Within.{IsPreorder, Within, Along, Same, Same-IsPreorder, Within-bind, Within-if}
use iotop_cpp.Os.{Os, Dirent}
use iotop_cpp.Proc.{
  get_file_first_line, get_cmdline_from_status, get_task_cmdline, proc_path, task_of_entry,
  scan_threads, get_all_thread_id, add_task, scan_tasks, get_all_task_id,
}
use iotop_cpp.Proc.Scan.{task_path}

abbrev with_new : Option ℕ → List ℕ → List ℕ
with_new none fds = fds
with_new (some fd) fds = fd ∷ fds

-- The descriptors that are open at the end of a trace that began with none.
abbrev pub held : Os → Trace → List ℕ
held os [] = []
held os (openat path ∷ t) = with_new (os.openat t path) (held os t)
held os (socket ∷ t) = with_new (os.socket t) (held os t)
held os (closedir fd ∷ t) = remove fd (held os t)
held os (close fd ∷ t) = remove fd (held os t)
held os (c ∷ t) = held os t

-- The streams that are.
abbrev pub files : Os → Trace → List ℕ
files os [] = []
files os (fopen path ∷ t) = with_new (os.fopen t path) (files os t)
files os (fclose fp ∷ t) = remove fp (files os t)
files os (c ∷ t) = files os t

abbrev with_stray : Bool → ℕ → ℕ
with_stray true n = n
with_stray false n = suc n

-- How often `fdopendir`, `readdir`, `closedir`, `getline` or `fclose` is given what is not open. `close` is not counted:
-- it is called on descriptors that `closedir` has closed.
abbrev pub strays : Os → Trace → ℕ
strays os [] = 0
strays os (fdopendir fd ∷ t) = with_stray (elem fd (held os t)) (strays os t)
strays os (readdir fd ∷ t) = with_stray (elem fd (held os t)) (strays os t)
strays os (closedir fd ∷ t) = with_stray (elem fd (held os t)) (strays os t)
strays os (getline fp ∷ t) = with_stray (elem fp (files os t)) (strays os t)
strays os (fclose fp ∷ t) = with_stray (elem fp (files os t)) (strays os t)
strays os (c ∷ t) = strays os t

-- What the system opens was not open before.
pub record IsFresh (os : Os) : Type 0 where
  pub dirs :
      (t : Trace) (path : Text) (fd : ℕ) → os.openat t path ≡ some fd → elem fd (held os t) ≡ false
  pub streams :
      (t : Trace) (path : Text) (fp : ℕ) → os.fopen t path ≡ some fp → elem fp (files os t) ≡ false
  pub sockets : (t : Trace) (fd : ℕ) → os.socket t ≡ some fd → elem fd (held os t) ≡ false

-- What is open, and the uses of what is not.
abbrev pub books : Os → Trace → List ℕ × (List ℕ × ℕ)
books os t = (held os t, (files os t, strays os t))

-- The same afterwards as before.
abbrev pub Tidy : Os → Trace → Trace → Type 0
Tidy os = Same (books os)

elem-head : (k : ℕ) (xs : List ℕ) → elem k (k ∷ xs) ≡ true
elem-head k xs = ground arith

module _ (os : Os) (t : Trace) (path : Text) where
  -- Nothing is opened.
  no_file-Tidy : os.fopen t path ≡ none → Tidy os t (fopen path ∷ t)
  no_file-Tidy e = rw e refl

  no_dir-Tidy : os.openat t path ≡ none → Tidy os t (openat path ∷ t)
  no_dir-Tidy e = rw e refl

  -- A stream is read and closed.
  file-Tidy :
      (fp : ℕ)
      → os.fopen t path ≡ some fp
      → elem fp (files os t) ≡ false
      → Tidy os t (fclose fp ∷ getline fp ∷ fopen path ∷ t)
  file-Tidy fp e absent = rw (e, elem-head fp (files os t), remove-head fp (files os t) absent) refl

  module _ (fd : ℕ) (e : os.openat t path ≡ some fd) (absent : elem fd (held os t) ≡ false) where
    -- A descriptor for which there is no directory stream is closed.
    bad_dir-Tidy : Tidy os t (close fd ∷ fdopendir fd ∷ openat path ∷ t)
    bad_dir-Tidy = rw (e, elem-head fd (held os t), remove-head fd (held os t) absent) refl

    -- A directory is closed, and its descriptor once more.
    dir-Tidy :
        (u : Trace)
        → Tidy os (fdopendir fd ∷ openat path ∷ t) u
        → Tidy os t (close fd ∷ closedir fd ∷ u)
    dir-Tidy u same =
        let h : held os u ≡ fd ∷ held os t = rw e at (ap (λ b. b.0) same) in
        let f : files os u ≡ files os t = ap (λ b. b.1.0) same in
        let s : strays os u ≡ strays os t =
          rw (e, elem-head fd (held os t)) at (ap (λ b. b.1.1) same) in
        rw
          (
            h,
            f,
            elem-head fd (held os t),
            s,
            remove-head fd (held os t) absent,
            remove-absent fd (held os t) absent,
          )
          refl

module _ (os : Os) (fresh : IsFresh os) where
  pub tidy : IsPreorder (Tidy os)
  tidy = Same-IsPreorder (books os)

  pub get_file_first_line-Tidy :
      (path line : Text) → Along (Tidy os) (get_file_first_line os path line)
  unfolding get_file_first_line
  get_file_first_line-Tidy path line t = elim (Option-cases (os.fopen t path)) [
    | inl e ↦ rw (e, get_file_first_line) (no_file-Tidy os t path e)
    | inr (fp, e) ↦
        let absent = fresh.streams t path fp e in
        rw (e, get_file_first_line)
          (elim (Option-cases (os.getline (fopen path ∷ t) fp)) [
            | inl d ↦ rw (d, get_file_first_line) (file-Tidy os t path fp e absent)
            | inr (got, d) ↦ rw (d, get_file_first_line) (file-Tidy os t path fp e absent)
          ])
  ]

  pub get_task_cmdline-Tidy :
      (pid : ℤ) (is_short : Bool) (cmdline : Text)
      → Along (Tidy os) (get_task_cmdline os pid is_short cmdline)
  unfolding get_task_cmdline get_cmdline_from_status
  get_task_cmdline-Tidy pid is_short cmdline t =
      Within-bind tidy t (get_file_first_line os (proc_path pid (text "/cmdline")) cmdline t) _
        (get_file_first_line-Tidy _ cmdline t)
        (λ r u. Within-if (Tidy os) (not (is_neg r.0) && ltb 0 (length r.1)) _ _ u u refl (
          Within-bind tidy u (get_file_first_line os (proc_path pid (text "/status")) r.1 u) _
            (get_file_first_line-Tidy _ r.1 u) (λ _ v. refl)))

  readdir-Tidy : (t : Trace) (fd : ℕ) → elem fd (held os t) ≡ true → Tidy os t (readdir fd ∷ t)
  readdir-Tidy t fd h = rw h refl

  -- A descriptor for a directory is open.
  opened :
      (t : Trace) (path : Text) (fd : ℕ)
      → os.openat t path ≡ some fd
      → elem fd (held os (fdopendir fd ∷ openat path ∷ t)) ≡ true
  opened t path fd e = rw e (elem-head fd (held os t))

  scan_threads-Tidy :
      (fd : ℕ) (entries : List Dirent) (t : Trace)
      → elem fd (held os t) ≡ true
      → Within (Tidy os) t (scan_threads os fd entries t)
  unfolding scan_threads
  scan_threads-Tidy fd [] t h = readdir-Tidy t fd h
  scan_threads-Tidy fd (entry ∷ entries) t h =
      AtEnd-bind (λ _ u. Tidy os (readdir fd ∷ t) u) (λ _ u. Tidy os t u)
        (scan_threads os fd entries (readdir fd ∷ t)) _
        (scan_threads-Tidy fd entries (readdir fd ∷ t) h) (λ _ u same. same ∙ readdir-Tidy t fd h)

  get_all_thread_id-Tidy : (pid : ℕ) → Along (Tidy os) (get_all_thread_id os pid)
  unfolding get_all_thread_id
  get_all_thread_id-Tidy pid t = elim (Option-cases (os.openat t (task_path pid))) [
    | inl e ↦ rw (e, get_all_thread_id) (no_dir-Tidy os t (task_path pid) e)
    | inr (fd, e) ↦
        let absent = fresh.dirs t (task_path pid) fd e in
        rw (e, get_all_thread_id)
          (elim (Option-cases (os.fdopendir (openat (task_path pid) ∷ t) fd)) [
            | inl d ↦ rw (d, get_all_thread_id) (bad_dir-Tidy os t (task_path pid) fd e absent)
            | inr (entries, d) ↦
                rw (d, get_all_thread_id)
                  (AtEnd-bind (λ _ u. Tidy os (fdopendir fd ∷ openat (task_path pid) ∷ t) u)
                    (λ _ u. Tidy os t u) (scan_threads os fd entries _) _
                    (scan_threads-Tidy fd entries _ (opened t (task_path pid) fd e))
                    (λ _ u same. dir-Tidy os t (task_path pid) fd e absent u same))
          ])
  ]

  -- What keeps the books while a descriptor is open.
  abbrev WhileOpen : {A : Type 0} → ℕ → M A → Type 0
  WhileOpen fd m = (t : Trace) → elem fd (held os t) ≡ true → Within (Tidy os) t (m t)

  add_task-Tidy :
      (fd : ℕ) (is_only_pid : Bool) (task : Option ℕ) (m : M (List (ℕ × List ℕ)))
      → WhileOpen fd m
      → WhileOpen fd (add_task os is_only_pid task m)
  add_task-Tidy fd is_only_pid none m h t open_still = h t open_still
  add_task-Tidy fd true (some pid) m h t open_still =
      Within-bind tidy t (m t) _ (h t open_still) (λ _ u. refl)
  add_task-Tidy fd false (some pid) m h t open_still =
      AtEnd-bind (λ _ u. Tidy os t u) (λ _ u. Tidy os t u) (get_all_thread_id os pid t) _
        (get_all_thread_id-Tidy pid t)
        (λ _ u same.
          AtEnd-bind (λ _ v. Tidy os u v) (λ _ v. Tidy os t v) (m u) _
            (h u (ap (λ b. elem fd b.0) same ∙ open_still)) (λ _ v later. later ∙ same))

  scan_tasks-Tidy :
      (fd : ℕ) (is_only_pid : Bool) (entries : List Dirent)
      → WhileOpen fd (scan_tasks os fd is_only_pid entries)
  unfolding scan_tasks
  scan_tasks-Tidy fd is_only_pid [] t h = readdir-Tidy t fd h
  scan_tasks-Tidy fd is_only_pid (entry ∷ entries) t h =
      AtEnd-mono (λ _ u. Tidy os (readdir fd ∷ t) u) (λ _ u. Tidy os t u) _
        (add_task-Tidy fd is_only_pid (task_of_entry os entry) _
          (scan_tasks-Tidy fd is_only_pid entries) (readdir fd ∷ t) h)
        (λ _ u same. same ∙ readdir-Tidy t fd h)

  pub get_all_task_id-Tidy : (is_only_pid : Bool) → Along (Tidy os) (get_all_task_id os is_only_pid)
  unfolding get_all_task_id
  get_all_task_id-Tidy is_only_pid t =
      let path = text "/proc" in
      elim (Option-cases (os.openat t path)) [
        | inl e ↦ rw (e, get_all_task_id) (no_dir-Tidy os t path e)
        | inr (fd, e) ↦
            let absent = fresh.dirs t path fd e in
            let t' : Trace = fdopendir fd ∷ openat path ∷ t in
            rw (e, get_all_task_id)
              (elim (Option-cases (os.fdopendir (openat path ∷ t) fd)) [
                | inl d ↦ rw (d, get_all_task_id) (bad_dir-Tidy os t path fd e absent)
                | inr (entries, d) ↦
                    rw (d, get_all_task_id)
                      (AtEnd-bind (λ _ u. Tidy os t' u) (λ _ u. Tidy os t u)
                        (scan_tasks os fd is_only_pid entries t') _
                        (scan_tasks-Tidy fd is_only_pid entries t' (opened t path fd e))
                        (λ _ u same. dir-Tidy os t path fd e absent u same))
              ])
      ]
