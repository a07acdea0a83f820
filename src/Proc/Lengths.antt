-- ===== src/Proc/Lengths.antt =====
-- How long a command line can be.
use iotop_cpp.Base.{
  ℕ, ◌+◌, ◌≤◌, ◌≡◌, Bool, inl, inr, ◌&&◌, ◌∷◌, Option, none, some, arith, ltb, Bool-cases,
  Option-cases, length, length-drop, ℤ, is_neg, not,
}
use iotop_cpp.Text.{Text, text, until_nul, find_first_of}
use iotop_cpp.Run.{Trace, fopen, done, Returns, Returns-done, Returns-if}
use iotop_cpp.Os.{Os}
use iotop_cpp.Proc.{
  get_file_first_line, get_task_cmdline, get_cmdline_from_status, shorten, after_first,
  starts_as_path, proc_path,
}
use iotop_cpp.Proc.Files.{FirstLine, get_file_first_line-FirstLine}

length-after_first : (c : ℕ) (s : Text) → length (after_first c s) ≤ length s
unfolding after_first
length-after_first c s = elim (Option-cases (find_first_of c s)) [
  | inl e ↦ rw (e, after_first) (omega arith)
  | inr (i, e) ↦
      rw (e, after_first)
        (elim (Bool-cases (ltb (i + 1) (length s))) [
          | inl p ↦ rw p (omega (arith, length-drop (i + 1) s))
          | inr p ↦ rw p (omega arith)
        ])
]

length-shorten : (is_short : Bool) (s : Text) → length (shorten is_short s) ≤ length s
unfolding shorten
length-shorten is_short s = elim (Bool-cases (is_short && starts_as_path s)) [
  | inl p ↦ rw p (length-after_first b'/' s)
  | inr p ↦ rw p (omega arith)
]

-- The lines that files hold, up to their first NUL, are no longer than n.
abbrev pub IsShortLine : ℕ → Option (Text × ℕ) → Type 0
IsShortLine n none = Unit {0}
IsShortLine n (some (line, len)) = length (until_nul line) ≤ n

module _ (os : Os) (n : ℕ) (short : (t : Trace) (fp : ℕ) → IsShortLine n (os.getline t fp)) where
  abbrev pub Fits : ℤ × Text → Trace → Type 0
  Fits r _ = length r.1 ≤ n

  FirstLine-Fits :
      (path line : Text) (t u : Trace) (r : ℤ × Text)
      → length line ≤ n
      → FirstLine os path line t r u
      → length r.1 ≤ n
  FirstLine-Fits path line t u r h (inl (e, d, _)) = rw d h
  FirstLine-Fits path line t u r h (inr (fp, e, _, inl (got, len, g, d))) =
      rw d (rw g at (short (fopen path ∷ t) fp))
  FirstLine-Fits path line t u r h (inr (fp, e, _, inr (f, d))) = rw d h

  first_line-Fits :
      (path line : Text) (t : Trace)
      → length line ≤ n
      → (r : ℤ × Text) × (u : Trace) × (get_file_first_line os path line t ≡ done r u)
        × (length r.1 ≤ n)
  first_line-Fits path line t h =
      let (r, u, e, f) = Returns-done _ _ (get_file_first_line-FirstLine os path line t) in
      (r, u, e, FirstLine-Fits path line t u r h f)

  get_cmdline_from_status-Fits :
      (pid : ℤ) (cmdline : Text) (t : Trace)
      → length cmdline ≤ n
      → Returns (get_cmdline_from_status os pid cmdline t) Fits
  unfolding get_cmdline_from_status
  get_cmdline_from_status-Fits pid cmdline t h =
      let (r, u, e, f) = first_line-Fits (proc_path pid (text "/status")) cmdline t h in
      rw (e, get_cmdline_from_status)
        (elim (Bool-cases (not (is_neg r.0) && ltb 0 (length r.1))) [
          | inl p ↦ rw p (omega (arith, length-after_first b'\t' r.1))
          | inr p ↦ rw p f
        ])

  -- Where no line of a file, up to its first NUL, is longer than n, and the string that is passed
  -- in is not, the string that `get_task_cmdline` leaves, whatever its code, is no longer than n.
  pub get_task_cmdline-Fits :
      (pid : ℤ) (is_short : Bool) (cmdline : Text) (t : Trace)
      → length cmdline ≤ n
      → Returns (get_task_cmdline os pid is_short cmdline t) Fits
  unfolding get_task_cmdline
  get_task_cmdline-Fits pid is_short cmdline t h =
      let (r, u, e, f) = first_line-Fits (proc_path pid (text "/cmdline")) cmdline t h in
      rw (e, get_task_cmdline)
        (Returns-if Fits (not (is_neg r.0) && ltb 0 (length r.1)) _ _ u
          (λ _. omega (arith, length-shorten is_short r.1))
          (λ _. get_cmdline_from_status-Fits pid r.1 u f))
