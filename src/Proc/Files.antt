-- ===== src/Proc/Files.antt =====
-- Reading the files of a task: the command line and its short form.
use iotop_cpp.Base.{
  ℕ, ◌+◌, ◌≡◌, refl, ap, ◌≢◌, ◌⊎◌, inl, inr, Bool, true, [], ◌∷◌, ◌++◌, none, some, arith, ltb,
  ltb→lt, Bool-cases, Option-cases, ◌&&◌, not, length, length-drop, ℤ, pos, negsuc, is_neg,
}
use iotop_cpp.Text.{Text, text, until_nul, find_first_of}
use iotop_cpp.Run.{Trace, Returns, Returns-if, Returns-done, done, fopen, getline, fclose}
use iotop_cpp.Os.{Os}
use iotop_cpp.Proc.{
  get_file_first_line, get_task_cmdline, get_cmdline_from_status, shorten, after_first,
  starts_as_path, proc_path,
}

module _ (os : Os) (path line : Text) (t : Trace) where
  -- What a read can give: the file could not be opened; or it was opened, asked for one line and
  -- closed, and either a line was there, cut at its first NUL, or the string is left alone.
  abbrev pub FirstLine : ℤ × Text → Trace → Type 0
  FirstLine r u =
      ((os.fopen t path ≡ none) × (r ≡ (negsuc 0, line)) × (u ≡ fopen path ∷ t))
      ⊎ ((fp : ℕ) × (os.fopen t path ≡ some fp)
          × (u ≡ fclose fp ∷ getline fp ∷ fopen path ∷ t)
          × (((got : Text) × (len : ℕ) × (os.getline (fopen path ∷ t) fp ≡ some (got, len))
                × (r ≡ (pos 0, until_nul got)))
              ⊎ ((is_neg r.0 ≡ true) × (r.1 ≡ line))))

  -- Reading a first line opens the file, and where that succeeds asks for one line and closes the
  -- file again, on every path; the string is what stands before the first NUL of the line where the
  -- code is 0, and is left alone where the code is negative.
  pub get_file_first_line-FirstLine : Returns (get_file_first_line os path line t) FirstLine
  unfolding get_file_first_line
  get_file_first_line-FirstLine = elim (Option-cases (os.fopen t path)) [
    | inl e ↦ rw (e, get_file_first_line) (inl (e, refl, refl))
    | inr (fp, e) ↦
        rw (e, get_file_first_line)
          (elim (Option-cases (os.getline (fopen path ∷ t) fp)) [
            | inl g ↦ rw (g, get_file_first_line) (inr (fp, e, refl, inr (refl, refl)))
            | inr ((got, len), g) ↦
                rw (g, get_file_first_line)
                  (elim (Bool-cases (ltb 0 len)) [
                    | inl p ↦ rw p (inr (fp, e, refl, inl (got, len, g, refl)))
                    | inr p ↦ rw p (inr (fp, e, refl, inr (refl, refl)))
                  ])
          ])
  ]

-- A cut behind the first c leaves something of a text that is not empty.
after_first-ne-nil : (c : ℕ) (s : Text) → s ≢ [] → after_first c s ≢ []
unfolding after_first
after_first-ne-nil c s h e = elim (Option-cases (find_first_of c s)) [
  | inl f ↦ h (rw (f, after_first) at e)
  | inr (i, f) ↦ elim (Bool-cases (ltb (i + 1) (length s))) [
    | inl inside ↦ absurd (
        omega (
          arith,
          ltb→lt (i + 1) (length s) inside,
          length-drop (i + 1) s,
          ap length (rw inside at (rw (f, after_first) at e)),
        ))
    | inr past ↦ h (rw past at (rw (f, after_first) at e))
  ]
]

nonempty_of_ltb : (s : Text) → ltb 0 (length s) ≡ true → s ≢ []
nonempty_of_ltb [] h e = cc
nonempty_of_ltb (c ∷ s) h e = cc

shorten-ne-nil : (is_short : Bool) (s : Text) → s ≢ [] → shorten is_short s ≢ []
unfolding shorten
shorten-ne-nil is_short s h = elim (Bool-cases (is_short && starts_as_path s)) [
  | inl p ↦ rw p (after_first-ne-nil b'/' s h)
  | inr p ↦ rw p h
]

-- The short form of a command line that is a slash, `./` or `../` with something behind it is what
-- stands behind: all other directories stay in it.
pub shorten_path :
    (rest : Text)
    → rest ≢ []
    → (shorten true (text "/" ++ rest) ≡ rest)
      × (shorten true (text "./" ++ rest) ≡ rest)
      × (shorten true (text "../" ++ rest) ≡ rest)
unfolding shorten after_first find_first_of
shorten_path [] h = absurd (h refl)
shorten_path (c ∷ rest) h = (ground arith, ground arith, ground arith)

-- Either a command line was found, and it is not empty; or the code is -1.
abbrev pub Cmdline : ℤ × Text → Trace → Type 0
Cmdline r _ = ((r.0 ≡ pos 0) × (r.1 ≢ [])) ⊎ (r.0 ≡ negsuc 0)

found_line :
    (r : ℤ × Text) → (not (is_neg r.0) && ltb 0 (length r.1)) ≡ true → ltb 0 (length r.1) ≡ true
found_line r h = ground arith

module _ (os : Os) (pid : ℤ) where
  first_line-done :
      (path line : Text) (t : Trace)
      → (r : ℤ × Text) × (u : Trace) × (get_file_first_line os path line t ≡ done r u)
  first_line-done path line t =
      let (r, u, e, _) = Returns-done _ _ (get_file_first_line-FirstLine os path line t) in
      (r, u, e)

  get_cmdline_from_status-Cmdline :
      (cmdline : Text) (t : Trace) → Returns (get_cmdline_from_status os pid cmdline t) Cmdline
  unfolding get_cmdline_from_status
  get_cmdline_from_status-Cmdline cmdline t =
      let (r, u, e) = first_line-done (proc_path pid (text "/status")) cmdline t in
      rw (e, get_cmdline_from_status)
        (elim (Bool-cases (not (is_neg r.0) && ltb 0 (length r.1))) [
          | inl found ↦
              rw found (
                inl (refl, after_first-ne-nil b'\t' r.1 (nonempty_of_ltb r.1 (found_line r found))))
          | inr missing ↦ rw missing (inr refl)
        ])

  -- `get_task_cmdline` always comes back: with 0 and a command line that is not empty, short form
  -- or not, or with -1.
  pub get_task_cmdline-Cmdline :
      (is_short : Bool) (cmdline : Text) (t : Trace)
      → Returns (get_task_cmdline os pid is_short cmdline t) Cmdline
  unfolding get_task_cmdline
  get_task_cmdline-Cmdline is_short cmdline t =
      let (r, u, e) = first_line-done (proc_path pid (text "/cmdline")) cmdline t in
      rw (e, get_task_cmdline)
        (Returns-if Cmdline (not (is_neg r.0) && ltb 0 (length r.1)) _ _ u
          (λ found.
            inl (refl, shorten-ne-nil is_short r.1 (nonempty_of_ltb r.1 (found_line r found))))
          (λ _. get_cmdline_from_status-Cmdline r.1 u))
