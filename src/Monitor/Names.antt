-- ===== src/Monitor/Names.antt =====
-- The names of a task: what is copied into its arrays.
use iotop_cpp.Base.{
  ℕ, suc, ◌-◌, ◌≤◌, ◌<◌, ◌≡◌, refl, Bool, true, false, [], ◌++◌, some, length, length-replicate,
  replicate, ℤ, pos, negsuc, is_neg,
}
use iotop_cpp.Float.{Float}
use iotop_cpp.Task.{TaskIoInfo, char_array}
use iotop_cpp.Text.{Text, c_string, until_nul}
use iotop_cpp.Text.Array.{strncpy_fits, c_string-append, strncpy_overflows}
use iotop_cpp.Run.{Trace, done, fault, Returns, Returns-done}
use iotop_cpp.Monitor.{Sources, copy, copy_found, fill_names}

-- What the call of netlink leaves alone.
pub record Keeps {F : Float} (info info' : TaskIoInfo F) : Type 0 where
  pub task_id : info'.task_id ≡ info.task_id
  pub io_priority : info'.io_priority ≡ info.io_priority
  pub user_name : info'.user_name ≡ info.user_name
  pub short_cmdline : info'.short_cmdline ≡ info.short_cmdline
  pub full_cmdline : info'.full_cmdline ≡ info.full_cmdline
  pub is_updated : info'.is_updated ≡ info.is_updated

-- What the collection needs of its sources: they come back, and the names that they find have room
-- in the arrays.
pub record IsSound {F : Float} (S : Sources F) : Type 0 where
  pub time : (t : Trace) → Returns (S.get_steady_now_time_ns t) (λ _ _. Unit {0})
  pub tasks : (t : Trace) → Returns (S.get_all_task_id t) (λ _ _. Unit {0})
  pub priority : (id : ℤ) (t : Trace) → Returns (S.get_task_io_priority id t) (λ _ _. Unit {0})
  pub stats :
      (netlink : S.Netlink) (id : ℕ) (info : TaskIoInfo F) (t : Trace)
      → Returns (S.get_task_io_info netlink id info t) (λ r _. Keeps info r.1)
  pub name : (uid : ℤ) (t : Trace) → Returns (S.get_user_name uid t) (λ s _. length s ≤ 128)
  pub cmdline :
      (id : ℤ) (is_short : Bool) (t : Trace)
      → Returns (S.get_task_cmdline id is_short [] t) (λ r _. length r.1 ≤ 128)

-- An array that holds a string with its NUL.
abbrev pub IsTerminated : Text → Type 0
IsTerminated array = (s : Text) × (c_string array ≡ some s)

pub char_array-IsTerminated : (n : ℕ) → IsTerminated (char_array n)
unfolding char_array until_nul
char_array-IsTerminated n = ([], c_string-append n [])

-- Copying a string that fits into a fresh array.
copy-done :
    (n : ℕ) (s : Text) (t : Trace)
    → length s ≤ n
    → (array : Text) × (copy (char_array n) s t ≡ done array t)
      × (c_string array ≡ some (until_nul s))
unfolding char_array
copy-done n s t h = (
  s ++ replicate (suc (n - length s)) 0,
  rw (strncpy_fits n s h, copy),
  c_string-append (n - length s) s,
)

copy_overflows : (n : ℕ) (s : Text) (t : Trace) → suc n < length s → copy (char_array n) s t ≡ fault
unfolding char_array
copy_overflows n s t h =
    let size = length-replicate {A = ℕ} (suc n) 0 in
    rw (strncpy_overflows (replicate (suc n) 0) s (rw size h), copy)

copy_found-done :
    (code : ℤ) (n : ℕ) (s : Text) (t : Trace)
    → length s ≤ n
    → (array : Text) × (copy_found code (char_array n) s t ≡ done array t) × IsTerminated array
copy_found-done (pos c) n s t h =
    let (array, e, terminated) = copy-done n s t h in (array, e, (until_nul s, terminated))
copy_found-done (negsuc c) n s t h = (char_array n, refl, char_array-IsTerminated n)

-- A task without its names: its figures.
abbrev pub figures : {F : Float} → TaskIoInfo F → TaskIoInfo F
figures i = record i { user_name = []; short_cmdline = []; full_cmdline = []; is_updated = true }

module _ (F : Float) (S : Sources F) where
  -- A task as the table may hold it: under its own number, with a priority that can be shown and
  -- names that can be printed.
  pub record IsShown (id : ℤ) (i : TaskIoInfo F) : Type 0 where
    pub task_id : i.task_id ≡ id
    pub io_priority : is_neg i.io_priority ≡ false
    pub user_name : IsTerminated i.user_name
    pub short_cmdline : IsTerminated i.short_cmdline
    pub full_cmdline : IsTerminated i.full_cmdline

  -- The names are as `TaskIoInfo` initialises them.
  pub record IsBlank (i : TaskIoInfo F) : Type 0 where
    pub user_name : i.user_name ≡ char_array 128
    pub short_cmdline : i.short_cmdline ≡ char_array 128
    pub full_cmdline : i.full_cmdline ≡ char_array 128

module _ {F : Float} {S : Sources F} (sound : IsSound S) where
  name-done :
      (uid : ℤ) (t : Trace)
      → (s : Text) × (u : Trace) × (S.get_user_name uid t ≡ done s u) × (length s ≤ 128)
  name-done uid t = Returns-done _ _ (sound.name uid t)

  cmdline-done :
      (id : ℤ) (is_short : Bool) (t : Trace)
      → (r : ℤ × Text) × (u : Trace) × (S.get_task_cmdline id is_short [] t ≡ done r u)
        × (length r.1 ≤ 128)
  cmdline-done id is_short t = Returns-done _ _ (sound.cmdline id is_short t)

  -- From sound sources, and for a task with its own number, a priority that is not negative and
  -- names as they are initialised, filling in the names comes back with names that end within their
  -- arrays, and changes nothing else but the mark.
  pub fill_names-IsShown :
      (id : ℤ) (i : TaskIoInfo F) (t : Trace)
      → i.task_id ≡ id
      → is_neg i.io_priority ≡ false
      → IsBlank F S i
      → Returns (fill_names F S i t) (λ j _. IsShown F S id j × (figures j ≡ figures i))
  unfolding fill_names
  fill_names-IsShown id i t same prio blank =
      let (name, u, e, fits) = name-done i.user_id t in
      let (user, e', terminated) = copy-done 128 name u fits in
      let (short, v, d, short_fits) = cmdline-done i.task_id true u in
      let (short', d', short_terminated) = copy_found-done short.0 128 short.1 v short_fits in
      let (full, w, c, full_fits) = cmdline-done i.task_id false v in
      let (full', c', full_terminated) = copy_found-done full.0 128 full.1 w full_fits in
      rw (e, blank.user_name, e', d, blank.short_cmdline, d', c, blank.full_cmdline, c')
        (
          record {
            task_id = same;
            io_priority = prio;
            user_name = (until_nul name, terminated);
            short_cmdline = short_terminated;
            full_cmdline = full_terminated;
          },
          refl,
        )

-- For a new task's arrays, where the user's name has at most 128 bytes, and the short command line
-- is found and has more than 129, filling in the names has undefined behaviour: the command line is
-- written past the end of its array.
pub fill_names_overflows :
    (F : Float) (S : Sources F) (i : TaskIoInfo F) (t u v : Trace) (name short : Text)
    → i.user_name ≡ char_array 128
    → i.short_cmdline ≡ char_array 128
    → S.get_user_name i.user_id t ≡ done name u
    → length name ≤ 128
    → S.get_task_cmdline i.task_id true [] u ≡ done (pos 0, short) v
    → 129 < length short
    → fill_names F S i t ≡ fault
unfolding fill_names
fill_names_overflows F S i t u v name short blank blank' e fits d long =
    let (user, e', _) = copy-done 128 name u fits in
    let over = copy_overflows 128 short v long in rw (e, blank, e', d, blank', over)
