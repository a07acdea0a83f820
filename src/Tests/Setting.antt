-- ===== src/Tests/Setting.antt =====
-- A machine on which the program runs: /proc has one process with two threads, the socket takes 20
-- bytes at a time, and the window has 3 rows.
use iotop_cpp.Base.{
  ℕ, ◌+◌, ◌*◌, ◌/◌, true, false, List, [], ◌∷◌, ◌++◌, none, some, Option, ltb, pos, ◌==◌,
  if◌then◌else◌, length, ℤ,
}
use iotop_cpp.Text.{Text, text, decimal, pad_left}
use iotop_cpp.Float.{Float}
use iotop_cpp.Run.{Trace, openat, ioprio_set}
use iotop_cpp.Os.{Os, Dirent}

-- Whole numbers in the place of `double`.
abbrev pub whole : Float
whole = record {
  Value = ℕ;
  of_ℕ = λ n. n;
  add = λ a b. a + b;
  mul = λ a b. a * b;
  div = λ a b. a / b;
  lt = ltb;
  milli = 0;
  show = λ w n. pad_left w (decimal n ++ text ".00");
}

abbrev directory : Text → Dirent
directory name = record { d_type = 4; d_name = name }

abbrev pub threads : List Dirent
threads = directory (text ".") ∷ directory (text "42") ∷ directory (text "43") ∷ []

abbrev pub processes : List Dirent
processes =
    directory (text "..") ∷ directory (text "42") ∷ record { d_type = 8; d_name = text "7" } ∷ []

-- The directory that was opened last: /proc, or the threads of a process.
abbrev entries : Trace → List Dirent
entries (openat path ∷ t) = if 5 == length path then processes else threads
entries t = []

-- The priority that was set just before, of the class NONE to begin with.
abbrev last_prio : Trace → ℤ
last_prio (ioprio_set which who v ∷ t) = pos v
last_prio t = pos 0

abbrev pub machine_of : Option (Text × ℕ) → Os
machine_of reply = record {
  ioprio_get = λ t which id. last_prio t;
  sched_getscheduler = λ t id. pos 0;
  getpriority = λ t id. pos 0;
  ioprio_set = λ t. pos 0;
  fopen = λ t path. some 3;
  getline = λ t fp. some (text "/usr/bin/top" ++ 0 ∷ text "-b", 120);
  stat = λ t path. some 4;
  openat = λ t path. some 4;
  fdopendir = λ t fd. some (entries t);
  getpwuid = λ t uid. some (text "root");
  clock_gettime = λ t. record { tv_sec = 7; tv_nsec = 5 };
  getpid = λ t. 42;
  socket = λ t. some 5;
  bind = λ t fd. true;
  fcntl_getfl = λ t fd. 2;
  fcntl_setfl = λ t fd. true;
  sendto = λ t fd buf. pos 20;
  again = λ t. false;
  recv = λ t fd. reply;
  max_yx = λ t. (pos 3, pos 80);
  sched_fifo = pos 1;
  sched_rr = pos 2;
  sched_idle = pos 5;
  dt_dir = 4;
  dt_unknown = 0;
  is_dir = λ mode. mode == 4;
  o_nonblock = λ flags. flags + 2048;
}

abbrev pub machine : Os
machine = machine_of none
