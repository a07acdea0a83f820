-- ===== src/Os.antt =====
-- What the program takes from the kernel, the C library and curses: the answers to its calls, from
-- the trace of the calls before, and the constants of <sched.h>, <dirent.h> and <fcntl.h>.
use iotop_cpp.Base.{ℕ, ℤ, Bool, List, Option}
use iotop_cpp.Text.{Text}
use iotop_cpp.Run.{Trace}

pub record Dirent : Type 0 where
  pub d_type : ℕ
  pub d_name : Text

pub record Timespec : Type 0 where
  pub tv_sec : ℕ
  pub tv_nsec : ℕ

-- `none` is a null pointer, or -1 of `getline`, `stat` and `recv`. What `getline` gives is the line
-- and the size of the buffer that holds it. `recv` gives the bytes of the whole buffer afterwards and
-- how many of them were received. `fdopendir` gives the entries that the calls of `readdir` on the new
-- stream return, in order, before the null pointer; a stream is named by its descriptor.
pub record Os : Type 0 where
  pub ioprio_get : Trace → ℕ → ℤ → ℤ
  pub sched_getscheduler : Trace → ℤ → ℤ
  pub getpriority : Trace → ℤ → ℤ
  pub ioprio_set : Trace → ℤ
  pub fopen : Trace → Text → Option ℕ
  pub getline : Trace → ℕ → Option (Text × ℕ)
  pub stat : Trace → Text → Option ℕ
  pub openat : Trace → Text → Option ℕ
  pub fdopendir : Trace → ℕ → Option (List Dirent)
  pub getpwuid : Trace → ℤ → Option Text
  pub clock_gettime : Trace → Timespec
  pub getpid : Trace → ℕ
  pub socket : Trace → Option ℕ
  pub bind : Trace → ℕ → Bool
  pub fcntl_getfl : Trace → ℕ → ℕ
  pub fcntl_setfl : Trace → ℕ → Bool
  pub sendto : Trace → ℤ → Text → ℤ
  pub again : Trace → Bool
  pub recv : Trace → ℤ → Option (Text × ℕ)
  pub max_yx : Trace → ℤ × ℤ
  pub sched_fifo : ℤ
  pub sched_rr : ℤ
  pub sched_idle : ℤ
  pub dt_dir : ℕ
  pub dt_unknown : ℕ
  pub is_dir : ℕ → Bool
  pub o_nonblock : ℕ → ℕ
