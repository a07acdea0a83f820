-- ===== src/Proc/Paths.antt =====
-- The paths of the files of a task.
use iotop_cpp.Base.{
  suc, ◌^◌, ◌≤◌, ◌<◌, ◌≡◌, ◌++◌, arith, length, length-append, take-all, ℤ, pos, negsuc,
}
use iotop_cpp.Text.{Text, text, decimal_int, snprintf}
use iotop_cpp.Text.Decimal.{length-decimal-le}
use iotop_cpp.Proc.{proc_path}

-- The numbers of an `int` of 32 bits.
abbrev pub IsInt32 : ℤ → Type 0
IsInt32 (pos n) = n < 2 ^ 31
IsInt32 (negsuc n) = n < 2 ^ 31

length-decimal_int-le : (pid : ℤ) → IsInt32 pid → length (decimal_int pid) ≤ 11
unfolding decimal_int
length-decimal_int-le (pos n) h = omega (arith, length-decimal-le n 9 (omega arith))
length-decimal_int-le (negsuc n) h = omega (arith, length-decimal-le (suc n) 9 (omega arith))

-- For any `int` of 32 bits and a file name of at most 12 bytes, the path of a task's file is whole:
-- the buffer that it is printed to has room for it.
pub proc_path-whole :
    (pid : ℤ) (file : Text)
    → IsInt32 pid
    → length file ≤ 12
    → proc_path pid file ≡ text "/proc/" ++ decimal_int pid ++ file
unfolding proc_path snprintf
proc_path-whole pid file h short = take-all 29 (text "/proc/" ++ decimal_int pid ++ file) (
    omega (
      arith,
      length-append (text "/proc/" ++ decimal_int pid) file,
      length-append (text "/proc/") (decimal_int pid),
      length-decimal_int-le pid h,
    ))
