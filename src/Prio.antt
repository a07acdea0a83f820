-- ===== src/Prio.antt =====
-- src/common/util.cpp: the I/O priority of a task. An `int` is a ℤ.
pub mod Sched
pub mod Print
pub mod Setting
use Prim.Native.Nat.{bit_or}
use iotop_cpp.Base.{
  ℕ, ◌+◌, ◌-◌, ◌*◌, ◌/◌, ◌%◌, ◌^◌, Bool, ◌||◌, List, [], ◌∷◌, ◌++◌, Option, none, some, leb, ◌==◌,
  if◌then◌else◌, ℤ, pos, negsuc, is_neg, neg, ◌+ℤ◌, div_ℕ, get_or,
}
use iotop_cpp.Text.{Text, text, pad_left, decimal, snprintf}
use iotop_cpp.Run.{
  M, pure, stop, ◌>>=◌, ask, ioprio_get, sched_getscheduler, getpriority, ioprio_set,
}
use iotop_cpp.Os.{Os}

abbrev pub ioprio_class_shift : ℕ
ioprio_class_shift = 13

abbrev pub ioprio_str_maxsiz : ℕ
ioprio_str_maxsiz = 10

abbrev pub ioprio_who_process : ℕ
ioprio_who_process = 1

abbrev pub ioprio_class_none : ℕ
ioprio_class_none = 0

abbrev pub ioprio_class_rt : ℕ
ioprio_class_rt = 1

abbrev pub ioprio_class_be : ℕ
ioprio_class_be = 2

abbrev pub ioprio_class_idle : ℕ
ioprio_class_idle = 3

abbrev pub ioprio_class_max : ℕ
ioprio_class_max = 4

-- `x >> IOPRIO_CLASS_SHIFT`, an arithmetic shift.
abbrev pub io_class_of : ℤ → ℤ
io_class_of (pos n) = pos (n / 2 ^ ioprio_class_shift)
io_class_of (negsuc n) = negsuc (n / 2 ^ ioprio_class_shift)

-- `x & ((1 << IOPRIO_CLASS_SHIFT) - 1)`, in two's complement.
abbrev pub io_data_of : ℤ → ℕ
io_data_of (pos n) = n % 2 ^ ioprio_class_shift
io_data_of (negsuc n) = 2 ^ ioprio_class_shift - 1 - n % 2 ^ ioprio_class_shift

-- Equality of two `int`s.
abbrev pub same_int : ℤ → ℤ → Bool
same_int (pos a) (pos b) = a == b
same_int (pos a) (negsuc b) = Bool.false
same_int (negsuc a) (pos b) = Bool.false
same_int (negsuc a) (negsuc b) = a == b

module _ (os : Os) where
  unfoldable pub get_task_io_priority_from_sched : ℤ → M ℤ
  get_task_io_priority_from_sched task_id = do
    scheduler ← ask (sched_getscheduler task_id) (λ t. os.sched_getscheduler t task_id)
    nice ← ask (getpriority task_id) (λ t. os.getpriority t task_id)
    let io_prio_nice = div_ℕ (nice +ℤ pos 20) 5
    if same_int scheduler os.sched_fifo || same_int scheduler os.sched_rr
        then pure (pos (ioprio_class_rt * 2 ^ ioprio_class_shift) +ℤ io_prio_nice)
        else if same_int scheduler os.sched_idle
        then pure (pos (ioprio_class_idle * 2 ^ ioprio_class_shift))
        else pure (pos (ioprio_class_be * 2 ^ ioprio_class_shift) +ℤ io_prio_nice)

  unfoldable pub get_task_io_priority : ℤ → M ℤ
  get_task_io_priority task_id = do
    io_prio ←
        ask (ioprio_get ioprio_who_process task_id)
          (λ t. os.ioprio_get t ioprio_who_process task_id)
    if is_neg io_prio
        then pure (neg 1)
        else if same_int (io_class_of io_prio) (pos ioprio_class_none)
        then get_task_io_priority_from_sched task_id
        else pure io_prio

  -- The class is not negative and the value of the level neither. The shift of an `int` is undefined
  -- where its result is 2 ^ 31 or more.
  unfoldable pub set_io_prio : ℤ → ℤ → ℕ → ℕ → M ℤ
  set_io_prio which who io_prio_class io_prio =
      if leb (2 ^ 18) io_prio_class
      then stop
      else ask (ioprio_set which who (bit_or (io_prio_class * 2 ^ ioprio_class_shift) io_prio))
          os.ioprio_set

abbrev pub str_ioprio_class : List Text
str_ioprio_class = text "-" ∷ text "rt" ∷ text "be" ∷ text "id" ∷ []

abbrev pub corrupted : Text
corrupted = text "xx/x"

-- The array of the class names, indexed by a class below IOPRIO_CLASS_MAX: undefined at a negative
-- index.
unfoldable pub convert_class : ℤ → ℕ → Option Text
convert_class (negsuc c) data_bits = none
convert_class (pos c) data_bits =
    if leb ioprio_class_max c
    then some corrupted
    else some (
        snprintf ioprio_str_maxsiz
          (pad_left 2 (get_or str_ioprio_class c []) ++ b'/' ∷ decimal data_bits))

unfoldable pub convert_io_prio_to_str : ℤ → Option Text
unfolding convert_class
convert_io_prio_to_str io_prio = convert_class (io_class_of io_prio) (io_data_of io_prio)
