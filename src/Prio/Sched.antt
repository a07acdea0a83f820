-- ===== src/Prio/Sched.antt =====
-- The priority of a task never has the class NONE: it is read from the scheduler instead.
use iotop_cpp.Base.{
  ℕ, ◌+◌, ◌*◌, ◌/◌, ◌%◌, ◌^◌, ◌≤◌, ◌<◌, ◌≡◌, refl, ◌⊎◌, inl, inr, false, arith, ℤ, pos, negsuc,
  ◌+ℤ◌, is_neg, pos-+ℤ-pos, div_ℕ, ap, ◌||◌, ◌∷◌,
}
use iotop_cpp.Run.{Trace, Returns, Returns-if, Returns-mono, sched_getscheduler}
use iotop_cpp.Os.{Os}
use iotop_cpp.Prio.{
  get_task_io_priority, get_task_io_priority_from_sched, same_int, io_class_of, ioprio_class_none,
  ioprio_who_process,
}

-- A nice value lies between -20 and 19.
abbrev pub IsNice : ℤ → Type 0
IsNice n = (k : ℕ) × (k < 40) × (n +ℤ pos 20 ≡ pos k)

-- A class other than NONE, with its level.
abbrev pub IsPrio : ℤ → Type 0
IsPrio r = (c : ℕ) × (d : ℕ) × (1 ≤ c) × (d < 2 ^ 13) × (r ≡ pos (c * 2 ^ 13 + d))

abbrev pub IsSchedPrio : ℤ → Type 0
IsSchedPrio r = (c : ℕ) × (d : ℕ) × (1 ≤ c) × (c ≤ 3) × (d < 8) × (r ≡ pos (c * 2 ^ 13 + d))

sched_value :
    (c : ℕ) (n : ℤ)
    → 1 ≤ c
    → c ≤ 3
    → IsNice n
    → IsSchedPrio (pos (c * 2 ^ 13) +ℤ div_ℕ (n +ℤ pos 20) 5)
sched_value c n lo hi (k, bound, e) = rw e (c, k / 5, lo, hi, omega arith, sum_pos)
  where
    sum_pos : pos (c * 2 ^ 13) +ℤ pos (k / 5) ≡ pos (c * 2 ^ 13 + k / 5)
    sum_pos = pos-+ℤ-pos (c * 2 ^ 13) (k / 5)

-- A priority whose class is not NONE.
class_not_none :
    (r : ℤ) → is_neg r ≡ false → same_int (io_class_of r) (pos ioprio_class_none) ≡ false → IsPrio r
class_not_none (pos n) p h =
    (n / 2 ^ 13, n % 2 ^ 13, ground arith, omega arith, ap pos (omega arith))
class_not_none (negsuc n) p h = cc

IsSchedPrio-IsPrio : (r : ℤ) → IsSchedPrio r → IsPrio r
IsSchedPrio-IsPrio r (c, d, lo, hi, small, e) = (c, d, lo, omega arith, e)

module _ (os : Os) (task_id : ℤ) (nice : (t : Trace) → IsNice (os.getpriority t task_id)) where
  -- Where `getpriority` gives a nice value between -20 and 19, the priority that is taken from the
  -- scheduler has one of the classes 1 to 3 and a level below 8.
  pub from_sched-IsSchedPrio :
      (t : Trace) → Returns (get_task_io_priority_from_sched os task_id t) (λ r _. IsSchedPrio r)
  unfolding get_task_io_priority_from_sched
  from_sched-IsSchedPrio t =
      Returns-if P (same_int scheduler os.sched_fifo || same_int scheduler os.sched_rr) _ _ _
        (λ _. sched_value 1 n (omega arith) (omega arith) (nice _))
        (λ _.
          Returns-if P (same_int scheduler os.sched_idle) _ _ _
            (λ _. (3, 0, omega arith, omega arith, omega arith, refl))
            (λ _. sched_value 2 n (omega arith) (omega arith) (nice _)))
    where
      scheduler : ℤ
      scheduler = os.sched_getscheduler t task_id

      n : ℤ
      n = os.getpriority (sched_getscheduler task_id ∷ t) task_id

      P : ℤ → Trace → Type 0
      P r _ = IsSchedPrio r

  -- Where `getpriority` gives a nice value between -20 and 19, the priority of a task is -1, or a
  -- class other than NONE with a level below 2 ^ 13.
  pub get_task_io_priority-IsPrio :
      (t : Trace) → Returns (get_task_io_priority os task_id t) (λ r _. (r ≡ negsuc 0) ⊎ IsPrio r)
  unfolding get_task_io_priority
  get_task_io_priority-IsPrio t =
      Returns-if P (is_neg r) _ _ _ (λ _. inl refl)
        (λ nonneg.
          Returns-if P (same_int (io_class_of r) (pos ioprio_class_none)) _ _ _
            (λ _.
              Returns-mono _ P _ (from_sched-IsSchedPrio _) (λ a _ h. inr (IsSchedPrio-IsPrio a h)))
            (λ known. inr (class_not_none r nonneg known)))
    where
      r : ℤ
      r = os.ioprio_get t ioprio_who_process task_id

      P : ℤ → Trace → Type 0
      P a _ = (a ≡ negsuc 0) ⊎ IsPrio a
