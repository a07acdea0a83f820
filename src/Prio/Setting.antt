-- ===== src/Prio/Setting.antt =====
-- A priority that is set, read back and shown.
use iotop_cpp.Base.{
  ℕ, ◌+◌, ◌*◌, ◌/◌, ◌^◌, ◌≤◌, ◌<◌, ◌≡◌, refl, false, some, arith, leb, ℤ, pos, ◌∷◌, bit_or_fields,
}
use iotop_cpp.Run.{Trace, Returns, ◌>>◌, ioprio_set}
use iotop_cpp.Os.{Os}
use iotop_cpp.Prio.{
  set_io_prio, get_task_io_priority, convert_io_prio_to_str, same_int, io_class_of,
  ioprio_class_none, ioprio_who_process,
}
use iotop_cpp.Prio.Print.{shown, convert_io_prio_to_str-shown}

module _ (os : Os) (who : ℤ)
    (kept : (c d : ℕ) (t : Trace)
      → 1 ≤ c
      → c ≤ 3
      → d < 8
      → os.ioprio_set t ≡ pos 0
      → os.ioprio_get
          (ioprio_set (pos ioprio_who_process) who (c * 2 ^ 13 + d) ∷ t)
          ioprio_who_process
          who
        ≡ pos (c * 2 ^ 13 + d))
    (c d : ℕ) (known : 1 ≤ c) (few : c ≤ 3) (fits : d < 8) where
  class_test : same_int (io_class_of (pos (c * 2 ^ 13 + d))) (pos ioprio_class_none) ≡ false
  class_test = let e : (c * 2 ^ 13 + d) / 2 ^ 13 ≡ c = omega arith in rw e (ground arith)

  no_overflow : leb (2 ^ 18) c ≡ false
  no_overflow = ground arith

  -- Where the kernel gives back a priority that `ioprio_set` has just accepted, for the classes 1
  -- to 3 and the levels 0 to 7, such a class and level that are set by `set_io_prio` for a process,
  -- and accepted, are what `get_task_io_priority` reads, and are shown by the class and the level.
  pub set_io_prio-get :
      (t : Trace)
      → os.ioprio_set t ≡ pos 0
      → Returns
          ((do set_io_prio os (pos ioprio_who_process) who c d; get_task_io_priority os who) t)
          (λ r _. (r ≡ pos (c * 2 ^ 13 + d)) × (convert_io_prio_to_str r ≡ some (shown c d)))
  unfolding set_io_prio get_task_io_priority
  set_io_prio-get t accepted =
      let print : convert_io_prio_to_str (pos (c * 2 ^ 13 + d)) ≡ some (shown c d) =
        let in_range : leb 4 c ≡ false = ground arith in
        rw in_range at (convert_io_prio_to_str-shown c d (omega arith)) in
      rw no_overflow (
        rw (bit_or_fields 13 c d (omega arith), kept c d t known few fits accepted)
          (rw class_test (refl, print)))
