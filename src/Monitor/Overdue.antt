-- ===== src/Monitor/Overdue.antt =====
-- The marks of the tasks in the table.
use iotop_cpp.Base.{
  Bool, ℕ, ◌≡◌, refl, true, false, [], ◌∷◌, Option, none, some, arith, ==_iff, if◌then◌else◌, All,
  ◌⊎◌, inl, inr,
}
use iotop_cpp.Float.{Float}
use iotop_cpp.Task.{TaskIoInfo, Table, lookup, is_none}
use iotop_cpp.Task.Table.{NodupKeys}
use iotop_cpp.Monitor.{set_task_state_overdue, remove_overdue_task}

module _ {F : Float} where
  kept :
      (P : ℕ × TaskIoInfo F → Type 0) (entry : ℕ × TaskIoInfo F)
      → entry.1.is_updated ≡ true
      → (entry.1.is_updated ≡ false) ⊎ P entry
      → P entry
  kept P entry marked (inl overdue) = cc
  kept P entry marked (inr h) = h

  -- The value, if it is marked as updated.
  abbrev pub live : Option (TaskIoInfo F) → Option (TaskIoInfo F)
  live none = none
  live (some i) = if i.is_updated then some i else none

  pub lookup-set_task_state_overdue :
      (k : ℕ) (table : Table F)
      → (is_none (lookup k (set_task_state_overdue table)) ≡ is_none (lookup k table))
        × (live (lookup k (set_task_state_overdue table)) ≡ none)
  unfolding set_task_state_overdue lookup
  lookup-set_task_state_overdue k [] = (refl, refl)
  lookup-set_task_state_overdue k ((j, i) ∷ table) =
      ground (arith, lookup-set_task_state_overdue k table)

  pub set_task_state_overdue-NodupKeys :
      (table : Table F) → NodupKeys table → NodupKeys (set_task_state_overdue table)
  unfolding set_task_state_overdue
  set_task_state_overdue-NodupKeys [] u = tt
  set_task_state_overdue-NodupKeys ((k, i) ∷ table) u = (
    ground (arith, lookup-set_task_state_overdue k table),
    set_task_state_overdue-NodupKeys table u.1,
  )

  pub lookup-remove_overdue_task :
      (k : ℕ) (table : Table F)
      → NodupKeys table
      → lookup k (remove_overdue_task table) ≡ live (lookup k table)
  unfolding remove_overdue_task lookup
  lookup-remove_overdue_task k [] u = refl
  lookup-remove_overdue_task k ((j, i) ∷ table) u =
      ground (arith, lookup-remove_overdue_task k table u.1, ==_iff j k)

  pub remove_overdue_task-NodupKeys :
      (table : Table F) → NodupKeys table → NodupKeys (remove_overdue_task table)
  unfolding remove_overdue_task
  remove_overdue_task-NodupKeys [] u = tt
  remove_overdue_task-NodupKeys ((k, i) ∷ table) u =
      ground
        (arith, lookup-remove_overdue_task k table u.1, remove_overdue_task-NodupKeys table u.1)

  -- The entries for which P holds, if they are marked as updated.
  abbrev pub UnlessOverdue : (ℕ × TaskIoInfo F → Type 0) → ℕ × TaskIoInfo F → Type 0
  UnlessOverdue P entry = (entry.1.is_updated ≡ false) ⊎ P entry

  pub All-set_task_state_overdue :
      (P : ℕ × TaskIoInfo F → Type 0) (table : Table F)
      → All (UnlessOverdue P) (set_task_state_overdue table)
  unfolding set_task_state_overdue
  All-set_task_state_overdue P [] = tt
  All-set_task_state_overdue P ((k, i) ∷ table) = (inl refl, All-set_task_state_overdue P table)

  pub All-if :
      (P : ℕ × TaskIoInfo F → Type 0) (b : Bool) (entry : ℕ × TaskIoInfo F) (rest : Table F)
      → (b ≡ true → P entry)
      → All P rest
      → All P (if b then entry ∷ rest else rest)
  All-if P true entry rest h all = (h refl, all)
  All-if P false entry rest h all = all

  pub All-remove_overdue_task :
      (P : ℕ × TaskIoInfo F → Type 0) (table : Table F)
      → All (UnlessOverdue P) table
      → All (λ entry. P entry × (entry.1.is_updated ≡ true)) (remove_overdue_task table)
  unfolding remove_overdue_task
  All-remove_overdue_task P [] h = tt
  All-remove_overdue_task P ((k, i) ∷ table) h =
      All-if _ i.is_updated (k, i) _ (λ marked. (kept P (k, i) marked h.0, marked))
        (All-remove_overdue_task P table h.1)
