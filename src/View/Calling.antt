-- ===== src/View/Calling.antt =====
-- The calls of the view.
use iotop_cpp.Base.{ℕ, ◌+◌, ◌-◌, [], ◌∷◌, leb, Option-cases, inl, inr}
use iotop_cpp.Text.{Text}
use iotop_cpp.Float.{Float}
use iotop_cpp.Run.{Call, print_at, max_yx, draw, clear, sleep}
use iotop_cpp.Run.Calls.{Calls, GoesOn-refl, GoesOn-call, Only-call, Only-bind, Only-if}
use iotop_cpp.Os.{Os}
use iotop_cpp.Task.{Table, SystemIoInfo}
use iotop_cpp.View.{header_line, summary_line, task_line, print_tasks, print_body, draw_data}

module _ (P : Call → Type 0) (print : (y : ℕ) (s : Text) → P (print_at y 0 s)) (measure : P max_yx)
    (F : Float) where
  print_tasks-Calls :
      (max_y y_line : ℕ) (tasks : Table F) → Calls P (print_tasks F max_y y_line tasks)
  unfolding print_tasks
  print_tasks-Calls max_y y_line [] t = GoesOn-refl P t
  print_tasks-Calls max_y y_line ((k, task) ∷ tasks) t =
      Only-if P (leb max_y (y_line - 1)) _ _ t (GoesOn-refl P t)
        (elim (Option-cases (task_line F task)) [
          | inl e ↦ rw e tt
          | inr (s, e) ↦ rw e (
              Only-call P (print_at y_line 0 s) t _ (print y_line s)
                (print_tasks-Calls max_y (y_line + 1) tasks _))
        ])

  pub print_body-Calls : (os : Os) (tasks : Table F) → Calls P (print_body F os tasks)
  unfolding print_body
  print_body-Calls os tasks t =
      Only-call P (print_at 1 0 header_line) t _ (print 1 header_line)
        (Only-call P max_yx _ _ measure (print_tasks-Calls _ 2 tasks _))

  pub draw_data-Calls :
      P draw
      → P clear
      → P (sleep 1)
      → (os : Os) (stats : SystemIoInfo F) → Calls P (draw_data F os stats)
  unfolding draw_data
  draw_data-Calls p q r os stats t =
      let summary = summary_line F stats.curr_disk_read_b_s stats.curr_disk_write_b_s in
      Only-call P (print_at 0 0 summary) t _ (print 0 summary) (
        Only-bind P _ (print_body F os stats.task_io_stats_table _) _
          (print_body-Calls os stats.task_io_stats_table _)
          (λ _ u.
            GoesOn-call P draw u _ p
              (GoesOn-call P clear _ _ q (GoesOn-call P (sleep 1) _ _ r (GoesOn-refl P _)))))
