-- ===== src/Tests/Utilities.antt =====
-- The utilities on concrete inputs.
use iotop_cpp.Base.{
  All, ℕ, ◌+◌, ◌*◌, ◌^◌, ◌≡◌, refl, ◌↔◌, Bool, true, [], ◌∷◌, ◌++◌, none, some, arith, leb,
  if◌then◌else◌, pos, negsuc,
}
use mathlib.Core.List.{filter_map}
use iotop_cpp.Text.{text, decimal, until_nul, atoi}
use iotop_cpp.Run.{Trace, done, Returns, ◌>>◌}
use iotop_cpp.Prio.{
  convert_io_prio_to_str, corrupted, get_task_io_priority, set_io_prio, ioprio_who_process,
}
use iotop_cpp.Prio.Print.{shown, convert_io_prio_to_str-shown}
use iotop_cpp.Proc.{
  parse_task_name, strip_dot, get_file_first_line, get_task_cmdline, get_all_task_id,
  get_all_thread_id, task_of_entry, scan_tasks, scan_threads,
}
use iotop_cpp.Proc.Names.{NamesTask, parse_task_name_iff}
use iotop_cpp.Proc.Files.{
  FirstLine, get_file_first_line-FirstLine, Cmdline, get_task_cmdline-Cmdline,
}
use iotop_cpp.Proc.Lengths.{IsShortLine}
use iotop_cpp.Os.{Os}
use iotop_cpp.Prio.Setting.{set_io_prio-get}
use iotop_cpp.Proc.Scan.{
  pids, listed, dir_entries, HasThreads, get_all_task_id-Lists, get_all_thread_id-closings,
  closings,
}
use iotop_cpp.Tests.Setting.{machine, threads}

atoi_sign : atoi (text " -12 ") ≡ negsuc 11
unfolding atoi
atoi_sign = refl

parse_task_name_words :
    (parse_task_name (text "42x") ≡ none) × (parse_task_name (text "self") ≡ none)
unfolding parse_task_name
parse_task_name_words = (refl, refl)

get_all_task_id_machine :
    (u : Trace) × (get_all_task_id machine Bool.false [] ≡ done ((42, 42 ∷ 43 ∷ []) ∷ []) u)
unfolding get_all_task_id scan_tasks scan_threads task_of_entry get_all_thread_id filter_map decimal
get_all_task_id_machine = (_, refl)

convert_io_prio_to_str-shown_example :
    convert_io_prio_to_str (pos (2 * 2 ^ 13 + 4)) ≡ some (if leb 4 2 then corrupted else shown 2 4)
convert_io_prio_to_str-shown_example = convert_io_prio_to_str-shown 2 4 (omega arith)

parse_task_name_iff_example :
    (parse_task_name (text ".42") ≡ some 42) ↔ NamesTask 42 (strip_dot (text ".42"))
parse_task_name_iff_example = parse_task_name_iff (text ".42") 42

get_file_first_line-FirstLine_example :
    Returns
      (get_file_first_line machine (text "/proc/42/cmdline") [] [])
      (FirstLine machine (text "/proc/42/cmdline") [] [])
get_file_first_line-FirstLine_example =
    get_file_first_line-FirstLine machine (text "/proc/42/cmdline") [] []

get_task_cmdline-Cmdline_example : Returns (get_task_cmdline machine (pos 42) true [] []) Cmdline
get_task_cmdline-Cmdline_example = get_task_cmdline-Cmdline machine (pos 42) true [] []

get_all_task_id-Lists_example : Returns (get_all_task_id machine Bool.false []) (λ tasks _.
    (pids tasks ≡ listed machine (dir_entries machine [] (text "/proc")))
    × All (HasThreads machine Bool.false) tasks)
get_all_task_id-Lists_example = get_all_task_id-Lists machine Bool.false []

get_all_thread_id-closings_example : Returns (get_all_thread_id machine 42 []) (λ tids u.
    (tids ≡ filter_map (task_of_entry machine) threads) × (closings 4 u ≡ closings 4 [] + 2))
unfolding decimal
get_all_thread_id-closings_example = get_all_thread_id-closings machine 42 4 [] refl threads refl

short_lines : (t : Trace) (fp : ℕ) → IsShortLine 128 (machine.getline t fp)
unfolding until_nul
short_lines t fp = omega arith

set_io_prio-get_example :
    Returns
      ((do
        set_io_prio machine (pos ioprio_who_process) (pos 42) 2 4
        get_task_io_priority machine (pos 42))
        [])
      (λ r _. (r ≡ pos (2 * 2 ^ 13 + 4)) × (convert_io_prio_to_str r ≡ some (shown 2 4)))
set_io_prio-get_example =
    set_io_prio-get machine (pos 42) (λ c d t known few fits accepted. refl) 2 4 (omega arith)
      (omega arith) (omega arith) [] refl

-- A machine on which the accounting of delays is on.
abbrev accounting : Os
accounting = record machine { getline = λ t fp. some (decimal 1 ++ b'\n' ∷ 0 ∷ [], 120) }
