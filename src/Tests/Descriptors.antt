-- ===== src/Tests/Descriptors.antt =====
-- A machine whose descriptors and streams are all new: each is numbered by the calls before. Its socket
-- refuses bytes now and then.
use iotop_cpp.Base.{
  ℕ, ◌≤◌, ◌≡◌, refl, sym, ◌∙◌, ◌⊎◌, false, ◌++◌, ℤ, List, [], ◌∷◌, some, arith, length, pos, negsuc,
  elem, remove,
}
use iotop_cpp.Text.{Text, until_nul}
use iotop_cpp.Run.{Trace, Returns, fopen, fclose, openat, closedir, close, socket, sendto}
use iotop_cpp.Os.{Os}
use iotop_cpp.Proc.Descriptors.{held, files, IsFresh}
use iotop_cpp.Proc.Lengths.{IsShortLine}
use iotop_cpp.Run.Ends.{AtEnd, Any, AtEnd-Any, AtEnd-bind}
use iotop_cpp.Netlink.{netlink_msg, read_at}
use iotop_cpp.Netlink.Socket
use iotop_cpp.Netlink.Socket.{
  init_sock, init_netlink_family_id, send_netlink_cmd, send_loop, read_family_id,
}
use iotop_cpp.Monitor
use iotop_cpp.View
use iotop_cpp.Runner
use iotop_cpp.Runner.{run, main}
use iotop_cpp.Runner.Answers.{Answers}
use iotop_cpp.Runner.Holding.{Holds, main-held}
use iotop_cpp.Netlink.Start.{IsFamilyAnswer}
use iotop_cpp.Netlink.Sending.{stream, family_request}
use iotop_cpp.Tests.Setting.{whole}
use iotop_cpp.Tests.Linux.{linux, linux-IsLinux}
use iotop_cpp.Tests.Messages.{hesitant, left, hesitant-IsPatient, room}
use iotop_cpp.Tests.Connections.{name-HasRoom}
use iotop_cpp.Tests.Kernel.{answer_to, answers_request, answers_family}

abbrev numbering : Os
numbering = record hesitant {
  fopen = λ t path. some (length t);
  openat = λ t path. some (length t);
  socket = λ t. some (length t);
  recv = λ t fd. answer_to (stream hesitant t);
}

elem-remove : (k x : ℕ) (xs : List ℕ) → elem k xs ≡ false → elem k (remove x xs) ≡ false
elem-remove k x [] h = refl
elem-remove k x (y ∷ xs) h = ground (arith, h, elem-remove k x xs)

held_later : (t : Trace) (k : ℕ) → length t ≤ k → elem k (held numbering t) ≡ false
held_later [] k h = refl
held_later (openat path ∷ t) k h = ground (arith, held_later t k)
held_later (socket ∷ t) k h = ground (arith, held_later t k)
held_later (closedir fd ∷ t) k h =
    elem-remove k fd (held numbering t) (held_later t k (omega arith))
held_later (close fd ∷ t) k h = elem-remove k fd (held numbering t) (held_later t k (omega arith))
held_later (_ ∷ t) k h = held_later t k (omega arith)

files_later : (t : Trace) (k : ℕ) → length t ≤ k → elem k (files numbering t) ≡ false
files_later [] k h = refl
files_later (fopen path ∷ t) k h = ground (arith, files_later t k)
files_later (fclose fp ∷ t) k h =
    elem-remove k fp (files numbering t) (files_later t k (omega arith))
files_later (_ ∷ t) k h = files_later t k (omega arith)

numbering-IsFresh : IsFresh numbering
numbering-IsFresh = record {
  dirs = λ t path fd e. held_later t fd (ground (arith, e));
  streams = λ t path fp e. files_later t fp (ground (arith, e));
  sockets = λ t fd e. held_later t fd (ground (arith, e));
}

short_lines : (t : Trace) (fp : ℕ) → IsShortLine 128 (numbering.getline t fp)
unfolding until_nul
short_lines t fp = omega arith

stream-numbering : (t : Trace) → stream numbering t ≡ stream hesitant t
stream-numbering [] = refl
stream-numbering (sendto fd buf ∷ t) = rw (stream-numbering t) refl
stream-numbering (_ ∷ t) = stream-numbering t

numbering_families :
    (fd : ℤ) (pid : ℕ) (s : Text) (u : Trace)
    → stream numbering u ≡ s ++ family_request linux pid
    → IsFamilyAnswer linux (numbering.recv u fd)
numbering_families fd pid s u e =
    answers_family pid s (stream hesitant u) (sym (stream-numbering u) ∙ e)

numbering-Answers : Answers numbering linux 2100
numbering-Answers = record {
  linux = linux-IsLinux;
  room = room;
  ready = λ fd. record {
    bound = 1;
    patience = left;
    patient = record {
      bounded = (hesitant-IsPatient fd).bounded;
      answers = (hesitant-IsPatient fd).answers;
    };
    enough = omega arith;
  };
  answers =
      λ this id s u e. answers_request this id s (stream hesitant u) (sym (stream-numbering u) ∙ e);
  names = λ t uid. omega arith;
  lines = short_lines;
}

-- There the program starts, and gives 0 after its rounds.
main-numbering : (n : ℕ) → AtEnd (main whole numbering linux 2100 n []) (λ r _. r.0 ≡ pos 0)
unfolding main Runner.init Monitor.init View.init Socket.init init_sock init_netlink_family_id
    send_netlink_cmd send_loop netlink_msg read_family_id read_at
main-numbering n =
    AtEnd-bind Any (λ r _. r.0 ≡ pos 0) (run whole numbering linux 2100 n _ _) _ (AtEnd-Any _)
      (λ last w h. refl)

main-held_example : Returns (main whole numbering linux 2100 2 []) (λ r w.
    (r.0 ≡ negsuc 0)
    ⊎ ((r.0 ≡ pos 0) × ((fd : ℕ) × (numbering.socket [] ≡ some fd) × Holds numbering [] fd w)))
main-held_example =
    main-held whole numbering linux 2100 numbering-Answers name-HasRoom numbering_families
      numbering-IsFresh 2 []
