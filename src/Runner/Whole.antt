-- ===== src/Runner/Whole.antt =====
-- The program from its start, on a Linux kernel.
use iotop_cpp.Base.{ℕ, ◌≡◌, refl, ◌⊎◌, inl, inr, [], ◌∷◌, ◌++◌, ℤ, pos, negsuc, is_neg, Bool-cases}
use iotop_cpp.Text.{Text}
use iotop_cpp.Float.{Float}
use iotop_cpp.Run.{Trace, Returns, Returns-done, Returns-if}
use iotop_cpp.Os.{Os}
use iotop_cpp.Abi.{Abi}
use iotop_cpp.Netlink.{new_netlink}
use iotop_cpp.Netlink.Socket
use iotop_cpp.Netlink.Request.{HasRoom}
use iotop_cpp.Netlink.Sending.{stream, family_request}
use iotop_cpp.Netlink.Start.{IsFamilyAnswer}
use iotop_cpp.Netlink.Connection.{init-IsConnected}
use iotop_cpp.Monitor
use iotop_cpp.Monitor.Collect.{IsValid}
use iotop_cpp.View
use iotop_cpp.Runner.{sources, IoRunner, new_runner, init, run, main}
use iotop_cpp.Runner.Answers.{Answers}
use iotop_cpp.Runner.Rounds.{run-IsValid}

module _ (F : Float) (os : Os) (abi : Abi) (rounds : ℕ) (good : Answers os abi rounds)
    (room : HasRoom abi (abi.taskstats_genl_name ++ (0 ∷ [])))
    (families : (fd : ℤ) (pid : ℕ) (s : Text) (u : Trace)
      → stream os u ≡ s ++ family_request abi pid
      → IsFamilyAnswer abi (os.recv u fd)) where
  abbrev Started : ℤ × IoRunner F os abi rounds → Trace → Type 0
  Started r _ = ((r.0 ≡ negsuc 0) ⊎ (r.0 ≡ pos 0)) × IsValid r.1

  monitor-Started :
      (t : Trace)
      → Returns (Monitor.init F (sources F os abi rounds) (new_runner F os abi rounds) t) Started
  unfolding Monitor.init
  monitor-Started t =
      let (r, u, e, _) =
        Returns-done _ (Socket.init os abi rounds new_netlink t)
          (init-IsConnected os abi good.linux rounds good.ready room families new_netlink t) in
      rw e (elim (Bool-cases (is_neg r.0)) [
        | inl failed ↦ rw failed (inl refl, record { distinct = tt; shown = tt })
        | inr fine ↦ rw fine (inr refl, record { distinct = tt; shown = tt })
      ])

  pub init-Started :
      (t : Trace) → Returns (init F os abi rounds (new_runner F os abi rounds) t) Started
  unfolding init View.init
  init-Started t =
      let (r, u, e, (code, valid)) =
        Returns-done Started
          (Monitor.init F (sources F os abi rounds) (new_runner F os abi rounds) t)
          (monitor-Started t) in
      rw e (Returns-if Started (is_neg r.0) _ _ u (λ _. (inl refl, valid)) (λ _. (inr refl, valid)))

  -- Where the environment answers as `Answers` says, and the request for the family as
  -- `IsFamilyAnswer` says, the program with n rounds of its loop comes back, for every n, with -1 or 0
  -- and a valid table.
  pub main-IsValid :
      (n : ℕ) (t : Trace)
      → Returns (main F os abi rounds n t) (λ r _. ((r.0 ≡ negsuc 0) ⊎ (r.0 ≡ pos 0)) × IsValid r.1)
  unfolding main
  main-IsValid n t =
      let (r, u, e, (code, valid)) =
        Returns-done Started (init F os abi rounds (new_runner F os abi rounds) t)
          (init-Started t) in
      rw e (
        Returns-if Started (is_neg r.0) _ _ u (λ _. (inl refl, valid))
          (λ _.
            let (next, v, d, valid') =
              Returns-done _ (run F os abi rounds n r.1 u)
                (run-IsValid F os abi rounds good n r.1 u valid) in
            rw d (inr refl, valid')))
