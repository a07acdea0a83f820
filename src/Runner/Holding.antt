-- ===== src/Runner/Holding.antt =====
-- The program leaves no more than its socket open.
use iotop_cpp.Base.{
  ℕ, ◌≡◌, refl, ap, ◌∙◌, ◌⊎◌, inl, inr, false, [], ◌∷◌, ◌++◌, some, Option-cases, Bool-cases, ℤ,
  pos, negsuc, is_neg,
}
use iotop_cpp.Text.{Text}
use iotop_cpp.Float.{Float}
use iotop_cpp.Run.{Trace, Returns, Returns-mono, socket}
use iotop_cpp.Run.Ends.{AtEnd, AtEnd-bind, Returns-AtEnd}
use iotop_cpp.Run.Within.{Along}
use iotop_cpp.Run.Calls.{Only-Within}
use iotop_cpp.Os.{Os}
use iotop_cpp.Abi.{Abi}
use iotop_cpp.Proc.Descriptors.{held, files, strays, IsFresh, Tidy, tidy}
use iotop_cpp.Netlink.{NetlinkIoStats}
use iotop_cpp.Netlink.Socket
use iotop_cpp.Netlink.Socket.{init_sock, init_netlink_family_id}
use iotop_cpp.Netlink.Request.{HasRoom}
use iotop_cpp.Netlink.Sending.{stream, family_request}
use iotop_cpp.Netlink.Start.{IsFamilyAnswer}
use iotop_cpp.Runner.{new_runner, init, run, main}
use iotop_cpp.Runner.Answers.{Answers}
use iotop_cpp.Runner.Begins.{IfFine, init-IfFine}
use iotop_cpp.Netlink.Connects.{family-Calls}
use iotop_cpp.Runner.Descriptors.{IsNeutral, run-Tidy}
use iotop_cpp.Runner.Whole.{main-IsValid}

-- One descriptor more than before, and all else the same.
abbrev pub Holds : Os → Trace → ℕ → Trace → Type 0
Holds os t fd u =
    (held os u ≡ fd ∷ held os t) × (files os u ≡ files os t) × (strays os u ≡ strays os t)

-- The socket is all that is opened, where there is one.
abbrev OpensSocket : Os → Trace → ℤ → Trace → Type 0
OpensSocket os t = IfFine (λ u. (fd : ℕ) × (os.socket t ≡ some fd) × Holds os t fd u)

module _ (os : Os) (abi : Abi) (rounds : ℕ) (fresh : IsFresh os) where
  Holds-Tidy : (t : Trace) (fd : ℕ) (u w : Trace) → Holds os t fd u → Tidy os u w → Holds os t fd w
  Holds-Tidy t fd u w (h, f, s) same =
      (ap (λ b. b.0) same ∙ h, ap (λ b. b.1.0) same ∙ f, ap (λ b. b.1.1) same ∙ s)

  init_sock-OpensSocket :
      (this : NetlinkIoStats) (t : Trace)
      → AtEnd (init_sock os abi rounds this t) (λ r u. OpensSocket os t r.0 u)
  unfolding init_sock
  init_sock-OpensSocket this t = elim (Option-cases (os.socket t)) [
    | inl e ↦ rw (e, init_sock) (λ h. cc)
    | inr (fd, e) ↦
        let t' : Trace = socket ∷ t in
        rw (e, init_sock)
          (elim (Bool-cases (os.bind t' fd)) [
            | inr failed ↦ rw failed (λ h. cc)
            | inl bound ↦ rw bound (λ h. (fd, refl, rw e (refl, refl, refl)))
          ])
  ]

  OpensSocket-if :
      (code code' : ℤ) (t u w : Trace)
      → OpensSocket os t code u
      → (is_neg code' ≡ false → is_neg code ≡ false)
      → Tidy os u w
      → OpensSocket os t code' w
  OpensSocket-if code code' t u w opened fine same h =
      let (fd, e, holds) = opened (fine h) in (fd, e, Holds-Tidy t fd u w holds same)

  family-Tidy :
      (this : NetlinkIoStats) → Along (Tidy os) (init_netlink_family_id os abi rounds this)
  family-Tidy this t =
      Only-Within (IsNeutral os) (tidy os fresh) (λ c u h. h u) t _
        (family-Calls (IsNeutral os) (λ u. refl) (λ fd buf u. refl) (λ fd u. refl) os abi rounds
          this t)

  init-OpensSocket :
      (this : NetlinkIoStats) (t : Trace)
      → AtEnd (Socket.init os abi rounds this t) (λ r u. OpensSocket os t r.0 u)
  unfolding Socket.init
  init-OpensSocket this t =
      AtEnd-bind (λ r u. OpensSocket os t r.0 u) (λ r u. OpensSocket os t r.0 u)
        (init_sock os abi rounds this t) _ (init_sock-OpensSocket this t)
        (λ r u opened. elim (Bool-cases (is_neg r.0)) [
          | inl failed ↦ rw failed (λ h. cc)
          | inr fine ↦ rw fine (
              AtEnd-bind (λ _ v. Tidy os u v) (λ r v. OpensSocket os t r.0 v)
                (init_netlink_family_id os abi rounds r.1 u) _ (family-Tidy r.1 u)
                (λ r' v same. OpensSocket-if r.0 _ t u v opened (λ _. fine) same))
        ])

module _ (F : Float) (os : Os) (abi : Abi) (rounds : ℕ) (fresh : IsFresh os) where
  main-OpensSocket :
      (n : ℕ) (t : Trace) → AtEnd (main F os abi rounds n t) (λ r w. OpensSocket os t r.0 w)
  unfolding main
  main-OpensSocket n t =
      let new = new_runner F os abi rounds in
      AtEnd-bind (λ r u. OpensSocket os t r.0 u) (λ r u. OpensSocket os t r.0 u)
        (init F os abi rounds new t) _
        (init-IfFine F os abi rounds (λ u. (fd : ℕ) × (os.socket t ≡ some fd) × Holds os t fd u)
          (λ u holds. holds) new t (init-OpensSocket os abi rounds fresh new.netlink_io_obj t))
        (λ r u opened. elim (Bool-cases (is_neg r.0)) [
          | inl failed ↦ rw failed (λ h. cc)
          | inr fine ↦ rw fine (
              AtEnd-bind (λ _ v. Tidy os u v) (λ r v. OpensSocket os t r.0 v)
                (run F os abi rounds n r.1 u) _ (run-Tidy F os abi rounds fresh n r.1 u)
                (λ _ v same.
                  OpensSocket-if os abi rounds fresh r.0 (pos 0) t u v opened (λ _. fine) same))
        ])

module _ (F : Float) (os : Os) (abi : Abi) (rounds : ℕ) (good : Answers os abi rounds)
    (room : HasRoom abi (abi.taskstats_genl_name ++ (0 ∷ [])))
    (families : (fd : ℤ) (pid : ℕ) (s : Text) (u : Trace)
      → stream os u ≡ s ++ family_request abi pid
      → IsFamilyAnswer abi (os.recv u fd))
    (fresh : IsFresh os) where
  -- On a Linux kernel (the kernel's headers meet their laws, the payload of a request has room and
  -- the rounds suffice for a message, the socket takes at least one byte of what it is offered,
  -- unless it takes none and asks to try again, which it does a bounded number of times in a row,
  -- when the last that the socket has taken is a request for the statistics of a task, what is
  -- received is nothing, a message that is cut off or an error, or a message that can be read (as
  -- far as its payload, the headers of its attributes lie within the buffer, and within each
  -- aggregate, at the places where the inner loop looks, the headers and the fields of the
  -- statistics that are read do, until the lengths add up), and user names and first lines are no
  -- longer than 128 bytes), and where, when the last that the socket has taken is the request for
  -- the family, what is received is nothing, a message that is cut off or an error, or has room for
  -- the two attributes that a family is read from, and where a descriptor or a stream that the
  -- system opens is not one that the program has open, the program with n rounds of its loop comes
  -- back, for every n: with -1, or with 0, and then the descriptors that it has open are those from
  -- before and the socket that it was given, the streams are those from before, and no call of
  -- fdopendir, readdir, closedir, getline or fclose was given a descriptor or a stream that was not
  -- open.
  pub main-held :
      (n : ℕ) (t : Trace)
      → Returns (main F os abi rounds n t) (λ r w.
        (r.0 ≡ negsuc 0) ⊎ ((r.0 ≡ pos 0) × ((fd : ℕ) × (os.socket t ≡ some fd) × Holds os t fd w)))
  main-held n t =
      Returns-mono _ _ (main F os abi rounds n t)
        (Returns-AtEnd _ _ (main F os abi rounds n t)
          (main-IsValid F os abi rounds good room families n t)
          (main-OpensSocket F os abi rounds fresh n t))
        (λ r w (ended, opened). elim ended.0 [
          | inl failed ↦ inl failed
          | inr fine ↦ inr (fine, opened (rw fine refl))
        ])
