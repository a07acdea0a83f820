-- ===== src/Netlink/Replies.antt =====
-- The reply of the kernel for one task.
use mathlib.Core.List.{append_assoc}
use iotop_cpp.Base.{
  ℕ, zero, suc, ◌+◌, ◌-◌, ◌^◌, ◌≤◌, ◌<◌, ◌≡◌, ◌≢◌, refl, ◌∙◌, true, ◌++◌, arith, lt→ltb, ◌==◌, ◌||◌,
  length, length-append,
}
use iotop_cpp.Text.{Text}
use iotop_cpp.Float.{Float}
use iotop_cpp.Run.{Trace, done}
use iotop_cpp.Abi.{Abi, IsLinux}
use iotop_cpp.Task.{TaskIoInfo}
use iotop_cpp.Netlink.{genlmsg_data, with_stats, read_aggr, read_reply}
use iotop_cpp.Netlink.Offsets.{Stands, Stands-behind, le→ltb_false}
use iotop_cpp.Netlink.Reading.{
  attr_at, read_stats_other, read_stats_found, read_aggr_step, read_aggr_end, read_reply_end,
}

module _ (abi : Abi) where
  -- The layout of a kernel's reply for a task: one aggregate, which holds the number of the task and
  -- its statistics.
  pub record IsReply (msg : Text) (aggr lb id_type : ℕ) (id : Text) (lc : ℕ) (ts : Text)
      : Type 0 where
    pub stands : Stands msg (genlmsg_data abi) (
        abi.put_nlattr (abi.nla_hdrlen + (abi.nla_align lb + abi.nla_align lc)) aggr
        ++ (abi.put_nlattr lb id_type
            ++ (id ++ (abi.put_nlattr lc abi.taskstats_type_stats ++ ts))))
    pub is_aggr :
        (aggr == abi.taskstats_type_aggr_tgid || aggr == abi.taskstats_type_aggr_pid) ≡ true
    pub id_size : abi.nla_hdrlen + length id ≡ abi.nla_align lb
    pub stats_size : abi.end_of_write_bytes ≤ length ts
    pub positive : (0 < lb) × (0 < lc)
    pub short :
        (abi.nla_hdrlen + (abi.nla_align lb + abi.nla_align lc) < 2 ^ 16)
        × (lb < 2 ^ 16)
        × (lc < 2 ^ 16)
    pub types : (aggr < 2 ^ 16) × (id_type < 2 ^ 16) × (abi.taskstats_type_stats < 2 ^ 16)
    pub other : id_type ≢ abi.taskstats_type_stats

  -- The length of such a message, which is one attribute.
  abbrev pub reply_len : ℕ → ℕ → ℕ
  reply_len lb lc = abi.nla_align (abi.nla_hdrlen + (abi.nla_align lb + abi.nla_align lc))

module _ (F : Float) (abi : Abi) (linux : IsLinux abi) where
  module _ (msg : Text) (aggr lb id_type : ℕ) (id : Text) (lc : ℕ) (ts : Text)
      (reply : IsReply abi msg aggr lb id_type id lc ts) (info : TaskIoInfo F) (t : Trace) where
    abbrev first : ℕ
    first = genlmsg_data abi + abi.nla_hdrlen

    abbrev second : ℕ
    second = first + (0 + abi.nla_align lb)

    abbrev total : ℕ
    total = abi.nla_align lb + abi.nla_align lc

    first-Stands :
        Stands msg first
          (abi.put_nlattr lb id_type ++ (id ++ (abi.put_nlattr lc abi.taskstats_type_stats ++ ts)))
    first-Stands =
        Stands-behind msg (genlmsg_data abi) abi.nla_hdrlen _ _ (linux.length-nlattr _ _)
          reply.stands

    second-Stands : Stands msg second (abi.put_nlattr lc abi.taskstats_type_stats ++ ts)
    second-Stands =
        Stands-behind msg first (0 + abi.nla_align lb) (abi.put_nlattr lb id_type ++ id) _
          (omega (
            arith,
            length-append (abi.put_nlattr lb id_type) id,
            linux.length-nlattr lb id_type,
            reply.id_size,
          ))
          (rw append_assoc first-Stands)

    -- The statistics are the second attribute; the third round ends the loop.
    read_aggr_last :
        (rounds : ℕ)
        → read_aggr F abi (suc (suc rounds)) msg second (0 + abi.nla_align lb) total info t
          ≡ done (with_stats F abi ts info) t
    read_aggr_last rounds =
        read_aggr_step F abi linux (suc rounds) msg second (0 + abi.nla_align lb) total lc
          abi.taskstats_type_stats ts info (with_stats F abi ts info) t
          (lt→ltb _ _ (omega (arith, linux.align lc, reply.positive))) reply.short.2 second-Stands
          (read_stats_found F abi linux msg second lc abi.taskstats_type_stats ts info t
            second-Stands reply.types.2 refl reply.stats_size)
        ∙ read_aggr_end F abi linux rounds msg _ _ total (with_stats F abi ts info) t
            (le→ltb_false _ _ (omega arith))

    read_aggr-first :
        (rounds : ℕ)
        → read_aggr F abi (suc (suc (suc rounds))) msg first 0 total info t
          ≡ done (with_stats F abi ts info) t
    read_aggr-first rounds =
        read_aggr_step F abi linux (suc (suc rounds)) msg first 0 total lb id_type _ info info t
          (lt→ltb _ _ (omega (arith, linux.align lb, reply.positive))) reply.short.1 first-Stands
          (read_stats_other F abi linux msg first lb id_type _ info t first-Stands reply.types.1
            reply.other)
        ∙ read_aggr_last rounds

    read_aggr_whole :
        (rounds : ℕ)
        → 3 ≤ rounds
        → read_aggr F abi rounds msg first 0 total info t ≡ done (with_stats F abi ts info) t
    read_aggr_whole (suc (suc (suc rounds))) h = read_aggr-first rounds
    read_aggr_whole (suc (suc zero)) h = absurd (omega arith)
    read_aggr_whole (suc zero) h = absurd (omega arith)
    read_aggr_whole zero h = absurd (omega arith)

    -- On a reply in the kernel's layout, one aggregate that holds the number of a task and its
    -- statistics, and where the kernel's headers meet their laws, the loops come to an end within
    -- one round more than the length of the payload, read nothing outside the message, and write
    -- the statistics to the task.
    pub read_reply-IsReply :
        read_reply F abi
          (suc (reply_len abi lb lc))
          msg
          (genlmsg_data abi)
          0
          (reply_len abi lb lc)
          info
          t
        ≡ done (with_stats F abi ts info) t
    unfolding read_reply
    read_reply-IsReply =
        let behind : abi.nla_hdrlen + total - abi.nla_hdrlen ≡ total = omega arith in
        rw
          (
            lt→ltb 0 (reply_len abi lb lc) nonempty,
            attr_at F abi linux msg (genlmsg_data abi) (abi.nla_hdrlen + total) aggr _ t
                reply.stands,
          )
          (rw
            (
              linux.nla_len-put (abi.nla_hdrlen + total) aggr _ reply.short.0,
              linux.nla_type-put (abi.nla_hdrlen + total) aggr _ reply.types.0,
              reply.is_aggr,
            )
            (rw (behind, read_aggr_whole (suc (suc (suc (length msg)))) (omega arith))
              (read_reply_end F abi linux (reply_len abi lb lc) msg _ (0 + (reply_len abi lb lc))
                (reply_len abi lb lc) (with_stats F abi ts info) t nonempty
                (le→ltb_false _ _ (omega arith)))))
      where
        nonempty : 0 < (reply_len abi lb lc)
        nonempty =
            omega (arith, linux.align (abi.nla_hdrlen + total), linux.align lb, reply.positive)
