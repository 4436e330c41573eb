-- ===== src/Tests/IpcTests.antt =====
-- The theorems on interleaved processes at runs of v7.
use increase_ipc_throughput.Base.{◌≤◌, ◌≡◌, refl, arith, true, false, [], ◌∷◌, ◌++◌, pos}
use increase_ipc_throughput.Pipe.{v7, pipe_total, used, bytewise}
use increase_ipc_throughput.Pipe.Contents.{contents}
use increase_ipc_throughput.Proc.Asleep.{asleep}
use increase_ipc_throughput.Ipc.{rd, wr}
use increase_ipc_throughput.Ipc.Safety.{stream_intact, no_lost_wakeup, never_both_asleep}
use increase_ipc_throughput.Ipc.Schedule.{reads, goes, Run, run}
use increase_ipc_throughput.Ipc.LostWakeup.{
  zeros, played, final, killed_run, one_write, Stranded, WriterKilled, WroteOne, lost_wakeup,
}

-- Process 0 waits for bytes.
abbrev waiting : Run zeros v7 4096 false
unfolding played
waiting = played v7 false (reads 0 (pos 10) ∷ goes 0 ∷ goes 0 ∷ [])

stream_intact_example :
    ((final v7).last.sent ≡ (final v7).last.left ++ contents v7 (final v7).last.pipe)
    × (used (final v7).last.pipe ≤ pipe_total v7)
    × (bytewise v7 ≡ false → (final v7).last.got ≡ (final v7).last.left)
stream_intact_example = stream_intact zeros v7 4096 true (final v7).reach

no_lost_wakeup_example :
    (asleep waiting.last.table 0 (wr zeros v7 4096) ≡ true
      → (used waiting.last.pipe ≡ 4096) × (waiting.last.pipe.readopen ≡ true))
    × (asleep waiting.last.table 0 (rd zeros v7 4096) ≡ true → waiting.last.pipe.writeopen ≡ true)
    × (false ≡ false
        → asleep waiting.last.table 0 (rd zeros v7 4096) ≡ true
        → used waiting.last.pipe ≡ 0)
unfolding played
no_lost_wakeup_example = no_lost_wakeup zeros v7 4096 false waiting.reach refl 0 (omega arith)

never_both_asleep_example : asleep (final v7).last.table 1 (wr zeros v7 4096) ≡ false
unfolding final killed_run run played
never_both_asleep_example =
    never_both_asleep zeros v7 4096 true (final v7).reach 0 1 (omega arith) (omega arith) refl

lost_wakeup_example :
    (r : Run zeros v7 4096 true) × WriterKilled r.last
    × Stranded v7 r.last
    × WroteOne r.last (run zeros v7 4096 true r one_write).last
    × Stranded v7 (run zeros v7 4096 true r one_write).last
lost_wakeup_example = lost_wakeup v7 refl
