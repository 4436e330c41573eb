-- ===== src/Ipc/LostWakeup.antt =====
-- A run of `Ipc` in which a writer is killed between two rounds of `pipewrite`.
use increase_ipc_throughput.Base.{
  ℕ, zero, suc, ◌+◌, ◌<◌, ◌≡◌, refl, arith, Bool, true, false, none, List, [], ◌∷◌, pos, length,
  replicate, ◌≢◌,
}
use increase_ipc_throughput.User.{UserSpace}
use increase_ipc_throughput.Pipe.{Version, v1, v2, v3, v4, lazy, pipe_total, used}
use increase_ipc_throughput.Proc.{running, Table}
use increase_ipc_throughput.Proc.Asleep.{asleep}
use increase_ipc_throughput.Ipc.{System, rd, outside, start, here, wr}
use increase_ipc_throughput.Ipc.Schedule.{Act, writes, reads, goes, kills_pid, Run, run}
use increase_ipc_throughput.Layout.{chan_pos}

-- A memory of zeros where every copy succeeds.
pub length-zeros : (n : ℕ) → length (replicate {A = ℕ} n 0) ≡ n
length-zeros zero = refl
length-zeros (suc n) = omega (arith, length-zeros n)

abbrev pub zeros : UserSpace
zeros = record {
  Space = Unit {0};
  copyin = λ s addr len. (true, replicate len 0, tt);
  copyout = λ s addr bytes. (true, tt);
  length-copyin_ok = λ s addr len h. length-zeros len;
  length-copyin_le = λ s addr len. omega (arith, length-zeros len);
}

-- Process `i` runs and has pid `i + 1`.
abbrev pub all_run : Table
all_run i = record { state = running; chan = 0; killed = false; pid = i + 1; priority = 0 }

pub idle :
    (v : Version) (kills : Bool)
    → (0 ≢ rd zeros v 4096) × (0 ≢ wr zeros v 4096) × (kills ≡ false → ◌≡◌ {A = Bool} false false)
idle v kills = (omega (arith, chan_pos v 4096), omega (arith, chan_pos v 4096), λ h. refl)

-- A run from the start, with all processes outside.
unfoldable pub played : (v : Version) (kills : Bool) → List Act → Run zeros v 4096 kills
unfolding run
played v kills acts =
    run zeros v 4096 kills
      (record { last = _; reach = here (start (λ _. 0) all_run (λ _. tt) (λ i. idle v kills)) })
      acts

-- 96 bytes go through the pipe; process 0 waits for more; process 1 writes 5000, and is killed
-- after the first round.
abbrev pub until_killed : List Act
until_killed =
    writes 1 (pos 96)
    ∷ goes 1
    ∷ goes 1
    ∷ goes 1
    ∷ reads 0 (pos 96)
    ∷ goes 0
    ∷ goes 0
    ∷ goes 0
    ∷ goes 0
    ∷ reads 0 (pos 10)
    ∷ goes 0
    ∷ goes 0
    ∷ writes 1 (pos 5000)
    ∷ goes 1
    ∷ goes 1
    ∷ kills_pid 2
    ∷ goes 1
    ∷ []

-- Then process 2 writes one byte.
abbrev pub one_write : List Act
one_write = writes 2 (pos 1) ∷ goes 2 ∷ goes 2 ∷ goes 2 ∷ []

-- The lock is free, the pipe holds bytes and has room, and process 0 sleeps until there are bytes.
abbrev pub Stranded : Version → System zeros → Type 0
Stranded v s =
    (s.lock ≡ none)
    × (asleep s.table 0 (rd zeros v 4096) ≡ true)
    × (0 < used s.pipe)
    × (used s.pipe < pipe_total v)

-- Process 1 was killed and has left `pipewrite`; process 2 has not called it.
abbrev pub WriterKilled : System zeros → Type 0
WriterKilled s = ((s.table 1).killed ≡ true) × (s.pc 1 ≡ outside) × (s.pc 2 ≡ outside)

-- Process 2 has put one byte into the pipe, and has left `pipewrite`.
abbrev pub WroteOne : System zeros → System zeros → Type 0
WroteOne s t =
    (t.pipe.nwrite ≡ s.pipe.nwrite + 1) × (t.pipe.nread ≡ s.pipe.nread) × (t.pc 2 ≡ outside)

unfoldable pub killed_run : (v : Version) → Run zeros v 4096 true
unfolding played
killed_run v = played v true until_killed

unfoldable pub final : (v : Version) → Run zeros v 4096 true
unfolding run
final v = run zeros v 4096 true (killed_run v) one_write

-- In the versions that skip wake-ups, a run leads to a state where a killed writer has left
-- `pipewrite` and a reader sleeps over bytes in the pipe, with the lock free; when another process
-- has then written one byte more, the reader sleeps over them still.
pub lost_wakeup :
    (v : Version)
    → lazy v ≡ true
    → (r : Run zeros v 4096 true) × WriterKilled r.last
      × Stranded v r.last
      × WroteOne r.last (run zeros v 4096 true r one_write).last
      × Stranded v (run zeros v 4096 true r one_write).last
unfolding killed_run run played
lost_wakeup v1 h = cc
lost_wakeup v2 h = cc
lost_wakeup v3 h = cc
lost_wakeup v4 h = cc
lost_wakeup v h = (
  killed_run v,
  (refl, refl, refl),
  (refl, refl, omega arith, omega arith),
  (omega arith, omega arith, refl),
  (refl, refl, omega arith, omega arith),
)
