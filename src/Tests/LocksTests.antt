-- ===== src/Tests/LocksTests.antt =====
-- The theorems on kernel/spinlock.c and kernel/sleeplock.c where one has the lock.
use increase_ipc_throughput.Base.{ℕ, ◌<◌, ◌≡◌, ◌≢◌, refl, arith, true, false}
use increase_ipc_throughput.Locks.{
  Cpu, critical, panicked, Spin, acquire_start, acquire_swap, acquire_end, initlock, Reach,
  start_acquire, swap, end_acquire, here, next,
}
use increase_ipc_throughput.Locks.Nesting.{nothing, pair, calls, Restores, calls-Restores}
use increase_ipc_throughput.Locks.Exclusion.{at_most_one}
use increase_ipc_throughput.Pipe.{v7}
use increase_ipc_throughput.Proc.{nproc}
use increase_ipc_throughput.Proc.Asleep.{asleep}
use increase_ipc_throughput.Ipc.LostWakeup.{all_run}
use increase_ipc_throughput.Sleeplocks
use increase_ipc_throughput.Sleeplocks.{SleepPc, Sleeplock, holdingsleep, acquire_round}
use increase_ipc_throughput.Sleeplocks.Exclusion.{one_holder}

abbrev with_interrupts : Cpu
with_interrupts = record { noff = 0; intena = false; intr = true }

calls-Restores_example :
    Restores with_interrupts (calls (pair (pair nothing nothing) nothing) with_interrupts)
calls-Restores_example =
    calls-Restores (pair (pair nothing nothing) nothing) with_interrupts (λ h. absurd (omega arith))

-- Processor 2 has taken the lock.
abbrev held : Spin
held = acquire_end 2 (acquire_swap 2 (acquire_start 2 (initlock (λ i. with_interrupts))))

held-Reach : Reach held
unfolding acquire_start acquire_swap
held-Reach =
    next (next (next (here (λ i. with_interrupts)) (start_acquire 2 refl)) (swap 2 refl))
      (end_acquire 2 refl)

at_most_one_example :
    ((i k : ℕ) → held.pc i ≡ critical → held.pc k ≡ critical → i ≡ k)
    × ((i : ℕ) → held.pc i ≡ critical → (held.cpus i).intr ≡ false)
    × ((i : ℕ) → held.pc i ≢ panicked)
at_most_one_example = at_most_one held-Reach

-- Process 2 has taken a sleep lock at address 8.
abbrev slept : Sleeplock
slept =
    acquire_round v7 8 2
      (record { locked = false; pid = 0; table = all_run; pc = λ i. SleepPc.outside })

slept-Reach : Sleeplocks.Reach v7 8 slept
unfolding acquire_round
slept-Reach =
    Sleeplocks.next (Sleeplocks.here (Sleeplocks.start all_run (λ i h. ground (arith, h))))
      (Sleeplocks.call 2 (omega arith, refl) refl)

one_holder_example :
    ((i k : ℕ) → slept.pc i ≡ SleepPc.holder → slept.pc k ≡ SleepPc.holder → i ≡ k)
    × ((i : ℕ) → slept.pc i ≡ SleepPc.holder → holdingsleep slept i ≡ true)
    × ((k : ℕ) → k < nproc → slept.locked ≡ false → asleep slept.table k 8 ≡ false)
one_holder_example = one_holder v7 8 slept-Reach
