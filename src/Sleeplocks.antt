-- ===== src/Sleeplocks.antt =====
-- kernel/sleeplock.c: one sleep lock and the processes that wait for it. The spin lock inside makes
-- each part of `acquiresleep` and `releasesleep` up to a `sleep` or a return one step.
pub mod Exclusion
use increase_ipc_throughput.Base.{
  ℕ, ◌<◌, ◌≡◌, ◌≢◌, Bool, true, false, ◌&&◌, ◌==◌, if◌then◌else◌, update,
}
use increase_ipc_throughput.Pipe.{Version}
use increase_ipc_throughput.Proc.{
  ProcState, running, runnable, Proc, Table, nproc, wakeup, sleep, tidy_up, yield, kkill, dispatch,
}

-- Where a process stands.
pub data SleepPc : Type 0 where
  -- not in a call, without the lock
  outside : SleepPc
  -- in `sleep(lk, &lk->lk)`
  waiting : SleepPc
  -- behind `acquiresleep`
  holder : SleepPc

-- `struct sleeplock` without its spin lock, and the processes.
pub record Sleeplock : Type 0 where
  pub locked : Bool
  pub pid : ℕ
  pub table : Table
  pub pc : ℕ → SleepPc

-- `holdingsleep(lk)` by process `i`.
abbrev pub holdingsleep : Sleeplock → ℕ → Bool
holdingsleep s i = s.locked && s.pid == (s.table i).pid

-- `chan` is the address of the lock.
module _ (v : Version) (chan : ℕ) where
  -- A test of the loop of `acquiresleep`, with what follows it.
  unfoldable pub acquire_round : ℕ → Sleeplock → Sleeplock
  acquire_round i s =
      if s.locked
      then record s {
        table = update s.table i (sleep chan (s.table i));
        pc = update s.pc i waiting;
      }
      else record s { locked = true; pid = (s.table i).pid; pc = update s.pc i holder }

  -- `releasesleep(lk)`.
  unfoldable pub releasesleep : ℕ → Sleeplock → Sleeplock
  releasesleep i s = record s {
    locked = false;
    pid = 0;
    table = wakeup v i chan s.table;
    pc = update s.pc i outside;
  }

  abbrev pub Runs : ℕ → Sleeplock → Type 0
  Runs i s = (i < nproc) × ((s.table i).state ≡ running)

  pub data Step (s : Sleeplock) : Sleeplock → Type 0 where
    call : (i : ℕ) → Runs i s → s.pc i ≡ outside → Step s (acquire_round i s)
    -- the end of `sleep`, and the next test
    resume :
        (i : ℕ)
        → Runs i s
        → s.pc i ≡ waiting
        → Step s (acquire_round i (record s { table = update s.table i (tidy_up (s.table i)) }))
    release : (i : ℕ) → Runs i s → s.pc i ≡ holder → Step s (releasesleep i s)
    -- the scheduler, the timer and `kkill`
    schedule :
        (i : ℕ)
        → (s.table i).state ≡ runnable
        → Step s (record s { table = update s.table i (dispatch (s.table i)) })
    preempt :
        (i : ℕ) → Runs i s → Step s (record s { table = update s.table i (yield v (s.table i)) })
    murder : (pid : ℕ) → Step s (record s { table = (kkill pid s.table).1 })
    -- what a process does elsewhere, with the lock or without it
    elsewhere :
        (i : ℕ) (p : Proc)
        → s.pc i ≢ waiting
        → p.chan ≢ chan
        → p.pid ≡ (s.table i).pid
        → Step s (record s { table = update s.table i p })

  -- `initsleeplock`, and processes that have not called it.
  pub data Start : Sleeplock → Type 0 where
    start :
        (t : Table)
        → ((i : ℕ) → (t i).chan ≢ chan)
        → Start (record { locked = false; pid = 0; table = t; pc = λ i. outside })

  pub data Reach : Sleeplock → Type 0 where
    here : {s : Sleeplock} → Start s → Reach s
    next : {s t : Sleeplock} → Reach s → Step s t → Reach t
