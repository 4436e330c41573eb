-- ===== src/Locks.antt =====
-- kernel/spinlock.c: one lock, taken by any number of processors in any order, and the nesting of
-- `push_off` and `pop_off`.
pub mod Nesting
pub mod Inv
pub mod Exclusion
use increase_ipc_throughput.Base.{
  ℕ, zero, suc, ◌+◌, ◌-◌, ◌<◌, ◌≡◌, Bool, true, false, not, ◌&&◌, Option, none, some, ltb, ◌==◌,
  if◌then◌else◌, update,
}

-- The fields of `struct cpu` that the locks use, and whether interrupts are on.
pub record Cpu : Type 0 where
  pub noff : ℕ
  pub intena : Bool
  pub intr : Bool

-- `push_off()` and `pop_off()`; `none` is a panic.
unfoldable pub push_off : Cpu → Cpu
push_off c = record {
  noff = c.noff + 1;
  intena = if c.noff == 0 then c.intr else c.intena;
  intr = false;
}

unfoldable pub pop_off : Cpu → Option Cpu
pop_off c =
    if c.intr
    then none
    else if ltb c.noff 1
    then none
    else some (record c {
      noff = c.noff - 1;
      intr = if c.noff - 1 == 0 && c.intena then true else c.intr;
    })

-- Where a processor stands in `acquire` and `release`.
pub data LockPc : Type 0 where
  -- outside
  idle : LockPc
  -- in `acquire`, at the loop around the atomic swap
  spinning : LockPc
  -- behind the loop, `lk->cpu` not yet set
  taken : LockPc
  -- between `acquire` and `release`
  critical : LockPc
  -- in `release`, `lk->cpu` cleared and `locked` not yet
  leaving : LockPc
  -- in a panic
  panicked : LockPc

abbrev pub is_idle : LockPc → Bool
is_idle idle = true
is_idle spinning = false
is_idle taken = false
is_idle critical = false
is_idle leaving = false
is_idle panicked = false

abbrev pub is_critical : LockPc → Bool
is_critical idle = false
is_critical spinning = false
is_critical taken = false
is_critical critical = true
is_critical leaving = false
is_critical panicked = false

-- The lock, and the processors.
pub record Spin : Type 0 where
  pub locked : Bool
  pub cpu : Option ℕ
  pub cpus : ℕ → Cpu
  pub pc : ℕ → LockPc

-- Whether an optional index is `k`.
abbrev pub is_some_of : Option ℕ → ℕ → Bool
is_some_of none k = false
is_some_of (some a) k = a == k

-- `holding(lk)` on processor `i`.
abbrev pub holding : Spin → ℕ → Bool
holding s i = s.locked && is_some_of s.cpu i

-- `acquire` up to its loop.
unfoldable pub acquire_start : ℕ → Spin → Spin
acquire_start i s =
    let s' = record s { cpus = update s.cpus i (push_off (s.cpus i)) } in
    record s' { pc = update s.pc i (if holding s' i then panicked else spinning) }

-- One turn of the loop: the atomic swap.
unfoldable pub acquire_swap : ℕ → Spin → Spin
acquire_swap i s = record s {
  locked = true;
  pc = update s.pc i (if s.locked then spinning else taken);
}

-- The end of `acquire`.
unfoldable pub acquire_end : ℕ → Spin → Spin
acquire_end i s = record s { cpu = some i; pc = update s.pc i critical }

-- `release` up to `lk->cpu = 0`.
unfoldable pub release_start : ℕ → Spin → Spin
release_start i s =
    if holding s i
    then record s { cpu = none; pc = update s.pc i leaving }
    else record s { pc = update s.pc i panicked }

-- The end of `release`.
unfoldable pub release_popped : ℕ → Option Cpu → Spin → Spin
release_popped i none s = record s { locked = false; pc = update s.pc i panicked }
release_popped i (some c) s = record s {
  locked = false;
  cpus = update s.cpus i c;
  pc = update s.pc i idle;
}

unfoldable pub release_end : ℕ → Spin → Spin
release_end i s = release_popped i (pop_off (s.cpus i)) s

-- Interrupts are off, and the processor knows.
abbrev pub IsOff : Cpu → Type 0
IsOff c = (0 < c.noff) × (c.intr ≡ false)

pub data Step (s : Spin) : Spin → Type 0 where
  start_acquire : (i : ℕ) → s.pc i ≡ idle → Step s (acquire_start i s)
  swap : (i : ℕ) → s.pc i ≡ spinning → Step s (acquire_swap i s)
  end_acquire : (i : ℕ) → s.pc i ≡ taken → Step s (acquire_end i s)
  start_release : (i : ℕ) → s.pc i ≡ critical → Step s (release_start i s)
  end_release : (i : ℕ) → s.pc i ≡ leaving → Step s (release_end i s)
  -- other locks are taken and released outside, and inside in pairs
  outside : (i : ℕ) (c : Cpu) → s.pc i ≡ idle → Step s (record s { cpus = update s.cpus i c })
  inside :
      (i : ℕ) (c : Cpu)
      → s.pc i ≡ critical
      → IsOff c
      → Step s (record s { cpus = update s.cpus i c })

-- `initlock`, and the processors outside.
abbrev pub initlock : (ℕ → Cpu) → Spin
initlock cpus = record { locked = false; cpu = none; cpus = cpus; pc = λ i. idle }

pub data Reach : Spin → Type 0 where
  here : (cpus : ℕ → Cpu) → Reach (initlock cpus)
  next : {s t : Spin} → Reach s → Step s t → Reach t
