-- ===== src/Life/Syscalls.antt =====
-- kernel/syscall.c and kernel/sysproc.c: the arguments of a system call, and the calls on processes.
-- A result of type `int` is an integer, also where the code widens it to 64 bits.
use increase_ipc_throughput.Base.{
  ℕ, ◌+◌, ◌-◌, ◌*◌, ◌%◌, Bool, false, ◌||◌, Option, none, some, ltb, leb, ◌==◌, if◌then◌else◌, ℤ,
  pos, negsuc, minus_one, ltb_ℤ, pos_part, add64, u32, List, [],
}
use increase_ipc_throughput.Pipe.{Version}
use increase_ipc_throughput.Proc.{kkill}
use increase_ipc_throughput.Files.{Kernel}
use increase_ipc_throughput.Vm.{load_word}
use increase_ipc_throughput.Space.Access.{copyin}
use increase_ipc_throughput.Life.{World, ram, with_ram, set_task, trapframe_va}
use increase_ipc_throughput.Life.Calls.{WaitNext, a0_offset, growproc, kfork, kexit, kwait_round}

-- The `int` of the low 32 bits, and the 32 bits of an `int`.
pub as_int : ℕ → ℤ
as_int w = let low = w % u32 in if ltb low 2147483648 then pos low else negsuc (u32 - 1 - low)

pub int_bits : ℤ → ℕ
int_bits (pos n) = n
int_bits (negsuc n) = u32 - 1 - n

-- `argraw(n)`; `none` is the panic. `a0` to `a5` follow one another in the trapframe.
pub argraw : ℕ → ℕ → World → Option ℕ
argraw me n w =
    if ltb n 6
    then some (load_word 8 w.bytes ((w.tasks me).trapframe + a0_offset + 8 * n))
    else none

-- `argint(n)` and `argaddr(n)`.
pub argint : ℕ → ℕ → World → Option ℤ
argint me n w = elim (argraw me n w) [ none ↦ none | some a ↦ some (as_int a) ]

abbrev pub argaddr : ℕ → ℕ → World → Option ℕ
argaddr me n w = argraw me n w

-- `fetchaddr(addr)`: whether it succeeds, and the bytes that it stores.
pub fetchaddr : ℕ → ℕ → ℕ → World → Option (Bool × List ℕ × World)
fetchaddr end me addr w =
    let t = w.tasks me in
    if leb t.sz addr || ltb t.sz (add64 addr 8)
    then some (false, [], w)
    else elim (copyin end t.pagetable t.sz t.pagetable addr 8 (ram w)) [
      | none ↦ none
      | some (ok, bytes, m) ↦ some (ok, bytes, with_ram m w)
    ]

-- `sys_getpid()`, and `sys_kill()`: no process has a negative pid.
pub sys_getpid : ℕ → World → ℕ
sys_getpid me w = (w.kernel.table me).pid

pub sys_kill : ℕ → World → Option (ℤ × World)
sys_kill me w = elim (argint me 0 w) [
  | none ↦ none
  | some pid ↦
      let (result, table) = kkill (pos_part pid) w.kernel.table in
      if ltb_ℤ pid (pos 0)
      then some (minus_one, w)
      else some (result, record w { kernel = record w.kernel { table = table } })
]

module _ (v : Version) (chan : ℕ → ℕ) (end trampoline : ℕ)
    (put idup iput : ℕ → Kernel → Kernel) where
  pub sys_exit : ℕ → World → Option World
  sys_exit me w = elim (argint me 0 w) [
    | none ↦ none
    | some n ↦ kexit v chan end trampoline put idup iput me (int_bits n) w
  ]

  pub sys_fork : ℕ → World → Option (ℤ × World)
  sys_fork me w = kfork v chan end trampoline put idup iput me w

  -- A round of `sys_wait()`.
  pub sys_wait : ℕ → World → Option (WaitNext × World)
  sys_wait me w = elim (argaddr me 0 w) [
    | none ↦ none
    | some p ↦ kwait_round v chan end trampoline put idup iput me p w
  ]

  -- The end of `sys_sbrk` after `growproc`.
  unfoldable pub sbrk_grown : ℕ → Option (ℤ × World) → Option (ℤ × World)
  sbrk_grown addr none = none
  sbrk_grown addr (some (r, w)) =
      if ltb_ℤ r (pos 0) then some (minus_one, w) else some (pos addr, w)

  -- `sys_sbrk()` with `n` and `t`; 1 is `SBRK_EAGER`.
  unfoldable pub sbrk : ℕ → ℤ → ℤ → World → Option (ℤ × World)
  sbrk me n t w =
      let addr = (w.tasks me).sz in
      let top = add64 addr (pos_part n) in
      if (pos_part t == 1) || ltb_ℤ n (pos 0)
      then sbrk_grown addr (growproc v chan end trampoline put idup iput me n w)
      else if ltb top addr || ltb trapframe_va top
      then some (minus_one, w)
      else some (pos addr, set_task me (record (w.tasks me) { sz = top }) w)

  -- `sys_sbrk()`.
  unfoldable pub sys_sbrk : ℕ → World → Option (ℤ × World)
  sys_sbrk me w = elim (argint me 0 w) [
    | none ↦ none
    | some n ↦ elim (argint me 1 w) [ none ↦ none | some t ↦ sbrk me n t w ]
  ]
