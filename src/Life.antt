-- ===== src/Life.antt =====
-- kernel/proc.c: the life of a process, from `allocproc` and `kfork` to `kexit` and `kwait`, on the
-- process table, the page tables and the open files. A result `none` is a panic.
pub mod Calls
pub mod Orphans
pub mod Exits
pub mod Waits
pub mod Syscalls
pub mod Size
use increase_ipc_throughput.Base.{
  ℕ, zero, suc, ◌+◌, ◌-◌, ◌*◌, ◌%◌, Bool, true, false, not, ◌&&◌, ◌||◌, Option, none, some, ltb,
  leb, ◌==◌, if◌then◌else◌, update, ℤ, pos, negsuc, minus_one, u64,
}
use increase_ipc_throughput.Strings.{memmove}
use increase_ipc_throughput.Kalloc.{page_size}
use increase_ipc_throughput.Pipe.{Version}
use increase_ipc_throughput.Proc.{
  ProcState, unused, used, sleeping, runnable, running, zombie, Proc, Table, nproc, priority_base,
  wakeup, sleep,
}
use increase_ipc_throughput.Files.{Kernel, filedup, fileclose}
use increase_ipc_throughput.Descriptors.{nofile, int_bytes}
use increase_ipc_throughput.Vm.{maxva, store_word, Ram, page_alloc, page_free, mappages, uvmunmap}
use increase_ipc_throughput.Space.{uvmcreate, uvmalloc, uvmdealloc, uvmcopy, uvmfree}
use increase_ipc_throughput.Space.Access.{copyout}

-- The fields of `struct proc` besides those of `Proc`; `xstate` is the pattern of its 32 bits.
pub record Task : Type 0 where
  pub xstate : ℕ
  pub parent : Option ℕ
  pub sz : ℕ
  pub pagetable : ℕ
  pub trapframe : ℕ
  pub ofile : ℕ → Option ℕ
  pub cwd : ℕ

pub record World : Type 0 where
  pub kernel : Kernel
  pub bytes : ℕ → ℕ
  pub tasks : ℕ → Task
  pub next_pid : ℕ
  pub initproc : ℕ

-- The memory and the allocator of it, and a world with another memory.
abbrev pub ram : World → Ram
ram w = record { kmem = w.kernel.kmem; bytes = w.bytes }

abbrev pub with_ram : Ram → World → World
with_ram m w = record w { kernel = record w.kernel { kmem = m.kmem }; bytes = m.bytes }

-- A change of one process, in each of the two records.
abbrev pub set_proc : ℕ → Proc → World → World
set_proc i p w = record w { kernel = record w.kernel { table = update w.kernel.table i p } }

abbrev pub set_task : ℕ → Task → World → World
set_task i t w = record w { tasks = update w.tasks i t }

abbrev pub trampoline_va : ℕ
trampoline_va = maxva - page_size

abbrev pub trapframe_va : ℕ
trapframe_va = trampoline_va - page_size

abbrev pub is_unused : ProcState → Bool
is_unused unused = true
is_unused used = false
is_unused sleeping = false
is_unused runnable = false
is_unused running = false
is_unused zombie = false

abbrev pub is_zombie : ProcState → Bool
is_zombie unused = false
is_zombie used = false
is_zombie sleeping = false
is_zombie runnable = false
is_zombie running = false
is_zombie zombie = true

-- `pp->parent == p`.
abbrev pub child_of : ℕ → Task → Bool
child_of p t = elim t.parent [ none ↦ false | some q ↦ q == p ]

-- The loop of `allocproc` from process `i` on.
pub first_unused : ℕ → ℕ → Table → Option ℕ
first_unused zero i t = none
first_unused (suc n) i t =
    let rest = first_unused n (i + 1) t in if is_unused (t i).state then some i else rest

-- `allocpid()`.
pub allocpid : World → ℕ × World
allocpid w = (w.next_pid, record w { next_pid = w.next_pid + 1 })

-- `trampoline` is the address of its code, which the linker sets.
module _ (end trampoline : ℕ) where
  -- `uvmfree(pagetable, 0)` and the return of 0 where `proc_pagetable` fails.
  pub pagetable_undo : ℕ → Ram → Option (ℕ × Ram)
  pagetable_undo pagetable m = elim (uvmfree end pagetable 0 m) [
    | none ↦ none
    | some m' ↦ some (0, m')
  ]

  -- `proc_pagetable(p)` for a process with this trapframe.
  pub proc_pagetable : ℕ → Ram → Option (ℕ × Ram)
  proc_pagetable trapframe m =
      let (pagetable, m1) = uvmcreate m in
      if pagetable == 0
      then some (0, m1)
      else elim (mappages pagetable trampoline_va page_size trampoline 10 m1) [
        | none ↦ none
        | some (ok, m2) ↦
            if not ok
            then pagetable_undo pagetable m2
            else elim (mappages pagetable trapframe_va page_size trapframe 6 m2) [
              | none ↦ none
              | some (ok', m3) ↦
                  if ok'
                  then some (pagetable, m3)
                  else elim (uvmunmap end pagetable trampoline_va 1 false m3) [
                    | none ↦ none
                    | some m4 ↦ pagetable_undo pagetable m4
                  ]
            ]
      ]

  -- `proc_freepagetable(pagetable, sz)`.
  pub proc_freepagetable : ℕ → ℕ → Ram → Option Ram
  proc_freepagetable pagetable sz m = elim (uvmunmap end pagetable trampoline_va 1 false m) [
    | none ↦ none
    | some m1 ↦ elim (uvmunmap end pagetable trapframe_va 1 false m1) [
      | none ↦ none
      | some m2 ↦ uvmfree end pagetable sz m2
    ]
  ]

  -- The two frees of `freeproc`.
  pub free_memory : Task → Ram → Option Ram
  free_memory t m = elim (if t.trapframe == 0 then some m else page_free end t.trapframe m) [
    | none ↦ none
    | some m' ↦ if t.pagetable == 0 then some m' else proc_freepagetable t.pagetable t.sz m'
  ]

  -- `freeproc(p)`.
  unfoldable pub freeproc : ℕ → World → Option World
  freeproc p w = elim (free_memory (w.tasks p) (ram w)) [
    | none ↦ none
    | some m ↦ some (
        set_task p
          (record (w.tasks p) { trapframe = 0; pagetable = 0; sz = 0; parent = none; xstate = 0 })
          (set_proc p
            (record { state = unused; chan = 0; killed = false; pid = 0; priority = priority_base })
            (with_ram m w)))
  ]

  -- `freeproc(p)` and the return of 0 where `allocproc` fails.
  pub allocproc_undo : ℕ → World → Option (Option ℕ × World)
  allocproc_undo p w = elim (freeproc p w) [ none ↦ none | some w' ↦ some (none, w') ]

  -- `allocproc()`, from the process that it found on.
  pub found_proc : ℕ → World → Option (Option ℕ × World)
  found_proc p w =
      let (pid, w1) = allocpid w in
      let w2 =
        set_proc p
          (record (w1.kernel.table p) { pid = pid; state = used; priority = priority_base }) w1 in
      let (frame, m) = page_alloc (ram w2) in
      let w3 = set_task p (record (w2.tasks p) { trapframe = frame }) (with_ram m w2) in
      if frame == 0 then allocproc_undo p w3 else elim (proc_pagetable frame (ram w3)) [
        | none ↦ none
        | some (pagetable, m') ↦
            let w4 = set_task p (record (w3.tasks p) { pagetable = pagetable }) (with_ram m' w3) in
            if pagetable == 0 then allocproc_undo p w4 else some (some p, w4)
      ]

  -- `allocproc()`.
  pub allocproc : World → Option (Option ℕ × World)
  allocproc w = elim (first_unused nproc 0 w.kernel.table) [
    | none ↦ some (none, w)
    | some p ↦ found_proc p w
  ]
