-- ===== src/Life/Calls.antt =====
-- kernel/proc.c: `growproc`, `kfork`, `reparent`, `kexit` and `kwait`. The address of a process is
-- its channel; a missing one is 0.
use increase_ipc_throughput.Base.{
  ℕ, zero, suc, ◌+◌, ◌-◌, ◌%◌, Bool, false, not, ◌&&◌, ◌||◌, Option, none, some, ltb, ◌==◌,
  if◌then◌else◌, update, ℤ, pos, negsuc, minus_one, u64,
}
use increase_ipc_throughput.Strings.{memmove}
use increase_ipc_throughput.Pipe.{Version}
use increase_ipc_throughput.Proc.{runnable, zombie, nproc, wakeup, sleep}
use increase_ipc_throughput.Files.{Kernel, filedup, fileclose}
use increase_ipc_throughput.Descriptors.{nofile, int_bytes}
use increase_ipc_throughput.Vm.{store_word}
use increase_ipc_throughput.Space.{uvmalloc, uvmdealloc, uvmcopy}
use increase_ipc_throughput.Space.Access.{copyout}
use increase_ipc_throughput.Life.{
  World, ram, with_ram, set_proc, set_task, trapframe_va, is_zombie, child_of, freeproc, allocproc,
}

-- `sizeof(struct trapframe)`, and where `a0` stands in it.
abbrev pub trapframe_size : ℕ
trapframe_size = 288

abbrev pub a0_offset : ℕ
a0_offset = 112

-- What a scan of `kwait` comes to: a return, or a sleep.
pub data WaitNext : Type 0 where
  returns : ℤ → WaitNext
  sleeps : WaitNext

-- `*(np->trapframe) = *(p->trapframe)`, and 0 in `a0` of it.
pub copy_frame : ℕ → ℕ → (ℕ → ℕ) → ℕ → ℕ
copy_frame np p bytes = store_word 8 (memmove bytes np p trapframe_size) (np + a0_offset) 0

-- The loop of `kfork` over the open files, from `fd` on.
pub dup_files : ℕ → ℕ → (ℕ → Option ℕ) → (ℕ → Option ℕ) → Kernel → Option ((ℕ → Option ℕ) × Kernel)
dup_files zero fd from to k = some (to, k)
dup_files (suc n) fd from to k =
    let skip = dup_files n (fd + 1) from to k in
    elim (from fd) [
      | none ↦ skip
      | some f ↦ elim (filedup f k) [
        | none ↦ none
        | some k' ↦ dup_files n (fd + 1) from (update to fd (some f)) k'
      ]
    ]

module _ (v : Version) (chan : ℕ → ℕ) where
  -- The body of the loop of `reparent(p)`, called by process `me`, for process `i`.
  unfoldable pub hand_over : ℕ → ℕ → ℕ → World → World
  hand_over me p i w =
      if child_of p (w.tasks i)
      then record (set_task i (record (w.tasks i) { parent = some w.initproc }) w) {
        kernel = record w.kernel { table = wakeup v me (chan w.initproc) w.kernel.table };
      }
      else w

  -- The loop over the first `n` processes.
  unfoldable pub reparent_from : ℕ → ℕ → ℕ → World → World
  reparent_from zero me p w = w
  reparent_from (suc n) me p w = hand_over me p n (reparent_from n me p w)

  unfoldable pub reparent : ℕ → ℕ → World → World
  reparent me p w = reparent_from nproc me p w

  abbrev pub parent_chan : Option ℕ → ℕ
  parent_chan none = 0
  parent_chan (some p) = chan p

  -- The end of `kexit`, from `p->cwd = 0` on to `sched()`.
  unfoldable pub become_zombie : ℕ → ℕ → World → World
  become_zombie me status w =
      let w1 = set_task me (record (w.tasks me) { cwd = 0 }) w in
      let w2 = reparent me me w1 in
      let w3 = record w2 {
        kernel = record w2.kernel {
          table = wakeup v me (parent_chan (w2.tasks me).parent) w2.kernel.table;
        };
      } in
      set_proc me (record (w3.kernel.table me) { state = zombie })
        (set_task me (record (w3.tasks me) { xstate = status }) w3)

  -- `end` and `trampoline` are set by the linker; `idup` and `iput` are those of kernel/fs.c, and
  -- `put` is what `fileclose` does to an inode.
  module _ (end trampoline : ℕ) (put : ℕ → Kernel → Kernel) (idup iput : ℕ → Kernel → Kernel) where
    -- `growproc(n)` of process `me`.
    unfoldable pub growproc : ℕ → ℤ → World → Option (ℤ × World)
    growproc me (pos n) w =
        let t = w.tasks me in
        if n == 0
        then some (pos 0, w)
        else if ltb trapframe_va (t.sz + n)
        then some (minus_one, w)
        else elim (uvmalloc end t.pagetable t.sz (t.sz + n) 4 (ram w)) [
          | none ↦ none
          | some (sz, m) ↦
              if sz == 0
              then some (minus_one, with_ram m w)
              else some (pos 0, set_task me (record t { sz = sz }) (with_ram m w))
        ]
    growproc me (negsuc n) w =
        let t = w.tasks me in
        elim (uvmdealloc end t.pagetable t.sz ((t.sz + u64 - (n + 1)) % u64) (ram w)) [
          | none ↦ none
          | some (sz, m) ↦ some (pos 0, set_task me (record t { sz = sz }) (with_ram m w))
        ]

    -- `kfork` from the copy of the registers on.
    pub fork_rest : ℕ → ℕ → World → Option (ℤ × World)
    fork_rest me np w =
        let t = w.tasks me in
        let c = w.tasks np in
        elim (dup_files nofile 0 t.ofile c.ofile w.kernel) [
          | none ↦ none
          | some (ofile, k) ↦
              let w1 = record w {
                kernel = idup t.cwd k;
                bytes = copy_frame c.trapframe t.trapframe w.bytes;
              } in
              let w2 =
                set_task np (record c { sz = t.sz; ofile = ofile; cwd = t.cwd; parent = some me })
                  w1 in
              let p = w2.kernel.table np in
              some (pos p.pid, set_proc np (record p { state = runnable }) w2)
        ]

    -- `kfork()` of process `me`.
    pub kfork : ℕ → World → Option (ℤ × World)
    kfork me w = elim (allocproc end trampoline w) [
      | none ↦ none
      | some (child, w1) ↦ elim child [
        | none ↦ some (minus_one, w1)
        | some np ↦
            elim (uvmcopy end (w1.tasks me).pagetable (w1.tasks np).pagetable (w1.tasks me).sz
              (ram w1)) [
                | none ↦ none
                | some (ok, m) ↦
                    if ok
                    then fork_rest me np (with_ram m w1)
                    else elim (freeproc end trampoline np (with_ram m w1)) [
                      | none ↦ none
                      | some w2 ↦ some (minus_one, w2)
                    ]
              ]
      ]
    ]

    -- The body of the loop of `kexit` over the open files.
    unfoldable pub close_fd : ℕ → ℕ → World → Option World
    close_fd fd me w = elim ((w.tasks me).ofile fd) [
      | none ↦ some w
      | some f ↦ elim (fileclose end v me put f w.kernel) [
        | none ↦ none
        | some k ↦ some (
            set_task me (record (w.tasks me) { ofile = update (w.tasks me).ofile fd none })
              (record w { kernel = k }))
      ]
    ]

    -- The loop from `fd` on.
    unfoldable pub close_files : ℕ → ℕ → ℕ → World → Option World
    close_files zero fd me w = some w
    close_files (suc n) fd me w = elim (close_fd fd me w) [
      | none ↦ none
      | some w1 ↦ close_files n (fd + 1) me w1
    ]

    -- `kexit(status)` of process `me`, up to `sched()`.
    unfoldable pub kexit : ℕ → ℕ → World → Option World
    kexit me status w = if me == w.initproc then none else elim (close_files nofile 0 me w) [
      | none ↦ none
      | some w1 ↦
          some (become_zombie me status (record w1 { kernel = iput (w1.tasks me).cwd w1.kernel }))
    ]

    -- `freeproc(pp)` and the return of `pid` from `kwait`.
    unfoldable pub reap_free : ℕ → ℕ → World → Option (WaitNext × World)
    reap_free pid pp w = elim (freeproc end trampoline pp w) [
      | none ↦ none
      | some w' ↦ some (returns (pos pid), w')
    ]

    -- `kwait` with the zombie `pp` that it found.
    unfoldable pub reap : ℕ → ℕ → ℕ → World → Option (WaitNext × World)
    reap me addr pp w =
        let t = w.tasks me in
        let pid = (w.kernel.table pp).pid in
        if addr == 0
        then reap_free pid pp w
        else elim (copyout end t.pagetable t.sz t.pagetable addr (int_bytes (w.tasks pp).xstate)
            (ram w)) [
              | none ↦ none
              | some (ok, m) ↦
                  if ok
                  then reap_free pid pp (with_ram m w)
                  else some (returns minus_one, with_ram m w)
            ]

    -- The scan of `kwait(addr)` of process `me`, from process `i` on, and what follows it.
    unfoldable pub scan_children : ℕ → ℕ → ℕ → ℕ → Bool → World → Option (WaitNext × World)
    scan_children zero i me addr havekids w =
        if not havekids || (w.kernel.table me).killed
        then some (returns minus_one, w)
        else some (sleeps, set_proc me (sleep (chan me) (w.kernel.table me)) w)
    scan_children (suc n) i me addr havekids w =
        let next = scan_children n (i + 1) me addr (havekids || child_of me (w.tasks i)) w in
        if child_of me (w.tasks i) && is_zombie (w.kernel.table i).state
        then reap me addr i w
        else next

    -- A round of `kwait(addr)`.
    unfoldable pub kwait_round : ℕ → ℕ → World → Option (WaitNext × World)
    kwait_round me addr w = scan_children nproc 0 me addr false w
