-- ===== src/Descriptors.antt =====
-- The table of descriptors of a process in kernel/sysfile.c: `argfd`, `fdalloc`, `sys_dup` and
-- `sys_pipe`.
pub mod FdCopy
pub mod PipeCall
use increase_ipc_throughput.Base.{
  ℕ, zero, suc, ◌+◌, ◌/◌, ◌%◌, ◌*◌, Bool, true, false, not, Option, none, some, List, [], ◌∷◌, ltb,
  if◌then◌else◌, update, ℤ, pos, negsuc, minus_one, ltb_ℤ, add64,
}
use increase_ipc_throughput.Pipe.{Version}
use increase_ipc_throughput.Vm.{Ram}
use increase_ipc_throughput.Space.Access.{copyout}
use increase_ipc_throughput.Files.{Kernel, Made, filedup, fileclose, pipealloc}

abbrev pub nofile : ℕ
nofile = 16

-- The four bytes of an `int` that is not negative.
abbrev pub int_bytes : ℕ → List ℕ
int_bytes n = n % 256 ∷ n / 256 % 256 ∷ n / 65536 % 256 ∷ n / 16777216 % 256 ∷ []

abbrev pub is_null : Option ℕ → Bool
is_null none = true
is_null (some f) = false

-- The loop of `fdalloc` from descriptor `fd` on.
unfoldable pub first_null : ℕ → ℕ → (ℕ → Option ℕ) → Option ℕ
first_null zero fd ofile = none
first_null (suc n) fd ofile =
    let rest = first_null n (fd + 1) ofile in if is_null (ofile fd) then some fd else rest

-- `argfd` on the value of the argument: the entry, if there is one.
unfoldable pub argfd : ℤ → (ℕ → Option ℕ) → Option ℕ
argfd (negsuc n) ofile = none
argfd (pos fd) ofile = if ltb fd nofile then ofile fd else none

-- The kernel, the bytes of the memory, and `ofile`, `pagetable` and `sz` of the process.
pub record Sys : Type 0 where
  pub kernel : Kernel
  pub bytes : ℕ → ℕ
  pub ofile : ℕ → Option ℕ
  pub pagetable : ℕ
  pub sz : ℕ

-- The memory with its allocator.
abbrev pub memory : Sys → Ram
memory s = record { kmem = s.kernel.kmem; bytes = s.bytes }

abbrev pub with_memory : Ram → Sys → Sys
with_memory m s = record s { kernel = record s.kernel { kmem = m.kmem }; bytes = m.bytes }

module _ (end : ℕ) (v : Version) (me : ℕ) (put : ℕ → Kernel → Kernel) where
  -- `sys_dup()`; `none` is the panic of `filedup`.
  pub sys_dup : ℤ → Sys → Option (ℤ × Sys)
  sys_dup arg s = elim (argfd arg s.ofile) [
    | none ↦ some (minus_one, s)
    | some f ↦ elim (first_null nofile 0 s.ofile) [
      | none ↦ some (minus_one, s)
      | some fd ↦ elim (filedup f s.kernel) [
        | none ↦ none
        | some k ↦ some (pos fd, record s { kernel = k; ofile = update s.ofile fd (some f) })
      ]
    ]
  ]

  -- The two calls of `fileclose` where `sys_pipe` fails.
  abbrev pub close_both : ℕ → ℕ → Kernel → Option Kernel
  close_both rf wf k = elim (fileclose end v me put rf k) [
    | none ↦ none
    | some k' ↦ fileclose end v me put wf k'
  ]

  unfoldable pub give_up : ℕ → ℕ → Sys → Option (ℤ × Sys)
  give_up rf wf s = elim (close_both rf wf s.kernel) [
    | none ↦ none
    | some k ↦ some (minus_one, record s { kernel = k })
  ]

  -- `copyout(p->pagetable, addr, (char*)&fd, sizeof(fd))`, which may take pages from the allocator.
  unfoldable pub copy_fd : ℕ → ℕ → Sys → Option (Bool × Sys)
  copy_fd addr fd s =
      elim (copyout end s.pagetable s.sz s.pagetable addr (int_bytes fd) (memory s)) [
        | none ↦ none
        | some (ok, m) ↦ some (ok, with_memory m s)
      ]

  abbrev pub cleared : ℕ → ℕ → Sys → Sys
  cleared fd0 fd1 s = record s { ofile = update (update s.ofile fd0 none) fd1 none }

  -- After the second call of `copyout`, and after the first.
  unfoldable pub second_told : ℕ → ℕ → ℕ → ℕ → Option (Bool × Sys) → Option (ℤ × Sys)
  second_told rf wf fd0 fd1 none = none
  second_told rf wf fd0 fd1 (some (false, s)) = give_up rf wf (cleared fd0 fd1 s)
  second_told rf wf fd0 fd1 (some (true, s)) = some (pos 0, s)

  unfoldable pub first_told : ℕ → ℕ → ℕ → ℕ → ℕ → Option (Bool × Sys) → Option (ℤ × Sys)
  first_told addr rf wf fd0 fd1 none = none
  first_told addr rf wf fd0 fd1 (some (false, s)) = give_up rf wf (cleared fd0 fd1 s)
  first_told addr rf wf fd0 fd1 (some (true, s)) =
      second_told rf wf fd0 fd1 (copy_fd (add64 addr 4) fd1 s)

  -- The two calls of `copyout`.
  unfoldable pub tell : ℕ → ℕ → ℕ → ℕ → ℕ → Sys → Option (ℤ × Sys)
  tell addr rf wf fd0 fd1 s = first_told addr rf wf fd0 fd1 (copy_fd addr fd0 s)

  -- The two calls of `fdalloc`.
  unfoldable pub second_fd : ℕ → ℕ → ℕ → ℕ → Option ℕ → Sys → Option (ℤ × Sys)
  second_fd addr rf wf fd0 none s = give_up rf wf (record s { ofile = update s.ofile fd0 none })
  second_fd addr rf wf fd0 (some fd1) s =
      tell addr rf wf fd0 fd1 (record s { ofile = update s.ofile fd1 (some wf) })

  unfoldable pub first_fd : ℕ → ℕ → ℕ → Option ℕ → Sys → Option (ℤ × Sys)
  first_fd addr rf wf none s = give_up rf wf s
  first_fd addr rf wf (some fd0) s =
      let ofile = update s.ofile fd0 (some rf) in
      second_fd addr rf wf fd0 (first_null nofile 0 ofile) (record s { ofile = ofile })

  -- After `pipealloc`; a missing `*f0` or `*f1` would be a null pointer.
  unfoldable pub with_files : ℕ → Option Made → Sys → Option (ℤ × Sys)
  with_files addr none s = none
  with_files addr (some o) s =
      let s' = record s { kernel = o.after } in
      if ltb_ℤ o.result (pos 0) then some (minus_one, s') else elim o.f0 [
        | none ↦ none
        | some rf ↦ elim o.f1 [
          | none ↦ none
          | some wf ↦ first_fd addr rf wf (first_null nofile 0 s.ofile) s'
        ]
      ]

  -- `sys_pipe()`, with its argument; `none` is a panic.
  unfoldable pub sys_pipe : ℕ → Sys → Option (ℤ × Sys)
  sys_pipe addr s = with_files addr (pipealloc end v me put s.kernel) s
