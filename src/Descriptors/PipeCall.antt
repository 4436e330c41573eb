-- ===== src/Descriptors/PipeCall.antt =====
-- `sys_pipe` of kernel/sysfile.c as a whole: two descriptors, or nothing.
use increase_ipc_throughput.Base.{
  ℕ, ◌+◌, ◌<◌, ◌≡◌, ◌≢◌, arith, Option, none, some, List, update, ℤ, pos, minus_one, ◌⊎◌, add64,
}
use increase_ipc_throughput.Pipe.{Version}
use increase_ipc_throughput.Kalloc.FreeList.{IsFree}
use increase_ipc_throughput.Vm.Tree.{Owner}
use increase_ipc_throughput.Space.Process.{IsProcess}
use increase_ipc_throughput.Space.View.{view}
use increase_ipc_throughput.Space.Put.{overlay}
use increase_ipc_throughput.Descriptors.FdCopy.{GaveBack}
use increase_ipc_throughput.Files.{Kernel, Made}
use increase_ipc_throughput.Files.Alloc.{IsMade}
use increase_ipc_throughput.Descriptors.{nofile, int_bytes, Sys, memory}

-- What the loop of `fdalloc` found was not in use.
abbrev Unused : ℕ → ℕ → (ℕ → Option ℕ) → Option ℕ → Type 0
Unused n i ofile none = Unit
Unused n i ofile (some fd) = (fd < i + n) × (ofile fd ≡ none)

module _ (end : ℕ) (v : Version) (me : ℕ) (put : ℕ → Kernel → Kernel) (end_pos : 0 < end) where
  -- The descriptors and the references of the entries are as before, and the memory is that of a
  -- process. The free pages are those before, or the copies to the user took some, and the pages
  -- of the pipe went back to the others.
  pub record IsUnchanged (s : Sys) (xs : List ℕ) (t : Sys) : Type 0 where
    pub ofile : (fd : ℕ) → t.ofile fd ≡ s.ofile fd
    pub refs : (i : ℕ) → (t.kernel.files i).ref ≡ (s.kernel.files i).ref
    pub free :
        (IsFree end t.kernel.kmem xs × (t.bytes ≡ s.bytes)) ⊎ GaveBack end v me put xs t.kernel

  -- Two descriptors that were not in use are the two ends that `pipealloc` made, and the process
  -- sees them at `addr`, four bytes each, in memory that is else as before.
  pub record IsOpen (addr : ℕ) (s t : Sys) (fd0 fd1 a b : ℕ) : Type 0 where
    pub fd0_null : s.ofile fd0 ≡ none
    pub fd1_null : s.ofile fd1 ≡ none
    pub differ : fd0 ≢ fd1
    pub fits : (fd0 < nofile) × (fd1 < nofile)
    pub read_end : t.ofile fd0 ≡ some a
    pub write_end : t.ofile fd1 ≡ some b
    pub others : (fd : ℕ) → fd0 ≢ fd → fd1 ≢ fd → t.ofile fd ≡ s.ofile fd
    pub told :
        (va : ℕ)
        → view s.pagetable s.sz (memory t) va
          ≡ overlay
              (overlay (view s.pagetable s.sz (memory s)) addr (int_bytes fd0))
              (add64 addr 4)
              (int_bytes fd1)
              va

  -- How `sys_pipe` ends.
  abbrev pub Outcome : ℕ → Sys → List ℕ → Option (ℤ × Sys) → Type 0
  Outcome addr s xs none = ⊥
  Outcome addr s xs (some (r, t)) =
      ((r ≡ minus_one) × IsUnchanged s xs t)
      ⊎ ((r ≡ pos 0)
          × ((fd0 : ℕ) × (fd1 : ℕ) × (a : ℕ) × (b : ℕ) × (pi : ℕ) × (ys : List ℕ) × (o : Made)
              × (t.kernel ≡ record o.after { kmem = t.kernel.kmem })
              × IsMade end v me put s.kernel xs o a b pi ys
              × IsOpen addr s t fd0 fd1 a b))

  -- `pipealloc` made `a`, `b` and the pipe.
  module _ (s : Sys) (xs : List ℕ) (owner : ℕ → Owner)
      (process : IsProcess end end_pos owner xs (memory s) s.pagetable s.sz) (o : Made) (a b pi : ℕ)
      (ys : List ℕ) (m : IsMade end v me put s.kernel xs o a b pi ys) where
    free : IsFree end s.kernel.kmem xs
    free = process.well.free

    module _ (addr fd0 fd1 : ℕ) (h0 : (fd0 < nofile) × (s.ofile fd0 ≡ none))
        (h1 : (fd1 < nofile) × (update s.ofile fd0 (some a) fd1 ≡ none)) where
      abbrev opened : Sys
      opened = record s {
        kernel = o.after;
        ofile = update (update s.ofile fd0 (some a)) fd1 (some b);
      }

      differ : fd0 ≢ fd1
      differ e = ground (arith, h1.1)
