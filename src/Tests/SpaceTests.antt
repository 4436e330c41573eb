-- ===== src/Tests/SpaceTests.antt =====
-- A machine with one empty page table and some free pages, for kernel/vm.c.
use increase_ipc_throughput.User.{UserSpace}
use increase_ipc_throughput.Base.{
  ◌++◌, pos, ℕ, ◌+◌, ◌*◌, ◌<◌, ◌≡◌, refl, sym, ap, ◌∙◌, arith, Bool, true, false, Option, none,
  some, List, [], ◌∷◌, inl, inr, update, update_ne, update_self, ==→eq, ◌==◌, Bool-cases, arith,
  subst, if◌then◌else◌,
}
use increase_ipc_throughput.Pipe.{v7, Pipe, WriteJob, ReadJob, write_iter, read_iter}
use increase_ipc_throughput.Pipe.Contents.{IsValid, contents}
use increase_ipc_throughput.Pipe.Write
use increase_ipc_throughput.Pipe.Read
use increase_ipc_throughput.Space.Interface.{Loaded, vm_space}
use increase_ipc_throughput.Space.PipeRounds.{Sees, Shows, write_iter-Sees, read_iter-Shows}
use increase_ipc_throughput.Kalloc.{kalloc}
use increase_ipc_throughput.Strings.{memset, fill}
use increase_ipc_throughput.Space.{map_or_free}
use increase_ipc_throughput.Kalloc.FreeList.{IsPage, IsFree, Chain}
use increase_ipc_throughput.Vm.{
  px, walkaddr, walk_from, walk, ismapped, page_alloc, fill_page, map_from, set_pte, store_word,
  Ram, load_word, mappages, uvmunmap,
}
use increase_ipc_throughput.Vm.Bytes.{load_zero}
use increase_ipc_throughput.Vm.Tree.{Owner, nobody, part, Linked, WellFormed, pte_at-zero}
use increase_ipc_throughput.Space.Access.{copyin, copyout, copyout_from, reach, vmfault, put_bytes}
use increase_ipc_throughput.Space.Process.{IsProcess}
use increase_ipc_throughput.Space.{fault_perm}
use increase_ipc_throughput.Vm.Mappages.{mappages-Maps}
use increase_ipc_throughput.Vm.Unmap.{UnmapsOrNot}
use increase_ipc_throughput.Vm.Uvmunmap.{uvmunmap-Unmaps}
use increase_ipc_throughput.Space.Copyin.{CopiedInOrNot, copyin-CopiedIn}
use increase_ipc_throughput.Space.Copyout.{CopiedOut, CopiedOutOrNot}
use increase_ipc_throughput.Space.Copies.{copyout-CopiedOut}
use increase_ipc_throughput.Space.RoundTrip.{copyin-copyout}
use increase_ipc_throughput.Vm.Map.{MapsOrNot}

-- The first address after the kernel, the root of the table, and the pages that are free.
abbrev pub kernel_end : ℕ
kernel_end = 8192

abbrev pub root : ℕ
root = 8192

abbrev pub pages : List ℕ
pages = 12288 ∷ 16384 ∷ 20480 ∷ 24576 ∷ []

abbrev links : ℕ → ℕ
links = update (update (update (λ a. 0) 12288 16384) 16384 20480) 20480 24576

abbrev pub machine : Ram
machine = record { kmem = record { link = links; freelist = 12288 }; bytes = λ a. 0 }

abbrev pub owners : ℕ → Owner
owners = update (λ a. nobody) root (part root 3 0)

abbrev ok_of : Option (Bool × Ram) → Bool
ok_of none = false
ok_of (some (ok, m)) = ok

-- Two bytes go into a page that is allocated on the way.
test_copyout : ok_of (copyout kernel_end 8192 8192 root 100 (7 ∷ 9 ∷ []) machine) ≡ true
unfolding copyout copyout_from reach walkaddr walk_from load_word vmfault ismapped walk page_alloc
    kalloc fill_page memset fill map_or_free mappages map_from set_pte store_word put_bytes
test_copyout = refl

pub end_pos : 0 < kernel_end
end_pos = omega arith

root-IsPage : IsPage kernel_end root
root-IsPage = (omega arith, omega arith, omega arith)

owned_root : (a r l k : ℕ) → owners a ≡ part r l k → (root ≡ a) × (part root 3 0 ≡ part r l k)
owned_root a r l k o = elim (Bool-cases (root == a)) [
  | inl here ↦ (==→eq root a here, sym (ap (λ b. if b then part root 3 0 else nobody) here) ∙ o)
  | inr other ↦ absurd (ground (arith, other, o))
]

machine-WellFormed : WellFormed kernel_end owners pages machine
unfolding IsFree Chain Linked
machine-WellFormed = record {
  free = (
    refl,
    (omega arith, omega arith, omega arith),
    refl,
    (
      refl,
      (omega arith, omega arith, omega arith),
      refl,
      (
        refl,
        (omega arith, omega arith, omega arith),
        refl,
        (refl, (omega arith, omega arith, omega arith), refl, refl),
      ),
    ),
  );
  unowned = λ a i. ground (arith, i);
  page = λ a r l k o. subst (IsPage kernel_end) (owned_root a r l k o).0 root-IsPage;
  linked = λ p r l k j o lt cov v.
      absurd (ground (arith, v, load_zero 8 (λ a. 0) (p + 8 * j) (λ x lo hi. refl)));
}

pub machine-IsProcess : IsProcess kernel_end end_pos owners pages machine root 8192
machine-IsProcess = record {
  well = machine-WellFormed;
  root = update_self (λ a. nobody) root (part root 3 0);
  limit = omega arith;
  guarded = λ va lt u. absurd (
      ground (
        arith,
        u,
        pte_at-zero (λ a. 0) 2 root va
            (load_zero 8 (λ a. 0) (root + 8 * px 2 va) (λ x lo hi. refl)),
      ));
}

abbrev bytes : List ℕ
bytes = 7 ∷ 9 ∷ []

abbrev ram_of : Option (Bool × Ram) → Ram
ram_of none = machine
ram_of (some (ok, m)) = m

-- The memory after the two bytes went in.
abbrev after : Ram
after = ram_of (copyout kernel_end 8192 8192 root 100 bytes machine)

ok_some : (o : Option (Bool × Ram)) → ok_of o ≡ true → o ≡ some (true, ram_of o)
ok_some none h = cc
ok_some (some (ok, m)) h = ap (λ b. some (b, m)) h

copied : copyout kernel_end 8192 8192 root 100 bytes machine ≡ some (true, after)
copied = ok_some (copyout kernel_end 8192 8192 root 100 bytes machine) test_copyout

copyout-CopiedOut_example :
    CopiedOutOrNot kernel_end end_pos root 8192 owners pages machine 100 bytes
      (copyout kernel_end 8192 8192 root 100 bytes machine)
copyout-CopiedOut_example =
    copyout-CopiedOut kernel_end end_pos root 8192 owners pages machine 100 bytes machine-IsProcess

first : CopiedOut kernel_end end_pos root 8192 owners pages machine 100 bytes true after
first =
    subst (λ o. CopiedOutOrNot kernel_end end_pos root 8192 owners pages machine 100 bytes o) copied
      (copyout-CopiedOut kernel_end end_pos root 8192 owners pages machine 100 bytes
        machine-IsProcess)

after-IsProcess : IsProcess kernel_end end_pos first.owner' first.xs' after root 8192
after-IsProcess = first.processes root 8192 machine-IsProcess

copyin-CopiedIn_example :
    CopiedInOrNot kernel_end end_pos root 8192 first.owner' first.xs' after 99 3
      (copyin kernel_end 8192 8192 root 99 3 after)
copyin-CopiedIn_example =
    copyin-CopiedIn kernel_end end_pos root 8192 first.owner' first.xs' after 99 3 after-IsProcess

copyin-copyout_example :
    (m : Ram) × (copyin kernel_end 8192 8192 root 100 2 after ≡ some (true, bytes, m))
copyin-copyout_example =
    copyin-copyout kernel_end end_pos root 8192 owners pages machine after 100 bytes
      machine-IsProcess copied

uvmunmap-Unmaps_example :
    UnmapsOrNot kernel_end first.owner' first.xs' after root 0 1 true
      (uvmunmap kernel_end root 0 1 true after)
uvmunmap-Unmaps_example =
    uvmunmap-Unmaps kernel_end end_pos first.owner' first.xs' after root 0 1 true (record {
      well = after-IsProcess.well;
      root = after-IsProcess.root;
      aligned = omega arith;
      fits = omega arith;
      user = λ d. omega arith;
    })

-- Two pages above the kernel that nobody owns are mapped.
mappages-Maps_example :
    MapsOrNot kernel_end owners pages machine root 4096 2 28672 fault_perm
      (mappages root 4096 8192 28672 fault_perm machine)
mappages-Maps_example =
    mappages-Maps kernel_end end_pos owners pages machine root 4096 1 28672 fault_perm (record {
      well = machine-WellFormed;
      root = machine-IsProcess.root;
      aligned = (omega arith, omega arith);
      fits = (omega arith, omega arith);
      unmapped = λ i lt.
          pte_at-zero (λ a. 0) 2 root (4096 + i * 4096)
            (load_zero 8 (λ a. 0) (root + 8 * px 2 (4096 + i * 4096)) (λ x lo hi. refl));
      frames = λ i lt cov. (
        (omega arith, omega arith, omega arith),
        update_ne (λ a. nobody) (part root 3 0) (omega arith),
        ground (arith, lt),
      );
    })

abbrev loaded : Loaded kernel_end end_pos root 8192
loaded = record { owner = owners; xs = pages; ram = machine; process = machine-IsProcess }

abbrev space : UserSpace
space = vm_space kernel_end end_pos root 8192

-- A pipe of v7 with the bytes 5 and 6, and calls for two bytes at address 100.
abbrev two_in : Pipe
two_in = record { buf = λ i. i + 5; nread = 0; nwrite = 2; readopen = true; writeopen = true }

two_in-IsValid : IsValid v7 two_in
two_in-IsValid = record {
  nread_fits = omega arith;
  nwrite_fits = omega arith;
  used_le = omega arith;
}

abbrev writing : WriteJob
writing = record { addr = 100; n = pos 2; i = 0; need_wakeup = false }

abbrev reading : ReadJob
reading = record { addr = 100; n = pos 2; i = 0; was_full = false }

write_iter-Sees_example :
    let o = write_iter space v7 false two_in loaded writing in
    (contents v7 o.pipe ≡ contents v7 two_in ++ o.took)
    × Write.Continues writing o.took o.next
    × Sees kernel_end end_pos root 8192 v7 two_in loaded writing o
write_iter-Sees_example =
    write_iter-Sees kernel_end end_pos root 8192 v7 two_in loaded false writing two_in-IsValid

read_iter-Shows_example :
    let o = read_iter space v7 two_in loaded reading in
    (contents v7 two_in ≡ o.gave ++ (o.lost ++ contents v7 o.pipe))
    × Read.Continues reading o.gave o.next
    × Shows kernel_end end_pos root 8192 v7 two_in loaded reading o
read_iter-Shows_example =
    read_iter-Shows kernel_end end_pos root 8192 v7 two_in loaded reading two_in-IsValid
