-- ===== src/Space.antt =====
-- The memory of a process in kernel/vm.c: growing, shrinking, copying and freeing it, page faults,
-- and the copies between it and the kernel. A result `none` is a panic.
pub mod Sizes
pub mod Access
pub mod Place
pub mod Process
pub mod Fault
pub mod Reach
pub mod View
pub mod Reads
pub mod Copyin
pub mod Put
pub mod Copyout
pub mod Copies
pub mod RoundTrip
pub mod Interface
pub mod PipeRounds
use increase_ipc_throughput.Base.{
  ℕ, zero, suc, ◌+◌, ◌-◌, ◌*◌, ◌/◌, ◌%◌, Bool, true, false, not, ◌&&◌, Option, none, some, List, [],
  ◌∷◌, ◌++◌, ltb, leb, ◌==◌, if◌then◌else◌, min, update, length,
}
use increase_ipc_throughput.Strings.{memmove}
use increase_ipc_throughput.Kalloc.{page_size, page_round_up}
use increase_ipc_throughput.Vm.{
  maxva, pte2pa, pte_v, pte_w, pte_u, pte_rwx, pte_flags, Ram, get_pte, set_pte, fill_page,
  page_alloc, page_free, walk, walkaddr, ismapped, mappages, uvmunmap,
}

-- `PTE_R|PTE_U|xperm`, where `xperm` has neither bit, and `PTE_W|PTE_U|PTE_R`.
abbrev pub user_perm : ℕ → ℕ
user_perm xperm = 18 + xperm

abbrev pub fault_perm : ℕ
fault_perm = 22

-- `PGROUNDDOWN(a)`.
abbrev pub page_round_down : ℕ → ℕ
page_round_down a = a / page_size * page_size

-- `uvmcreate()`.
pub uvmcreate : Ram → ℕ × Ram
uvmcreate m =
    let (pagetable, m') = page_alloc m in
    if pagetable == 0 then (0, m') else (pagetable, fill_page pagetable 0 m')

-- `*pte &= ~PTE_U`.
abbrev pub without_u : ℕ → ℕ
without_u pte = if pte_u pte then pte - 16 else pte

-- `uvmclear(pagetable, va)`.
pub uvmclear : ℕ → ℕ → Ram → Option Ram
uvmclear pagetable va m = elim (walk pagetable va false m) [
  | none ↦ none
  | some (pte, m') ↦ if pte == 0 then none else some (set_pte m pte (without_u (get_pte m pte)))
]

module _ (end : ℕ) where
  -- A call of `mappages` for one page, and `kfree(mem)` where it fails.
  unfoldable pub map_or_free : ℕ → ℕ → ℕ → ℕ → Ram → Option (Bool × Ram)
  map_or_free pagetable va mem perm m = elim (mappages pagetable va page_size mem perm m) [
    | none ↦ none
    | some (ok, m') ↦
        if ok
        then some (true, m')
        else elim (page_free end mem m') [ none ↦ none | some m'' ↦ some (false, m'') ]
  ]

  -- `uvmdealloc(pagetable, oldsz, newsz)`.
  unfoldable pub uvmdealloc : ℕ → ℕ → ℕ → Ram → Option (ℕ × Ram)
  uvmdealloc pagetable oldsz newsz m =
      let npages = (page_round_up oldsz - page_round_up newsz) / page_size in
      if leb oldsz newsz
      then some (oldsz, m)
      else if ltb (page_round_up newsz) (page_round_up oldsz)
      then elim (uvmunmap end pagetable (page_round_up newsz) npages true m) [
        | none ↦ none
        | some m' ↦ some (newsz, m')
      ]
      else some (newsz, m)

  -- What the loop of `uvmalloc` does where it fails.
  unfoldable pub alloc_undo : ℕ → ℕ → ℕ → Ram → Option (ℕ × Ram)
  alloc_undo pagetable a oldsz m = elim (uvmdealloc pagetable a oldsz m) [
    | none ↦ none
    | some (sz, m') ↦ some (0, m')
  ]

  -- The loop of `uvmalloc`, with fuel, from `a` on.
  unfoldable pub alloc_from : ℕ → ℕ → ℕ → ℕ → ℕ → ℕ → Ram → Option (ℕ × Ram)
  alloc_from zero pagetable a oldsz newsz xperm m = if ltb a newsz then none else some (newsz, m)
  alloc_from (suc f) pagetable a oldsz newsz xperm m =
      let (mem, m1) = page_alloc m in
      if ltb a newsz
      then if mem == 0
        then alloc_undo pagetable a oldsz m1
        else elim (map_or_free pagetable a mem (user_perm xperm) (fill_page mem 0 m1)) [
          | none ↦ none
          | some (ok, m2) ↦
              let rest = alloc_from f pagetable (a + page_size) oldsz newsz xperm m2 in
              if ok then rest else alloc_undo pagetable a oldsz m2
        ]
      else some (newsz, m)

  -- `uvmalloc(pagetable, oldsz, newsz, xperm)`.
  unfoldable pub uvmalloc : ℕ → ℕ → ℕ → ℕ → Ram → Option (ℕ × Ram)
  uvmalloc pagetable oldsz newsz xperm m =
      if ltb newsz oldsz
      then some (oldsz, m)
      else alloc_from (newsz / page_size + 1) pagetable (page_round_up oldsz) (page_round_up oldsz)
          newsz xperm m

  -- The loop of `freewalk` over the entries, from `i` on.
  pub free_entries : (ℕ → Ram → Option Ram) → ℕ → ℕ → ℕ → Ram → Option Ram
  free_entries below zero i pagetable m = some m
  free_entries below (suc n) i pagetable m =
      let pte = get_pte m (pagetable + 8 * i) in
      let next = free_entries below n (i + 1) pagetable m in
      if pte_v pte && (pte_rwx pte == 0)
      then elim (below (pte2pa pte) m) [
        | none ↦ none
        | some m' ↦ free_entries below n (i + 1) pagetable (set_pte m' (pagetable + 8 * i) 0)
      ]
      else if pte_v pte
      then none
      else next

  -- `freewalk(pagetable)` of a table with so many levels.
  pub freewalk : ℕ → ℕ → Ram → Option Ram
  freewalk zero pagetable m = none
  freewalk (suc levels) pagetable m = elim (free_entries (freewalk levels) 512 0 pagetable m) [
    | none ↦ none
    | some m' ↦ page_free end pagetable m'
  ]

  -- `uvmfree(pagetable, sz)`.
  pub uvmfree : ℕ → ℕ → Ram → Option Ram
  uvmfree pagetable sz m =
      elim (if ltb 0 sz
        then uvmunmap end pagetable 0 (page_round_up sz / page_size) true m
        else some m) [ none ↦ none | some m' ↦ freewalk 3 pagetable m' ]

  -- From `err` on in `uvmcopy`.
  unfoldable pub copy_undo : ℕ → ℕ → Ram → Option (Bool × Ram)
  copy_undo new i m = elim (uvmunmap end new 0 (i / page_size) true m) [
    | none ↦ none
    | some m' ↦ some (false, m')
  ]

  -- `memmove(mem, (char*)pa, PGSIZE)`.
  unfoldable pub copy_page : ℕ → ℕ → Ram → Ram
  copy_page mem pa m = record m { bytes = memmove m.bytes mem pa page_size }

  -- The loop of `uvmcopy`, with fuel, from `i` on.
  unfoldable pub copy_from : ℕ → ℕ → ℕ → ℕ → ℕ → Ram → Option (Bool × Ram)
  copy_from zero old new i sz m = if ltb i sz then none else some (true, m)
  copy_from (suc f) old new i sz m =
      let next = copy_from f old new (i + page_size) sz m in
      let (mem, m1) = page_alloc m in
      if ltb i sz
      then elim (walk old i false m) [
        | none ↦ none
        | some (pte, m') ↦
            let e = get_pte m pte in
            if pte == 0
            then next
            else if not (pte_v e)
            then next
            else if mem == 0
            then copy_undo new i m1
            else elim (map_or_free new i mem (pte_flags e) (copy_page mem (pte2pa e) m1)) [
              | none ↦ none
              | some (ok, m2) ↦
                  let rest = copy_from f old new (i + page_size) sz m2 in
                  if ok then rest else copy_undo new i m2
            ]
      ]
      else some (true, m)

  -- `uvmcopy(old, new, sz)`; `true` stands for 0 and `false` for -1.
  unfoldable pub uvmcopy : ℕ → ℕ → ℕ → Ram → Option (Bool × Ram)
  uvmcopy old new sz m = copy_from (sz / page_size + 1) old new 0 sz m
