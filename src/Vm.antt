-- ===== src/Vm.antt =====
-- kernel/vm.c: the three-level page tables of Sv39 in a memory of bytes, `walk`, `mappages` and
-- `uvmunmap`, with the macros of kernel/riscv.h. A result `none` is a panic.
pub mod Bytes
pub mod Tree
pub mod Pages
pub mod Supply
pub mod Kept
pub mod Graft
pub mod Walk
pub mod Leaf
pub mod Map
pub mod Rest
pub mod Mappages
pub mod Same
pub mod Unmap
pub mod Unmapped
pub mod UnmapRest
pub mod Uvmunmap
use increase_ipc_throughput.Base.{
  ℕ, zero, suc, ◌+◌, ◌-◌, ◌*◌, ◌/◌, ◌%◌, ◌^◌, Bool, true, false, not, ◌||◌, Option, none, some, ltb,
  leb, ◌==◌, if◌then◌else◌, update, u64,
}
use increase_ipc_throughput.Strings.{memset}
use increase_ipc_throughput.Kalloc.{page_size, Kmem, kalloc, kfree}

-- `MAXVA`.
abbrev pub maxva : ℕ
maxva = 2 ^ 38

-- `PX(level, va)`.
abbrev pub px : ℕ → ℕ → ℕ
px level va = va / 2 ^ (12 + 9 * level) % 512

-- `PA2PTE(pa)`, and `PTE2PA(pte)`, whose shift to the left loses what leaves the 64 bits.
abbrev pub pa2pte : ℕ → ℕ
pa2pte pa = pa / 4096 * 1024

abbrev pub pte2pa : ℕ → ℕ
pte2pa pte = pte / 1024 * 4096 % u64

-- `pte & PTE_V`, `pte & PTE_W`, `pte & PTE_U` as tests, `pte & (PTE_R|PTE_W|PTE_X)` and
-- `PTE_FLAGS(pte)`.
abbrev pub pte_v : ℕ → Bool
pte_v pte = pte % 2 == 1

abbrev pub pte_w : ℕ → Bool
pte_w pte = pte / 4 % 2 == 1

abbrev pub pte_u : ℕ → Bool
pte_u pte = pte / 16 % 2 == 1

abbrev pub pte_rwx : ℕ → ℕ
pte_rwx pte = pte / 2 % 8 * 2

abbrev pub pte_flags : ℕ → ℕ
pte_flags pte = pte % 1024

-- `PA2PTE(pa) | perm | PTE_V`: the ten low bits of `PA2PTE(pa)` are clear, and those of `perm` are
-- all that it has.
abbrev pub pte_make : ℕ → ℕ → ℕ
pte_make pa perm = pa2pte pa + perm % 1024 / 2 * 2 + 1

-- The little-endian word of `n` bytes at `a`, and a memory where it is `w`.
unfoldable pub load_word : ℕ → (ℕ → ℕ) → ℕ → ℕ
load_word zero bytes a = 0
load_word (suc n) bytes a = bytes a + 256 * load_word n bytes (a + 1)

unfoldable pub store_word : ℕ → (ℕ → ℕ) → ℕ → ℕ → ℕ → ℕ
store_word zero bytes a w = bytes
store_word (suc n) bytes a w = update (store_word n bytes (a + 1) (w / 256)) a (w % 256)

-- The memory and the free list of the allocator. The links of the list are kept apart from the
-- bytes, though `struct run` lies in the first word of a free page: `kfree` fills the page before it
-- writes the link and `kalloc` fills it again before it returns the page, so that the two differ
-- only in a page while it is free.
pub record Ram : Type 0 where
  pub kmem : Kmem
  pub bytes : ℕ → ℕ

-- `*pte`, and `*pte = w`.
abbrev pub get_pte : Ram → ℕ → ℕ
get_pte m pte = load_word 8 m.bytes pte

unfoldable pub set_pte : Ram → ℕ → ℕ → Ram
set_pte m pte w = record m { bytes = store_word 8 m.bytes pte w }

-- `memset(pa, c, PGSIZE)`.
unfoldable pub fill_page : ℕ → ℕ → Ram → Ram
fill_page pa c m = record m { bytes = memset m.bytes pa c page_size }

-- `kalloc()`, which fills the page with 5.
unfoldable pub page_alloc : Ram → ℕ × Ram
page_alloc m =
    let (pa, k) = kalloc m.kmem in
    if pa == 0 then (0, m) else (pa, fill_page pa 5 (record m { kmem = k }))

-- The loop of `walk`, from `level` down, and what follows it: the address of the entry, or 0.
unfoldable pub walk_from : Bool → ℕ → ℕ → ℕ → Ram → ℕ × Ram
walk_from alloc va zero pagetable m = (pagetable + 8 * px 0 va, m)
walk_from alloc va (suc level) pagetable m =
    let pte = pagetable + 8 * px (suc level) va in
    let child = walk_from alloc va level (pte2pa (get_pte m pte)) m in
    let (pa, m') = page_alloc m in
    let fresh = walk_from alloc va level pa (set_pte (fill_page pa 0 m') pte (pa2pte pa + 1)) in
    if pte_v (get_pte m pte)
    then child
    else if not alloc
    then (0, m)
    else if pa == 0
    then (0, m')
    else fresh

-- `walk(pagetable, va, alloc)`.
unfoldable pub walk : ℕ → ℕ → Bool → Ram → Option (ℕ × Ram)
walk pagetable va alloc m = if leb maxva va then none else some (walk_from alloc va 2 pagetable m)

-- `walkaddr(pagetable, va)`.
unfoldable pub walkaddr : ℕ → ℕ → Ram → ℕ
walkaddr pagetable va m =
    let (pte, m') = walk_from false va 2 pagetable m in
    if leb maxva va
    then 0
    else if pte == 0
    then 0
    else if not (pte_v (get_pte m pte))
    then 0
    else if not (pte_u (get_pte m pte))
    then 0
    else pte2pa (get_pte m pte)

-- `ismapped(pagetable, va)`.
unfoldable pub ismapped : ℕ → ℕ → Ram → Option Bool
ismapped pagetable va m = elim (walk pagetable va false m) [
  | none ↦ none
  | some (pte, m') ↦ some (if pte == 0 then false else pte_v (get_pte m pte))
]

-- The loop of `mappages`, with fuel; `true` stands for 0 and `false` for -1. No sum leaves the 64
-- bits, since `walk` panics from `MAXVA` on.
unfoldable pub map_from : ℕ → ℕ → ℕ → ℕ → ℕ → ℕ → Ram → Option (Bool × Ram)
map_from zero pagetable a last pa perm m = none
map_from (suc f) pagetable a last pa perm m = elim (walk pagetable a true m) [
  | none ↦ none
  | some (pte, m') ↦
      let m'' = set_pte m' pte (pte_make pa perm) in
      let rest = map_from f pagetable (a + page_size) last (pa + page_size) perm m'' in
      if pte == 0
      then some (false, m')
      else if pte_v (get_pte m' pte)
      then none
      else if a == last
      then some (true, m'')
      else rest
]

-- `mappages(pagetable, va, size, pa, perm)`.
unfoldable pub mappages : ℕ → ℕ → ℕ → ℕ → ℕ → Ram → Option (Bool × Ram)
mappages pagetable va size pa perm m =
    if not (va % page_size == 0) || not (size % page_size == 0) || size == 0
    then none
    else map_from (size / page_size) pagetable va ((va + size + u64 - page_size) % u64) pa perm m

module _ (end : ℕ) where
  -- `kfree(pa)`, which fills the page with 1.
  unfoldable pub page_free : ℕ → Ram → Option Ram
  page_free pa m = elim (kfree end pa m.kmem) [
    | none ↦ none
    | some k ↦ some (fill_page pa 1 (record m { kmem = k }))
  ]

  -- A round of the loop of `uvmunmap` on the entry that `walk` found.
  unfoldable pub unmap_pte : Bool → ℕ → Ram → Option Ram
  unmap_pte do_free pte m =
      let freed = page_free (pte2pa (get_pte m pte)) m in
      if pte == 0
      then some m
      else if not (pte_v (get_pte m pte))
      then some m
      else if do_free
      then elim freed [ none ↦ none | some m' ↦ some (set_pte m' pte 0) ]
      else some (set_pte m pte 0)

  -- The loop of `uvmunmap`, with so many pages left.
  unfoldable pub unmap_from : ℕ → ℕ → ℕ → Bool → Ram → Option Ram
  unmap_from zero pagetable a do_free m = some m
  unmap_from (suc npages) pagetable a do_free m = elim (walk pagetable a false m) [
    | none ↦ none
    | some (pte, m') ↦ elim (unmap_pte do_free pte m) [
      | none ↦ none
      | some m'' ↦ unmap_from npages pagetable (a + page_size) do_free m''
    ]
  ]

  -- `uvmunmap(pagetable, va, npages, do_free)`.
  unfoldable pub uvmunmap : ℕ → ℕ → ℕ → Bool → Ram → Option Ram
  uvmunmap pagetable va npages do_free m =
      if not (va % page_size == 0) then none else unmap_from npages pagetable va do_free m
