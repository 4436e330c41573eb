-- ===== src/Kalloc.antt =====
-- kernel/kalloc.c: the free pages, linked through their first words.
pub mod FreeList
use increase_ipc_throughput.Base.{
  ℕ, zero, suc, ◌+◌, ◌-◌, ◌*◌, ◌/◌, ◌%◌, ◌^◌, Bool, true, false, not, ◌||◌, Option, none, some, ltb,
  leb, ◌==◌, if◌then◌else◌, update,
}

-- `PGSIZE`, `PGROUNDUP` of kernel/riscv.h, on addresses far from the end of 64 bits.
abbrev pub page_size : ℕ
page_size = 4096

abbrev pub page_round_up : ℕ → ℕ
page_round_up a = (a + page_size - 1) / page_size * page_size

-- `PHYSTOP` of kernel/memlayout.h.
abbrev pub phystop : ℕ
phystop = 2 ^ 31 + 128 * 1024 * 1024

-- `kmem` without its lock. `link` is the first word of each page, `next` of `struct run`.
pub record Kmem : Type 0 where
  pub link : ℕ → ℕ
  pub freelist : ℕ

-- The first word of a page that `memset` filled with a byte.
abbrev pub junk : ℕ → ℕ
junk c = c * 72340172838076673

-- `kalloc()`: 0 if there is no page.
unfoldable pub kalloc : Kmem → ℕ × Kmem
kalloc k =
    let r = k.freelist in
    if r == 0 then (0, k) else (r, record { link = update k.link r (junk 5); freelist = k.link r })

-- `end` is the first address after the kernel, which the linker sets.
module _ (end : ℕ) where
  -- `kfree(pa)`; `none` is the panic.
  unfoldable pub kfree : ℕ → Kmem → Option Kmem
  kfree pa k =
      if not (pa % page_size == 0) || (ltb pa end || leb phystop pa)
      then none
      else some (record { link = update (update k.link pa (junk 1)) pa k.freelist; freelist = pa })

  -- The loop of `freerange` from `p` on, with fuel.
  unfoldable pub free_from : ℕ → ℕ → ℕ → Kmem → Option Kmem
  free_from zero p pa_end k = if leb (p + page_size) pa_end then none else some k
  free_from (suc f) p pa_end k =
      if leb (p + page_size) pa_end
      then elim (kfree p k) [ none ↦ none | some k' ↦ free_from f (p + page_size) pa_end k' ]
      else some k

  -- `freerange(pa_start, pa_end)`.
  unfoldable pub freerange : ℕ → ℕ → Kmem → Option Kmem
  freerange pa_start pa_end k = free_from (pa_end / page_size) (page_round_up pa_start) pa_end k

  -- `kinit()`, on the zeroed `kmem`.
  unfoldable pub kinit : (ℕ → ℕ) → Option Kmem
  kinit link = freerange end phystop (record { link = link; freelist = 0 })
