-- ===== src/Kalloc/FreeList.antt =====
-- The free list of kernel/kalloc.c as a list of pages.
use increase_ipc_throughput.Base.{
  ℕ, zero, suc, ◌+◌, ◌*◌, ◌/◌, ◌%◌, ◌≤◌, ◌<◌, ◌≡◌, ◌≢◌, refl, arith, true, false, Option, none,
  some, List, [], ◌∷◌, update, update_ne, contains, leb, Bool-cases, inl, inr, ◌==◌, update_self,
}
use increase_ipc_throughput.Kalloc.{
  page_size, page_round_up, phystop, Kmem, junk, kalloc, kfree, free_from, freerange, kinit,
}

module _ (end : ℕ) where
  -- An address that `kfree` takes.
  abbrev pub IsPage : ℕ → Type 0
  IsPage a = (a % page_size ≡ 0) × (end ≤ a) × (a < phystop)

  -- The chain from `head` on runs through these pages, each once, and ends.
  unfoldable pub Chain : (ℕ → ℕ) → ℕ → List ℕ → Type 0
  Chain link head [] = head ≡ 0
  Chain link head (x ∷ xs) =
      (head ≡ x) × IsPage x × (contains xs x ≡ false) × Chain link (link x) xs

  -- The pages that are free, in the order in which `kalloc` returns them.
  unfoldable pub IsFree : Kmem → List ℕ → Type 0
  unfolding Chain
  IsFree k xs = Chain k.link k.freelist xs

  pub Chain-update :
      (link : ℕ → ℕ) (head a w : ℕ) (xs : List ℕ)
      → contains xs a ≡ false
      → Chain link head xs
      → Chain (update link a w) head xs
  unfolding Chain
  Chain-update link head a w [] h c = c
  Chain-update link head a w (x ∷ xs) h c = (
    c.0,
    c.1,
    c.2,
    rw (update_ne link w other) (Chain-update link (link x) a w xs (ground arith) c.3),
  )
    where
      other : a ≢ x
      other = ground arith

  -- A page that is not free is freed: it comes first.
  pub kfree-IsFree :
      (pa : ℕ) (k : Kmem) (xs : List ℕ)
      → IsPage pa
      → contains xs pa ≡ false
      → IsFree k xs
      → (k' : Kmem) × (kfree end pa k ≡ some k') × IsFree k' (pa ∷ xs)
  unfolding kfree Chain IsFree
  kfree-IsFree pa k xs page new c = (
    record { link = update (update k.link pa (junk 1)) pa k.freelist; freelist = pa },
    ground arith,
    (
      refl,
      page,
      new,
      rw (update_self (update k.link pa (junk 1)) pa k.freelist) (
          Chain-update (update k.link pa (junk 1)) k.freelist pa k.freelist xs new
            (Chain-update k.link k.freelist pa (junk 1) xs new c)),
    ),
  )

  module _ (end_pos : 0 < end) where
    -- `kalloc` returns the first free page and keeps the others, or 0 and changes nothing.
    abbrev pub Allocated : Kmem → ℕ × Kmem → List ℕ → Type 0
    Allocated k r [] = r ≡ (0, k)
    Allocated k r (x ∷ xs) =
        (r.0 ≡ x) × (x ≢ 0) × IsPage x × (contains xs x ≡ false) × IsFree r.1 xs

    -- `kalloc` takes the first of the free pages, or returns 0 where none is left.
    pub kalloc-Allocated : (k : Kmem) (xs : List ℕ) → IsFree k xs → Allocated k (kalloc k) xs
    unfolding kalloc IsFree Chain
    kalloc-Allocated k [] c = rw c refl
    kalloc-Allocated k (x ∷ xs) c =
        rw (taken)
          (c.0, nonzero, c.1, c.2, rw (c.0) (Chain-update k.link (k.link x) x (junk 5) xs c.2 c.3))
      where
        nonzero : x ≢ 0
        nonzero = omega (arith, c.1)

        taken : (k.freelist == 0) ≡ false
        taken = ground (arith, c.0, nonzero)

  -- The free pages below `p` are all pages below `p`.
  record AllBelow (p : ℕ) (xs : List ℕ) : Type 0 where
    below : (a : ℕ) → contains xs a ≡ true → a < p
    all : (a : ℕ) → IsPage a → a < p → contains xs a ≡ true

  -- The allocator after a call that did not panic, with every page free.
  abbrev pub AllFree : Option Kmem → Type 0
  AllFree none = ⊥
  AllFree (some k) = (xs : List ℕ) × IsFree k xs × ((a : ℕ) → IsPage a → contains xs a ≡ true)

  one_more : (p : ℕ) (xs : List ℕ) → IsPage p → AllBelow p xs → AllBelow (p + page_size) (p ∷ xs)
  one_more p xs page h = record {
    below = λ a i. ground (arith, h.below a);
    all = λ a i lt. elim (Bool-cases (p == a)) [
      | inl same ↦ ground arith
      | inr other ↦ ground (arith, h.all a i (ground arith))
    ];
  }

  free_from-AllFree :
      (f p : ℕ) (k : Kmem) (xs : List ℕ)
      → p % page_size ≡ 0
      → end ≤ p
      → phystop ≤ p + f * page_size
      → AllBelow p xs
      → IsFree k xs
      → AllFree (free_from end f p phystop k)
  unfolding free_from
  free_from-AllFree zero p k xs al ge fuel h c =
      rw (ends) (xs, c, λ a i. h.all a i (omega (arith, i)))
    where
      ends : leb (p + page_size) phystop ≡ false
      ends = ground arith
  free_from-AllFree (suc f) p k xs al ge fuel h c =
      elim (Bool-cases (leb (p + page_size) phystop)) [
        | inr out ↦ rw out (xs, c, λ a i. h.all a i (ground arith))
        | inl more ↦
            let page : IsPage p = (al, ge, ground arith) in
            let new : contains xs p ≡ false = ground (arith, h.below p) in
            let freed = kfree-IsFree p k xs page new c in
            rw (more, freed.1)
              (free_from-AllFree f (p + page_size) freed.0 (p ∷ xs) (omega arith) (omega arith)
                (omega arith) (one_more p xs page h) freed.2)
      ]

  -- `kinit` does not panic, and then each page from `end` to `PHYSTOP` is free.
  pub kinit-AllFree : (link : ℕ → ℕ) → end ≤ phystop → AllFree (kinit end link)
  unfolding kinit freerange IsFree Chain
  kinit-AllFree link le =
      free_from-AllFree (phystop / page_size) (page_round_up end)
        (record { link = link; freelist = 0 }) [] (omega arith) (omega arith) (omega arith)
        (record { below = λ a i. absurd (ground arith); all = λ a i lt. absurd (omega arith) }) refl
