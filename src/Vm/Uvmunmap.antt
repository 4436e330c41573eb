-- ===== src/Vm/Uvmunmap.antt =====
-- `uvmunmap` of kernel/vm.c as a whole.
use increase_ipc_throughput.Base.{
  ℕ, zero, suc, ◌+◌, ◌*◌, ◌/◌, ◌%◌, ◌<◌, ◌≡◌, refl, sym, ap, ◌∙◌, arith, subst, Bool, true, false,
  Option, none, some, List, inl, inr, if◌then◌else◌, ◌==◌, Bool-cases, leb,
}
use increase_ipc_throughput.Kalloc.{page_size}
use increase_ipc_throughput.Vm.{
  maxva, px, pte2pa, pte_v, load_word, Ram, set_pte, page_free, unmap_pte, walk, unmap_from,
  uvmunmap,
}
use increase_ipc_throughput.Vm.Tree.{Owner, part, key, user_pages, WellFormed}
use increase_ipc_throughput.Vm.Walk.{find, find-Found, walk_from-find, masked}
use increase_ipc_throughput.Vm.Leaf.{Written, set_leaf-Written}
use increase_ipc_throughput.Vm.Map.{top_key}
use increase_ipc_throughput.Vm.Unmap.{UnmapsOrNot, Unmappable, nothing-Unmaps}
use increase_ipc_throughput.Vm.Unmapped.{clear-Unmaps, free-Unmaps}
use increase_ipc_throughput.Vm.UnmapRest.{none-Unmaps, rest-Unmappable, joined}

module _ (end : ℕ) (end_pos : 0 < end) where
  -- The entry was valid.
  valid-Unmaps :
      (owner : ℕ → Owner) (xs : List ℕ) (m : Ram) (r a p : ℕ) (do_free : Bool)
      → WellFormed end owner xs m
      → owner r ≡ part r 3 0
      → a % 4096 ≡ 0
      → a < maxva
      → (do_free ≡ true → a / 4096 < user_pages)
      → owner p ≡ part r 1 (key 0 a)
      → find 2 r a m.bytes ≡ p + 8 * px 0 a
      → pte_v (load_word 8 m.bytes (p + 8 * px 0 a)) ≡ true
      → UnmapsOrNot end owner xs m r a 1 do_free (unmap_pte end do_free (p + 8 * px 0 a) m)
  unfolding unmap_pte
  valid-Unmaps owner xs m r a p do_free w root al lt user op f valid =
      rw (there, valid) (cases do_free user)
    where
      there : (p + 8 * px 0 a == 0) ≡ false
      there = ground (arith, w.page p r 1 (key 0 a) op, end_pos)

      wr : Written end owner xs m r a 0 (set_pte m (p + 8 * px 0 a) 0)
      wr =
          set_leaf-Written end end_pos owner xs m w r a p 0 op (omega arith)
            (λ cov v. absurd (ground (arith, v))) root lt f

      cases :
          (d : Bool)
          → (d ≡ true → a / 4096 < user_pages)
          → UnmapsOrNot end owner xs m r a 1 d (
              if d
              then elim (page_free end (pte2pa (load_word 8 m.bytes (p + 8 * px 0 a))) m) [
                | none ↦ none
                | some m' ↦ some (set_pte m' (p + 8 * px 0 a) 0)
              ]
              else some (set_pte m (p + 8 * px 0 a) 0))
      cases true user =
          let c = free-Unmaps end end_pos owner xs m r a p w root al lt op f valid (user refl) in
          rw (c.1) c.2
      cases false user =
          clear-Unmaps end end_pos owner xs m (set_pte m (p + 8 * px 0 a) 0) r a wr al
            (λ b x s lo hi. wr.kept.frames b (s.0 + 8 * s.3) (s.2 * 512 + s.3) x s.6 lo hi)

  page-Unmaps :
      (owner : ℕ → Owner) (xs : List ℕ) (m : Ram) (r a n : ℕ) (do_free : Bool)
      → Unmappable end owner xs m r a (suc n) do_free
      → UnmapsOrNot end owner xs m r a 1 do_free (unmap_pte end do_free (find 2 r a m.bytes) m)
  unfolding unmap_pte
  page-Unmaps owner xs m r a n do_free h =
      let lt : a < maxva = omega (arith, h.fits) in
      elim (find-Found owner m.bytes r a h.well.linked 2 r (h.root ∙ top_key end r a lt)) [
        | inl (gone, e) ↦ rw (gone) (nothing-Unmaps end owner xs m r a do_free h.well e)
        | inr (p, op, at, e) ↦
            subst (λ k. UnmapsOrNot end owner xs m r a 1 do_free (unmap_pte end do_free k m))
              (sym at)
              (elim (Bool-cases (pte_v (load_word 8 m.bytes (p + 8 * px 0 a)))) [
                | inl valid ↦
                    valid-Unmaps owner xs m r a p do_free h.well h.root h.aligned lt
                      (λ d. omega (arith, h.user d)) op at valid
                | inr out ↦
                    let there : (p + 8 * px 0 a == 0) ≡ false =
                      ground (arith, h.well.page p r 1 (key 0 a) op, end_pos) in
                    rw (there, out)
                      (nothing-Unmaps end owner xs m r a do_free h.well
                        (e ∙ ap (λ k. masked (load_word 8 m.bytes k)) at ∙ rw out refl))
              ])
      ]

  -- The first page, and the rest by what is known of every memory.
  and_rest :
      (owner : ℕ → Owner) (xs : List ℕ) (m : Ram) (r a n : ℕ) (do_free : Bool)
      → Unmappable end owner xs m r a (suc n) do_free
      → ((o' : ℕ → Owner) (x' : List ℕ) (m' : Ram)
          → Unmappable end o' x' m' r (a + page_size) n do_free
          → UnmapsOrNot end o' x' m' r
              (a + page_size)
              n
              do_free
              (unmap_from end n r (a + page_size) do_free m'))
      → (o : Option Ram) → UnmapsOrNot end owner xs m r a 1 do_free o
      → UnmapsOrNot end owner xs m r a
          (suc n)
          do_free
          (elim o [ none ↦ none | some m' ↦ unmap_from end n r (a + page_size) do_free m' ])
  and_rest owner xs m r a n do_free h ih none c = c
  and_rest owner xs m r a n do_free h ih (some m1) c =
      joined end owner xs m m1 r a n do_free h c (unmap_from end n r (a + page_size) do_free m1)
        (ih c.owner' c.xs' m1 (rest-Unmappable end owner xs m m1 r a n do_free h c))

  unmap_from-Unmaps :
      (n : ℕ) (owner : ℕ → Owner) (xs : List ℕ) (m : Ram) (r a : ℕ) (do_free : Bool)
      → Unmappable end owner xs m r a n do_free
      → UnmapsOrNot end owner xs m r a n do_free (unmap_from end n r a do_free m)
  unfolding unmap_from walk
  unmap_from-Unmaps zero owner xs m r a do_free h = none-Unmaps end owner xs m r a do_free h.well
  unmap_from-Unmaps (suc n) owner xs m r a do_free h =
      let below : leb maxva a ≡ false = ground (arith, h.fits) in
      rw (unmap_from, below, walk_from-find 2 r a m)
        (and_rest owner xs m r a n do_free h
          (λ o' x' m' h'. unmap_from-Unmaps n o' x' m' r (a + page_size) do_free h')
          (unmap_pte end do_free (find 2 r a m.bytes) m) (page-Unmaps owner xs m r a n do_free h))

  -- From an aligned address on, for pages below `MAXVA` and, with `do_free`, below `TRAPFRAME`:
  -- `uvmunmap` never panics, the entries of these pages are gone, and with `do_free` each page of
  -- memory that they led to is free. No other entry of this or of any other page table changes,
  -- and the memory of the other pages and processes stays as it was, and theirs.
  pub uvmunmap-Unmaps :
      (owner : ℕ → Owner) (xs : List ℕ) (m : Ram) (r a n : ℕ) (do_free : Bool)
      → Unmappable end owner xs m r a n do_free
      → UnmapsOrNot end owner xs m r a n do_free (uvmunmap end r a n do_free m)
  unfolding uvmunmap
  uvmunmap-Unmaps owner xs m r a n do_free h =
      let al : (a % 4096 == 0) ≡ true = ground (arith, h.aligned) in
      rw (al) (unmap_from-Unmaps n owner xs m r a do_free h)
