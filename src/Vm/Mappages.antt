-- ===== src/Vm/Mappages.antt =====
-- The loop of `mappages` in kernel/vm.c as a whole.
use increase_ipc_throughput.Base.{
  ℕ, zero, suc, ◌+◌, ◌-◌, ◌*◌, ◌/◌, ◌%◌, ◌<◌, ◌≡◌, refl, ap, ◌∙◌, arith, subst, true, false, List,
  [], inl, inr, ◌==◌, leb, ne→==, u64,
}
use increase_ipc_throughput.Kalloc.{page_size}
use increase_ipc_throughput.Vm.{maxva, pte_make, Ram, set_pte, walk_from, walk, map_from, mappages}
use increase_ipc_throughput.Vm.Tree.{Owner, key, pte_at}
use increase_ipc_throughput.Vm.Kept.{Kept, Kept-trans, Kept-wider, Extends}
use increase_ipc_throughput.Vm.Leaf.{Written}
use increase_ipc_throughput.Vm.Map.{IsSpare, Mappable, Maps, MapsOrNot, Round, round, valid_make}
use increase_ipc_throughput.Vm.Rest.{rest-Mappable, join}

module _ (end : ℕ) where
  -- No memory for a page of entries: nothing was mapped.
  failed-Maps :
      (owner : ℕ → Owner) (xs : List ℕ) (m : Ram) (r a n pa perm : ℕ) (o1 : ℕ → Owner) (x1 : List ℕ)
      (m1 : Ram)
      → 0 < n
      → Extends end owner xs m o1 x1 m1
      → x1 ≡ []
      → Maps end owner xs m r a n pa perm false m1
  failed-Maps owner xs m r a n pa perm o1 x1 m1 pos e empty = record {
    owner' = o1;
    xs' = x1;
    kept = Kept-wider end 0 0 pa 0 owner xs m o1 x1 m1 (λ b lo hi. absurd (omega arith)) e.kept;
    count = 0;
    all = inr (refl, pos, empty);
    mapped = λ i lt. absurd (omega arith);
    others = λ t l r' va ot ne. e.entries t l r' va ot;
  }

  -- The last page was mapped.
  last-Maps :
      (owner : ℕ → Owner) (xs : List ℕ) (m : Ram) (r a pa perm : ℕ) (o1 : ℕ → Owner) (x1 : List ℕ)
      (m1 : Ram) (o2 : ℕ → Owner) (m2 : Ram)
      → a % 4096 ≡ 0
      → Extends end owner xs m o1 x1 m1
      → Kept end pa 1 o1 x1 m1 o2 x1 m1
      → Written end o2 x1 m1 r a (pte_make pa perm) m2
      → Maps end owner xs m r a 1 pa perm true m2
  last-Maps owner xs m r a pa perm o1 x1 m1 o2 m2 al e k2 wr = record {
    owner' = o2;
    xs' = x1;
    kept =
        Kept-trans end pa 1 owner xs m o1 x1 m1 o2 x1 m2
          (Kept-wider end 0 0 pa 1 owner xs m o1 x1 m1 (λ b lo hi. absurd (omega arith)) e.kept)
          (Kept-trans end pa 1 o1 x1 m1 o2 x1 m1 o2 x1 m2 k2
            (Kept-wider end 0 0 pa 1 o2 x1 m1 o2 x1 m2 (λ b lo hi. absurd (omega arith)) wr.kept));
    count = 1;
    all = inl (refl, refl);
    mapped = λ i lt.
        let i0 : i ≡ 0 = omega arith in
        ap (λ n. pte_at 2 r n m2.bytes) {x = a + i * 4096} {y = a} (omega arith)
        ∙ wr.here
        ∙ valid_make end pa perm
        ∙ ap (λ n. pte_make n perm) {x = pa} {y = pa + i * 4096} (omega arith);
    others = λ t l r' va ot ne.
        wr.others t l r' va
          (k2.keeps t r' (suc l) (key l va) (e.kept.keeps t r' (suc l) (key l va) ot))
          (elim ne [
            | inl other ↦ inl other
            | inr (inl below) ↦ inr (omega arith)
            | inr (inr above) ↦ inr (omega arith)
          ])
        ∙ e.entries t l r' va ot;
  }

  module _ (end_pos : 0 < end) where
    first :
        (owner : ℕ → Owner) (xs : List ℕ) (m : Ram) (r a n pa perm : ℕ)
        → Mappable end owner xs m r a (suc n) pa
        → Round end owner xs m r a pa (pte_make pa perm) (walk_from true a 2 r m)
    first owner xs m r a n pa perm h =
        round end end_pos owner xs m r a pa (pte_make pa perm) h.well h.root (omega (arith, h.fits))
          (ap (λ k. pte_at 2 r k m.bytes) {x = a} {y = a + 0 * 4096} (omega arith)
            ∙ h.unmapped 0 (omega arith))
          (omega (arith, h.fits)) (omega (arith, h.fits, h.aligned), h.aligned.1)
          (λ cov.
            subst (λ c. IsSpare end owner xs c) {x = pa + 0 * 4096} {y = pa} (omega arith)
              (h.frames 0 (omega arith) (omega (arith, cov))))

    map_from-Maps :
        (n : ℕ) (owner : ℕ → Owner) (xs : List ℕ) (m : Ram) (r a last pa perm : ℕ)
        → Mappable end owner xs m r a (suc n) pa
        → last ≡ a + n * 4096
        → MapsOrNot end owner xs m r a (suc n) pa perm (map_from (suc n) r a last pa perm m)
    unfolding map_from walk
    map_from-Maps zero owner xs m r a last pa perm h e =
        let below : leb maxva a ≡ false = ground (arith, h.fits) in
        let rd = first owner xs m r a 0 pa perm h in
        elim rd.found [
          | inl (gone, empty) ↦
              rw (map_from, below, gone)
                (failed-Maps owner xs m r a 1 pa perm rd.owner' rd.xs' (walk_from true a 2 r m).1
                  (omega arith) rd.extends empty)
          | inr (there, invalid, (o2, k2, wr)) ↦
              let o = walk_from true a 2 r m in
              let ends : (a == last) ≡ true = ground (arith, e) in
              rw (map_from, below, ne→== o.0 0 there, invalid, ends)
                (last-Maps owner xs m r a pa perm rd.owner' rd.xs' o.1 o2
                  (set_pte o.1 o.0 (pte_make pa perm)) h.aligned.0 rd.extends k2 wr)
        ]
    map_from-Maps (suc n) owner xs m r a last pa perm h e =
        let below : leb maxva a ≡ false = ground (arith, h.fits) in
        let rd = first owner xs m r a (suc n) pa perm h in
        elim rd.found [
          | inl (gone, empty) ↦
              rw (map_from, below, gone)
                (failed-Maps owner xs m r a (suc (suc n)) pa perm rd.owner' rd.xs'
                  (walk_from true a 2 r m).1 (omega arith) rd.extends empty)
          | inr (there, invalid, (o2, k2, wr)) ↦
              let o = walk_from true a 2 r m in
              let m2 = set_pte o.1 o.0 (pte_make pa perm) in
              let goes : (a == last) ≡ false = ground (arith, e) in
              rw (map_from, below, ne→== o.0 0 there, invalid, goes)
                (join end owner xs m r a n pa perm rd.owner' rd.xs' o.1 o2 m2 h rd.extends k2 wr
                  (map_from (suc n) r (a + page_size) last (pa + page_size) perm m2)
                  (map_from-Maps n o2 rd.xs' m2 r (a + page_size) last (pa + page_size) perm
                    (rest-Mappable end owner xs m r a n pa (pte_make pa perm) rd.owner' rd.xs' o.1
                      o2 m2 h rd.extends k2 wr)
                    (omega arith)))
        ]

    -- For aligned addresses below `MAXVA`, pages that are not mapped and, where they are user
    -- memory, frames that nobody owns and that are not free: `mappages` never panics. With 0 each
    -- page is mapped to its frame with these permissions; with -1 no page is free any more, and
    -- only the first pages are mapped. No other entry of this or of any other page table changes,
    -- user memory keeps its bytes, and the tree of pages stays well formed.
    pub mappages-Maps :
        (owner : ℕ → Owner) (xs : List ℕ) (m : Ram) (r a n pa perm : ℕ)
        → Mappable end owner xs m r a (suc n) pa
        → MapsOrNot end owner xs m r a (suc n) pa perm (mappages r a (suc n * 4096) pa perm m)
    unfolding mappages
    mappages-Maps owner xs m r a n pa perm h =
        rw (al, whole, some_pages, size, last)
          (map_from-Maps n owner xs m r a (a + n * 4096) pa perm h refl)
      where
        al : (a % 4096 == 0) ≡ true
        al = ground (arith, h.aligned)

        whole : (suc n * 4096 % 4096 == 0) ≡ true
        whole = ground arith

        some_pages : (suc n * 4096 == 0) ≡ false
        some_pages = ground arith

        size : suc n * 4096 / 4096 ≡ suc n
        size = omega arith

        last : (a + suc n * 4096 + u64 - 4096) % u64 ≡ a + n * 4096
        last = omega (arith, h.fits)
