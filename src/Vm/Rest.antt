-- ===== src/Vm/Rest.antt =====
-- The rounds of `mappages` in kernel/vm.c put together.
use increase_ipc_throughput.Base.{
  ℕ, zero, suc, ◌+◌, ◌*◌, ◌/◌, ◌<◌, ◌≡◌, ap, ◌∙◌, arith, subst, Bool, Option, none, some, List, inl,
  inr,
}
use increase_ipc_throughput.Kalloc.{page_size}
use increase_ipc_throughput.Vm.{maxva, pte_make, Ram}
use increase_ipc_throughput.Vm.Tree.{Owner, part, key, Covered, translate}
use increase_ipc_throughput.Vm.Kept.{Kept, Kept-trans, Kept-wider, Extends}
use increase_ipc_throughput.Vm.Leaf.{Written}
use increase_ipc_throughput.Vm.Map.{IsSpare, Mappable, MapsOrNot, valid_make, top_key}

module _ (end : ℕ) where
  -- What the round leaves to the rest of the loop.
  pub rest-Mappable :
      (owner : ℕ → Owner) (xs : List ℕ) (m : Ram) (r a g pa w : ℕ) (o1 : ℕ → Owner) (x1 : List ℕ)
      (m1 : Ram) (o2 : ℕ → Owner) (m2 : Ram)
      → Mappable end owner xs m r a (suc (suc g)) pa
      → Extends end owner xs m o1 x1 m1
      → Kept end pa 1 o1 x1 m1 o2 x1 m1
      → Written end o2 x1 m1 r a w m2
      → Mappable end o2 x1 m2 r (a + page_size) (suc g) (pa + page_size)
  rest-Mappable owner xs m r a g pa w o1 x1 m1 o2 m2 h e k2 wr = record {
    well = wr.kept.well;
    root = root';
    aligned = (omega (arith, h.aligned), omega (arith, h.aligned));
    fits = (omega (arith, h.fits), omega (arith, h.fits));
    unmapped = λ i lt.
        let va : ℕ = a + page_size + i * 4096 in
        let low : va < maxva = omega (arith, h.fits, lt) in
        wr.others r 2 r va (root' ∙ top_key end r va low) (inr (omega arith))
        ∙ e.entries r 2 r va (h.root ∙ top_key end r va low)
        ∙ ap (λ n. translate r n m) {x = va} {y = a + suc i * 4096} (omega arith)
        ∙ h.unmapped (suc i) (omega arith);
    frames = λ i lt cov.
        let shift : (b : ℕ) → b + page_size + i * 4096 ≡ b + suc i * 4096 = λ b. omega arith in
        rw (shift pa) (
          still_spare i (omega arith)
            (h.frames (suc i) (omega arith) (subst (λ n. Covered 0 (n / 4096)) (shift a) cov)));
  }
    where
      root' : o2 r ≡ part r 3 0
      root' = k2.keeps r r 3 0 (e.kept.keeps r r 3 0 h.root)

      still_spare :
          (i : ℕ)
          → i < suc g
          → IsSpare end owner xs (pa + suc i * 4096)
          → IsSpare end o2 x1 (pa + suc i * 4096)
      still_spare i lt (page, fresh, un) = elim (e.kept.spare (pa + suc i * 4096) page.0 fresh un) [
        | inr (s, q, o', lo, hi) ↦ absurd (omega arith)
        | inl (fresh1, un1) ↦ elim (k2.spare (pa + suc i * 4096) page.0 fresh1 un1) [
          | inl (fresh2, un2) ↦ (page, fresh2, un2)
          | inr (s, q, o', lo, hi) ↦ absurd (omega arith)
        ]
      ]

  -- The first page, and then the rest.
  pub join :
      (owner : ℕ → Owner) (xs : List ℕ) (m : Ram) (r a g pa perm : ℕ) (o1 : ℕ → Owner) (x1 : List ℕ)
      (m1 : Ram) (o2 : ℕ → Owner) (m2 : Ram)
      → Mappable end owner xs m r a (suc (suc g)) pa
      → Extends end owner xs m o1 x1 m1
      → Kept end pa 1 o1 x1 m1 o2 x1 m1
      → Written end o2 x1 m1 r a (pte_make pa perm) m2
      → (o : Option (Bool × Ram))
      → MapsOrNot end o2 x1 m2 r (a + page_size) (suc g) (pa + page_size) perm o
      → MapsOrNot end owner xs m r a (suc (suc g)) pa perm o
  join owner xs m r a g pa perm o1 x1 m1 o2 m2 h e k2 wr none c = c
  join owner xs m r a g pa perm o1 x1 m1 o2 m2 h e k2 wr (some (ok, m3)) c = record {
    owner' = c.owner';
    xs' = c.xs';
    count = suc c.count;
    kept =
        Kept-trans end pa (suc c.count) owner xs m o1 x1 m1 c.owner' c.xs' m3
          (Kept-wider end 0 0 pa (suc c.count) owner xs m o1 x1 m1 (λ b lo hi. absurd (omega arith))
            e.kept)
          (Kept-trans end pa (suc c.count) o1 x1 m1 o2 x1 m1 c.owner' c.xs' m3
            (Kept-wider end pa 1 pa (suc c.count) o1 x1 m1 o2 x1 m1 (λ b lo hi. (lo, omega arith))
              k2)
            (Kept-trans end pa (suc c.count) o2 x1 m1 o2 x1 m2 c.owner' c.xs' m3
              (Kept-wider end 0 0 pa (suc c.count) o2 x1 m1 o2 x1 m2
                (λ b lo hi. absurd (omega arith)) wr.kept)
              (Kept-wider end (pa + page_size) c.count pa (suc c.count) o2 x1 m2 c.owner' c.xs' m3
                (λ b lo hi. (omega arith, omega arith)) c.kept)));
    all = elim c.all [
      | inl (yes_all, n) ↦ inl (yes_all, omega arith)
      | inr (not_all, lt, empty) ↦ inr (not_all, omega arith, empty)
    ];
    mapped = mapped_at;
    others = λ t l r' va ot ne.
        let ot1 = k2.keeps t r' (suc l) (key l va) (e.kept.keeps t r' (suc l) (key l va) ot) in
        c.others t l r' va ot1 (elim ne [
          | inl other ↦ inl other
          | inr (inl below) ↦ inr (inl (omega arith))
          | inr (inr above) ↦ inr (inr (omega arith))
        ])
        ∙ wr.others t l r' va ot1 (elim ne [
          | inl other ↦ inl other
          | inr (inl below) ↦ inr (omega (arith, h.aligned))
          | inr (inr above) ↦ inr (omega (arith, h.aligned))
        ])
        ∙ e.entries t l r' va ot;
  }
    where
      root' : o2 r ≡ part r 3 0
      root' = k2.keeps r r 3 0 (e.kept.keeps r r 3 0 h.root)

      low : a < maxva
      low = omega (arith, h.fits)

      mapped_at :
          (i : ℕ) → i < suc c.count → translate r (a + i * 4096) m3 ≡ pte_make (pa + i * 4096) perm
      mapped_at zero lt =
          ap (λ n. translate r n m3) {x = a + 0 * 4096} {y = a} (omega arith)
          ∙ c.others r 2 r a (root' ∙ top_key end r a low) (inr (inl (omega arith)))
          ∙ wr.here
          ∙ valid_make end pa perm
          ∙ ap (λ n. pte_make n perm) {x = pa} {y = pa + 0 * 4096} (omega arith)
      mapped_at (suc j) lt =
          ap (λ n. translate r n m3) {x = a + suc j * 4096} {y = a + page_size + j * 4096}
            (omega arith)
          ∙ c.mapped j (omega arith)
          ∙ ap (λ n. pte_make n perm) {x = pa + page_size + j * 4096} {y = pa + suc j * 4096}
              (omega arith)
