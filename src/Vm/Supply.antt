-- ===== src/Vm/Supply.antt =====
-- Pages that kernel/vm.c takes from the allocator and puts to use, with the tree of pages kept.
use increase_ipc_throughput.Base.{
  ℕ, suc, ◌+◌, ◌*◌, ◌%◌, ◌^◌, ◌≤◌, ◌<◌, ◌≡◌, ◌≢◌, refl, sym, ◌∙◌, arith, subst, true, false, List,
  [], ◌∷◌, ◌⊎◌, inl, inr, contains, ◌==◌, Bool-cases, update, update_ne, ==→eq, ==→ne, ne→==,
}
use increase_ipc_throughput.Kalloc.{page_size, kalloc}
use increase_ipc_throughput.Kalloc.FreeList.{IsPage, IsFree, kalloc-Allocated}
use increase_ipc_throughput.Vm.{pte2pa, pte_v, load_word, Ram, set_pte, fill_page, page_alloc}
use increase_ipc_throughput.Vm.Bytes.{load_zero, memset_other, memset_in}
use increase_ipc_throughput.Vm.Tree.{Owner, nobody, part, Covered, Linked, WellFormed, holder_below}
use increase_ipc_throughput.Vm.Pages.{Apart, pages-Apart, owned_ne, Linked-same, Linked-store}

-- A fill changes its page only.
pub fill_page_other :
    (pa c : ℕ) (m : Ram) (x : ℕ) → Apart pa x → (fill_page pa c m).bytes x ≡ m.bytes x
unfolding fill_page
fill_page_other pa c m x h = memset_other m.bytes pa c page_size x h

pub fill_page_in :
    (pa c : ℕ) (m : Ram) (x : ℕ) → pa ≤ x → x < pa + 4096 → (fill_page pa c m).bytes x ≡ c % 256
unfolding fill_page
fill_page_in pa c m x lo hi = memset_in m.bytes pa c page_size x lo hi

-- A page of zeros has no valid entry.
pub fill_page_blank :
    (pa : ℕ) (m : Ram) (j : ℕ) → j < 512 → load_word 8 (fill_page pa 0 m).bytes (pa + 8 * j) ≡ 0
fill_page_blank pa m j lt =
    load_zero 8 (fill_page pa 0 m).bytes (pa + 8 * j)
      (λ x lo hi. fill_page_in pa 0 m x (omega arith) (omega arith))

module _ (end : ℕ) where
  -- Where the pages of entries are as before, the tree is.
  pub WellFormed-same :
      (owner : ℕ → Owner) (xs : List ℕ) (m m' : Ram)
      → IsFree end m'.kmem xs
      → ((p r l k x : ℕ)
          → owner p ≡ part r (suc l) k
          → p ≤ x
          → x < p + 4096
          → m'.bytes x ≡ m.bytes x)
      → ((a : ℕ) → contains xs a ≡ true → owner a ≡ nobody)
      → ((a r l k : ℕ) → owner a ≡ part r l k → IsPage end a)
      → Linked owner m.bytes
      → WellFormed end owner xs m'
  WellFormed-same owner xs m m' free same un page h = record {
    free = free;
    unowned = un;
    page = page;
    linked = Linked-same owner m.bytes m'.bytes same h;
  }

  -- A page that no table owns may be filled.
  pub fill_page-WellFormed :
      (owner : ℕ → Owner) (xs : List ℕ) (m : Ram) (c b : ℕ)
      → c % 4096 ≡ 0
      → owner c ≡ nobody
      → WellFormed end owner xs m
      → WellFormed end owner xs (fill_page c b m)
  unfolding fill_page
  fill_page-WellFormed owner xs m c b al free w =
      WellFormed-same owner xs m (fill_page c b m) w.free
        (λ p r l k x o lo hi. fill_page_other c b m x (
          pages-Apart c p x al (w.page p r (suc l) k o).0 (owned_ne owner c p r (suc l) k free o) lo
            hi))
        w.unowned w.page w.linked

  -- The page `c` was taken, and `ys` are still free.
  pub record Taken (owner : ℕ → Owner) (c : ℕ) (ys : List ℕ) (m m' : Ram) : Type 0 where
    pub well : WellFormed end owner ys m'
    pub nonzero : c ≢ 0
    pub page : IsPage end c
    pub fresh : owner c ≡ nobody
    pub unlisted : contains ys c ≡ false
    pub others : (x : ℕ) → Apart c x → m'.bytes x ≡ m.bytes x

  module _ (end_pos : 0 < end) where
    -- `kalloc` of a memory where `xs` are free.
    abbrev pub Supplied : (ℕ → Owner) → Ram → ℕ × Ram → List ℕ → Type 0
    Supplied owner m r [] = r ≡ (0, m)
    Supplied owner m r (c ∷ ys) = (r.0 ≡ c) × Taken owner c ys m r.1

    pub page_alloc-Supplied :
        (owner : ℕ → Owner) (xs : List ℕ) (m : Ram)
        → WellFormed end owner xs m
        → Supplied owner m (page_alloc m) xs
    unfolding page_alloc
    page_alloc-Supplied owner [] m w = rw (kalloc-Allocated end end_pos m.kmem [] w.free) refl
    page_alloc-Supplied owner (c ∷ ys) m w =
        let (got, nonzero, page, unlisted, free) =
          kalloc-Allocated end end_pos m.kmem (c ∷ ys) w.free in
        let fresh : owner c ≡ nobody = w.unowned c (ground arith) in
        let m1 : Ram = record m { kmem = (kalloc m.kmem).1 } in
        let w1 : WellFormed end owner ys m1 =
          WellFormed-same owner ys m m1 free (λ p r l k x o lo hi. refl)
            (λ a i. w.unowned a (ground (arith, i))) w.page w.linked in
        rw (got, ne→== c 0 nonzero)
          (
            refl,
            record {
              well = fill_page-WellFormed owner ys m1 c 5 page.0 fresh w1;
              nonzero = nonzero;
              page = page;
              fresh = fresh;
              unlisted = unlisted;
              others = λ x h. fill_page_other c 5 m1 x h;
            },
          )

  -- A page that nobody owns becomes a part of a table; as a page of entries, it has none.
  pub give_page :
      (owner : ℕ → Owner) (xs : List ℕ) (m : Ram) (c r l k : ℕ)
      → IsPage end c
      → owner c ≡ nobody
      → contains xs c ≡ false
      → ((j : ℕ) → j < 512 → load_word 8 m.bytes (c + 8 * j) ≡ 0) ⊎ (l ≡ 0)
      → WellFormed end owner xs m
      → WellFormed end (update owner c (part r l k)) xs m
  unfolding Linked
  give_page owner xs m c r l k page fresh unlisted blank w = record {
    free = w.free;
    unowned = λ a i. elim (Bool-cases (c == a)) [
      | inl here ↦ absurd (ground (arith, ==→eq c a here))
      | inr other ↦ rw other (w.unowned a i)
    ];
    page = λ a r' l' k' o. elim (Bool-cases (c == a)) [
      | inl here ↦ subst (IsPage end) (==→eq c a here) page
      | inr other ↦ w.page a r' l' k' (sym (update_ne owner (part r l k) (==→ne c a other)) ∙ o)
    ];
    linked = λ q r' l' k' j' o lt cov valid. elim (Bool-cases (c == q)) [
      | inl here ↦ elim blank [
        | inl zeros ↦ absurd (ground (arith, zeros j' lt, ==→eq c q here))
        | inr bottom ↦ absurd (ground (arith, bottom, o, here))
      ]
      | inr other ↦
          let up : owner (pte2pa (load_word 8 m.bytes (q + 8 * j')))
              ≡ part (holder_below l' (q + 8 * j') r') l' (k' * 512 + j') =
            w.linked q r' l' k' j' (sym (update_ne owner (part r l k) (==→ne c q other)) ∙ o) lt cov
              valid in
          update_ne owner (part r l k) (
            owned_ne owner c (pte2pa (load_word 8 m.bytes (q + 8 * j')))
              (holder_below l' (q + 8 * j') r') l' (k' * 512 + j') fresh up)
          ∙ up
    ];
  }

  -- An entry of a page of the tree is set.
  pub set_pte-WellFormed :
      (owner : ℕ → Owner) (xs : List ℕ) (m : Ram) (p r l k j v : ℕ)
      → owner p ≡ part r (suc l) k
      → j < 512
      → v < 2 ^ 64
      → (Covered l (k * 512 + j)
          → pte_v v ≡ true
          → owner (pte2pa v) ≡ part (holder_below l (p + 8 * j) r) l (k * 512 + j))
      → WellFormed end owner xs m
      → WellFormed end owner xs (set_pte m (p + 8 * j) v)
  unfolding set_pte
  set_pte-WellFormed owner xs m p r l k j v o lt small leads w = record {
    free = w.free;
    unowned = w.unowned;
    page = w.page;
    linked =
        Linked-store owner m.bytes p r l k j v (λ a r' l' k' o'. (w.page a r' l' k' o').0) o lt
          small leads w.linked;
  }
