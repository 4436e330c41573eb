-- ===== src/Vm/Unmap.antt =====
-- `uvmunmap` of kernel/vm.c, a page at a time: the entry goes, and with it the page of memory.
use increase_ipc_throughput.Base.{
  ℕ, zero, suc, ◌+◌, ◌*◌, ◌/◌, ◌%◌, ◌≤◌, ◌<◌, ◌≡◌, ◌≢◌, refl, sym, ap, ◌∙◌, arith, Bool, true,
  false, Option, none, some, List, ◌∷◌, ◌⊎◌, inl, inr, ◌==◌, Bool-cases, contains, update,
  update_ne, ==→ne,
}
use increase_ipc_throughput.Kalloc.{Kmem}
use increase_ipc_throughput.Kalloc.FreeList.{IsFree}
use increase_ipc_throughput.Vm.{maxva, pte2pa, pte_v, load_word, Ram}
use increase_ipc_throughput.Vm.Tree.{
  Owner, nobody, part, holder_below, key, user_pages, Linked, WellFormed, pte_at, translate,
}

module _ (end : ℕ) where
  -- A frame whose entry is gone is free again.
  pub release :
      (owner : ℕ → Owner) (xs : List ℕ) (m : Ram) (k' : Kmem) (pa s k : ℕ)
      → WellFormed end owner xs m
      → owner pa ≡ part s 0 k
      → pte_v (load_word 8 m.bytes s) ≡ false
      → IsFree end k' (pa ∷ xs)
      → WellFormed end (update owner pa nobody) (pa ∷ xs) (record m { kmem = k' })
  unfolding Linked
  release owner xs m k' pa s k w o gone free = record {
    free = free;
    unowned = λ a i. elim (Bool-cases (pa == a)) [
      | inl here ↦ rw here refl
      | inr other ↦ rw other (w.unowned a (ground (arith, other)))
    ];
    page = λ a r l q oa. w.page a r l q (elim (Bool-cases (pa == a)) [
      | inl here ↦ absurd (ground (arith, here))
      | inr other ↦ sym (update_ne owner nobody (==→ne pa a other)) ∙ oa
    ]);
    linked = λ q r l k1 j oq lt cov v. elim (Bool-cases (pa == q)) [
      | inl here ↦ absurd (ground (arith, here))
      | inr other ↦
          let t : ℕ = pte2pa (load_word 8 m.bytes (q + 8 * j)) in
          let up =
            w.linked q r l k1 j (sym (update_ne owner nobody (==→ne pa q other)) ∙ oq) lt cov v in
          update_ne owner nobody (apart q r l k1 j up v) ∙ up
    ];
  }
    where
      apart :
          (q r l k1 j : ℕ)
          → owner (pte2pa (load_word 8 m.bytes (q + 8 * j)))
            ≡ part (holder_below l (q + 8 * j) r) l (k1 * 512 + j)
          → pte_v (load_word 8 m.bytes (q + 8 * j)) ≡ true
          → pa ≢ pte2pa (load_word 8 m.bytes (q + 8 * j))
      apart q r zero k1 j up v e =
          let same : part (q + 8 * j) 0 (k1 * 512 + j) ≡ part s 0 k =
            sym up ∙ sym (ap owner e) ∙ o in
          let slot : q + 8 * j ≡ s = cc in absurd (cc)
      apart q r (suc l) k1 j up v e =
          let same : part r (suc l) (k1 * 512 + j) ≡ part s 0 k = sym up ∙ sym (ap owner e) ∙ o in
          absurd (cc)

  -- A frame that stays: another table's, or that of another page.
  abbrev pub Stays : (ℕ → Owner) → ℕ → ℕ → ℕ → ℕ → Type 0
  Stays owner r a n b =
      (p : ℕ) × (r' : ℕ) × (k : ℕ) × (j : ℕ) × (owner p ≡ part r' 1 k)
      × (j < 512)
      × (owner b ≡ part (p + 8 * j) 0 (k * 512 + j))
      × ((r' ≢ r) ⊎ ((k * 512 + j < a / 4096) ⊎ (a / 4096 + n ≤ k * 512 + j)))

  -- The entries of the `n` pages are gone, and where `do_free` says so, the pages of memory that
  -- they led to are free; all else is as before.
  pub record Unmaps (owner : ℕ → Owner) (xs : List ℕ) (m : Ram) (r a n : ℕ) (do_free : Bool)
      (m' : Ram) : Type 0 where
    pub owner' : ℕ → Owner
    pub xs' : List ℕ
    pub well : WellFormed end owner' xs' m'
    pub tables : (b r' l k : ℕ) → owner b ≡ part r' (suc l) k → owner' b ≡ part r' (suc l) k
    pub frames : (b : ℕ) → Stays owner r a n b → owner' b ≡ owner b
    pub bytes : (b x : ℕ) → Stays owner r a n b → b ≤ x → x < b + 4096 → m'.bytes x ≡ m.bytes x
    pub gone : (i : ℕ) → i < n → translate r (a + i * 4096) m' ≡ 0
    pub others :
        (t l r' va : ℕ)
        → owner t ≡ part r' (suc l) (key l va)
        → (r' ≢ r) ⊎ ((va < a) ⊎ (a + n * 4096 ≤ va))
        → pte_at l t va m'.bytes ≡ pte_at l t va m.bytes
    pub freed :
        (i : ℕ)
        → i < n
        → do_free ≡ true
        → translate r (a + i * 4096) m ≢ 0
        → contains xs' (pte2pa (translate r (a + i * 4096) m)) ≡ true
    pub more : (b : ℕ) → contains xs b ≡ true → contains xs' b ≡ true

  abbrev pub UnmapsOrNot : (ℕ → Owner) → List ℕ → Ram → ℕ → ℕ → ℕ → Bool → Option Ram → Type 0
  UnmapsOrNot owner xs m r a n do_free none = ⊥
  UnmapsOrNot owner xs m r a n do_free (some m') = Unmaps owner xs m r a n do_free m'

  -- What `uvmunmap` relies on.
  pub record Unmappable (owner : ℕ → Owner) (xs : List ℕ) (m : Ram) (r a n : ℕ) (do_free : Bool)
      : Type 0 where
    pub well : WellFormed end owner xs m
    pub root : owner r ≡ part r 3 0
    pub aligned : a % 4096 ≡ 0
    pub fits : a + n * 4096 ≤ maxva
    pub user : do_free ≡ true → a / 4096 + n ≤ user_pages

  -- Nothing was mapped.
  pub nothing-Unmaps :
      (owner : ℕ → Owner) (xs : List ℕ) (m : Ram) (r a : ℕ) (do_free : Bool)
      → WellFormed end owner xs m
      → translate r a m ≡ 0
      → Unmaps owner xs m r a 1 do_free m
  nothing-Unmaps owner xs m r a do_free w e = record {
    owner' = owner;
    xs' = xs;
    well = w;
    tables = λ b r' l k o. o;
    frames = λ b s. refl;
    bytes = λ b x s lo hi. refl;
    gone = λ i lt. ap (λ n. translate r n m) {x = a + i * 4096} {y = a} (omega arith) ∙ e;
    others = λ t l r' va ot ne. refl;
    freed = λ i lt d ne.
        absurd (ne (ap (λ n. translate r n m) {x = a + i * 4096} {y = a} (omega arith) ∙ e));
    more = λ b i. i;
  }
