-- ===== src/Vm/Kept.antt =====
-- What the calls of kernel/vm.c keep that only add to the page tables.
use increase_ipc_throughput.Base.{
  ℕ, suc, ◌+◌, ◌*◌, ◌%◌, ◌≤◌, ◌<◌, ◌≡◌, refl, ap, ◌∙◌, true, false, List, ◌⊎◌, inl, inr, contains,
}
use increase_ipc_throughput.Vm.{pte_v, load_word, Ram}
use increase_ipc_throughput.Vm.Tree.{Owner, nobody, part, key, WellFormed, pte_at}

module _ (end : ℕ) where
  -- What a call leaves as it was that adds pages of entries, and may use the spare pages among the
  -- `n` pages from `pa` on for user memory: the parts that were given out, the bytes of user
  -- memory and of the pages that were spare, and the other spare pages.
  pub record Kept (pa n : ℕ) (owner : ℕ → Owner) (xs : List ℕ) (m : Ram) (owner' : ℕ → Owner)
      (xs' : List ℕ) (m' : Ram) : Type 0 where
    pub well : WellFormed end owner' xs' m'
    pub keeps : (a r l k : ℕ) → owner a ≡ part r l k → owner' a ≡ part r l k
    pub frames :
        (a r k x : ℕ) → owner a ≡ part r 0 k → a ≤ x → x < a + 4096 → m'.bytes x ≡ m.bytes x
    pub spare :
        (c : ℕ)
        → c % 4096 ≡ 0
        → owner c ≡ nobody
        → contains xs c ≡ false
        → ((owner' c ≡ nobody) × (contains xs' c ≡ false))
          ⊎ ((s : ℕ) × (k : ℕ) × (owner' c ≡ part s 0 k) × (pa ≤ c) × (c < pa + n * 4096))
    pub spare_bytes :
        (c x : ℕ)
        → c % 4096 ≡ 0
        → owner c ≡ nobody
        → contains xs c ≡ false
        → c ≤ x
        → x < c + 4096
        → m'.bytes x ≡ m.bytes x

  -- The entries of all tables too.
  pub record Extends (owner : ℕ → Owner) (xs : List ℕ) (m : Ram) (owner' : ℕ → Owner) (xs' : List ℕ)
      (m' : Ram) : Type 0 where
    pub kept : Kept 0 0 owner xs m owner' xs' m'
    pub entries :
        (t l r va : ℕ)
        → owner t ≡ part r (suc l) (key l va)
        → pte_at l t va m'.bytes ≡ pte_at l t va m.bytes
    pub tables :
        (p r l k j : ℕ)
        → owner p ≡ part r (suc l) k
        → j < 512
        → pte_v (load_word 8 m.bytes (p + 8 * j)) ≡ true
        → load_word 8 m'.bytes (p + 8 * j) ≡ load_word 8 m.bytes (p + 8 * j)

  pub Kept-refl :
      (pa n : ℕ) (owner : ℕ → Owner) (xs : List ℕ) (m : Ram)
      → WellFormed end owner xs m
      → Kept pa n owner xs m owner xs m
  Kept-refl pa n owner xs m w = record {
    well = w;
    keeps = λ a r l k o. o;
    frames = λ a r k x o lo hi. refl;
    spare = λ c al o un. inl (o, un);
    spare_bytes = λ c x al o un lo hi. refl;
  }

  pub Kept-trans :
      (pa n : ℕ) (o1 : ℕ → Owner) (x1 : List ℕ) (m1 : Ram) (o2 : ℕ → Owner) (x2 : List ℕ) (m2 : Ram)
      (o3 : ℕ → Owner) (x3 : List ℕ) (m3 : Ram)
      → Kept pa n o1 x1 m1 o2 x2 m2
      → Kept pa n o2 x2 m2 o3 x3 m3
      → Kept pa n o1 x1 m1 o3 x3 m3
  Kept-trans pa n o1 x1 m1 o2 x2 m2 o3 x3 m3 e f = record {
    well = f.well;
    keeps = λ a r l k o. f.keeps a r l k (e.keeps a r l k o);
    frames =
        λ a r k x o lo hi. f.frames a r k x (e.keeps a r 0 k o) lo hi ∙ e.frames a r k x o lo hi;
    spare = λ c al o un. elim (e.spare c al o un) [
      | inl (o', un') ↦ f.spare c al o' un'
      | inr (s, k, o', lo, hi) ↦ inr (s, k, f.keeps c s 0 k o', lo, hi)
    ];
    spare_bytes = λ c x al o un lo hi.
        elim (e.spare c al o un) [
          | inl (o', un') ↦ f.spare_bytes c x al o' un' lo hi
          | inr (s, k, o', lo', hi') ↦ f.frames c s k x o' lo hi
        ]
        ∙ e.spare_bytes c x al o un lo hi;
  }

  -- More pages may be used.
  pub Kept-wider :
      (pa n pb k : ℕ) (o1 : ℕ → Owner) (x1 : List ℕ) (m1 : Ram) (o2 : ℕ → Owner) (x2 : List ℕ)
      (m2 : Ram)
      → ((c : ℕ) → pa ≤ c → c < pa + n * 4096 → (pb ≤ c) × (c < pb + k * 4096))
      → Kept pa n o1 x1 m1 o2 x2 m2
      → Kept pb k o1 x1 m1 o2 x2 m2
  Kept-wider pa n pb k o1 x1 m1 o2 x2 m2 h e = record {
    well = e.well;
    keeps = e.keeps;
    frames = e.frames;
    spare = λ c al o un. elim (e.spare c al o un) [
      | inl still ↦ inl still
      | inr (s, q, o', lo, hi) ↦ inr (s, q, o', (h c lo hi).0, (h c lo hi).1)
    ];
    spare_bytes = e.spare_bytes;
  }

  pub Extends-refl :
      (owner : ℕ → Owner) (xs : List ℕ) (m : Ram)
      → WellFormed end owner xs m
      → Extends owner xs m owner xs m
  Extends-refl owner xs m w = record {
    kept = Kept-refl 0 0 owner xs m w;
    entries = λ t l r va o. refl;
    tables = λ p r l k j o lt v. refl;
  }

  pub Extends-trans :
      (o1 : ℕ → Owner) (x1 : List ℕ) (m1 : Ram) (o2 : ℕ → Owner) (x2 : List ℕ) (m2 : Ram)
      (o3 : ℕ → Owner) (x3 : List ℕ) (m3 : Ram)
      → Extends o1 x1 m1 o2 x2 m2
      → Extends o2 x2 m2 o3 x3 m3
      → Extends o1 x1 m1 o3 x3 m3
  Extends-trans o1 x1 m1 o2 x2 m2 o3 x3 m3 e f = record {
    kept = Kept-trans 0 0 o1 x1 m1 o2 x2 m2 o3 x3 m3 e.kept f.kept;
    entries = λ t l r va o.
        f.entries t l r va (e.kept.keeps t r (suc l) (key l va) o) ∙ e.entries t l r va o;
    tables = λ p r l k j o lt v.
        let same = e.tables p r l k j o lt v in
        f.tables p r l k j (e.kept.keeps p r (suc l) k o) lt (ap (λ n. pte_v n) same ∙ v) ∙ same;
  }
