-- ===== src/Vm/UnmapRest.antt =====
-- The rounds of `uvmunmap` in kernel/vm.c put together.
use increase_ipc_throughput.Base.{
  ℕ, zero, suc, ◌+◌, ◌*◌, ◌/◌, ◌≤◌, ◌<◌, ◌≡◌, ◌≢◌, refl, sym, ap, ◌∙◌, arith, subst, Bool, true,
  Option, none, some, List, ◌⊎◌, inl, inr, contains,
}
use increase_ipc_throughput.Kalloc.{page_size}
use increase_ipc_throughput.Vm.{maxva, pte2pa, Ram}
use increase_ipc_throughput.Vm.Tree.{Owner, part, key, WellFormed, translate}
use increase_ipc_throughput.Vm.Map.{top_key}
use increase_ipc_throughput.Vm.Unmap.{Stays, Unmaps, UnmapsOrNot, Unmappable}

module _ (end : ℕ) where
  -- No page, no change.
  pub none-Unmaps :
      (owner : ℕ → Owner) (xs : List ℕ) (m : Ram) (r a : ℕ) (do_free : Bool)
      → WellFormed end owner xs m
      → Unmaps end owner xs m r a 0 do_free m
  none-Unmaps owner xs m r a do_free w = record {
    owner' = owner;
    xs' = xs;
    well = w;
    tables = λ b r' l k o. o;
    frames = λ b s. refl;
    bytes = λ b x s lo hi. refl;
    gone = λ i lt. absurd (omega arith);
    others = λ t l r' va ot ne. refl;
    freed = λ i lt d ne. absurd (omega arith);
    more = λ b i. i;
  }

  -- The first page, and then the rest.
  module _ (owner : ℕ → Owner) (xs : List ℕ) (m m1 : Ram) (r a n : ℕ) (do_free : Bool)
      (h : Unmappable end owner xs m r a (suc n) do_free)
      (c : Unmaps end owner xs m r a 1 do_free m1) where
    pub rest-Unmappable : Unmappable end c.owner' c.xs' m1 r (a + page_size) n do_free
    rest-Unmappable = record {
      well = c.well;
      root = c.tables r r 2 0 h.root;
      aligned = omega (arith, h.aligned);
      fits = omega (arith, h.fits);
      user = λ d. omega (arith, h.user d);
    }

    later : (b : ℕ) → Stays end owner r a (suc n) b → Stays end c.owner' r (a + page_size) n b
    later b (p, r', k, j, op, lt, ob, ne) = (
      p,
      r',
      k,
      j,
      c.tables p r' 0 k op,
      lt,
      c.frames b (p, r', k, j, op, lt, ob, first_ne) ∙ ob,
      elim ne [
        | inl other ↦ inl other
        | inr (inl below) ↦ inr (inl (omega arith))
        | inr (inr above) ↦ inr (inr (omega arith))
      ],
    )
      where
        first_ne : (r' ≢ r) ⊎ ((k * 512 + j < a / 4096) ⊎ (a / 4096 + 1 ≤ k * 512 + j))
        first_ne = elim ne [
          | inl other ↦ inl other
          | inr (inl below) ↦ inr (inl below)
          | inr (inr above) ↦ inr (inr (omega arith))
        ]

    first : (b : ℕ) → Stays end owner r a (suc n) b → Stays end owner r a 1 b
    first b (p, r', k, j, op, lt, ob, ne) = (
      p,
      r',
      k,
      j,
      op,
      lt,
      ob,
      elim ne [
        | inl other ↦ inl other
        | inr (inl below) ↦ inr (inl below)
        | inr (inr above) ↦ inr (inr (omega arith))
      ],
    )

    apart_first :
        (r' va : ℕ)
        → (r' ≢ r) ⊎ ((va < a) ⊎ (a + suc n * 4096 ≤ va))
        → (r' ≢ r) ⊎ ((va < a) ⊎ (a + 1 * 4096 ≤ va))
    apart_first r' va ne = elim ne [
      | inl other ↦ inl other
      | inr (inl below) ↦ inr (inl below)
      | inr (inr above) ↦ inr (inr (omega arith))
    ]

    apart_rest :
        (r' va : ℕ)
        → (r' ≢ r) ⊎ ((va < a) ⊎ (a + suc n * 4096 ≤ va))
        → (r' ≢ r) ⊎ ((va < a + page_size) ⊎ (a + page_size + n * 4096 ≤ va))
    apart_rest r' va ne = elim ne [
      | inl other ↦ inl other
      | inr (inl below) ↦ inr (inl (omega arith))
      | inr (inr above) ↦ inr (inr (omega arith))
    ]

    pub joined :
        (o : Option Ram)
        → UnmapsOrNot end c.owner' c.xs' m1 r (a + page_size) n do_free o
        → UnmapsOrNot end owner xs m r a (suc n) do_free o
    joined none d = d
    joined (some m2) d = record {
      owner' = d.owner';
      xs' = d.xs';
      well = d.well;
      tables = λ b r' l k o. d.tables b r' l k (c.tables b r' l k o);
      frames = λ b s. d.frames b (later b s) ∙ c.frames b (first b s);
      bytes = λ b x s lo hi. d.bytes b x (later b s) lo hi ∙ c.bytes b x (first b s) lo hi;
      gone = gone_at;
      others = λ t l r' va ot ne.
          d.others t l r' va (c.tables t r' l (key l va) ot) (apart_rest r' va ne)
          ∙ c.others t l r' va ot (apart_first r' va ne);
      freed = freed_at;
      more = λ b i. d.more b (c.more b i);
    }
      where
        shift : (i : ℕ) → a + suc i * 4096 ≡ a + page_size + i * 4096
        shift i = omega arith

        top : (va : ℕ) → va < maxva → owner r ≡ part r 3 (key 2 va)
        top va lt = h.root ∙ top_key end r va lt

        gone_at : (i : ℕ) → i < suc n → translate r (a + i * 4096) m2 ≡ 0
        gone_at zero lt =
            d.others r 2 r (a + 0 * 4096)
              (c.tables r r 2 (key 2 (a + 0 * 4096)) (top (a + 0 * 4096) (omega (arith, h.fits))))
              (inr (inl (omega arith)))
            ∙ c.gone 0 (omega arith)
        gone_at (suc i) lt = ap (λ n. translate r n m2) (shift i) ∙ d.gone i (omega arith)

        freed_at :
            (i : ℕ)
            → i < suc n
            → do_free ≡ true
            → translate r (a + i * 4096) m ≢ 0
            → contains d.xs' (pte2pa (translate r (a + i * 4096) m)) ≡ true
        freed_at zero lt yes_free ne =
            d.more (pte2pa (translate r (a + 0 * 4096) m)) (c.freed 0 (omega arith) yes_free ne)
        freed_at (suc i) lt yes_free ne =
            let va : ℕ = a + page_size + i * 4096 in
            let same : translate r va m1 ≡ translate r (a + suc i * 4096) m =
              c.others r 2 r va (top va (omega (arith, h.fits))) (inr (inr (omega arith)))
              ∙ ap (λ n. translate r n m) (sym (shift i)) in
            subst (λ e. contains d.xs' (pte2pa e) ≡ true) same
              (d.freed i (omega arith) yes_free (λ e. ne (sym same ∙ e)))
