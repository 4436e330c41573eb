-- ===== src/Vm/Unmapped.antt =====
-- The rounds of `uvmunmap` in kernel/vm.c, and its loop.
use increase_ipc_throughput.Base.{
  ℕ, suc, ◌+◌, ◌*◌, ◌/◌, ◌%◌, ◌≤◌, ◌<◌, ◌≡◌, ◌≢◌, refl, sym, ap, ◌∙◌, arith, true, false, some,
  List, ◌∷◌, ◌⊎◌, inl, inr, Bool-cases, contains, update, update_ne,
}
use increase_ipc_throughput.Kalloc.{Kmem, kfree}
use increase_ipc_throughput.Kalloc.FreeList.{IsFree, kfree-IsFree}
use increase_ipc_throughput.Vm.{
  maxva, px, pte2pa, pte_v, load_word, Ram, set_pte, fill_page, page_free,
}
use increase_ipc_throughput.Vm.Bytes.{load_word-store_word}
use increase_ipc_throughput.Vm.Tree.{
  Owner, nobody, part, key, user_pages, Linked, WellFormed, translate,
}
use increase_ipc_throughput.Vm.Pages.{pages-Apart}
use increase_ipc_throughput.Vm.Supply.{fill_page_other}
use increase_ipc_throughput.Vm.Walk.{find, find-Found, masked}
use increase_ipc_throughput.Vm.Leaf.{Written, set_leaf-Written}
use increase_ipc_throughput.Vm.Map.{top_key}
use increase_ipc_throughput.Vm.Same.{
  SameTables, find_same, pte_at_same, frame_tables, frame-WellFormed,
}
use increase_ipc_throughput.Vm.Unmap.{release, Stays, Unmaps}

module _ (end : ℕ) (end_pos : 0 < end) where
  -- The entry was valid, and the page of memory stays.
  pub clear-Unmaps :
      (owner : ℕ → Owner) (xs : List ℕ) (m m' : Ram) (r a : ℕ)
      → Written end owner xs m r a 0 m'
      → a % 4096 ≡ 0
      → ((b x : ℕ) → Stays end owner r a 1 b → b ≤ x → x < b + 4096 → m'.bytes x ≡ m.bytes x)
      → Unmaps end owner xs m r a 1 false m'
  clear-Unmaps owner xs m m' r a wr al bytes = record {
    owner' = owner;
    xs' = xs;
    well = wr.kept.well;
    tables = λ b r' l k o. o;
    frames = λ b s. refl;
    bytes = bytes;
    gone = λ i lt. ap (λ n. translate r n m') {x = a + i * 4096} {y = a} (omega arith) ∙ wr.here;
    others = λ t l r' va ot ne. wr.others t l r' va ot (page_ne r' va ne);
    freed = λ i lt d ne. absurd (cc);
    more = λ b i. i;
  }
    where
      page_ne :
          (r' va : ℕ)
          → (r' ≢ r) ⊎ ((va < a) ⊎ (a + 1 * 4096 ≤ va))
          → (r' ≢ r) ⊎ (va / 4096 ≢ a / 4096)
      page_ne r' va ne = elim ne [
        | inl other ↦ inl other
        | inr (inl below) ↦ inr (omega arith)
        | inr (inr above) ↦ inr (omega arith)
      ]

  -- Where `walk` found a valid entry of user memory.
  module _ (owner : ℕ → Owner) (xs : List ℕ) (m : Ram) (r a p : ℕ) (w : WellFormed end owner xs m)
      (root : owner r ≡ part r 3 0) (al : a % 4096 ≡ 0) (lt : a < maxva)
      (op : owner p ≡ part r 1 (key 0 a)) (f : find 2 r a m.bytes ≡ p + 8 * px 0 a)
      (valid : pte_v (load_word 8 m.bytes (p + 8 * px 0 a)) ≡ true) where
    abbrev slot : ℕ
    slot = p + 8 * px 0 a

    abbrev frame : ℕ
    frame = pte2pa (load_word 8 m.bytes slot)

    frame_owner : a / 4096 < user_pages → owner frame ≡ part slot 0 (a / 4096)
    unfolding Linked
    frame_owner user =
        w.linked p r 0 (key 0 a) (px 0 a) op (omega arith) (omega (arith, user)) valid
        ∙ ap (part slot 0) (omega arith)

    stays_ne : (b : ℕ) → a / 4096 < user_pages → Stays end owner r a 1 b → frame ≢ b
    stays_ne b user (q, r', k, j, oq, lj, ob, ne) e =
        let same : part (q + 8 * j) 0 (k * 512 + j) ≡ part slot 0 (a / 4096) =
          sym ob ∙ sym (ap owner e) ∙ frame_owner user in
        let at : q + 8 * j ≡ slot = cc in
        let here : q ≡ p = omega (arith, (w.page q r' 1 k oq).0, (w.page p r 1 (key 0 a) op).0) in
        let labels : part r' 1 k ≡ part r 1 (key 0 a) = sym oq ∙ ap owner here ∙ op in
        let rr : r' ≡ r = cc in
        let key_page : k * 512 + j ≡ a / 4096 = cc in
        elim ne [
          | inl other ↦ other rr
          | inr (inl below) ↦ absurd (omega arith)
          | inr (inr above) ↦ absurd (omega arith)
        ]

    -- The page of memory is freed, and then the entry cleared.
    pub free-Unmaps :
        a / 4096 < user_pages
        → (m' : Ram) × (page_free end frame m ≡ some m')
          × Unmaps end owner xs m r a 1 true (set_pte m' slot 0)
    unfolding page_free set_pte fill_page
    free-Unmaps user = (
      m1,
      rw (page_free, kf.1) refl,
      record {
        owner' = update owner frame nobody;
        xs' = frame ∷ xs;
        well =
            release end owner xs (set_pte mg slot 0) kf.0 frame slot (a / 4096) wr.kept.well
              (frame_owner user)
              (ap (λ n. pte_v n) (load_word-store_word mg.bytes slot 0 (omega arith))) kf.2;
        tables = λ b r' l k o. update_ne owner nobody (λ e. absurd (table_ne b r' l k o e)) ∙ o;
        frames = λ b s. update_ne owner nobody (stays_ne b user s);
        bytes = λ b x s lo hi.
            wr.kept.frames b (s.0 + 8 * s.3) (s.2 * 512 + s.3) x s.6 lo hi
            ∙ fill_page_other frame 1 m x (
                pages-Apart frame b x (w.page frame slot 0 (a / 4096) (frame_owner user)).0
                  (w.page b (s.0 + 8 * s.3) 0 (s.2 * 512 + s.3) s.6).0 (stays_ne b user s) lo hi);
        gone = c.gone;
        others = λ t l r' va ot ne.
            c.others t l r' va ot ne
            ∙ pte_at_same owner m.bytes mg.bytes tabs w.linked r' va l t ot;
        freed = λ i li d ne.
            let i0 : a + i * 4096 ≡ a = omega arith in
            ground (arith, sym (ap (λ n. pte2pa (translate r n m)) i0 ∙ ap (λ n. pte2pa n) entry));
        more = λ b i. ground (arith, i);
      },
    )
      where
        not_free : contains xs frame ≡ false
        not_free = elim (Bool-cases (contains xs frame)) [
          | inr out ↦ out
          | inl free ↦ absurd (taken (w.unowned frame free))
        ]
          where
            taken : owner frame ≡ nobody → ⊥
            taken e = let o = frame_owner user in absurd (cc)

        kf : (k' : Kmem) × (kfree end frame m.kmem ≡ some k') × IsFree end k' (frame ∷ xs)
        kf =
            kfree-IsFree end frame m.kmem xs (w.page frame slot 0 (a / 4096) (frame_owner user))
              not_free w.free

        m1 : Ram
        m1 = fill_page frame 1 (record m { kmem = kf.0 })

        mg : Ram
        mg = fill_page frame 1 m

        tabs : SameTables owner m.bytes mg.bytes
        tabs =
            frame_tables end owner xs m mg.bytes frame slot (a / 4096) w (frame_owner user)
              (λ x h. fill_page_other frame 1 m x h)

        top : owner r ≡ part r 3 (key 2 a)
        top = root ∙ top_key end r a lt

        wr : Written end owner xs mg r a 0 (set_pte mg slot 0)
        wr =
            set_leaf-Written end end_pos owner xs mg
              (frame-WellFormed end owner xs m mg frame slot (a / 4096) w (frame_owner user)
                (λ x h. fill_page_other frame 1 m x h) w.free)
              r a p 0 op (omega arith) (λ cov v. absurd (ground (arith, v))) root lt
              (find_same owner m.bytes mg.bytes tabs w.linked r a 2 r top ∙ f)

        c : Unmaps end owner xs mg r a 1 false (set_pte mg slot 0)
        c =
            clear-Unmaps owner xs mg (set_pte mg slot 0) r a wr al
              (λ b x s lo hi. wr.kept.frames b (s.0 + 8 * s.3) (s.2 * 512 + s.3) x s.6 lo hi)

        table_ne : (b r' l k : ℕ) → owner b ≡ part r' (suc l) k → frame ≡ b → ⊥
        table_ne b r' l k o e = let o' = frame_owner user in absurd (cc)

        entry : translate r a m ≡ load_word 8 m.bytes slot
        entry = elim (find-Found owner m.bytes r a w.linked 2 r top) [
          | inl (none_found, e) ↦ absurd (omega (arith, f, none_found, w.page p r 1 (key 0 a) op))
          | inr (q, oq, at, e) ↦ e ∙ ap (λ n. masked (load_word 8 m.bytes n)) f ∙ rw valid refl
        ]
