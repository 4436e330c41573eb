-- ===== src/Vm/Walk.antt =====
-- `walk` of kernel/vm.c: the entry that it finds, and what it leaves as it was.
use increase_ipc_throughput.Base.{
  ℕ, zero, suc, ◌+◌, ◌*◌, ◌<◌, ◌≡◌, refl, ap, ◌∙◌, arith, true, false, List, [], ◌∷◌, ◌⊎◌, inl, inr,
  if◌then◌else◌, ◌==◌, Bool-cases, ne→==, update, update_self,
}
use increase_ipc_throughput.Vm.{
  px, pte2pa, pa2pte, pte_v, load_word, Ram, set_pte, fill_page, page_alloc, walk_from,
}
use increase_ipc_throughput.Vm.Tree.{Owner, part, key, key_step, Linked, WellFormed, pte_at}
use increase_ipc_throughput.Vm.Supply.{Supplied, page_alloc-Supplied}
use increase_ipc_throughput.Vm.Kept.{Extends, Extends-refl, Extends-trans}
use increase_ipc_throughput.Vm.Graft.{graft-Extends, new_word}

-- The address of the entry of `va`, or 0.
unfoldable pub find : ℕ → ℕ → ℕ → (ℕ → ℕ) → ℕ
find zero t va b = t + 8 * px 0 va
find (suc l) t va b =
    let e = load_word 8 b (t + 8 * px (suc l) va) in
    let below = find l (pte2pa e) va b in if pte_v e then below else 0

-- Without `alloc`, the search is all that `walk` does.
pub walk_from-find : (l t va : ℕ) (m : Ram) → walk_from false va l t m ≡ (find l t va m.bytes, m)
unfolding walk_from find
walk_from-find zero t va m = refl
walk_from-find (suc l) t va m =
    elim (Bool-cases (pte_v (load_word 8 m.bytes (t + 8 * px (suc l) va)))) [
      | inl valid ↦
          rw (valid) (walk_from-find l (pte2pa (load_word 8 m.bytes (t + 8 * px (suc l) va))) va m)
      | inr out ↦ rw (out) refl
    ]

-- The entry without its invalid values.
abbrev pub masked : ℕ → ℕ
masked e = if pte_v e then e else 0

-- The page below leads on to the part of the address.
pub child_owner :
    (owner : ℕ → Owner) (b : ℕ → ℕ) (t r l va : ℕ)
    → Linked owner b
    → owner t ≡ part r (suc (suc l)) (key (suc l) va)
    → pte_v (load_word 8 b (t + 8 * px (suc l) va)) ≡ true
    → owner (pte2pa (load_word 8 b (t + 8 * px (suc l) va))) ≡ part r (suc l) (key l va)
unfolding Linked
child_owner owner b t r l va linked o v =
    linked t r (suc l) (key (suc l) va) (px (suc l) va) o (omega arith) tt v
    ∙ ap (part r (suc l)) (key_step l va)

-- The search ends at the entry in a page of the tree, or finds nothing.
abbrev pub Found : (ℕ → Owner) → (ℕ → ℕ) → ℕ → ℕ → ℕ → ℕ → ℕ → Type 0
Found owner b r l t va a =
    ((a ≡ 0) × (pte_at l t va b ≡ 0))
    ⊎ ((p : ℕ) × (owner p ≡ part r 1 (key 0 va))
        × (a ≡ p + 8 * px 0 va)
        × (pte_at l t va b ≡ masked (load_word 8 b a)))

pub find-Found :
    (owner : ℕ → Owner) (b : ℕ → ℕ) (r va : ℕ)
    → Linked owner b
    → (l t : ℕ) → owner t ≡ part r (suc l) (key l va)
    → Found owner b r l t va (find l t va b)
unfolding find pte_at
find-Found owner b r va linked zero t o = inr (t, o, refl, refl)
find-Found owner b r va linked (suc l) t o =
    elim (Bool-cases (pte_v (load_word 8 b (t + 8 * px (suc l) va)))) [
      | inr out ↦ rw (out) (inl (refl, refl))
      | inl valid ↦ rw (valid) (
          find-Found owner b r va linked l (pte2pa (load_word 8 b (t + 8 * px (suc l) va)))
            (child_owner owner b t r l va linked o valid))
    ]

module _ (end : ℕ) where
  -- With `alloc`: the address of the entry, or 0 where the pages ran out.
  pub record Walked (owner : ℕ → Owner) (xs : List ℕ) (m : Ram) (r l t va : ℕ) (o : ℕ × Ram)
      : Type 0 where
    pub owner' : ℕ → Owner
    pub xs' : List ℕ
    pub extends : Extends end owner xs m owner' xs' o.1
    pub found :
        ((o.0 ≡ 0) × (xs' ≡ []))
        ⊎ ((p : ℕ) × (owner' p ≡ part r 1 (key 0 va))
            × (o.0 ≡ p + 8 * px 0 va)
            × (find l t va o.1.bytes ≡ o.0))

  module _ (end_pos : 0 < end) where
    -- One level up: the search goes on through a valid entry.
    up :
        (owner : ℕ → Owner) (xs : List ℕ) (m : Ram) (r l t va c : ℕ) (o : ℕ × Ram)
        → owner t ≡ part r (suc (suc l)) (key (suc l) va)
        → pte_v (load_word 8 m.bytes (t + 8 * px (suc l) va)) ≡ true
        → pte2pa (load_word 8 m.bytes (t + 8 * px (suc l) va)) ≡ c
        → Walked owner xs m r l c va o
        → Walked owner xs m r (suc l) t va o
    unfolding find
    up owner xs m r l t va c o ot v leads w = record {
      owner' = w.owner';
      xs' = w.xs';
      extends = w.extends;
      found = elim w.found [
        | inl failed ↦ inl failed
        | inr (p, op, a, f) ↦ inr (
          p,
          op,
          a,
          rw
              (
                w.extends.tables t r (suc l) (key (suc l) va) (px (suc l) va) ot (omega arith) v,
                v,
                leads,
              )
              f,
        )
      ];
    }

    after :
        (owner : ℕ → Owner) (xs : List ℕ) (m : Ram) (o2 : ℕ → Owner) (x2 : List ℕ) (m2 : Ram)
        (r l t va : ℕ) (o : ℕ × Ram)
        → Extends end owner xs m o2 x2 m2
        → Walked o2 x2 m2 r l t va o
        → Walked owner xs m r l t va o
    after owner xs m o2 x2 m2 r l t va o e w = record {
      owner' = w.owner';
      xs' = w.xs';
      extends = Extends-trans end owner xs m o2 x2 m2 w.owner' w.xs' o.1 e w.extends;
      found = w.found;
    }

    -- The entry is invalid: a page of entries is added, where there is one.
    grown :
        (owner : ℕ → Owner) (r va l : ℕ) (m : Ram) (t : ℕ)
        → ((owner' : ℕ → Owner) (ys : List ℕ) (m' : Ram) (c : ℕ)
            → owner' c ≡ part r (suc l) (key l va)
            → WellFormed end owner' ys m'
            → Walked owner' ys m' r l c va (walk_from true va l c m'))
        → owner t ≡ part r (suc (suc l)) (key (suc l) va)
        → pte_v (load_word 8 m.bytes (t + 8 * px (suc l) va)) ≡ false
        → (xs : List ℕ) (o : ℕ × Ram) → WellFormed end owner xs m
        → Supplied end end_pos owner m o xs
        → Walked owner xs m r (suc l) t va (
            if o.0 == 0
            then (0, o.1)
            else walk_from true va l o.0
                (set_pte (fill_page o.0 0 o.1) (t + 8 * px (suc l) va) (pa2pte o.0 + 1)))
    grown owner r va l m t ih ot out [] o w e = rw e (record {
      owner' = owner;
      xs' = [];
      extends = Extends-refl end owner [] m w;
      found = inl (refl, refl);
    })
    grown owner r va l m t ih ot out (c ∷ ys) (pa, m1) w (got, taken) =
        let e =
          graft-Extends end owner m m1 c ys taken t r l (key (suc l) va) (px (suc l) va) ot
            (omega arith) out w.page w.linked in
        let word =
          new_word end owner m m1 c ys taken t r l (key (suc l) va) (px (suc l) va) ot (omega arith)
            out w.page w.linked in
        let here : owner' c ≡ part r (suc l) (key l va) =
          update_self owner c (part r (suc l) (key (suc l) va * 512 + px (suc l) va))
          ∙ ap (part r (suc l)) (key_step l va) in
        rw (got, ne→== c 0 taken.nonzero)
          (after owner (c ∷ ys) m owner' ys m2 r (suc l) t va (walk_from true va l c m2) e (
            up owner' ys m2 r l t va c (walk_from true va l c m2)
              (e.kept.keeps t r (suc (suc l)) (key (suc l) va) ot) (rw word (ground arith))
              (ap (λ n. pte2pa n) word ∙ omega (arith, taken.page))
              (ih owner' ys m2 c here e.kept.well)))
      where
        owner' : ℕ → Owner
        owner' = update owner c (part r (suc l) (key (suc l) va * 512 + px (suc l) va))

        m2 : Ram
        m2 = set_pte (fill_page c 0 m1) (t + 8 * px (suc l) va) (pa2pte c + 1)

    pub walk_from-Walked :
        (owner : ℕ → Owner) (r va l : ℕ) (xs : List ℕ) (m : Ram) (t : ℕ)
        → owner t ≡ part r (suc l) (key l va)
        → WellFormed end owner xs m
        → Walked owner xs m r l t va (walk_from true va l t m)
    unfolding walk_from find
    walk_from-Walked owner r va zero xs m t o w = record {
      owner' = owner;
      xs' = xs;
      extends = Extends-refl end owner xs m w;
      found = inr (t, o, refl, refl);
    }
    walk_from-Walked owner r va (suc l) xs m t o w =
        elim (Bool-cases (pte_v (load_word 8 m.bytes (t + 8 * px (suc l) va)))) [
          | inl valid ↦
              let c : ℕ = pte2pa (load_word 8 m.bytes (t + 8 * px (suc l) va)) in
              rw (valid) (
                up owner xs m r l t va c (walk_from true va l c m) o valid refl (
                  walk_from-Walked owner r va l xs m c
                    (child_owner owner m.bytes t r l va w.linked o valid) w))
          | inr out ↦ rw (out) (
              grown owner r va l m t (λ o' ys m' c. walk_from-Walked o' r va l ys m' c) o out xs
                (page_alloc m) w (page_alloc-Supplied end end_pos owner xs m w))
        ]
