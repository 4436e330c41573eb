-- ===== src/Space/Reach.antt =====
-- `vmfault` of kernel/vm.c as a whole, and the page that `copyin` and `copyout` reach.
use increase_ipc_throughput.Base.{
  ℕ, suc, ◌+◌, ◌*◌, ◌/◌, ◌%◌, ◌≤◌, ◌<◌, ◌≡◌, ◌≢◌, refl, sym, ◌∙◌, arith, subst, Bool, true, false,
  Option, none, some, List, [], ◌∷◌, inl, inr, if◌then◌else◌, ◌==◌, Bool-cases, leb, dec_lt, ne→==,
  ==→eq,
}
use increase_ipc_throughput.Vm.{
  maxva, pte2pa, pte_u, Ram, fill_page, page_alloc, walkaddr, ismapped,
}
use increase_ipc_throughput.Vm.Tree.{Owner, part, translate}
use increase_ipc_throughput.Vm.Pages.{pages-Apart, owned_ne}
use increase_ipc_throughput.Vm.Supply.{
  Taken, Supplied, page_alloc-Supplied, fill_page_other, fill_page_in, fill_page-WellFormed,
}
use increase_ipc_throughput.Vm.Same.{pte_at_same}
use increase_ipc_throughput.Space.{fault_perm, map_or_free}
use increase_ipc_throughput.Space.Access.{vmfault, reach}
use increase_ipc_throughput.Space.Place.{PlacedOrNot, map_or_free-Placed}
use increase_ipc_throughput.Space.Process.{
  IsProcess, top_owner, frame_at, walkaddr_lem, ismapped_lem,
}
use increase_ipc_throughput.Space.Fault.{Reached, ReachedOrNot, same-Reached, Placed-Reached}

module _ (end : ℕ) (end_pos : 0 < end) where
  module _ (owner : ℕ → Owner) (xs : List ℕ) (m : Ram) (r sz a : ℕ)
      (p : IsProcess end end_pos owner xs m r sz) (al : a % 4096 ≡ 0) where
    -- `Reached` says nothing of the pages that were free before.
    forget :
        (ys : List ℕ) (pa : ℕ) (m' : Ram)
        → Reached end end_pos owner ys m r sz a pa m'
        → Reached end end_pos owner xs m r sz a pa m'
    forget ys pa m' h = record {
      owner' = h.owner';
      xs' = h.xs';
      process = h.process;
      keeps = h.keeps;
      frames = h.frames;
      others = h.others;
      here = h.here;
      result = h.result;
    }

    fresh-Reached :
        (c : ℕ) (ys : List ℕ) (m1 : Ram)
        → Taken end owner c ys m m1
        → a < sz
        → translate r a m ≡ 0
        → ReachedOrNot end end_pos owner xs m r sz a
            (elim (map_or_free end r a c fault_perm (fill_page c 0 m1)) [
              | none ↦ none
              | some (ok, m2) ↦ some (if ok then c else 0, m2)
            ])
    fresh-Reached c ys m1 t lt un = go (map_or_free end r a c fault_perm mz) (
        map_or_free-Placed end end_pos owner ys mz r a c fault_perm
          (fill_page-WellFormed end owner ys m1 c 0 t.page.0 t.fresh t.well) p.root al
          (omega (arith, p.limit))
          (pte_at_same owner m.bytes mz.bytes (λ q s l k x o lo hi. same q s (suc l) k x o lo hi)
              p.well.linked r a 2 r
              (top_owner end end_pos owner r a p.root (omega (arith, p.limit)))
            ∙ un)
          (t.page, t.fresh, t.unlisted))
      where
        mz : Ram
        mz = fill_page c 0 m1

        same :
            (b s l k x : ℕ) → owner b ≡ part s l k → b ≤ x → x < b + 4096 → mz.bytes x ≡ m.bytes x
        same b s l k x o lo hi =
            let apart =
              pages-Apart c b x t.page.0 (p.well.page b s l k o).0
                (owned_ne owner c b s l k t.fresh o) lo hi in
            fill_page_other c 0 m1 x apart ∙ t.others x apart

        go :
            (o : Option (Bool × Ram))
            → PlacedOrNot end owner ys mz r a c fault_perm o
            → ReachedOrNot end end_pos owner xs m r sz a
                (elim o [ none ↦ none | some (ok, m2) ↦ some (if ok then c else 0, m2) ])
        go none h = h
        go (some (ok, m2)) h = forget ys (if ok then c else 0) m2 (
            Placed-Reached end end_pos owner ys m mz r sz a c p.root p.limit p.guarded p.well.linked
              al lt un t.page same (λ x lo hi. fill_page_in c 0 m1 x lo hi) ok m2 h)

    -- The end of `vmfault` on the page `b`, with what `kalloc` returned.
    abbrev allocated : ℕ → ℕ × Ram → Option (ℕ × Ram)
    allocated b o =
        if o.0 == 0
        then some (0, o.1)
        else elim (map_or_free end r b o.0 fault_perm (fill_page o.0 0 o.1)) [
          | none ↦ none
          | some (ok, m2) ↦ some (if ok then o.0 else 0, m2)
        ]

    Supplied-Reached :
        (zs : List ℕ) (o : ℕ × Ram)
        → Supplied end end_pos owner m o zs
        → a < sz
        → translate r a m ≡ 0
        → ReachedOrNot end end_pos owner xs m r sz a (allocated a o)
    Supplied-Reached [] o e lt un =
        subst (λ q. ReachedOrNot end end_pos owner xs m r sz a (allocated a q)) (sym e)
          (same-Reached end end_pos owner xs m r sz a 0 p (inl refl))
    Supplied-Reached (c ∷ ys) (pa, m1) (got, taken) lt un =
        subst (λ n. ReachedOrNot end end_pos owner xs m r sz a (allocated a (n, m1))) (sym got)
          (rw (ne→== c 0 taken.nonzero) (fresh-Reached c ys m1 taken lt un))

    -- `vmfault` returns the page of zeros that it mapped, or 0 with the map as it was: where the
    -- address is not below `sz`, is mapped already, or no memory is left.
    pub vmfault-Reached : ReachedOrNot end end_pos owner xs m r sz a (vmfault end r sz r a m)
    unfolding vmfault
    vmfault-Reached = elim (dec_lt a sz) [
      | no out ↦
          let ge : leb sz a ≡ true = ground arith in
          rw (ge) (same-Reached end end_pos owner xs m r sz a 0 p (inl refl))
      | yes lt ↦
          let below : leb sz a ≡ false = ground arith in
          let down : a / 4096 * 4096 ≡ a = omega arith in
          rw (below) (
            subst
              (λ b. ReachedOrNot end end_pos owner xs m r sz a (elim (ismapped r b m) [
                | none ↦ none
                | some is_mapped ↦ if is_mapped then some (0, m) else allocated b (page_alloc m)
              ]))
              (sym down)
              (rw (ismapped_lem end end_pos owner xs m r a p.well p.root (omega (arith, p.limit)))
                (elim (Bool-cases (translate r a m == 0)) [
                  | inl un ↦ rw (un) (
                      Supplied-Reached xs (page_alloc m)
                        (page_alloc-Supplied end end_pos owner xs m p.well) lt
                        (==→eq (translate r a m) 0 un))
                  | inr there ↦
                      rw (there) (same-Reached end end_pos owner xs m r sz a 0 p (inl refl))
                ])))
    ]

    -- An open page is reached as it is.
    pub reach_open :
        a < maxva
        → pte_u (translate r a m) ≡ true
        → (reach end r sz r a m ≡ some (pte2pa (translate r a m), m))
          × (pte2pa (translate r a m) ≢ 0)
    unfolding reach
    reach_open lt is_open =
        let there : walkaddr r a m ≡ pte2pa (translate r a m) =
          walkaddr_lem end end_pos owner xs m r a p.well p.root lt ∙ rw is_open refl in
        let (q, oq, of, v, f) =
          frame_at end end_pos owner xs m r a p.well p.root (p.guarded a lt is_open)
            (λ z. absurd (ground (arith, is_open, z))) in
        let nz : pte2pa (translate r a m) ≢ 0 =
          omega (arith, end_pos, p.well.page (pte2pa (translate r a m)) _ 0 _ of) in
        (rw (there, ne→== (pte2pa (translate r a m)) 0 nz) refl, nz)

    -- What `copyin` and `copyout` reach of a page.
    pub reach-Reached : ReachedOrNot end end_pos owner xs m r sz a (reach end r sz r a m)
    unfolding reach walkaddr
    reach-Reached = elim (dec_lt a maxva) [
      | no out ↦
          let none_there : walkaddr r a m ≡ 0 = far (omega arith) in rw (none_there) vmfault-Reached
      | yes lt ↦ elim (Bool-cases (pte_u (translate r a m))) [
        | inr shut ↦
            let none_there : walkaddr r a m ≡ 0 =
              walkaddr_lem end end_pos owner xs m r a p.well p.root lt ∙ rw shut refl in
            rw (none_there) vmfault-Reached
        | inl is_open ↦ rw ((reach_open lt is_open).0) (
            same-Reached end end_pos owner xs m r sz a (pte2pa (translate r a m)) p
              (inr (lt, is_open, refl)))
      ]
    ]
      where
        high : maxva ≤ a → leb maxva a ≡ true
        high ge = ground arith

        far : maxva ≤ a → walkaddr r a m ≡ 0
        far ge = rw (walkaddr, high ge) refl
