-- ===== src/Vm/Map.antt =====
-- `mappages` of kernel/vm.c sets the entries of its pages and no others, or runs out of memory.
use increase_ipc_throughput.Base.{
  ℕ, suc, ◌+◌, ◌*◌, ◌/◌, ◌%◌, ◌^◌, ◌≤◌, ◌<◌, ◌≡◌, ◌≢◌, refl, sym, ap, ◌∙◌, arith, subst, Bool, true,
  false, Option, none, some, List, [], ◌⊎◌, inl, inr, ◌==◌, Bool-cases, ==→eq, ==→ne, contains,
  update, update_ne, update_self, dec_lt,
}
use increase_ipc_throughput.Kalloc.FreeList.{IsPage}
use increase_ipc_throughput.Vm.Pages.{owned_ne}
use increase_ipc_throughput.Vm.Supply.{give_page}
use increase_ipc_throughput.Vm.{
  maxva, px, pte2pa, pte_v, pte_make, load_word, Ram, set_pte, walk_from,
}
use increase_ipc_throughput.Vm.Tree.{
  Owner, nobody, user_pages, part, key, Covered, WellFormed, pte_at, translate,
}
use increase_ipc_throughput.Vm.Kept.{Kept, Kept-refl, Extends}
use increase_ipc_throughput.Vm.Walk.{find, find-Found, masked, walk_from-Walked}
use increase_ipc_throughput.Vm.Leaf.{Written, set_leaf-Written}

module _ (end : ℕ) where
  -- A page that nobody owns, and that is not free.
  abbrev pub IsSpare : (ℕ → Owner) → List ℕ → ℕ → Type 0
  IsSpare owner xs c = IsPage end c × (owner c ≡ nobody) × (contains xs c ≡ false)

  -- What `mappages` relies on: the root of a table, pages that are not mapped, and, where they are
  -- user memory, frames that nobody owns and that are not free.
  pub record Mappable (owner : ℕ → Owner) (xs : List ℕ) (m : Ram) (r a n pa : ℕ) : Type 0 where
    pub well : WellFormed end owner xs m
    pub root : owner r ≡ part r 3 0
    pub aligned : (a % 4096 ≡ 0) × (pa % 4096 ≡ 0)
    pub fits : (a + n * 4096 ≤ maxva) × (pa + n * 4096 ≤ 2 ^ 64)
    pub unmapped : (i : ℕ) → i < n → translate r (a + i * 4096) m ≡ 0
    pub frames :
        (i : ℕ) → i < n → Covered 0 ((a + i * 4096) / 4096) → IsSpare owner xs (pa + i * 4096)

  -- The first `count` pages are mapped; all other entries, of this table and of others, are as
  -- before, and so is what `Kept` names.
  pub record Maps (owner : ℕ → Owner) (xs : List ℕ) (m : Ram) (r a n pa perm : ℕ) (ok : Bool)
      (m' : Ram) : Type 0 where
    pub owner' : ℕ → Owner
    pub xs' : List ℕ
    pub count : ℕ
    pub kept : Kept end pa count owner xs m owner' xs' m'
    pub all : ((ok ≡ true) × (count ≡ n)) ⊎ ((ok ≡ false) × (count < n) × (xs' ≡ []))
    pub mapped : (i : ℕ) → i < count → translate r (a + i * 4096) m' ≡ pte_make (pa + i * 4096) perm
    pub others :
        (t l r' va : ℕ)
        → owner t ≡ part r' (suc l) (key l va)
        → (r' ≢ r) ⊎ ((va < a) ⊎ (a + count * 4096 ≤ va))
        → pte_at l t va m'.bytes ≡ pte_at l t va m.bytes

  abbrev pub MapsOrNot :
      (ℕ → Owner) → List ℕ → Ram → ℕ → ℕ → ℕ → ℕ → ℕ → Option (Bool × Ram) → Type 0
  MapsOrNot owner xs m r a n pa perm none = ⊥
  MapsOrNot owner xs m r a n pa perm (some (ok, m')) = Maps owner xs m r a n pa perm ok m'

  -- A round of the loop: `walk` finds no memory, or the entry is set.
  pub record Round (owner : ℕ → Owner) (xs : List ℕ) (m : Ram) (r a pa w : ℕ) (o : ℕ × Ram)
      : Type 0 where
    pub owner' : ℕ → Owner
    pub xs' : List ℕ
    pub extends : Extends end owner xs m owner' xs' o.1
    pub found :
        ((o.0 ≡ 0) × (xs' ≡ []))
        ⊎ ((o.0 ≢ 0)
            × (pte_v (load_word 8 o.1.bytes o.0) ≡ false)
            × ((owner2 : ℕ → Owner) × Kept end pa 1 owner' xs' o.1 owner2 xs' o.1
                × Written end owner2 xs' o.1 r a w (set_pte o.1 o.0 w)))

  masked_zero : (e : ℕ) → masked e ≡ 0 → pte_v e ≡ false
  masked_zero e h = ground arith

  pub valid_make : (pa perm : ℕ) → masked (pte_make pa perm) ≡ pte_make pa perm
  valid_make pa perm = ground arith

  pub top_key : (r a : ℕ) → a < maxva → part r 3 0 ≡ part r 3 (key 2 a)
  top_key r a lt = ap (part r 3) (omega arith)

  module _ (end_pos : 0 < end) where
    -- A spare page becomes the memory of a page of users.
    give_frame :
        (owner : ℕ → Owner) (xs : List ℕ) (m : Ram) (c slot k : ℕ)
        → WellFormed end owner xs m
        → IsSpare owner xs c
        → Kept end c 1 owner xs m (update owner c (part slot 0 k)) xs m
    give_frame owner xs m c slot k wf (page, fresh, un) = record {
      well = give_page end owner xs m c slot 0 k page fresh un (inr refl) wf;
      keeps = λ a r l q o. update_ne owner (part slot 0 k) (owned_ne owner c a r l q fresh o) ∙ o;
      frames = λ a r q x o lo hi. refl;
      spare = λ a al o una. elim (Bool-cases (c == a)) [
        | inl here ↦ inr (
          slot,
          k,
          ap (update owner c (part slot 0 k)) (sym (==→eq c a here))
              ∙ update_self owner c (part slot 0 k),
          ground (arith, here),
          ground (arith, here),
        )
        | inr other ↦ inl (update_ne owner (part slot 0 k) (==→ne c a other) ∙ o, una)
      ];
      spare_bytes = λ a x al o una lo hi. refl;
    }

    -- The entry that was found is set, and with it the owner of the frame.
    set_entry :
        (owner : ℕ → Owner) (xs : List ℕ) (m : Ram) (r a pa w p : ℕ)
        → WellFormed end owner xs m
        → owner r ≡ part r 3 0
        → a < maxva
        → w < 2 ^ 64
        → pte2pa w ≡ pa
        → owner p ≡ part r 1 (key 0 a)
        → find 2 r a m.bytes ≡ p + 8 * px 0 a
        → (Covered 0 (a / 4096) → IsSpare owner xs pa)
        → (owner2 : ℕ → Owner) × Kept end pa 1 owner xs m owner2 xs m
          × Written end owner2 xs m r a w (set_pte m (p + 8 * px 0 a) w)
    set_entry owner xs m r a pa w p wf root lt small frame op f spare =
        elim (dec_lt (a / 4096) user_pages) [
          | no out ↦ (
            owner,
            Kept-refl end pa 1 owner xs m wf,
            set_leaf-Written end end_pos owner xs m wf r a p w op small
                (λ cov v. absurd (omega (arith, cov))) root lt f,
          )
          | yes user ↦
              let o2 : ℕ → Owner = update owner pa (part (p + 8 * px 0 a) 0 (a / 4096)) in
              let k = give_frame owner xs m pa (p + 8 * px 0 a) (a / 4096) wf (spare user) in
              (
                o2,
                k,
                set_leaf-Written end end_pos o2 xs m k.well r a p w (k.keeps p r 1 (key 0 a) op)
                    small
                    (λ cov v.
                      ap o2 frame ∙ update_self owner pa (part (p + 8 * px 0 a) 0 (a / 4096)))
                    (k.keeps r r 3 0 root) lt f,
              )
        ]

    pub round :
        (owner : ℕ → Owner) (xs : List ℕ) (m : Ram) (r a pa w : ℕ)
        → WellFormed end owner xs m
        → owner r ≡ part r 3 0
        → a < maxva
        → translate r a m ≡ 0
        → w < 2 ^ 64
        → (pte2pa w ≡ pa) × (pa % 4096 ≡ 0)
        → (Covered 0 (a / 4096) → IsSpare owner xs pa)
        → Round owner xs m r a pa w (walk_from true a 2 r m)
    round owner xs m r a pa w wf root lt un small frame spare =
        let wk = walk_from-Walked end end_pos owner r a 2 xs m r (root ∙ top_key r a lt) wf in
        record {
          owner' = wk.owner';
          xs' = wk.xs';
          extends = wk.extends;
          found = elim wk.found [
            | inl failed ↦ inl failed
            | inr (p, op, at, f) ↦
                let m1 = (walk_from true a 2 r m).1 in
                let root' = wk.extends.kept.keeps r r 3 0 root in
                let nonzero : (walk_from true a 2 r m).0 ≢ 0 =
                  omega (arith, at, wk.extends.kept.well.page p r 1 (key 0 a) op) in
                let empty : pte_at 2 r a m1.bytes ≡ 0 =
                  wk.extends.entries r 2 r a (root ∙ top_key r a lt) ∙ un in
                let invalid : pte_v (load_word 8 m1.bytes (find 2 r a m1.bytes)) ≡ false =
                  elim (find-Found wk.owner' m1.bytes r a wk.extends.kept.well.linked 2 r
                    (root' ∙ top_key r a lt)) [
                      | inl (gone, e) ↦ absurd (nonzero (sym f ∙ gone))
                      | inr (q, oq, e, v) ↦
                          masked_zero (load_word 8 m1.bytes (find 2 r a m1.bytes)) (sym v ∙ empty)
                    ] in
                let (o2, k2, wr) =
                  set_entry wk.owner' wk.xs' m1 r a pa w p wk.extends.kept.well root' lt small
                    frame.0 op (f ∙ at)
                    (λ cov.
                      let (page, fresh, unl) = spare cov in
                      elim (wk.extends.kept.spare pa page.0 fresh unl) [
                        | inl (fresh', unl') ↦ (page, fresh', unl')
                        | inr (s, q, o', lo, hi) ↦ absurd (omega arith)
                      ]) in
                inr (
                  nonzero,
                  subst (λ n. pte_v (load_word 8 m1.bytes n) ≡ false) f invalid,
                  (
                    o2,
                    k2,
                    subst (λ n. Written end o2 wk.xs' m1 r a w (set_pte m1 n w)) (sym at) wr,
                  ),
                )
          ];
        }
