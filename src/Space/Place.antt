-- ===== src/Space/Place.antt =====
-- A page that kernel/vm.c took for a process: it is mapped, or it is free again.
use increase_ipc_throughput.Base.{
  ℕ, suc, ◌+◌, ◌*◌, ◌/◌, ◌%◌, ◌≤◌, ◌<◌, ◌≡◌, ◌≢◌, refl, ap, ◌∙◌, arith, subst, Bool, true, false,
  Option, none, some, List, ◌∷◌, ◌⊎◌, inl, inr, if◌then◌else◌, ◌==◌, Bool-cases, dec_lt,
}
use increase_ipc_throughput.Kalloc.FreeList.{kfree-IsFree}
use increase_ipc_throughput.Vm.{pte_make, Ram, fill_page, page_free, mappages}
use increase_ipc_throughput.Vm.Tree.{Owner, part, key, user_pages, WellFormed, pte_at, translate}
use increase_ipc_throughput.Vm.Pages.{Apart, pages-Apart, owned_ne}
use increase_ipc_throughput.Vm.Supply.{fill_page_other, WellFormed-same}
use increase_ipc_throughput.Vm.Map.{IsSpare, Maps, MapsOrNot, top_key}
use increase_ipc_throughput.Vm.Mappages.{mappages-Maps}
use increase_ipc_throughput.Vm.Same.{SameTables, pte_at_same}
use increase_ipc_throughput.Space.{map_or_free}

module _ (end : ℕ) where
  -- The spare page is mapped at `a`, or it is free and nothing changed for any table. The other
  -- entries and the pages of user memory are as before.
  pub record Placed (owner : ℕ → Owner) (xs : List ℕ) (m : Ram) (r a c perm : ℕ) (ok : Bool)
      (m' : Ram) : Type 0 where
    pub owner' : ℕ → Owner
    pub xs' : List ℕ
    pub well : WellFormed end owner' xs' m'
    pub keeps : (b s l k : ℕ) → owner b ≡ part s l k → owner' b ≡ part s l k
    pub frames :
        (b s k x : ℕ) → owner b ≡ part s 0 k → b ≤ x → x < b + 4096 → m'.bytes x ≡ m.bytes x
    pub here : translate r a m' ≡ (if ok then pte_make c perm else 0)
    pub content : ok ≡ true → (x : ℕ) → c ≤ x → x < c + 4096 → m'.bytes x ≡ m.bytes x
    pub others :
        (t l s va : ℕ)
        → owner t ≡ part s (suc l) (key l va)
        → (s ≢ r) ⊎ (va / 4096 ≢ a / 4096)
        → pte_at l t va m'.bytes ≡ pte_at l t va m.bytes

  abbrev pub PlacedOrNot : (ℕ → Owner) → List ℕ → Ram → ℕ → ℕ → ℕ → ℕ → Option (Bool × Ram) → Type 0
  PlacedOrNot owner xs m r a c perm none = ⊥
  PlacedOrNot owner xs m r a c perm (some (ok, m')) = Placed owner xs m r a c perm ok m'

  -- A spare page goes back to the allocator.
  pub page_free-WellFormed :
      (owner : ℕ → Owner) (xs : List ℕ) (m : Ram) (c : ℕ)
      → WellFormed end owner xs m
      → IsSpare end owner xs c
      → (m' : Ram) × (page_free end c m ≡ some m')
        × WellFormed end owner (c ∷ xs) m'
        × ((x : ℕ) → Apart c x → m'.bytes x ≡ m.bytes x)
  unfolding page_free fill_page
  page_free-WellFormed owner xs m c w (page, fresh, un) =
      let kf = kfree-IsFree end c m.kmem xs page un w.free in
      let m' : Ram = fill_page c 1 (record m { kmem = kf.0 }) in
      let same : (x : ℕ) → Apart c x → m'.bytes x ≡ m.bytes x =
        λ x h. fill_page_other c 1 (record m { kmem = kf.0 }) x h in
      (
        m',
        rw (page_free, kf.1) refl,
        WellFormed-same end owner (c ∷ xs) m m' kf.2
            (λ p r l k x o lo hi. same x (
              pages-Apart c p x page.0 (w.page p r (suc l) k o).0
                (owned_ne owner c p r (suc l) k fresh o) lo hi))
            (λ b i. elim (Bool-cases (c == b)) [
              | inl here ↦ ground (arith, fresh, here)
              | inr other ↦ w.unowned b (ground (arith, i))
            ])
            w.page w.linked,
        same,
      )

  module _ (end_pos : 0 < end) where
    pub map_or_free-Placed :
        (owner : ℕ → Owner) (xs : List ℕ) (m : Ram) (r a c perm : ℕ)
        → WellFormed end owner xs m
        → owner r ≡ part r 3 0
        → a % 4096 ≡ 0
        → a / 4096 < user_pages
        → translate r a m ≡ 0
        → IsSpare end owner xs c
        → PlacedOrNot owner xs m r a c perm (map_or_free end r a c perm m)
    unfolding map_or_free
    map_or_free-Placed owner xs m r a c perm w root al user un spare =
        go (mappages r a 4096 c perm m) (
          mappages-Maps end end_pos owner xs m r a 0 c perm (record {
            well = w;
            root = root;
            aligned = (al, spare.0.0);
            fits = (omega arith, omega (arith, spare.0));
            unmapped =
                λ i lt. ap (λ n. translate r n m) {x = a + i * 4096} {y = a} (omega arith) ∙ un;
            frames = λ i lt cov.
                subst (λ b. IsSpare end owner xs b) {x = c} {y = c + i * 4096} (omega arith) spare;
          }))
      where
        outside :
            (s va n : ℕ)
            → n ≤ 1
            → (s ≢ r) ⊎ (va / 4096 ≢ a / 4096)
            → (s ≢ r) ⊎ ((va < a) ⊎ (a + n * 4096 ≤ va))
        outside s va n le ne = elim ne [
          | inl other ↦ inl other
          | inr page ↦ elim (dec_lt va a) [
            | yes below ↦ inr (inl below)
            | no above ↦ inr (inr (omega arith))
          ]
        ]

        top : owner r ≡ part r 3 (key 2 a)
        top = root ∙ top_key end r a (omega arith)

        failed :
            (m' : Ram)
            → Maps end owner xs m r a 1 c perm false m'
            → PlacedOrNot owner xs m r a c perm
                (elim (page_free end c m') [ none ↦ none | some m'' ↦ some (false, m'') ])
        failed m' h =
            let none_mapped : h.count ≡ 0 = elim h.all [
              | inl (bad, n) ↦ absurd (cc)
              | inr (good, lt, empty) ↦ omega arith
            ] in
            let spare' : IsSpare end h.owner' h.xs' c =
              elim (h.kept.spare c spare.0.0 spare.1 spare.2) [
                | inl (fresh, unl) ↦ (spare.0, fresh, unl)
                | inr (s, k, o, lo, hi) ↦ absurd (omega arith)
              ] in
            let f = page_free-WellFormed h.owner' h.xs' m' c h.kept.well spare' in
            let tabs : SameTables h.owner' m'.bytes (f.0).bytes = λ p s l k x o lo hi. f.3 x (
              pages-Apart c p x spare.0.0 (h.kept.well.page p s (suc l) k o).0
                (owned_ne h.owner' c p s (suc l) k spare'.1 o) lo hi) in
            let same = λ (t l s va : ℕ) (ot : owner t ≡ part s (suc l) (key l va)).
              pte_at_same h.owner' m'.bytes (f.0).bytes tabs h.kept.well.linked s va l t
                (h.kept.keeps t s (suc l) (key l va) ot) in
            rw (f.1) (record {
              owner' = h.owner';
              xs' = c ∷ h.xs';
              well = f.2;
              keeps = h.kept.keeps;
              frames = λ b s k x o lo hi.
                  f.3 x (
                    pages-Apart c b x spare.0.0 (w.page b s 0 k o).0
                      (owned_ne owner c b s 0 k spare.1 o) lo hi)
                  ∙ h.kept.frames b s k x o lo hi;
              here = same r 2 r a top ∙ h.others r 2 r a top (inr (inr (omega arith))) ∙ un;
              content = λ bad. absurd (cc);
              others = λ t l s va ot ne.
                  same t l s va ot ∙ h.others t l s va ot (outside s va h.count (omega arith) ne);
            })

        go :
            (o : Option (Bool × Ram))
            → MapsOrNot end owner xs m r a 1 c perm o
            → PlacedOrNot owner xs m r a c perm (elim o [
              | none ↦ none
              | some (ok, m') ↦
                  if ok
                  then some (true, m')
                  else elim (page_free end c m') [ none ↦ none | some m'' ↦ some (false, m'') ]
            ])
        go none h = h
        go (some (false, m')) h = failed m' h
        go (some (true, m')) h =
            let one : h.count ≡ 1 = elim h.all [
              | inl (good, n) ↦ n
              | inr (bad, lt, empty) ↦ absurd (cc)
            ] in
            record {
              owner' = h.owner';
              xs' = h.xs';
              well = h.kept.well;
              keeps = h.kept.keeps;
              frames = h.kept.frames;
              here =
                  ap (λ k. translate r k m') {x = a} {y = a + 0 * 4096} (omega arith)
                  ∙ h.mapped 0 (omega arith)
                  ∙ ap (λ n. pte_make n perm) {x = c + 0 * 4096} {y = c} (omega arith);
              content = λ good x lo hi. h.kept.spare_bytes c x spare.0.0 spare.1 spare.2 lo hi;
              others =
                  λ t l s va ot ne. h.others t l s va ot (outside s va h.count (omega arith) ne);
            }
