-- ===== src/Space/Fault.antt =====
-- `vmfault` of kernel/vm.c, and the page that `copyin` and `copyout` reach.
use increase_ipc_throughput.Base.{
  ℕ, suc, ◌+◌, ◌*◌, ◌/◌, ◌%◌, ◌≤◌, ◌<◌, ◌≡◌, ◌≢◌, refl, sym, ap, ◌∙◌, arith, Bool, true, Option,
  none, some, List, ◌⊎◌, inl, inr, if◌then◌else◌, ◌==◌, Bool-cases, ==→eq, ==→ne,
}
use increase_ipc_throughput.Kalloc.FreeList.{IsPage}
use increase_ipc_throughput.Vm.{maxva, pte2pa, pte_u, pte_make, Ram}
use increase_ipc_throughput.Vm.Tree.{Owner, part, key, user_pages, Linked, pte_at, translate}
use increase_ipc_throughput.Vm.Same.{pte_at_same}
use increase_ipc_throughput.Space.{fault_perm}
use increase_ipc_throughput.Space.Place.{Placed}
use increase_ipc_throughput.Space.Process.{IsProcess, top_owner}

module _ (end : ℕ) (end_pos : 0 < end) where
  -- `pa` is the page of memory of `a`: it was mapped before, or it is new and holds zeros. 0 is
  -- returned where the map stays as it was. All other entries are as before, and so is all user
  -- memory.
  pub record Reached (owner : ℕ → Owner) (xs : List ℕ) (m : Ram) (r sz a pa : ℕ) (m' : Ram)
      : Type 0 where
    pub owner' : ℕ → Owner
    pub xs' : List ℕ
    pub process : IsProcess end end_pos owner' xs' m' r sz
    pub keeps : (b s l k : ℕ) → owner b ≡ part s l k → owner' b ≡ part s l k
    pub frames :
        (b s k x : ℕ) → owner b ≡ part s 0 k → b ≤ x → x < b + 4096 → m'.bytes x ≡ m.bytes x
    pub others :
        (t l s va : ℕ)
        → owner t ≡ part s (suc l) (key l va)
        → (s ≢ r) ⊎ (va / 4096 ≢ a / 4096)
        → pte_at l t va m'.bytes ≡ pte_at l t va m.bytes
    pub here :
        (translate r a m' ≡ translate r a m)
        ⊎ ((translate r a m ≡ 0)
            × (pte_u (translate r a m') ≡ true)
            × (a < sz)
            × ((x : ℕ)
                → pte2pa (translate r a m') ≤ x
                → x < pte2pa (translate r a m') + 4096
                → m'.bytes x ≡ 0))
    pub result :
        (pa ≡ 0)
        ⊎ ((a < maxva) × (pte_u (translate r a m') ≡ true) × (pa ≡ pte2pa (translate r a m')))

  abbrev pub ReachedOrNot : (ℕ → Owner) → List ℕ → Ram → ℕ → ℕ → ℕ → Option (ℕ × Ram) → Type 0
  ReachedOrNot owner xs m r sz a none = ⊥
  ReachedOrNot owner xs m r sz a (some (pa, m')) = Reached owner xs m r sz a pa m'

  -- Nothing was done.
  pub same-Reached :
      (owner : ℕ → Owner) (xs : List ℕ) (m : Ram) (r sz a pa : ℕ)
      → IsProcess end end_pos owner xs m r sz
      → (pa ≡ 0)
        ⊎ ((a < maxva) × (pte_u (translate r a m) ≡ true) × (pa ≡ pte2pa (translate r a m)))
      → Reached owner xs m r sz a pa m
  same-Reached owner xs m r sz a pa p result = record {
    owner' = owner;
    xs' = xs;
    process = p;
    keeps = λ b s l k o. o;
    frames = λ b s k x o lo hi. refl;
    others = λ t l s va ot ne. refl;
    here = inl refl;
    result = result;
  }

  -- A page was taken, filled with zeros, and placed.
  module _ (owner : ℕ → Owner) (ys : List ℕ) (m m1 : Ram) (r sz a c : ℕ)
      (root : owner r ≡ part r 3 0) (limit : sz ≤ user_pages * 4096)
      (guarded : (va : ℕ) → va < maxva → pte_u (translate r va m) ≡ true → va / 4096 < user_pages)
      (linked : Linked owner m.bytes) (al : a % 4096 ≡ 0) (lt : a < sz) (un : translate r a m ≡ 0)
      (page : IsPage end c)
      (frames1 : (b s l k x : ℕ)
        → owner b ≡ part s l k
        → b ≤ x
        → x < b + 4096
        → m1.bytes x ≡ m.bytes x)
      (zeros : (x : ℕ) → c ≤ x → x < c + 4096 → m1.bytes x ≡ 0) where
    entries1 :
        (t l s va : ℕ)
        → owner t ≡ part s (suc l) (key l va)
        → pte_at l t va m1.bytes ≡ pte_at l t va m.bytes
    entries1 t l s va ot =
        pte_at_same owner m.bytes m1.bytes (λ p s l k x o lo hi. frames1 p s (suc l) k x o lo hi)
          linked s va l t ot

    pub Placed-Reached :
        (ok : Bool) (m2 : Ram)
        → Placed end owner ys m1 r a c fault_perm ok m2
        → Reached owner ys m r sz a (if ok then c else 0) m2
    Placed-Reached ok m2 h = record {
      owner' = h.owner';
      xs' = h.xs';
      process = record {
        well = h.well;
        root = h.keeps r r 3 0 root;
        limit = limit;
        guarded = λ va low u. elim (Bool-cases (va / 4096 == a / 4096)) [
          | inl here ↦ omega (arith, ==→eq (va / 4096) (a / 4096) here)
          | inr other ↦ guarded va low (
              ap (λ n. pte_u n)
                (sym (entries1 r 2 r va (top_owner end end_pos owner r va root low))
                  ∙ sym (
                      h.others r 2 r va (top_owner end end_pos owner r va root low)
                        (inr (==→ne (va / 4096) (a / 4096) other))))
              ∙ u)
        ];
      };
      keeps = h.keeps;
      frames = λ b s k x o lo hi. h.frames b s k x o lo hi ∙ frames1 b s 0 k x o lo hi;
      others = λ t l s va ot ne. h.others t l s va ot ne ∙ entries1 t l s va ot;
      here = elim (Bool-cases ok) [
        | inl good ↦ inr (un, open_entry good, lt, zero_page good)
        | inr bad ↦ inl (h.here ∙ rw bad (sym un))
      ];
      result = elim (Bool-cases ok) [
        | inl good ↦ rw good (inr (low, open_entry good, sym (leads good)))
        | inr bad ↦ rw bad (inl refl)
      ];
    }
      where
        low : a < maxva
        low = omega arith

        entry : ok ≡ true → translate r a m2 ≡ pte_make c fault_perm
        entry good = h.here ∙ rw good refl

        open_make : (c : ℕ) → pte_u (pte_make c fault_perm) ≡ true
        open_make c = ground arith

        leads_make : (c : ℕ) → IsPage end c → pte2pa (pte_make c fault_perm) ≡ c
        leads_make c page = omega (arith, page)

        open_entry : ok ≡ true → pte_u (translate r a m2) ≡ true
        open_entry good = ap (λ n. pte_u n) (entry good) ∙ open_make c

        leads : ok ≡ true → pte2pa (translate r a m2) ≡ c
        leads good = ap (λ n. pte2pa n) (entry good) ∙ leads_make c page

        zero_page :
            ok ≡ true
            → (x : ℕ) → pte2pa (translate r a m2) ≤ x
            → x < pte2pa (translate r a m2) + 4096
            → m2.bytes x ≡ 0
        zero_page good x lo hi =
            h.content good x (omega (arith, leads good)) (omega (arith, leads good))
            ∙ zeros x (omega (arith, leads good)) (omega (arith, leads good))
