-- ===== src/Space/Process.antt =====
-- The page table of a process in kernel/vm.c: what its user pages are, and that no two of them share
-- memory.
use increase_ipc_throughput.Base.{
  ℕ, ◌+◌, ◌*◌, ◌/◌, ◌≤◌, ◌<◌, ◌≡◌, ◌≢◌, refl, sym, ap, ◌∙◌, arith, Bool, true, false, not, some,
  List, ◌⊎◌, inl, inr, if◌then◌else◌, ◌==◌, Bool-cases, leb,
}
use increase_ipc_throughput.Vm.{
  maxva, px, pte2pa, pte_v, pte_u, load_word, Ram, walk, walkaddr, ismapped,
}
use increase_ipc_throughput.Vm.Tree.{Owner, part, key, user_pages, Linked, WellFormed, translate}
use increase_ipc_throughput.Vm.Walk.{find, find-Found, walk_from-find, masked}
use increase_ipc_throughput.Vm.Map.{top_key}

module _ (end : ℕ) (end_pos : 0 < end) where
  -- The table with root `r` is that of a process of `sz` bytes: only pages of user memory are open
  -- to it.
  pub record IsProcess (owner : ℕ → Owner) (xs : List ℕ) (m : Ram) (r sz : ℕ) : Type 0 where
    pub well : WellFormed end owner xs m
    pub root : owner r ≡ part r 3 0
    pub limit : sz ≤ user_pages * 4096
    pub guarded : (va : ℕ) → va < maxva → pte_u (translate r va m) ≡ true → va / 4096 < user_pages

  pub top_owner :
      (owner : ℕ → Owner) (r a : ℕ)
      → owner r ≡ part r 3 0
      → a < maxva
      → owner r ≡ part r 3 (key 2 a)
  top_owner owner r a root lt = root ∙ top_key end r a lt

  -- A valid entry of user memory leads to a page that is there for it alone.
  pub frame_at :
      (owner : ℕ → Owner) (xs : List ℕ) (m : Ram) (r a : ℕ)
      → WellFormed end owner xs m
      → owner r ≡ part r 3 0
      → a / 4096 < user_pages
      → translate r a m ≢ 0
      → (q : ℕ) × (owner q ≡ part r 1 (key 0 a))
        × (owner (pte2pa (translate r a m)) ≡ part (q + 8 * px 0 a) 0 (a / 4096))
        × (pte_v (load_word 8 m.bytes (q + 8 * px 0 a)) ≡ true)
        × (find 2 r a m.bytes ≡ q + 8 * px 0 a)
  unfolding Linked
  frame_at owner xs m r a w root user ne =
      elim (find-Found owner m.bytes r a w.linked 2 r
        (top_owner owner r a root (omega (arith, user)))) [
          | inl (gone, e) ↦ absurd (ne e)
          | inr (q, oq, at, e) ↦
              let e' : translate r a m ≡ masked (load_word 8 m.bytes (q + 8 * px 0 a)) =
                e ∙ ap (λ n. masked (load_word 8 m.bytes n)) at in
              let valid : pte_v (load_word 8 m.bytes (q + 8 * px 0 a)) ≡ true =
                is_valid (load_word 8 m.bytes (q + 8 * px 0 a)) e' in
              let leads : owner (pte2pa (load_word 8 m.bytes (q + 8 * px 0 a)))
                  ≡ part (q + 8 * px 0 a) 0 (a / 4096) =
                w.linked q r 0 (key 0 a) (px 0 a) oq (omega arith) (omega (arith, user)) valid
                ∙ ap (part (q + 8 * px 0 a) 0) (omega arith) in
              (q, oq, ap (λ n. owner (pte2pa n)) (e' ∙ rw valid refl) ∙ leads, valid, at)
        ]
    where
      is_valid : (e : ℕ) → translate r a m ≡ masked e → pte_v e ≡ true
      is_valid e h = elim (Bool-cases (pte_v e)) [
        | inl v ↦ v
        | inr out ↦ absurd (ne (h ∙ rw out refl))
      ]

  -- Different user pages, of one process or of two, are in different pages of memory.
  pub frames_differ :
      (owner : ℕ → Owner) (xs : List ℕ) (m : Ram) (r a s b : ℕ)
      → WellFormed end owner xs m
      → (owner r ≡ part r 3 0) × (owner s ≡ part s 3 0)
      → (a / 4096 < user_pages) × (b / 4096 < user_pages)
      → (translate r a m ≢ 0) × (translate s b m ≢ 0)
      → (r ≢ s) ⊎ (a / 4096 ≢ b / 4096)
      → pte2pa (translate r a m) ≢ pte2pa (translate s b m)
  frames_differ owner xs m r a s b w roots users mapped ne e =
      let (q, oq, oa, va, fa) = frame_at owner xs m r a w roots.0 users.0 mapped.0 in
      let (p, op, ob, vb, fb) = frame_at owner xs m s b w roots.1 users.1 mapped.1 in
      let same : part (q + 8 * px 0 a) 0 (a / 4096) ≡ part (p + 8 * px 0 b) 0 (b / 4096) =
        sym oa ∙ ap owner e ∙ ob in
      let slots : q + 8 * px 0 a ≡ p + 8 * px 0 b = cc in
      let page : a / 4096 ≡ b / 4096 = cc in
      let qp : q ≡ p = omega (arith, w.page q r 1 (key 0 a) oq, w.page p s 1 (key 0 b) op) in
      let tables : part r 1 (key 0 a) ≡ part s 1 (key 0 b) = sym oq ∙ ap owner qp ∙ op in
      let rs : r ≡ s = cc in elim ne [ inl other ↦ other rs | inr other ↦ other page ]

  not_swap : (b : Bool) (x : ℕ) → (if not b then 0 else x) ≡ (if b then x else 0)
  not_swap true x = refl
  not_swap false x = refl

  masked_nonzero : (e : ℕ) → pte_v e ≡ not (masked e == 0)
  masked_nonzero e = ground arith

  -- `walkaddr` and `ismapped` in terms of the map.
  pub walkaddr_lem :
      (owner : ℕ → Owner) (xs : List ℕ) (m : Ram) (r a : ℕ)
      → WellFormed end owner xs m
      → owner r ≡ part r 3 0
      → a < maxva
      → walkaddr r a m ≡ (if pte_u (translate r a m) then pte2pa (translate r a m) else 0)
  unfolding walkaddr
  walkaddr_lem owner xs m r a w root lt =
      let below : leb maxva a ≡ false = ground (arith, lt) in
      rw (below, walk_from-find 2 r a m)
        (elim (find-Found owner m.bytes r a w.linked 2 r (top_owner owner r a root lt)) [
          | inl (gone, e) ↦ rw (gone, e) refl
          | inr (q, oq, at, e) ↦
              let there : (find 2 r a m.bytes == 0) ≡ false =
                ground (arith, at, w.page q r 1 (key 0 a) oq, end_pos) in
              rw (e) (elim (Bool-cases (pte_v (load_word 8 m.bytes (find 2 r a m.bytes)))) [
                | inl v ↦
                    rw (v, there)
                      (not_swap (pte_u (load_word 8 m.bytes (find 2 r a m.bytes)))
                        (pte2pa (load_word 8 m.bytes (find 2 r a m.bytes))))
                | inr out ↦ rw (out, there) refl
              ])
        ])

  pub ismapped_lem :
      (owner : ℕ → Owner) (xs : List ℕ) (m : Ram) (r a : ℕ)
      → WellFormed end owner xs m
      → owner r ≡ part r 3 0
      → a < maxva
      → ismapped r a m ≡ some (not (translate r a m == 0))
  unfolding ismapped walk
  ismapped_lem owner xs m r a w root lt =
      let below : leb maxva a ≡ false = ground (arith, lt) in
      rw (ismapped, walk, below, walk_from-find 2 r a m)
        (elim (find-Found owner m.bytes r a w.linked 2 r (top_owner owner r a root lt)) [
          | inl (gone, e) ↦ rw (gone, e) refl
          | inr (q, oq, at, e) ↦
              let there : (find 2 r a m.bytes == 0) ≡ false =
                ground (arith, at, w.page q r 1 (key 0 a) oq, end_pos) in
              rw (e, there) (ap some (masked_nonzero (load_word 8 m.bytes (find 2 r a m.bytes))))
        ])
