-- ===== src/Space/View.antt =====
-- The memory of a process as it sees it, over the page tables of kernel/vm.c: lazy allocation does
-- not show.
use increase_ipc_throughput.Base.{
  ℕ, ◌+◌, ◌*◌, ◌/◌, ◌%◌, ◌≤◌, ◌<◌, ◌≡◌, ◌≢◌, refl, sym, ap, ◌∙◌, arith, subst, true, false, ◌&&◌,
  Option, none, some, List, ◌⊎◌, inl, inr, if◌then◌else◌, ◌==◌, Bool-cases, leb, ltb, dec_lt, ==→eq,
  ==→ne,
}
use increase_ipc_throughput.Vm.{maxva, px, pte2pa, pte_u, Ram}
use increase_ipc_throughput.Vm.Tree.{Owner, part, translate}
use increase_ipc_throughput.Space.{page_round_down}
use increase_ipc_throughput.Space.Process.{IsProcess, top_owner, frame_at}
use increase_ipc_throughput.Space.Fault.{Reached}

-- The byte at `va` of a process of `sz` bytes: that of its page, 0 where the page was not allocated
-- yet, nothing where the process may not touch it.
unfoldable pub view : ℕ → ℕ → Ram → ℕ → Option ℕ
view r sz m va =
    let e = translate r (page_round_down va) m in
    if leb maxva va
    then none
    else if pte_u e
    then some (m.bytes (pte2pa e + va % 4096))
    else if (e == 0) && ltb (page_round_down va) sz
    then some 0
    else none

module _ (end : ℕ) (end_pos : 0 < end) where
  -- An entry that is open is not empty.
  pub open_nonzero : (e : ℕ) → pte_u e ≡ true → e ≢ 0
  open_nonzero e h z = absurd (ground (arith, h, z))

  -- Where the entry and the pages of user memory are as before, the byte is.
  pub view_same :
      (owner : ℕ → Owner) (xs : List ℕ) (m m' : Ram) (r sz va : ℕ)
      → IsProcess end end_pos owner xs m r sz
      → (va < maxva → translate r (page_round_down va) m' ≡ translate r (page_round_down va) m)
      → ((b s k x : ℕ)
          → owner b ≡ part s 0 k
          → b ≡ pte2pa (translate r (page_round_down va) m)
          → va < maxva
          → pte_u (translate r (page_round_down va) m) ≡ true
          → b ≤ x
          → x < b + 4096
          → m'.bytes x ≡ m.bytes x)
      → view r sz m' va ≡ view r sz m va
  unfolding view
  view_same owner xs m m' r sz va p entry frames = elim (dec_lt va maxva) [
    | no out ↦ let high : leb maxva va ≡ true = ground arith in rw high refl
    | yes low ↦ rw (entry low) (elim (Bool-cases (pte_u (translate r (page_round_down va) m))) [
      | inr shut ↦ rw shut refl
      | inl is_open ↦
          let a : ℕ = page_round_down va in
          let (q, oq, of, v, f) =
            frame_at end end_pos owner xs m r a p.well p.root (p.guarded a (omega arith) is_open)
              (open_nonzero (translate r a m) is_open) in
          rw
            (
              is_open,
              frames (pte2pa (translate r a m)) (q + 8 * px 0 a) (a / 4096)
                  (pte2pa (translate r a m) + va % 4096) of refl low is_open (omega arith)
                  (omega arith),
            )
            refl
    ])
  ]

  -- A change in a call for the process with table `r` and this `sz` that no process sees.
  pub record Unseen (r sz : ℕ) (owner : ℕ → Owner) (xs : List ℕ) (m m' : Ram) : Type 0 where
    pub owner' : ℕ → Owner
    pub xs' : List ℕ
    pub processes :
        (s size : ℕ)
        → IsProcess end end_pos owner xs m s size
        → IsProcess end end_pos owner' xs' m' s size
    pub views :
        (s size : ℕ)
        → IsProcess end end_pos owner xs m s size
        → (s ≢ r) ⊎ (size ≡ sz)
        → (va : ℕ) → view s size m' va ≡ view s size m va
    pub opens :
        (s size va : ℕ)
        → IsProcess end end_pos owner xs m s size
        → (va < maxva) × (va % 4096 ≡ 0)
        → pte_u (translate s va m) ≡ true
        → translate s va m' ≡ translate s va m

  pub Unseen_refl :
      (r sz : ℕ) (owner : ℕ → Owner) (xs : List ℕ) (m : Ram) → Unseen r sz owner xs m m
  Unseen_refl r sz owner xs m = record {
    owner' = owner;
    xs' = xs;
    processes = λ s size p. p;
    views = λ s size p mine va. refl;
    opens = λ s size va p low u. refl;
  }

  pub Unseen_trans :
      (r sz : ℕ) (owner : ℕ → Owner) (xs : List ℕ) (m m1 m2 : Ram) (u : Unseen r sz owner xs m m1)
      → Unseen r sz u.owner' u.xs' m1 m2
      → Unseen r sz owner xs m m2
  Unseen_trans r sz owner xs m m1 m2 u v = record {
    owner' = v.owner';
    xs' = v.xs';
    processes = λ s size p. v.processes s size (u.processes s size p);
    views = λ s size p mine va.
        v.views s size (u.processes s size p) mine va ∙ u.views s size p mine va;
    opens = λ s size va p low o.
        let same = u.opens s size va p low o in
        v.opens s size va (u.processes s size p) low (ap (λ n. pte_u n) same ∙ o) ∙ same;
  }

  -- What `copyin` and `copyout` do to reach a page is not seen.
  module _ (owner : ℕ → Owner) (xs : List ℕ) (m : Ram) (r sz a pa : ℕ) (m' : Ram)
      (al : a % 4096 ≡ 0) (h : Reached end end_pos owner xs m r sz a pa m') where
    entry_same :
        (s size va : ℕ)
        → IsProcess end end_pos owner xs m s size
        → va < maxva
        → (s ≢ r) ⊎ (va / 4096 ≢ a / 4096)
        → translate s va m' ≡ translate s va m
    entry_same s size va p low ne =
        h.others s 2 s va (top_owner end end_pos owner s va p.root low) ne

    Reached-processes :
        (s size : ℕ)
        → IsProcess end end_pos owner xs m s size
        → IsProcess end end_pos h.owner' h.xs' m' s size
    Reached-processes s size p = record {
      well = h.process.well;
      root = h.keeps s s 3 0 p.root;
      limit = p.limit;
      guarded = λ va low u. elim (Bool-cases (s == r)) [
        | inl here ↦
            h.process.guarded va low
              (subst (λ n. pte_u (translate n va m') ≡ true) (==→eq s r here) u)
        | inr other ↦
            p.guarded va low
              (ap (λ n. pte_u n) (sym (entry_same s size va p low (inl (==→ne s r other)))) ∙ u)
      ];
    }

    other_views :
        (s size va : ℕ)
        → IsProcess end end_pos owner xs m s size
        → (s ≢ r) ⊎ (page_round_down va / 4096 ≢ a / 4096)
        → view s size m' va ≡ view s size m va
    other_views s size va p ne =
        view_same owner xs m m' s size va p
          (λ low. entry_same s size (page_round_down va) p (omega arith) ne)
          (λ b s' k x o e lt u lo hi. h.frames b s' k x o lo hi)

    -- The page itself: it is as before, or it is new, and its zeros showed before.
    own_view :
        (va : ℕ)
        → IsProcess end end_pos owner xs m r sz
        → page_round_down va ≡ a
        → view r sz m' va ≡ view r sz m va
    unfolding view
    own_view va p e = elim h.here [
      | inl same ↦
          view_same owner xs m m' r sz va p (λ low. rw e same)
            (λ b s k x o eb lt' u lo hi. h.frames b s k x o lo hi)
      | inr (un, is_open, lt, zeros) ↦
          let low : leb maxva va ≡ false = ground (arith, p.limit) in
          let below : ltb a sz ≡ true = ground arith in
          rw (low, e, is_open, un, below)
            (ap some (zeros (pte2pa (translate r a m') + va % 4096) (omega arith) (omega arith)))
    ]

    pub Reached-Unseen : Unseen r sz owner xs m m'
    Reached-Unseen = record {
      owner' = h.owner';
      xs' = h.xs';
      processes = Reached-processes;
      views = λ s size p mine va. elim (Bool-cases (page_round_down va == a)) [
        | inr other ↦
            other_views s size va p
              (inr (λ e. ==→ne (page_round_down va) a other (omega (arith, e))))
        | inl here ↦ elim (Bool-cases (s == r)) [
          | inr other ↦ other_views s size va p (inl (==→ne s r other))
          | inl own ↦
              let sr : s ≡ r = ==→eq s r own in
              let sizes : size ≡ sz = elim mine [ inl ne ↦ absurd (ne sr) | inr e ↦ e ] in
              rw (sr, sizes)
                (own_view va
                  (subst (λ n. IsProcess end end_pos owner xs m n sz) sr
                    (subst (λ n. IsProcess end end_pos owner xs m s n) sizes p))
                  (==→eq (page_round_down va) a here))
        ]
      ];
      opens = λ s size va p low u. elim (Bool-cases (va / 4096 == a / 4096)) [
        | inr other ↦ entry_same s size va p low.0 (inr (==→ne (va / 4096) (a / 4096) other))
        | inl here ↦ elim (Bool-cases (s == r)) [
          | inr other ↦ entry_same s size va p low.0 (inl (==→ne s r other))
          | inl own ↦
              let sr : s ≡ r = ==→eq s r own in
              let at : va ≡ a = omega (arith, ==→eq (va / 4096) (a / 4096) here, low.1) in
              elim h.here [
                | inl same ↦ rw (sr, at) same
                | inr (un, is_open, lt, zeros) ↦
                    absurd (open_nonzero (translate s va m) u (rw (sr, at) un))
              ]
        ]
      ];
    }
