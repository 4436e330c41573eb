-- ===== src/Space/Copyout.antt =====
-- `copyout` of kernel/vm.c: it stores where the process sees it, and no other process does.
use increase_ipc_throughput.Base.{
  ℕ, zero, suc, ◌+◌, ◌-◌, ◌%◌, ◌≤◌, ◌<◌, ◌≡◌, ◌≢◌, refl, sym, ap, ◌∙◌, arith, Bool, true, Option,
  none, some, List, [], ◌∷◌, ◌++◌, inl, inr, dec_lt, length, fun_ext,
}
use increase_ipc_throughput.Kalloc.{page_size}
use increase_ipc_throughput.Vm.{maxva, pte2pa, pte_u, Ram}
use increase_ipc_throughput.Vm.Tree.{Owner, translate}
use increase_ipc_throughput.Space.{page_round_down}
use increase_ipc_throughput.Space.Access.{chunk, take, drop, put_bytes}
use increase_ipc_throughput.Space.Process.{IsProcess}
use increase_ipc_throughput.Space.View.{view, Unseen}
use increase_ipc_throughput.Space.Reads.{Opened}
use increase_ipc_throughput.Space.Put.{
  overlay, overlay-append, entries, stored-IsProcess, stored_other, stored-view,
}

length-take : (n : ℕ) (xs : List ℕ) → n ≤ length xs → length (take n xs) ≡ n
length-take zero xs h = refl
length-take (suc n) [] h = absurd (omega arith)
length-take (suc n) (x ∷ xs) h = omega (arith, length-take n xs (omega arith))

pub length-drop : (n : ℕ) (xs : List ℕ) → length (drop n xs) ≡ length xs - n
length-drop zero xs = omega arith
length-drop (suc n) [] = omega arith
length-drop (suc n) (x ∷ xs) = omega (arith, length-drop n xs)

take_nil : (k : ℕ) → take {A = ℕ} k [] ≡ []
take_nil zero = refl
take_nil (suc k) = refl

take_add : (n k : ℕ) (xs : List ℕ) → take n xs ++ take k (drop n xs) ≡ take (n + k) xs
take_add zero k xs = ap (λ i. take i xs) (omega arith)
take_add (suc n) k [] = take_nil k ∙ sym (take_nil (suc n + k))
take_add (suc n) k (x ∷ xs) =
    ap (λ ys. x ∷ ys) (take_add n k xs)
    ∙ ap (λ i. take i (x ∷ xs)) {x = suc (n + k)} {y = suc n + k} (omega arith)

module _ (end : ℕ) (end_pos : 0 < end) where
  -- The first `count` bytes were stored where the process sees them, all of them on success, and
  -- their pages are open; it sees nothing else change, and other processes see no change at all.
  pub record CopiedOut (r sz : ℕ) (owner : ℕ → Owner) (xs : List ℕ) (m : Ram) (dst : ℕ)
      (src : List ℕ) (ok : Bool) (m' : Ram) : Type 0 where
    pub owner' : ℕ → Owner
    pub xs' : List ℕ
    pub processes :
        (s size : ℕ)
        → IsProcess end end_pos owner xs m s size
        → IsProcess end end_pos owner' xs' m' s size
    pub others :
        (s size : ℕ)
        → IsProcess end end_pos owner xs m s size
        → s ≢ r
        → (va : ℕ) → view s size m' va ≡ view s size m va
    pub opens :
        (s size va : ℕ)
        → IsProcess end end_pos owner xs m s size
        → (va < maxva) × (va % 4096 ≡ 0)
        → pte_u (translate s va m) ≡ true
        → translate s va m' ≡ translate s va m
    pub count : ℕ
    pub all : (count ≤ length src) × (ok ≡ true → count ≡ length src)
    pub written : (va : ℕ) → view r sz m' va ≡ overlay (view r sz m) dst (take count src) va
    pub opened : Opened r m' dst count

  abbrev pub CopiedOutOrNot :
      ℕ → ℕ → (ℕ → Owner) → List ℕ → Ram → ℕ → List ℕ → Option (Bool × Ram) → Type 0
  CopiedOutOrNot r sz owner xs m dst src none = ⊥
  CopiedOutOrNot r sz owner xs m dst src (some (ok, m')) = CopiedOut r sz owner xs m dst src ok m'

  -- Nothing was stored.
  pub unseen-CopiedOut :
      (r sz : ℕ) (owner : ℕ → Owner) (xs : List ℕ) (m : Ram) (dst : ℕ) (src : List ℕ) (ok : Bool)
      (m' : Ram)
      → IsProcess end end_pos owner xs m r sz
      → Unseen end end_pos r sz owner xs m m'
      → (ok ≡ true → 0 ≡ length src)
      → CopiedOut r sz owner xs m dst src ok m'
  unseen-CopiedOut r sz owner xs m dst src ok m' p u all = record {
    owner' = u.owner';
    xs' = u.xs';
    processes = u.processes;
    others = λ s size ps ne va. u.views s size ps (inl ne) va;
    opens = u.opens;
    count = 0;
    all = (omega arith, all);
    written = λ va. u.views r sz p (inr refl) va;
    opened = λ pos va al lo hi. absurd (omega arith);
  }

  -- The bytes of one page, and then the rest.
  module _ (r sz : ℕ) (owner : ℕ → Owner) (xs : List ℕ) (m : Ram) (dst : ℕ) (src : List ℕ)
      (m1 : Ram) (p : IsProcess end end_pos owner xs m r sz)
      (u : Unseen end end_pos r sz owner xs m m1) (low : page_round_down dst < maxva)
      (is_open : pte_u (translate r (page_round_down dst) m1) ≡ true) where
    abbrev a : ℕ
    a = page_round_down dst

    abbrev n : ℕ
    n = chunk dst (length src)

    pub p1 : IsProcess end end_pos u.owner' u.xs' m1 r sz
    p1 = u.processes r sz p

    pub fits : dst - a + length (take n src) ≤ 4096
    fits = omega (arith, length-take n src (omega arith))

    abbrev m2 : Ram
    m2 = record m1 {
      bytes = put_bytes m1.bytes (pte2pa (translate r a m1) + (dst - a)) (take n src);
    }

    pub next-CopiedOut :
        (o : Option (Bool × Ram))
        → CopiedOutOrNot r sz u.owner' u.xs' m2 (a + page_size) (drop n src) o
        → CopiedOutOrNot r sz owner xs m dst src o
    next-CopiedOut none c = c
    next-CopiedOut (some (ok, m3)) c = record {
      owner' = c.owner';
      xs' = c.xs';
      processes = λ s size ps. c.processes s size (
          stored-IsProcess end end_pos r sz u.owner' u.xs' m1 dst (take n src) p1 low is_open fits s
            size (u.processes s size ps));
      others = λ s size ps ne va.
          let ps1 = u.processes s size ps in
          c.others s size
            (stored-IsProcess end end_pos r sz u.owner' u.xs' m1 dst (take n src) p1 low is_open
              fits s size ps1)
            ne va
          ∙ stored_other end end_pos r sz u.owner' u.xs' m1 dst (take n src) p1 low is_open fits s
              size va ps1 (inl ne)
          ∙ u.views s size ps (inl ne) va;
      opens = λ s size va ps lt o.
          let ps1 = u.processes s size ps in
          let e1 = u.opens s size va ps lt o in
          let e2 =
            entries end end_pos r sz u.owner' u.xs' m1 dst (take n src) p1 low is_open fits s va
              ps1.root lt.0 in
          c.opens s size va
            (stored-IsProcess end end_pos r sz u.owner' u.xs' m1 dst (take n src) p1 low is_open
              fits s size ps1)
            lt (ap (λ e. pte_u e) (e2 ∙ e1) ∙ o)
          ∙ e2
          ∙ e1;
      count = n + c.count;
      all = (
        omega (arith, c.all.0, length-drop n src),
        λ good. omega (arith, c.all.1 good, length-drop n src),
      );
      written = written;
      opened = opened;
    }
      where
        seen : view r sz m2 ≡ overlay (view r sz m) dst (take n src)
        seen =
            fun_ext
              (stored-view end end_pos r sz u.owner' u.xs' m1 dst (take n src) p1 low is_open fits)
            ∙ ap (λ v. overlay v dst (take n src)) (fun_ext (u.views r sz p (inr refl)))

        -- Where bytes are left, the next page is where the first ones end.
        further :
            (v : ℕ → Option ℕ)
            → overlay v (a + page_size) (take c.count (drop n src))
              ≡ overlay v (dst + length (take n src)) (take c.count (drop n src))
        further v = elim (dec_lt (length src) (page_size - (dst - a))) [
          | yes last ↦
              let k0 : c.count ≡ 0 = omega (arith, c.all.0, length-drop n src) in rw k0 refl
          | no more ↦
              ap (λ d. overlay v d (take c.count (drop n src)))
                (omega (arith, length-take n src (omega arith)))
        ]

        written : (va : ℕ) → view r sz m3 va ≡ overlay (view r sz m) dst (take (n + c.count) src) va
        written va =
            c.written va
            ∙ ap (λ v. overlay v (a + page_size) (take c.count (drop n src)) va) seen
            ∙ ap (λ w. w va) (further (overlay (view r sz m) dst (take n src)))
            ∙ ap (λ w. w va)
                (sym (overlay-append (view r sz m) dst (take n src) (take c.count (drop n src))))
            ∙ ap (λ ys. overlay (view r sz m) dst ys va) (take_add n c.count src)

        opened : Opened r m3 dst (n + c.count)
        opened pos va al lo hi = elim (dec_lt a va) [
          | yes later ↦
              c.opened (omega arith) va al (omega arith) (omega (arith, c.all.0, length-drop n src))
          | no here ↦
              let at : va ≡ a = omega arith in
              let e =
                entries end end_pos r sz u.owner' u.xs' m1 dst (take n src) p1 low is_open fits r a
                  p1.root low in
              let open2 : pte_u (translate r a m2) ≡ true = ap (λ k. pte_u k) e ∙ is_open in
              let kept =
                c.opens r sz a
                  (stored-IsProcess end end_pos r sz u.owner' u.xs' m1 dst (take n src) p1 low
                    is_open fits r sz p1)
                  (low, omega arith) open2 in
              rw at (low, ap (λ k. pte_u k) kept ∙ open2)
        ]
