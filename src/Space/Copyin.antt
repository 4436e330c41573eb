-- ===== src/Space/Copyin.antt =====
-- `copyin` of kernel/vm.c: it reads what the process sees.
use increase_ipc_throughput.Base.{
  ℕ, zero, suc, ◌+◌, ◌-◌, ◌≤◌, ◌<◌, ◌≡◌, ◌≢◌, refl, sym, ap, ◌∙◌, arith, subst, Bool, true, false,
  Option, none, some, List, [], ◌++◌, inl, inr, if◌then◌else◌, ◌==◌, Bool-cases, dec_lt, ==→eq,
  ==→ne, length, length-append,
}
use increase_ipc_throughput.Kalloc.{page_size}
use increase_ipc_throughput.Vm.{maxva, pte2pa, pte_u, Ram}
use increase_ipc_throughput.Vm.Tree.{Owner, translate}
use increase_ipc_throughput.Space.{page_round_down}
use increase_ipc_throughput.Space.Access.{chunk, get_bytes, reach, copyin_from, copyin}
use increase_ipc_throughput.Space.Process.{IsProcess}
use increase_ipc_throughput.Space.Fault.{Reached, ReachedOrNot}
use increase_ipc_throughput.Space.Reach.{reach-Reached, reach_open}
use increase_ipc_throughput.Space.View.{view, Unseen, Unseen_refl, Unseen_trans, Reached-Unseen}
use increase_ipc_throughput.Space.Reads.{
  Reads, Reads-append, Reads-none, Reads-same, length-get_bytes, get_bytes-Reads, Opened, view_open,
}

module _ (end : ℕ) (end_pos : 0 < end) where
  -- What `copyin` stored is what the process sees, and all of it on success; no process sees the
  -- call; where the pages are open, it succeeds.
  pub record CopiedIn (r sz : ℕ) (owner : ℕ → Owner) (xs : List ℕ) (m : Ram) (src len : ℕ)
      (ok : Bool) (bytes : List ℕ) (m' : Ram) : Type 0 where
    pub unseen : Unseen end end_pos r sz owner xs m m'
    pub size : (length bytes ≤ len) × (ok ≡ true → length bytes ≡ len)
    pub reads : Reads (view r sz m) src bytes
    pub succeeds : Opened r m src len → ok ≡ true

  abbrev pub CopiedInOrNot :
      ℕ → ℕ → (ℕ → Owner) → List ℕ → Ram → ℕ → ℕ → Option (Bool × List ℕ × Ram) → Type 0
  CopiedInOrNot r sz owner xs m src len none = ⊥
  CopiedInOrNot r sz owner xs m src len (some (ok, bytes, m')) =
      CopiedIn r sz owner xs m src len ok bytes m'

  -- The bytes of one page, and then the rest.
  module _ (r sz : ℕ) (owner : ℕ → Owner) (xs : List ℕ) (m : Ram) (src len pa : ℕ) (m1 : Ram)
      (p : IsProcess end end_pos owner xs m r sz) (pos : 0 < len)
      (h : Reached end end_pos owner xs m r sz (page_round_down src) pa m1) (there : pa ≢ 0) where
    abbrev a : ℕ
    a = page_round_down src

    abbrev n : ℕ
    n = chunk src len

    abbrev u : Unseen end end_pos r sz owner xs m m1
    u = Reached-Unseen end end_pos owner xs m r sz a pa m1 (omega arith) h

    page : (a < maxva) × (pte_u (translate r a m1) ≡ true) × (pa ≡ pte2pa (translate r a m1))
    page = elim h.result [ inl gone ↦ absurd (there gone) | inr good ↦ good ]

    piece-Reads : Reads (view r sz m) src (get_bytes m1.bytes (pa + (src - a)) n)
    piece-Reads =
        Reads-same (view r sz m1) (view r sz m) src (get_bytes m1.bytes (pa + (src - a)) n)
          (u.views r sz p (inr refl))
          (get_bytes-Reads (view r sz m1) m1.bytes src (pa + (src - a)) n (λ i lt.
            view_open r sz m1 a (src + i) page.0 (omega arith) page.1
            ∙ ap (λ k. some (m1.bytes k)) (omega (arith, page.2))))

    next-CopiedIn :
        (o : Option (Bool × List ℕ × Ram))
        → CopiedInOrNot r sz u.owner' u.xs' m1 (a + page_size) (len - n) o
        → CopiedInOrNot r sz owner xs m src len (elim o [
          | none ↦ none
          | some (ok, bytes, m2) ↦ some (ok, get_bytes m1.bytes (pa + (src - a)) n ++ bytes, m2)
        ])
    next-CopiedIn none c = c
    next-CopiedIn (some (ok, bytes, m2)) c = record {
      unseen = Unseen_trans end end_pos r sz owner xs m m1 m2 u c.unseen;
      size = (omega (arith, sizes, c.size.0), λ good. omega (arith, sizes, c.size.1 good));
      reads = Reads-append (view r sz m) src piece bytes piece-Reads rest;
      succeeds = λ opened. c.succeeds (λ pos' va al lo hi.
          let far : a + page_size ≤ va = omega (arith, al, lo) in
          let o = opened pos va al (omega arith) (omega arith) in
          (o.0, ap (λ e. pte_u e) (u.opens r sz va p (o.0, al) o.1) ∙ o.1));
    }
      where
        piece : List ℕ
        piece = get_bytes m1.bytes (pa + (src - a)) n

        sizes : length (piece ++ bytes) ≡ n + length bytes
        sizes =
            length-append piece bytes
            ∙ ap (λ k. k + length bytes) (length-get_bytes m1.bytes (pa + (src - a)) n)

        rest : Reads (view r sz m) (src + length piece) bytes
        rest = elim (dec_lt len (page_size - (src - a))) [
          | yes last ↦ Reads-none (view r sz m) (src + length piece) bytes (omega (arith, c.size.0))
          | no more ↦
              subst (λ k. Reads (view r sz m) k bytes) {x = a + page_size} {y = src + length piece}
                (omega (arith, length-get_bytes m1.bytes (pa + (src - a)) n))
                (Reads-same (view r sz m1) (view r sz m) (a + page_size) bytes
                  (u.views r sz p (inr refl)) c.reads)
        ]

  nothing :
      (r sz : ℕ) (owner : ℕ → Owner) (xs : List ℕ) (m : Ram) (src : ℕ)
      → CopiedIn r sz owner xs m src 0 true [] m
  nothing r sz owner xs m src = record {
    unseen = Unseen_refl end end_pos r sz owner xs m;
    size = (omega arith, λ good. refl);
    reads = tt;
    succeeds = λ opened. refl;
  }

  -- A round of the loop, by what is known of the next ones.
  reached :
      (r sz : ℕ) (owner : ℕ → Owner) (xs : List ℕ) (m : Ram) (src len f : ℕ)
      → IsProcess end end_pos owner xs m r sz
      → 0 < len
      → (o : Option (ℕ × Ram)) → ReachedOrNot end end_pos owner xs m r sz (page_round_down src) o
      → (page_round_down src < maxva
          → pte_u (translate r (page_round_down src) m) ≡ true
          → (pa : ℕ) × (o ≡ some (pa, m)) × (pa ≢ 0))
      → ((owner' : ℕ → Owner) (xs' : List ℕ) (m' : Ram)
          → IsProcess end end_pos owner' xs' m' r sz
          → CopiedInOrNot r sz owner' xs' m'
              (page_round_down src + page_size)
              (len - chunk src len)
              (copyin_from end f r sz r (page_round_down src + page_size) (len - chunk src len) m'))
      → CopiedInOrNot r sz owner xs m src len (elim o [
        | none ↦ none
        | some (pa0, m1) ↦
            if pa0 == 0
            then some (false, [], m1)
            else elim (copyin_from end f r sz r
                (page_round_down src + page_size)
                (len - chunk src len)
                m1) [
                  | none ↦ none
                  | some (ok, bytes, m2) ↦ some (
                    ok,
                    get_bytes m1.bytes (pa0 + (src - page_round_down src)) (chunk src len) ++ bytes,
                    m2,
                  )
                ]
      ])
  reached r sz owner xs m src len f p pos none h sure ih = h
  reached r sz owner xs m src len f p pos (some (pa, m1)) h sure ih = elim (Bool-cases (pa == 0)) [
    | inl gone ↦ rw (gone) (record {
      unseen =
          Reached-Unseen end end_pos owner xs m r sz (page_round_down src) pa m1 (omega arith) h;
      size = (omega arith, λ bad. absurd (cc));
      reads = tt;
      succeeds = λ opened.
          let o = opened pos (page_round_down src) (omega arith) (omega arith) (omega arith) in
          let (pb, e, nz) = sure o.0 o.1 in
          let same : pa ≡ pb = cc in absurd (nz (sym same ∙ ==→eq pa 0 gone));
    })
    | inr there ↦ rw (there) (
        next-CopiedIn r sz owner xs m src len pa m1 p pos h (==→ne pa 0 there)
          (copyin_from end f r sz r (page_round_down src + page_size) (len - chunk src len) m1)
          (let v = u r sz owner xs m src len pa m1 p pos h (==→ne pa 0 there) in
            ih v.owner' v.xs' m1 (v.processes r sz p)))
  ]

  copyin_from-CopiedIn :
      (f r sz : ℕ) (owner : ℕ → Owner) (xs : List ℕ) (m : Ram) (src len : ℕ)
      → IsProcess end end_pos owner xs m r sz
      → len ≤ f
      → CopiedInOrNot r sz owner xs m src len (copyin_from end f r sz r src len m)
  unfolding copyin_from
  copyin_from-CopiedIn zero r sz owner xs m src len p le =
      let e : len ≡ 0 = omega arith in rw (e) (nothing r sz owner xs m src)
  copyin_from-CopiedIn (suc f) r sz owner xs m src len p le = elim (Bool-cases (len == 0)) [
    | inl done ↦ rw (done, ==→eq len 0 done) (nothing r sz owner xs m src)
    | inr more ↦ rw (more) (
        reached r sz owner xs m src len f p (omega (arith, ==→ne len 0 more))
          (reach end r sz r (page_round_down src) m)
          (reach-Reached end end_pos owner xs m r sz (page_round_down src) p (omega arith))
          (λ low is_open.
            let o =
              reach_open end end_pos owner xs m r sz (page_round_down src) p (omega arith) low
                is_open in
            (_, o.0, o.1))
          (λ owner' xs' m' p'.
            copyin_from-CopiedIn f r sz owner' xs' m' (page_round_down src + page_size)
              (len - chunk src len) p' (omega (arith, ==→ne len 0 more))))
  ]

  -- On the page table of a process, `copyin` returns, and it stores what the process sees from
  -- `srcva` on: all `len` bytes with 0, a first part with -1. No process sees its memory change,
  -- though pages of zeros may be allocated; and where the pages are mapped and open to the
  -- process, it returns 0.
  pub copyin-CopiedIn :
      (r sz : ℕ) (owner : ℕ → Owner) (xs : List ℕ) (m : Ram) (src len : ℕ)
      → IsProcess end end_pos owner xs m r sz
      → CopiedInOrNot r sz owner xs m src len (copyin end r sz r src len m)
  unfolding copyin
  copyin-CopiedIn r sz owner xs m src len p =
      copyin_from-CopiedIn len r sz owner xs m src len p (omega arith)
