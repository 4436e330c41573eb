-- ===== src/Space/Copies.antt =====
-- The loop of `copyout` in kernel/vm.c, and `copyin` after it.
use increase_ipc_throughput.Base.{
  ℕ, zero, suc, ◌+◌, ◌-◌, ◌≤◌, ◌<◌, ◌≡◌, ◌≢◌, sym, arith, subst, true, false, not, Option, none,
  some, List, inl, inr, if◌then◌else◌, ◌==◌, Bool-cases, leb, dec_lt, ==→eq, ==→ne, length,
}
use increase_ipc_throughput.Kalloc.{page_size}
use increase_ipc_throughput.Vm.{maxva, pte2pa, pte_u, pte_w, load_word, Ram, get_pte, walk}
use increase_ipc_throughput.Vm.Tree.{Owner, translate, key}
use increase_ipc_throughput.Vm.Walk.{find, walk_from-find}
use increase_ipc_throughput.Space.{page_round_down}
use increase_ipc_throughput.Space.Access.{
  chunk, take, drop, put_bytes, reach, copyout_from, copyout,
}
use increase_ipc_throughput.Space.Process.{IsProcess, frame_at}
use increase_ipc_throughput.Space.Fault.{ReachedOrNot}
use increase_ipc_throughput.Space.Reach.{reach-Reached}
use increase_ipc_throughput.Space.View.{Unseen, Unseen_refl, Reached-Unseen, open_nonzero}
use increase_ipc_throughput.Space.Put.{stored-IsProcess}
use increase_ipc_throughput.Space.Copyout.{
  length-drop, CopiedOutOrNot, unseen-CopiedOut, fits, next-CopiedOut,
}

module _ (end : ℕ) (end_pos : 0 < end) where
  -- A round of the loop, by what is known of the next ones.
  reached :
      (r sz : ℕ) (owner : ℕ → Owner) (xs : List ℕ) (m : Ram) (dst : ℕ) (src : List ℕ) (f : ℕ)
      → IsProcess end end_pos owner xs m r sz
      → 0 < length src
      → page_round_down dst < maxva
      → (o : Option (ℕ × Ram)) → ReachedOrNot end end_pos owner xs m r sz (page_round_down dst) o
      → ((owner' : ℕ → Owner) (xs' : List ℕ) (m' : Ram)
          → IsProcess end end_pos owner' xs' m' r sz
          → CopiedOutOrNot end end_pos r sz owner' xs' m'
              (page_round_down dst + page_size)
              (drop (chunk dst (length src)) src)
              (copyout_from end f r sz r
                (page_round_down dst + page_size)
                (drop (chunk dst (length src)) src)
                m'))
      → CopiedOutOrNot end end_pos r sz owner xs m dst src (elim o [
        | none ↦ none
        | some (pa0, m1) ↦
            if pa0 == 0 then some (false, m1) else elim (walk r (page_round_down dst) false m1) [
              | none ↦ none
              | some (pte, m1') ↦
                  let m2 = record m1 {
                    bytes =
                        put_bytes m1.bytes
                          (pa0 + (dst - page_round_down dst))
                          (take (chunk dst (length src)) src);
                  } in
                  let rest =
                    copyout_from end f r sz r
                      (page_round_down dst + page_size)
                      (drop (chunk dst (length src)) src)
                      m2 in
                  if pte == 0
                  then none
                  else if not (pte_w (get_pte m1 pte))
                  then some (false, m1)
                  else rest
            ]
      ])
  unfolding walk
  reached r sz owner xs m dst src f p pos low none h ih = h
  reached r sz owner xs m dst src f p pos low (some (pa, m1)) h ih = elim (Bool-cases (pa == 0)) [
    | inl gone ↦
        rw (gone)
          (unseen-CopiedOut end end_pos r sz owner xs m dst src false m1 p u (λ bad. absurd (cc)))
    | inr there ↦
        let page = found (==→ne pa 0 there) in
        let fr =
          frame_at end end_pos u.owner' u.xs' m1 r a pr.well pr.root (pr.guarded a low page.1)
            (open_nonzero end end_pos (translate r a m1) page.1) in
        let below : leb maxva a ≡ false = ground (arith, low) in
        let some_pte : (find 2 r a m1.bytes == 0) ≡ false =
          ground (arith, fr.4, pr.well.page fr.0 r 1 (key 0 a) fr.1, end_pos) in
        rw (there, below, walk_from-find 2 r a m1, some_pte)
          (elim (Bool-cases (pte_w (load_word 8 m1.bytes (find 2 r a m1.bytes)))) [
            | inr read_only ↦ rw (read_only) (
                unseen-CopiedOut end end_pos r sz owner xs m dst src false m1 p u
                  (λ bad. absurd (cc)))
            | inl writable ↦ rw (writable) (
                subst
                  (λ q. CopiedOutOrNot end end_pos r sz owner xs m dst src (
                    copyout_from end f r sz r (a + page_size) (drop (chunk dst (length src)) src)
                      (record m1 {
                        bytes =
                            put_bytes m1.bytes (q + (dst - a)) (take (chunk dst (length src)) src);
                      })))
                  (sym page.2)
                  (next-CopiedOut end end_pos r sz owner xs m dst src m1 p u low page.1
                    (copyout_from end f r sz r (a + page_size) (drop (chunk dst (length src)) src)
                      (record m1 {
                        bytes =
                            put_bytes m1.bytes (pte2pa (translate r a m1) + (dst - a))
                              (take (chunk dst (length src)) src);
                      }))
                    (ih u.owner' u.xs' _ (
                      stored-IsProcess end end_pos r sz u.owner' u.xs' m1 dst
                        (take (chunk dst (length src)) src) pr low page.1
                        (fits end end_pos r sz owner xs m dst src m1 p u low page.1) r sz pr))))
          ])
  ]
    where
      a : ℕ
      a = page_round_down dst

      u : Unseen end end_pos r sz owner xs m m1
      u = Reached-Unseen end end_pos owner xs m r sz (page_round_down dst) pa m1 (omega arith) h

      pr : IsProcess end end_pos u.owner' u.xs' m1 r sz
      pr = u.processes r sz p

      found :
          pa ≢ 0
          → (a < maxva) × (pte_u (translate r a m1) ≡ true) × (pa ≡ pte2pa (translate r a m1))
      found nz = elim h.result [ inl gone ↦ absurd (nz gone) | inr good ↦ good ]

  copyout_from-CopiedOut :
      (f r sz : ℕ) (owner : ℕ → Owner) (xs : List ℕ) (m : Ram) (dst : ℕ) (src : List ℕ)
      → IsProcess end end_pos owner xs m r sz
      → length src ≤ f
      → CopiedOutOrNot end end_pos r sz owner xs m dst src (copyout_from end f r sz r dst src m)
  unfolding copyout_from
  copyout_from-CopiedOut zero r sz owner xs m dst src p le =
      let e : length src ≡ 0 = omega arith in
      rw (e) (
        unseen-CopiedOut end end_pos r sz owner xs m dst src true m p
          (Unseen_refl end end_pos r sz owner xs m) (λ good. sym e))
  copyout_from-CopiedOut (suc f) r sz owner xs m dst src p le =
      elim (Bool-cases (length src == 0)) [
        | inl done ↦ rw (done) (
            unseen-CopiedOut end end_pos r sz owner xs m dst src true m p
              (Unseen_refl end end_pos r sz owner xs m) (λ good. sym (==→eq (length src) 0 done)))
        | inr more ↦ elim (dec_lt (page_round_down dst) maxva) [
          | no high ↦
              let above : leb maxva (page_round_down dst) ≡ true = ground arith in
              rw (more, above)
                (unseen-CopiedOut end end_pos r sz owner xs m dst src false m p
                  (Unseen_refl end end_pos r sz owner xs m) (λ bad. absurd (cc)))
          | yes low ↦
              let below : leb maxva (page_round_down dst) ≡ false = ground arith in
              rw (more, below)
                (reached r sz owner xs m dst src f p (omega (arith, ==→ne (length src) 0 more)) low
                  (reach end r sz r (page_round_down dst) m)
                  (reach-Reached end end_pos owner xs m r sz (page_round_down dst) p (omega arith))
                  (λ owner' xs' m' p'.
                    copyout_from-CopiedOut f r sz owner' xs' m' (page_round_down dst + page_size)
                      (drop (chunk dst (length src)) src) p'
                      (omega (
                        arith,
                        ==→ne (length src) 0 more,
                        length-drop (chunk dst (length src)) src,
                      ))))
        ]
      ]

  -- On the page table of a process, `copyout` returns. The bytes that it stores are a first part
  -- of `src`, all of it with 0; the process sees exactly these change, though pages may have been
  -- allocated on the way, and their pages are then mapped and open to it. All other processes see
  -- their memory unchanged.
  pub copyout-CopiedOut :
      (r sz : ℕ) (owner : ℕ → Owner) (xs : List ℕ) (m : Ram) (dst : ℕ) (src : List ℕ)
      → IsProcess end end_pos owner xs m r sz
      → CopiedOutOrNot end end_pos r sz owner xs m dst src (copyout end r sz r dst src m)
  unfolding copyout
  copyout-CopiedOut r sz owner xs m dst src p =
      copyout_from-CopiedOut (length src) r sz owner xs m dst src p (omega arith)
