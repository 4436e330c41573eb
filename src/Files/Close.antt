-- ===== src/Files/Close.antt =====
-- `fileclose` of kernel/file.c on the two ends of a pipe that `pipealloc` of kernel/pipe.c made.
use increase_ipc_throughput.Base.{
  ℕ, ◌≡◌, ◌≢◌, refl, sym, ap, ◌∙◌, arith, Bool, true, false, not, Option, none, some, List, ◌∷◌,
  if◌then◌else◌, Bool-cases, inl, inr, subst,
}
use increase_ipc_throughput.Pipe.{Version, Pipe}
use increase_ipc_throughput.Kalloc.{Kmem}
use increase_ipc_throughput.Kalloc.FreeList.{IsFree, Chain}
use increase_ipc_throughput.Files.{
  fd_pipe, Kernel, own_page, Made, free_pipe, close_flag, pipeclose, close_what, fileclose,
}
use increase_ipc_throughput.Files.Alloc.{IsMade, reset_at, free_page_lem}
use increase_ipc_throughput.Files.Table.{IsClosed}

module _ (end : ℕ) (v : Version) (me : ℕ) (put : ℕ → Kernel → Kernel) where
  -- An entry that is one end of the pipe `pi`, with one reference.
  abbrev pub IsEnd : Kernel → ℕ → Bool → ℕ → Type 0
  IsEnd t f w pi =
      ((t.files f).ref ≡ 1)
      × ((t.files f).type ≡ fd_pipe)
      × ((t.files f).writable ≡ w)
      × ((t.files f).pipe ≡ pi)

  fileclose-pipeclose :
      (t : Kernel) (f : ℕ) (w : Bool) (pi : ℕ)
      → IsEnd t f w pi
      → fileclose end v me put f t
        ≡ pipeclose end v me put pi w (record t { files = reset_at t.files f })
  unfolding fileclose close_what
  fileclose-pipeclose t f w pi h = rw (h.0, h.1, h.2, h.3) refl

  free_pipe_lem :
      (k : Kmem) (t : Kernel) (xs ys : List ℕ) (pi : ℕ)
      → IsFree end k xs
      → xs ≡ (if own_page v then pi ∷ t.data_page pi ∷ ys else pi ∷ ys)
      → IsFree end t.kmem ys
      → (k' : Kmem) × (free_pipe end v me put pi t ≡ some (record t { kmem = k' }))
        × IsFree end k' xs
  unfolding free_pipe IsFree Chain
  free_pipe_lem k t xs ys pi c e left = elim (Bool-cases (own_page v)) [
    | inl own ↦
        let both : xs ≡ pi ∷ t.data_page pi ∷ ys =
          e ∙ ap (λ b. if b then pi ∷ t.data_page pi ∷ ys else pi ∷ ys) own in
        let c' : IsFree end k (pi ∷ t.data_page pi ∷ ys) = subst (IsFree end k) both c in
        let one = free_page_lem end v me put (t.data_page pi) t ys c'.3.1 c'.3.2 left in
        let two =
          free_page_lem end v me put pi (record t { kmem = one.0 }) (t.data_page pi ∷ ys) c'.1 c'.2
            one.2 in
        (two.0, rw (own, one.1) two.1, subst (IsFree end two.0) (sym both) two.2)
    | inr inside ↦
        let both : xs ≡ pi ∷ ys =
          e ∙ ap (λ b. if b then pi ∷ t.data_page pi ∷ ys else pi ∷ ys) inside in
        let c' : IsFree end k (pi ∷ ys) = subst (IsFree end k) both c in
        let one = free_page_lem end v me put pi t ys c'.1 c'.2 left in
        (one.0, rw inside one.1, subst (IsFree end one.0) (sym both) one.2)
  ]

  -- Whether the other end is open.
  abbrev other_open : Bool → Pipe → Bool
  other_open true p = p.readopen
  other_open false p = p.writeopen

  pipeclose-first :
      (t : Kernel) (w : Bool) (pi : ℕ)
      → other_open w (t.pipes pi) ≡ true
      → pipeclose end v me put pi w t ≡ some (close_flag end v me put pi w t)
  unfolding pipeclose close_flag
  pipeclose-first t true pi h = ground (arith, h)
  pipeclose-first t false pi h = ground (arith, h)

  pipeclose-last :
      (t : Kernel) (w : Bool) (pi : ℕ)
      → other_open w (t.pipes pi) ≡ false
      → pipeclose end v me put pi w t ≡ free_pipe end v me put pi (close_flag end v me put pi w t)
  unfolding pipeclose close_flag
  pipeclose-last t true pi h = ground (arith, h)
  pipeclose-last t false pi h = ground (arith, h)

  -- Two calls of `fileclose`.
  abbrev pub close_two : ℕ → ℕ → Kernel → Option Kernel
  close_two f g t = elim (fileclose end v me put f t) [
    | none ↦ none
    | some t' ↦ fileclose end v me put g t'
  ]

  -- The state after both ends were closed, before the pages are freed.
  pub both_shut : ℕ → ℕ → Bool → ℕ → Kernel → Kernel
  both_shut f g w pi t =
      let t1 = close_flag end v me put pi w (record t { files = reset_at t.files f }) in
      close_flag end v me put pi (not w) (record t1 { files = reset_at t1.files g })

  second-IsEnd :
      (t : Kernel) (f g : ℕ) (w : Bool) (pi : ℕ)
      → f ≢ g
      → IsEnd t g (not w) pi
      → IsEnd (close_flag end v me put pi w (record t { files = reset_at t.files f })) g (not w) pi
  unfolding close_flag
  second-IsEnd t f g true pi ne h = ground (arith, h)
  second-IsEnd t f g false pi ne h = ground (arith, h)

  second_open :
      (t : Kernel) (f g : ℕ) (w : Bool) (pi : ℕ)
      → let t1 = close_flag end v me put pi w (record t { files = reset_at t.files f }) in
        other_open (not w) (t1.pipes pi) ≡ false
  unfolding close_flag
  second_open t f g true pi = ground arith
  second_open t f g false pi = ground arith

  pub close_two_lem :
      (t : Kernel) (f g : ℕ) (w : Bool) (pi : ℕ)
      → f ≢ g
      → IsEnd t f w pi
      → IsEnd t g (not w) pi
      → other_open w (t.pipes pi) ≡ true
      → close_two f g t ≡ free_pipe end v me put pi (both_shut f g w pi t)
  unfolding both_shut
  close_two_lem t f g w pi ne hf hg open_end =
      let t1 = close_flag end v me put pi w (record t { files = reset_at t.files f }) in
      rw
        (
          close_two,
          fileclose-pipeclose t f w pi hf,
          pipeclose-first (record t { files = reset_at t.files f }) w pi open_end,
          fileclose-pipeclose t1 g (not w) pi (second-IsEnd t f g w pi ne hg),
        )
        (pipeclose-last (record t1 { files = reset_at t1.files g }) (not w) pi
          (second_open t f g w pi))

  pub both_shut_lem :
      (t : Kernel) (f g : ℕ) (w : Bool) (pi : ℕ)
      → ((both_shut f g w pi t).kmem ≡ t.kmem)
        × ((both_shut f g w pi t).data_page ≡ t.data_page)
        × ((both_shut f g w pi t).files ≡ reset_at (reset_at t.files f) g)
  unfolding both_shut close_flag
  both_shut_lem t f g true pi = (refl, refl, refl)
  both_shut_lem t f g false pi = (refl, refl, refl)

  -- Both entries are free again, the others and the free pages as in `s`.
  abbrev pub Restored : Kernel → List ℕ → ℕ → ℕ → Option Kernel → Type 0
  Restored s xs a b none = ⊥
  Restored s xs a b (some t) =
      IsFree end t.kmem xs
      × IsClosed (t.files a)
      × IsClosed (t.files b)
      × ((i : ℕ) → a ≢ i → b ≢ i → t.files i ≡ s.files i)

  shut-Restored :
      (s : Kernel) (xs : List ℕ) (o : Made) (a b pi : ℕ) (ys : List ℕ) (f g : ℕ) (w : Bool)
      → IsFree end s.kmem xs
      → IsMade end v me put s xs o a b pi ys
      → ((i : ℕ)
          → reset_at (reset_at o.after.files f) g i ≡ reset_at (reset_at o.after.files a) b i)
      → Restored s xs a b (free_pipe end v me put pi (both_shut f g w pi o.after))
  shut-Restored s xs o a b pi ys f g w c m same =
      let b3 = both_shut_lem o.after f g w pi in
      let freed =
        free_pipe_lem s.kmem (both_shut f g w pi o.after) xs ys pi c
          (m.pages ∙ ap (λ d. if own_page v then pi ∷ d pi ∷ ys else pi ∷ ys) (sym b3.1))
          (subst (λ k. IsFree end k ys) (sym b3.0) m.free) in
      let at : (i : ℕ)
          → (both_shut f g w pi o.after).files i ≡ reset_at (reset_at o.after.files a) b i =
        λ i. ap (λ fs. fs i) b3.2 ∙ same i in
      rw (freed.1) (
        freed.2,
        subst IsClosed (sym (at a)) (ground arith),
        subst IsClosed (sym (at b)) (ground arith),
        λ i na nb. at i ∙ ground (arith, m.others i na nb),
      )

  -- If both ends that `pipealloc` made are closed, in either order, with no `filedup` between,
  -- nothing panics: the two entries are free again, all others as before the call, and the free
  -- pages are those before it, in their order.
  pub close_two-Restored :
      (s : Kernel) (xs : List ℕ) (o : Made) (a b pi : ℕ) (ys : List ℕ)
      → IsFree end s.kmem xs
      → IsMade end v me put s xs o a b pi ys
      → Restored s xs a b (close_two a b o.after) × Restored s xs a b (close_two b a o.after)
  close_two-Restored s xs o a b pi ys c m = (
    rw (close_two_lem o.after a b false pi m.differ hr hw (ground (arith, m.fresh)))
        (shut-Restored s xs o a b pi ys a b false c m (λ i. refl)),
    rw (close_two_lem o.after b a true pi (λ e. m.differ (sym e)) hw hr (ground (arith, m.fresh)))
        (shut-Restored s xs o a b pi ys b a true c m (λ i. ground (arith, m.differ))),
  )
    where
      hr : IsEnd o.after a false pi
      hr = rw (m.read_end) (refl, refl, refl, refl)

      hw : IsEnd o.after b true pi
      hw = rw (m.write_end) (refl, refl, refl, refl)
