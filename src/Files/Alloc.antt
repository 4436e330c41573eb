-- ===== src/Files/Alloc.antt =====
-- What `pipealloc` of kernel/pipe.c takes, and what it gives back where it fails.
use increase_ipc_throughput.Base.{
  ℕ, ◌<◌, ◌≡◌, ◌≢◌, refl, sym, ap, arith, true, false, Option, none, some, List, [], ◌∷◌, ◌==◌,
  if◌then◌else◌, update, Bool-cases, inl, inr, ◌⊎◌, pos, minus_one, contains, subst, ne→==,
}
use increase_ipc_throughput.Pipe.{Version}
use increase_ipc_throughput.Kalloc.{Kmem, kalloc}
use increase_ipc_throughput.Kalloc.FreeList.{IsPage, IsFree, kfree-IsFree, kalloc-Allocated}
use increase_ipc_throughput.Files.{
  fd_none, fd_pipe, File, nfile, Kernel, first_free, taken, filealloc, own_page, Made, close_if,
  undo, set_up, alloc_data, alloc_pages, alloc_second, pipealloc, free_page,
}
use increase_ipc_throughput.Files.Table.{
  Found, first_free-Found, IsClosed, closed_again, fileclose-taken,
}

-- An entry taken, and one reset by `fileclose`.
abbrev pub take_at : (ℕ → File) → ℕ → ℕ → File
take_at F a = update F a (record (F a) { ref = 1 })

abbrev pub reset_at : (ℕ → File) → ℕ → ℕ → File
reset_at F a = update F a (record (F a) { ref = 0; type = fd_none })

reset-take : (F : ℕ → File) (a : ℕ) → IsClosed (F a) → (i : ℕ) → reset_at (take_at F a) a i ≡ F i
reset-take F a h i = elim (Bool-cases (a == i)) [
  | inl same ↦ ground (arith, closed_again (F a) h)
  | inr other ↦ ground arith
]

reset-take_two :
    (F : ℕ → File) (a b : ℕ)
    → a ≢ b
    → IsClosed (F a)
    → IsClosed (F b)
    → (i : ℕ) → reset_at (reset_at (take_at (take_at F a) b) a) b i ≡ F i
reset-take_two F a b ne ha hb i = elim (Bool-cases (a == i)) [
  | inl same ↦ ground (arith, closed_again (F a) ha)
  | inr other ↦ elim (Bool-cases (b == i)) [
    | inl same ↦ ground (arith, closed_again (F b) hb)
    | inr other' ↦ ground arith
  ]
]

module _ (end : ℕ) (v : Version) (me : ℕ) (put : ℕ → Kernel → Kernel) where
  -- A call that failed changed no entry and no pipe, and gave back its pages.
  pub record IsUndone (s : Kernel) (xs : List ℕ) (o : Made) : Type 0 where
    pub result : o.result ≡ minus_one
    pub free : IsFree end o.after.kmem xs
    pub files : (i : ℕ) → o.after.files i ≡ s.files i
    pub pipes : o.after.pipes ≡ s.pipes
    pub table : o.after.table ≡ s.table

  -- A call that succeeded: the two entries `a` and `b`, the page `pi`, in v4 and later the page
  -- of the data, and the pages `ys` that are left.
  pub record IsMade (s : Kernel) (xs : List ℕ) (o : Made) (a b pi : ℕ) (ys : List ℕ) : Type 0 where
    pub result : o.result ≡ pos 0
    pub first : o.f0 ≡ some a
    pub second : o.f1 ≡ some b
    pub differ : a ≢ b
    pub a_free : (s.files a).ref ≡ 0
    pub b_free : (s.files b).ref ≡ 0
    pub read_end : o.after.files a ≡ record (s.files a) {
      type = fd_pipe;
      ref = 1;
      readable = true;
      writable = false;
      pipe = pi;
    }
    pub write_end : o.after.files b ≡ record (s.files b) {
      type = fd_pipe;
      ref = 1;
      readable = false;
      writable = true;
      pipe = pi;
    }
    pub others : (i : ℕ) → a ≢ i → b ≢ i → o.after.files i ≡ s.files i
    pub fresh :
        o.after.pipes pi
        ≡ record (s.pipes pi) { nread = 0; nwrite = 0; readopen = true; writeopen = true }
    pub pages : xs ≡ (if own_page v then pi ∷ o.after.data_page pi ∷ ys else pi ∷ ys)
    pub free : IsFree end o.after.kmem ys

  -- How `pipealloc` ends: it does not panic, and made everything or nothing.
  abbrev pub AllOrNothing : Kernel → List ℕ → Option Made → Type 0
  AllOrNothing s xs none = ⊥
  AllOrNothing s xs (some o) =
      IsUndone s xs o ⊎ ((a : ℕ) × (b : ℕ) × (pi : ℕ) × (ys : List ℕ) × IsMade s xs o a b pi ys)

  undo-two :
      (F : ℕ → File) (a b : ℕ) (s : Kernel)
      → a ≢ b
      → IsClosed (F a)
      → IsClosed (F b)
      → s.files ≡ take_at (take_at F a) b
      → undo end v me put (some a) (some b) 0 s
        ≡ some (record {
          result = minus_one;
          f0 = some a;
          f1 = some b;
          after = record s { files = reset_at (reset_at s.files a) b };
        })
  unfolding undo close_if
  undo-two F a b s ne ha hb e =
      rw
        (
          undo,
          fileclose-taken end v me put a s (ground (arith, ap (λ f. f a) e))
              (ground (arith, ap (λ f. f a) e, ha)),
          fileclose-taken end v me put b (record s { files = reset_at s.files a })
              (ground (arith, ap (λ f. f b) e)) (ground (arith, ap (λ f. f b) e, hb)),
        )
        refl

  undo-one :
      (F : ℕ → File) (a : ℕ) (s : Kernel)
      → IsClosed (F a)
      → s.files ≡ take_at F a
      → undo end v me put (some a) none 0 s
        ≡ some (record {
          result = minus_one;
          f0 = some a;
          f1 = none;
          after = record s { files = reset_at s.files a };
        })
  unfolding undo close_if
  undo-one F a s ha e =
      rw
        (
          undo,
          fileclose-taken end v me put a s (ground (arith, ap (λ f. f a) e))
              (ground (arith, ap (λ f. f a) e, ha)),
        )
        refl

  pub free_page_lem :
      (pa : ℕ) (s : Kernel) (xs : List ℕ)
      → IsPage end pa
      → contains xs pa ≡ false
      → IsFree end s.kmem xs
      → (k : Kmem) × (free_page end v me put pa s ≡ some (record s { kmem = k }))
        × IsFree end k (pa ∷ xs)
  unfolding free_page
  free_page_lem pa s xs page new c =
      let freed = kfree-IsFree end pa s.kmem xs page new c in
      (freed.0, rw (free_page, freed.1) refl, freed.2)

  -- Two entries `a` and `b` are taken.
  module _ (s : Kernel) (a b : ℕ) (ne : a ≢ b) (ha : IsClosed (s.files a))
      (hb : IsClosed (s.files b)) where
    abbrev with_two : Kernel
    with_two = record s { files = take_at (take_at s.files a) b }

    -- A page was missing; what `kmem` and `data` are then.
    gave_up :
        (xs : List ℕ) (k : Kmem) (d : ℕ → ℕ)
        → IsFree end k xs
        → AllOrNothing s xs
            (undo end v me put (some a) (some b) 0 (record with_two { kmem = k; data_page = d }))
    gave_up xs k d c =
        rw (undo-two s.files a b (record with_two { kmem = k; data_page = d }) ne ha hb refl) (
          inl (record {
            result = refl;
            free = c;
            files = reset-take_two s.files a b ne ha hb;
            pipes = refl;
            table = refl;
          }))

    made :
        (xs ys : List ℕ) (k : Kmem) (d : ℕ → ℕ) (pi : ℕ)
        → IsFree end k ys
        → xs ≡ (if own_page v then pi ∷ d pi ∷ ys else pi ∷ ys)
        → AllOrNothing s xs (
            some (record {
              result = pos 0;
              f0 = some a;
              f1 = some b;
              after = set_up end v me put a b pi (record with_two { kmem = k; data_page = d });
            }))
    unfolding set_up
    made xs ys k d pi c e = inr (
      a,
      b,
      pi,
      ys,
      record {
        result = refl;
        first = refl;
        second = refl;
        differ = ne;
        a_free = ha.0;
        b_free = hb.0;
        read_end = ground arith;
        write_end = ground arith;
        others = λ i na nb. ground arith;
        fresh = ground arith;
        pages = e;
        free = c;
      },
    )

    -- From the `kalloc` of the data on, with the page `pi` in hand.
    alloc_data_lem :
        (end_pos : 0 < end) (xs ys : List ℕ) (k : Kmem) (pi : ℕ)
        → xs ≡ pi ∷ ys
        → IsPage end pi
        → contains ys pi ≡ false
        → IsFree end k ys
        → AllOrNothing s xs (alloc_data end v me put a b pi (record with_two { kmem = k }))
    unfolding alloc_data
    alloc_data_lem end_pos xs [] k pi e page new c = elim (Bool-cases (own_page v)) [
      | inr inside ↦ rw inside (made xs [] k s.data_page pi c (ground arith))
      | inl own ↦
          let none_left = kalloc-Allocated end end_pos k [] c in
          let back =
            free_page_lem pi (record with_two { kmem = k; data_page = update s.data_page pi 0 }) []
              page new c in
          rw (own, none_left, back.1)
            (gave_up xs back.0 (update s.data_page pi 0) (subst (IsFree end back.0) (sym e) back.2))
    ]
    alloc_data_lem end_pos xs (d ∷ ys) k pi e page new c = elim (Bool-cases (own_page v)) [
      | inr inside ↦ rw inside (made xs (d ∷ ys) k s.data_page pi c (ground arith))
      | inl own ↦
          let got = kalloc-Allocated end end_pos k (d ∷ ys) c in
          rw (own, got.0, ne→== d 0 got.1)
            (made xs ys (kalloc k).1 (update s.data_page pi d) pi got.4 (ground (arith, e)))
    ]

    alloc_pages_lem :
        (end_pos : 0 < end) (xs : List ℕ)
        → IsFree end s.kmem xs
        → AllOrNothing s xs (alloc_pages end v me put a b with_two)
    unfolding alloc_pages
    alloc_pages_lem end_pos [] c =
        rw (kalloc-Allocated end end_pos s.kmem [] c) (gave_up [] s.kmem s.data_page c)
    alloc_pages_lem end_pos (pi ∷ ys) c =
        let got = kalloc-Allocated end end_pos s.kmem (pi ∷ ys) c in
        rw (got.0, ne→== pi 0 got.1)
          (alloc_data_lem end_pos (pi ∷ ys) ys (kalloc s.kmem).1 pi refl got.2 got.3 got.4)

  module _ (end_pos : 0 < end) (s : Kernel) (xs : List ℕ) (free : IsFree end s.kmem xs)
      (closed : (i : ℕ) → (s.files i).ref ≡ 0 → (s.files i).type ≡ fd_none) where
    second_lem :
        (a : ℕ) (o : Option ℕ)
        → (s.files a).ref ≡ 0
        → Found nfile 0 (take_at s.files a) o
        → let s1 = record s { files = take_at s.files a } in
          let (f1, s2) = taken o s1 in
          AllOrNothing s xs (elim f1 [
            | none ↦ undo end v me put (some a) none 0 s2
            | some b ↦ alloc_pages end v me put a b s2
          ])
    unfolding taken
    second_lem a none free_a f =
        rw
          (undo-one s.files a (record s { files = take_at s.files a }) (free_a, closed a free_a)
            refl)
          (inl (record {
            result = refl;
            free = free;
            files = reset-take s.files a (free_a, closed a free_a);
            pipes = refl;
            table = refl;
          }))
    second_lem a (some b) free_a f =
        alloc_pages_lem s a b ne (free_a, closed a free_a) (free_b, closed b free_b) end_pos xs free
      where
        ne : a ≢ b
        ne e = ground (arith, f.2)

        free_b : (s.files b).ref ≡ 0
        free_b = ground (arith, f.2, ne)

    first_lem :
        (o : Option ℕ)
        → Found nfile 0 s.files o
        → AllOrNothing s xs (alloc_second end v me put (taken o s).0 (taken o s).1)
    unfolding taken alloc_second filealloc undo close_if
    first_lem none f =
        inl (record { result = refl; free = free; files = λ i. refl; pipes = refl; table = refl })
    first_lem (some a) f =
        second_lem a (first_free nfile 0 (take_at s.files a)) f.2
          (first_free-Found nfile 0 (take_at s.files a))

    -- If the entries without references have no type, `pipealloc` does not panic. Either it
    -- returns 0, with two new entries, for reading and for writing, on an empty pipe with both ends
    -- open, in the first free pages; or it returns -1, and every entry and every free page is as
    -- before, wherever it ran out.
    pub pipealloc-AllOrNothing : AllOrNothing s xs (pipealloc end v me put s)
    unfolding pipealloc filealloc
    pipealloc-AllOrNothing =
        first_lem (first_free nfile 0 s.files) (first_free-Found nfile 0 s.files)
