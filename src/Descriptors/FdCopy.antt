-- ===== src/Descriptors/FdCopy.antt =====
-- The copies of the two descriptors to the user in `sys_pipe` of kernel/sysfile.c, which may take
-- pages, and the closing of the pipe after them.
use increase_ipc_throughput.Base.{
  ℕ, ◌<◌, ◌≡◌, refl, sym, ap, ◌∙◌, subst, arith, Bool, true, false, Option, none, some, List, ◌∷◌,
  if◌then◌else◌, contains, Bool-cases, inl, inr, update, ◌==◌, ==→eq,
}
use increase_ipc_throughput.Pipe.{Version}
use increase_ipc_throughput.Kalloc.{Kmem, kfree, junk}
use increase_ipc_throughput.Kalloc.FreeList.{IsPage, IsFree, Chain}
use increase_ipc_throughput.Vm.{Ram}
use increase_ipc_throughput.Vm.Tree.{Owner}
use increase_ipc_throughput.Space.Access.{copyout, take}
use increase_ipc_throughput.Space.Process.{IsProcess}
use increase_ipc_throughput.Space.View.{view}
use increase_ipc_throughput.Space.Put.{overlay}
use increase_ipc_throughput.Space.Copyout.{CopiedOutOrNot}
use increase_ipc_throughput.Space.Copies.{copyout-CopiedOut}
use increase_ipc_throughput.Files.{Kernel, own_page, free_page, free_pipe, Made, File}
use increase_ipc_throughput.Files.Alloc.{IsMade, reset_at}
use increase_ipc_throughput.Files.Close.{IsEnd, close_two, close_two_lem, both_shut, both_shut_lem}
use increase_ipc_throughput.Descriptors.{int_bytes, Sys, memory, with_memory, copy_fd}

module _ (end : ℕ) (v : Version) (me : ℕ) (put : ℕ → Kernel → Kernel) (end_pos : 0 < end) where
  -- The memory of a process stays as it is where another takes pages from the allocator.
  pub fewer-IsProcess :
      (owner : ℕ → Owner) (xs ys : List ℕ) (k k' : Kmem) (b : ℕ → ℕ) (r sz : ℕ)
      → IsFree end k' ys
      → ((a : ℕ) → contains ys a ≡ true → contains xs a ≡ true)
      → IsProcess end end_pos owner xs (record { kmem = k; bytes = b }) r sz
      → IsProcess end end_pos owner ys (record { kmem = k'; bytes = b }) r sz
  fewer-IsProcess owner xs ys k k' b r sz free fewer p = record {
    well = record {
      free = free;
      unowned = λ a h. p.well.unowned a (fewer a h);
      page = p.well.page;
      linked = p.well.linked;
    };
    root = p.root;
    limit = p.limit;
    guarded = p.guarded;
  }

  -- What a copy of a descriptor leaves: the process has its memory, with the four bytes in it
  -- if the copy succeeded, and nothing but memory has changed.
  unfoldable pub CopiedFd : ℕ → ℕ → Sys → Option (Bool × Sys) → Type 0
  CopiedFd addr fd s none = ⊥
  CopiedFd addr fd s (some (ok, t)) =
      (m : Ram) × (owner : ℕ → Owner) × (zs : List ℕ) × (t ≡ with_memory m s)
      × IsProcess end end_pos owner zs m s.pagetable s.sz
      × (ok ≡ true
          → (va : ℕ)
          → view s.pagetable s.sz m va
            ≡ overlay (view s.pagetable s.sz (memory s)) addr (int_bytes fd) va)

  done-CopiedFd :
      (addr fd : ℕ) (s : Sys) (owner : ℕ → Owner) (xs : List ℕ) (o : Option (Bool × Ram))
      → IsProcess end end_pos owner xs (memory s) s.pagetable s.sz
      → CopiedOutOrNot end end_pos s.pagetable s.sz owner xs (memory s) addr (int_bytes fd) o
      → CopiedFd addr fd s (elim o [ none ↦ none | some (ok, m) ↦ some (ok, with_memory m s) ])
  unfolding CopiedFd
  done-CopiedFd addr fd s owner xs none p c = c
  done-CopiedFd addr fd s owner xs (some (ok, m)) p c = (
    m,
    c.owner',
    c.xs',
    refl,
    c.processes s.pagetable s.sz p,
    λ good va.
        c.written va
        ∙ ap (λ n. overlay (view s.pagetable s.sz (memory s)) addr (take n (int_bytes fd)) va)
            (c.all.1 good),
  )

  pub copy_fd-CopiedFd :
      (addr fd : ℕ) (s : Sys) (owner : ℕ → Owner) (xs : List ℕ)
      → IsProcess end end_pos owner xs (memory s) s.pagetable s.sz
      → CopiedFd addr fd s (copy_fd end v me put addr fd s)
  unfolding copy_fd
  copy_fd-CopiedFd addr fd s owner xs p =
      done-CopiedFd addr fd s owner xs
        (copyout end s.pagetable s.sz s.pagetable addr (int_bytes fd) (memory s)) p
        (copyout-CopiedOut end end_pos s.pagetable s.sz owner xs (memory s) addr (int_bytes fd) p)

module _ (end : ℕ) (v : Version) (me : ℕ) (put : ℕ → Kernel → Kernel) where
  -- A page goes back to the allocator.
  free_page-some :
      (pa : ℕ) (t : Kernel)
      → IsPage end pa
      → (k : Kmem) × (free_page end v me put pa t ≡ some (record t { kmem = k }))
  unfolding free_page kfree
  free_page-some pa t page = (
    record { link = update (update t.kmem.link pa (junk 1)) pa t.kmem.freelist; freelist = pa },
    ground (arith, page),
  )

  pages_of :
      (k : Kmem) (xs ys : List ℕ) (pi d : ℕ)
      → IsFree end k xs
      → xs ≡ (if own_page v then pi ∷ d ∷ ys else pi ∷ ys)
      → IsPage end pi × (own_page v ≡ true → IsPage end d)
  unfolding IsFree Chain
  pages_of k xs ys pi d c e = elim (Bool-cases (own_page v)) [
    | inl own ↦
        let c' : IsFree end k (pi ∷ d ∷ ys) =
          subst (IsFree end k) (e ∙ ap (λ b. if b then pi ∷ d ∷ ys else pi ∷ ys) own) c in
        (c'.1, λ h. c'.3.1)
    | inr inside ↦
        let c' : IsFree end k (pi ∷ ys) =
          subst (IsFree end k) (e ∙ ap (λ b. if b then pi ∷ d ∷ ys else pi ∷ ys) inside) c in
        (c'.1, λ h. cc)
  ]

  free_pipe-some :
      (t : Kernel) (pi : ℕ)
      → IsPage end pi
      → (own_page v ≡ true → IsPage end (t.data_page pi))
      → (k : Kmem) × (free_pipe end v me put pi t ≡ some (record t { kmem = k }))
  unfolding free_pipe
  free_pipe-some t pi page inner = elim (Bool-cases (own_page v)) [
    | inl own ↦
        let one = free_page-some (t.data_page pi) t (inner own) in
        let two = free_page-some pi (record t { kmem = one.0 }) page in
        (two.0, rw (own, one.1) two.1)
    | inr inside ↦ let one = free_page-some pi t page in (one.0, rw inside one.1)
  ]

  -- The pages that `pipealloc` took went back to an allocator whose free pages were others.
  pub record GaveBack (xs : List ℕ) (t : Kernel) : Type 0 where
    pub before : Kernel
    pub ys : List ℕ
    pub zs : List ℕ
    pub pi : ℕ
    pub left : IsFree end before.kmem zs
    pub pages : xs ≡ (if own_page v then pi ∷ before.data_page pi ∷ ys else pi ∷ ys)
    pub freed : free_pipe end v me put pi before ≡ some t

  -- Both ends are closed after copies, which took pages.
  module _ (s : Kernel) (xs : List ℕ) (free : IsFree end s.kmem xs) (o : Made) (a b pi : ℕ)
      (ys : List ℕ) (m : IsMade end v me put s xs o a b pi ys) where
    pub closed_after :
        (k : Kmem) (zs : List ℕ)
        → IsFree end k zs
        → (t : Kernel) × (close_two end v me put a b (record o.after { kmem = k }) ≡ some t)
          × GaveBack xs t
          × ((i : ℕ) → (t.files i).ref ≡ (s.files i).ref)
    closed_after k zs c =
        let t0 = record o.after { kmem = k } in
        let t1 = both_shut end v me put a b false pi t0 in
        let b3 = both_shut_lem end v me put t0 a b false pi in
        let same_pages : xs ≡ (if own_page v then pi ∷ t1.data_page pi ∷ ys else pi ∷ ys) =
          m.pages ∙ ap (λ d. if own_page v then pi ∷ d pi ∷ ys else pi ∷ ys) (sym b3.1) in
        let two = pages_of s.kmem xs ys pi (t1.data_page pi) free same_pages in
        let freed = free_pipe-some t1 pi two.0 two.1 in
        let hr : IsEnd end v me put t0 a false pi = rw (m.read_end) (refl, refl, refl, refl) in
        let hw : IsEnd end v me put t0 b true pi = rw (m.write_end) (refl, refl, refl, refl) in
        (
          record t1 { kmem = freed.0 },
          close_two_lem end v me put t0 a b false pi m.differ hr hw (ground (arith, m.fresh))
              ∙ freed.1,
          record {
            before = t1;
            ys = ys;
            zs = zs;
            pi = pi;
            left = subst (λ q. IsFree end q zs) (sym b3.0) c;
            pages = same_pages;
            freed = freed.1;
          },
          λ i. ap (λ fs. (fs i).ref) b3.2 ∙ refs i,
        )
      where
        refs : (i : ℕ) → (reset_at (reset_at o.after.files a) b i).ref ≡ (s.files i).ref
        refs i = elim (Bool-cases (a == i)) [
          | inl here ↦ ground (arith, here, m.a_free, ap (λ j. (s.files j).ref) (==→eq a i here))
          | inr other ↦ elim (Bool-cases (b == i)) [
            | inl here ↦ ground (arith, here, m.b_free, ap (λ j. (s.files j).ref) (==→eq b i here))
            | inr other' ↦ ground (
              arith,
              other,
              other',
              ap (λ (f : File). f.ref) (m.others i (ground arith) (ground arith)),
            )
          ]
        ]
