-- ===== src/Space/Sizes.antt =====
-- The size that `uvmalloc` and `uvmdealloc` of kernel/vm.c return is no larger than they are asked for.
use increase_ipc_throughput.Base.{
  ℕ, zero, suc, ◌+◌, ◌-◌, ◌/◌, ◌≤◌, ◌≡◌, refl, arith, Bool, true, false, Option, none, some, leb,
  if◌then◌else◌, dec_lt,
}
use increase_ipc_throughput.Kalloc.{page_size, page_round_up}
use increase_ipc_throughput.Vm.{Ram, uvmunmap, page_alloc, fill_page}
use increase_ipc_throughput.Space.{
  uvmdealloc, uvmalloc, alloc_from, alloc_undo, map_or_free, user_perm,
}

-- The size that a call leaves is at most `b`.
abbrev pub fits : ℕ → Option (ℕ × Ram) → Bool
fits b none = true
fits b (some (sz, m)) = leb sz b

mapped-fits :
    (b sz : ℕ) (o : Option Ram)
    → sz ≤ b
    → fits b (elim o [ none ↦ none | some m ↦ some (sz, m) ]) ≡ true
mapped-fits b sz none h = refl
mapped-fits b sz (some m) h = ground arith

pub uvmdealloc-fits :
    (end pagetable oldsz newsz b : ℕ) (m : Ram)
    → oldsz ≤ b
    → fits b (uvmdealloc end pagetable oldsz newsz m) ≡ true
unfolding uvmdealloc
uvmdealloc-fits end pagetable oldsz newsz b m h = elim (dec_lt newsz oldsz) [
  | yes lt ↦ ground (
    arith,
    mapped-fits b newsz
        (uvmunmap end pagetable (page_round_up newsz)
          ((page_round_up oldsz - page_round_up newsz) / page_size) true m)
        (omega arith),
  )
  | no ge ↦ ground arith
]

undone-fits :
    (b : ℕ) (o : Option (ℕ × Ram))
    → fits b (elim o [ none ↦ none | some (sz, m) ↦ some (0, m) ]) ≡ true
undone-fits b none = refl
undone-fits b (some (sz, m)) = ground arith

alloc_undo-fits :
    (end pagetable a oldsz b : ℕ) (m : Ram) → fits b (alloc_undo end pagetable a oldsz m) ≡ true
unfolding alloc_undo
alloc_undo-fits end pagetable a oldsz b m = undone-fits b (uvmdealloc end pagetable a oldsz m)

chosen-fits :
    (b : ℕ) (o : Option (Bool × Ram)) (f g : Ram → Option (ℕ × Ram))
    → ((m : Ram) → fits b (f m) ≡ true)
    → ((m : Ram) → fits b (g m) ≡ true)
    → fits b (elim o [ none ↦ none | some (ok, m) ↦ if ok then f m else g m ]) ≡ true
chosen-fits b none f g hf hg = refl
chosen-fits b (some (true, m)) f g hf hg = hf m
chosen-fits b (some (false, m)) f g hf hg = hg m

alloc_from-fits :
    (end fuel pagetable a oldsz newsz xperm b : ℕ) (m : Ram)
    → newsz ≤ b
    → fits b (alloc_from end fuel pagetable a oldsz newsz xperm m) ≡ true
unfolding alloc_from
alloc_from-fits end zero pagetable a oldsz newsz xperm b m h = ground arith
alloc_from-fits end (suc f) pagetable a oldsz newsz xperm b m h =
    let (mem, m1) = page_alloc m in
    let undo = λ (m2 : Ram). alloc_undo-fits end pagetable a oldsz b m2 in
    let next =
      chosen-fits b (map_or_free end pagetable a mem (user_perm xperm) (fill_page mem 0 m1))
        (λ m2. alloc_from end f pagetable (a + page_size) oldsz newsz xperm m2)
        (λ m2. alloc_undo end pagetable a oldsz m2)
        (λ m2. alloc_from-fits end f pagetable (a + page_size) oldsz newsz xperm b m2 h) undo in
    ground (arith, next, undo m1)

pub uvmalloc-fits :
    (end pagetable oldsz newsz xperm b : ℕ) (m : Ram)
    → oldsz ≤ b
    → newsz ≤ b
    → fits b (uvmalloc end pagetable oldsz newsz xperm m) ≡ true
unfolding uvmalloc
uvmalloc-fits end pagetable oldsz newsz xperm b m h h' = ground (
  arith,
  alloc_from-fits end (newsz / page_size + 1) pagetable (page_round_up oldsz) (page_round_up oldsz)
      newsz xperm b m h',
)
