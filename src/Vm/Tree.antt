-- ===== src/Vm/Tree.antt =====
-- The tree of page-table pages of kernel/vm.c: which page serves which part of which table, and
-- the entry that a virtual address has.
use native.Mathlib.Nat.{pow-suc, div-div-eq-div-mul}
use increase_ipc_throughput.Base.{
  ℕ, zero, suc, ◌+◌, ◌-◌, ◌*◌, ◌/◌, ◌^◌, ◌<◌, ◌≡◌, refl, sym, ap, ◌∙◌, arith, true, false, List,
  ◌⊎◌, inl, inr, contains, if◌then◌else◌, Bool-cases,
}
use increase_ipc_throughput.Kalloc.FreeList.{IsPage, IsFree}
use increase_ipc_throughput.Vm.{maxva, px, pte2pa, pte_v, load_word, Ram}

-- What a physical page is for: nothing, or a part of a page table. At level `l + 1` it is a page
-- of entries of `walk`'s level `l` in the table with root `holder`, and `key` is the part of the
-- address above that level; at level 0 it is the memory of the virtual page `key`, and `holder` is
-- the address of the entry that maps it.
pub data Owner : Type 0 where
  nobody : Owner
  part : (holder level key : ℕ) → Owner

abbrev pub holder_below : ℕ → ℕ → ℕ → ℕ
holder_below zero pte root = pte
holder_below (suc l) pte root = root

-- The part of an address above `level`.
abbrev pub key : ℕ → ℕ → ℕ
key level va = va / 2 ^ (12 + 9 * suc level)

-- The pages of user memory: those below `TRAPFRAME`.
abbrev pub user_pages : ℕ
user_pages = maxva / 4096 - 2

-- The trampoline and the trapframe are shared, or freed apart.
abbrev pub Covered : ℕ → ℕ → Type 0
Covered zero page = page < user_pages
Covered (suc l) page = Unit

-- Each valid entry leads to the page for its part of the table.
unfoldable pub Linked : (ℕ → Owner) → (ℕ → ℕ) → Type 0
Linked owner b =
    (p r l k j : ℕ)
    → owner p ≡ part r (suc l) k
    → j < 512
    → Covered l (k * 512 + j)
    → pte_v (load_word 8 b (p + 8 * j)) ≡ true
    → owner (pte2pa (load_word 8 b (p + 8 * j)))
      ≡ part (holder_below l (p + 8 * j) r) l (k * 512 + j)

module _ (end : ℕ) where
  pub record WellFormed (owner : ℕ → Owner) (xs : List ℕ) (m : Ram) : Type 0 where
    pub free : IsFree end m.kmem xs
    pub unowned : (a : ℕ) → contains xs a ≡ true → owner a ≡ nobody
    pub page : (a r l k : ℕ) → owner a ≡ part r l k → IsPage end a
    pub linked : Linked owner m.bytes

-- The entry of `va` in a page of `level`, or 0.
unfoldable pub pte_at : ℕ → ℕ → ℕ → (ℕ → ℕ) → ℕ
pte_at zero t va b = let e = load_word 8 b (t + 8 * px 0 va) in if pte_v e then e else 0
pte_at (suc l) t va b =
    let e = load_word 8 b (t + 8 * px (suc l) va) in
    let below = pte_at l (pte2pa e) va b in if pte_v e then below else 0

-- The map that a page table is: from addresses to entries, 0 where nothing is mapped.
abbrev pub translate : ℕ → ℕ → Ram → ℕ
translate root va m = pte_at 2 root va m.bytes

twice : (n m : ℕ) → n ≡ suc m → 2 ^ n ≡ 2 ^ m * 2
twice n m e = ap (λ k. 2 ^ k) e ∙ pow-suc 2 m

pow9 : (n : ℕ) → 2 ^ (9 + n) ≡ 2 ^ n * 512
pow9 n = omega (
  arith,
  twice (9 + n) (8 + n) (omega arith),
  twice (8 + n) (7 + n) (omega arith),
  twice (7 + n) (6 + n) (omega arith),
  twice (6 + n) (5 + n) (omega arith),
  twice (5 + n) (4 + n) (omega arith),
  twice (4 + n) (3 + n) (omega arith),
  twice (3 + n) (2 + n) (omega arith),
  twice (2 + n) (1 + n) (omega arith),
  twice (1 + n) n (omega arith),
)

-- The key and the index of one level make the key of the next.
pub key_step : (l va : ℕ) → key (suc l) va * 512 + px (suc l) va ≡ key l va
key_step l va = omega (arith, shifted)
  where
    shifted : key (suc l) va ≡ key l va / 512
    shifted =
        ap (λ n. va / 2 ^ n) {x = 12 + 9 * suc (suc l)} {y = 9 + (12 + 9 * suc l)} (omega arith)
        ∙ ap (λ n. va / n) (pow9 (12 + 9 * suc l))
        ∙ sym (div-div-eq-div-mul va (2 ^ (12 + 9 * suc l)) 512)

-- How the word of a page of `level` may change, so that the entries stay: not at all, or from an
-- invalid one to one that leads to a page without entries.
abbrev pub Harmless : ℕ → ℕ → ℕ → (ℕ → ℕ) → (ℕ → ℕ) → Type 0
Harmless zero t va b b' = load_word 8 b' (t + 8 * px 0 va) ≡ load_word 8 b (t + 8 * px 0 va)
Harmless (suc l) t va b b' =
    (load_word 8 b' (t + 8 * px (suc l) va) ≡ load_word 8 b (t + 8 * px (suc l) va))
    ⊎ ((pte_v (load_word 8 b (t + 8 * px (suc l) va)) ≡ false)
        × (pte_at l (pte2pa (load_word 8 b' (t + 8 * px (suc l) va))) va b' ≡ 0))

-- Where no word on the way changes but harmlessly, the entry stays.
pub pte_at-frame :
    (owner : ℕ → Owner) (b b' : ℕ → ℕ) (r va : ℕ)
    → Linked owner b
    → ((t l : ℕ) → owner t ≡ part r (suc l) (key l va) → Harmless l t va b b')
    → (level t : ℕ) → owner t ≡ part r (suc level) (key level va)
    → pte_at level t va b' ≡ pte_at level t va b
unfolding pte_at Linked
pte_at-frame owner b b' r va linked h zero t o = rw (h t 0 o) refl
pte_at-frame owner b b' r va linked h (suc l) t o = elim (h t (suc l) o) [
  | inr (was, now) ↦ rw (was) (ground (arith, now))
  | inl same ↦ elim (Bool-cases (pte_v (load_word 8 b (t + 8 * px (suc l) va)))) [
    | inr out ↦ rw (same, out) refl
    | inl valid ↦
        rw (same, valid)
          (pte_at-frame owner b b' r va linked h l (pte2pa (load_word 8 b (t + 8 * px (suc l) va)))
            (linked t r (suc l) (key (suc l) va) (px (suc l) va) o (omega arith) tt valid
              ∙ ap (part r (suc l)) (key_step l va)))
  ]
]

-- A page of zeros has no entries.
pub pte_at-zero :
    (b : ℕ → ℕ) (level t va : ℕ) → load_word 8 b (t + 8 * px level va) ≡ 0 → pte_at level t va b ≡ 0
unfolding pte_at
pte_at-zero b zero t va h = rw h refl
pte_at-zero b (suc l) t va h = rw h refl
