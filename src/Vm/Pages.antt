-- ===== src/Vm/Pages.antt =====
-- The pages of kernel/vm.c: taking one from the allocator, filling it, giving it a part of a page
-- table, and storing an entry.
use increase_ipc_throughput.Base.{
  ℕ, suc, ◌+◌, ◌*◌, ◌%◌, ◌^◌, ◌≤◌, ◌<◌, ◌≡◌, ◌≢◌, sym, arith, subst, true, false, ◌⊎◌, inl, inr,
  ◌==◌, Bool-cases, dec_lt, ==→eq, ==→ne,
}
use increase_ipc_throughput.Vm.{pte2pa, pte_v, store_word}
use increase_ipc_throughput.Vm.Bytes.{load_same, load_word-store_word, load_word-store_word_other}
use increase_ipc_throughput.Vm.Tree.{Owner, nobody, part, Covered, Linked, holder_below}

-- An address outside the page at `c`.
abbrev pub Apart : ℕ → ℕ → Type 0
Apart c x = (x < c) ⊎ (c + 4096 ≤ x)

-- Different pages have no address in common.
pub pages-Apart :
    (c p x : ℕ) → c % 4096 ≡ 0 → p % 4096 ≡ 0 → c ≢ p → p ≤ x → x < p + 4096 → Apart c x
pages-Apart c p x hc hp ne lo hi = elim (dec_lt x c) [ yes lt ↦ inl lt | no ge ↦ inr (omega arith) ]

pub owned_ne : (owner : ℕ → Owner) (c p r l k : ℕ) → owner c ≡ nobody → owner p ≡ part r l k → c ≢ p
owned_ne owner c p r l k free o e = absurd (cc)

-- Links depend on the pages of entries only.
pub Linked-same :
    (owner : ℕ → Owner) (b b' : ℕ → ℕ)
    → ((p r l k x : ℕ) → owner p ≡ part r (suc l) k → p ≤ x → x < p + 4096 → b' x ≡ b x)
    → Linked owner b
    → Linked owner b'
unfolding Linked
Linked-same owner b b' same h p r l k j o lt cov =
    subst
      (λ w. pte_v w ≡ true → owner (pte2pa w) ≡ part (holder_below l (p + 8 * j) r) l (k * 512 + j))
      (sym (load_same 8 b b' (p + 8 * j) (λ x lo hi. same p r l k x o (omega arith) (omega arith))))
      (h p r l k j o lt cov)

-- A new entry in the page `p` that leads where it has to.
pub Linked-store :
    (owner : ℕ → Owner) (b : ℕ → ℕ) (p r l k j w : ℕ)
    → ((a r l k : ℕ) → owner a ≡ part r l k → a % 4096 ≡ 0)
    → owner p ≡ part r (suc l) k
    → j < 512
    → w < 2 ^ 64
    → (Covered l (k * 512 + j)
        → pte_v w ≡ true
        → owner (pte2pa w) ≡ part (holder_below l (p + 8 * j) r) l (k * 512 + j))
    → Linked owner b
    → Linked owner (store_word 8 b (p + 8 * j) w)
unfolding Linked
Linked-store owner b p r l k j w al o lt small leads h q r' l' k' j' o' lt' cov' =
    elim (Bool-cases (p + 8 * j == q + 8 * j')) [
      | inl here ↦
          let pq : p ≡ q = omega (
            arith,
            al p r (suc l) k o,
            al q r' (suc l') k' o',
            ==→eq (p + 8 * j) (q + 8 * j') here,
          ) in
          let jj : j ≡ j' = omega (arith, ==→eq (p + 8 * j) (q + 8 * j') here) in
          let same : part r (suc l) k ≡ part r' (suc l') k' = cc in
          let rr : r ≡ r' = cc in
          let ll : l ≡ l' = cc in
          let kk : k ≡ k' = cc in
          rw (sym pq, sym jj, sym rr, sym kk, load_word-store_word b (p + 8 * j) w small)
            (subst
              (λ n.
                pte_v w ≡ true
                → owner (pte2pa w) ≡ part (holder_below n (p + 8 * j) r) n (k * 512 + j))
              ll
              (leads (
                subst (λ n. Covered n (k * 512 + j)) (sym ll)
                  (subst (λ n. Covered l' (n * 512 + j)) (sym kk)
                    (subst (λ n. Covered l' (k' * 512 + n)) (sym jj) cov')))))
      | inr other ↦
          let apart : (q + 8 * j' + 8 ≤ p + 8 * j) ⊎ (p + 8 * j + 8 ≤ q + 8 * j') = far other in
          rw (load_word-store_word_other b (q + 8 * j') (p + 8 * j) w apart)
            (h q r' l' k' j' o' lt' cov')
    ]
  where
    far :
        (p + 8 * j == q + 8 * j') ≡ false
        → (q + 8 * j' + 8 ≤ p + 8 * j) ⊎ (p + 8 * j + 8 ≤ q + 8 * j')
    far other = elim (dec_lt (p + 8 * j) (q + 8 * j')) [
      | yes lt ↦ inr (omega (arith, al p r (suc l) k o, al q r' (suc l') k' o'))
      | no ge ↦ inl (
          omega (
            arith,
            al p r (suc l) k o,
            al q r' (suc l') k' o',
            ==→ne (p + 8 * j) (q + 8 * j') other,
          ))
    ]
