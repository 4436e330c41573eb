-- ===== src/Strings/Compare.antt =====
-- `strncmp` of kernel/string.c against the equality of strings that end with a zero byte.
use increase_ipc_throughput.Base.{
  ℕ, zero, suc, ◌+◌, ◌<◌, ◌≡◌, ◌≢◌, refl, sym, ap, ◌∙◌, arith, ◌==◌, Bool-cases, inl, inr, pos,
  add-zero,
}
use increase_ipc_throughput.Strings.{diff, strncmp}

-- The strings agree up to their end, or in `n` bytes.
abbrev pub Agree : (ℕ → ℕ) → ℕ → ℕ → ℕ → Type 0
Agree mem p q n = (i : ℕ) → i < n → ((j : ℕ) → j < i → mem (p + j) ≢ 0) → mem (p + i) ≡ mem (q + i)

diff_ne : (a b : ℕ) → a ≢ b → diff a b ≢ pos 0
unfolding diff
diff_ne a b ne e = ground arith

diff_self : (a b : ℕ) → a ≡ b → diff a b ≡ pos 0
unfolding diff
diff_self a b e = ground arith

Agree-tail :
    (mem : ℕ → ℕ) (p q n : ℕ) → mem p ≢ 0 → Agree mem p q (suc n) → Agree mem (p + 1) (q + 1) n
Agree-tail mem p q n ne h i lt before =
    ap mem (omega arith) ∙ h (suc i) (omega arith) nonzero ∙ ap mem (omega arith)
  where
    nonzero : (j : ℕ) → j < suc i → mem (p + j) ≢ 0
    nonzero zero le e = ne (ap mem (sym (add-zero p)) ∙ e)
    nonzero (suc j) le e = before j (omega arith) (ap mem (omega arith) ∙ e)

Agree-step :
    (mem : ℕ → ℕ) (p q n : ℕ)
    → mem p ≡ mem q
    → (mem p ≢ 0 → Agree mem (p + 1) (q + 1) n)
    → Agree mem p q (suc n)
Agree-step mem p q n e rest zero lt before = ap mem (add-zero p) ∙ e ∙ ap mem (sym (add-zero q))
Agree-step mem p q n e rest (suc i) lt before =
    ap mem (omega arith) ∙ rest nonzero i (omega arith) after ∙ ap mem (omega arith)
  where
    nonzero : mem p ≢ 0
    nonzero z = before 0 (omega arith) (ap mem (add-zero p) ∙ z)

    after : (j : ℕ) → j < i → mem (p + 1 + j) ≢ 0
    after j le z = before (suc j) (omega arith) (ap mem (omega arith) ∙ z)

heads_equal : (mem : ℕ → ℕ) (p q n : ℕ) → Agree mem p q (suc n) → mem p ≡ mem q
heads_equal mem p q n h =
    ap mem (sym (add-zero p))
    ∙ h 0 (omega arith) (λ j lt. absurd (omega arith))
    ∙ ap mem (add-zero q)

-- `strncmp` returns 0 exactly if the two strings agree up to their end, or in their first `n`
-- bytes.
strncmp-Agree :
    (mem : ℕ → ℕ) (p q n : ℕ)
    → (strncmp mem p q n ≡ pos 0 → Agree mem p q n) × (Agree mem p q n → strncmp mem p q n ≡ pos 0)
unfolding strncmp
strncmp-Agree mem p q zero = (λ e i lt before. absurd (omega arith), λ h. refl)
strncmp-Agree mem p q (suc n) = elim (Bool-cases (mem p == mem q)) [
  | inr other ↦ (
    λ e. absurd (diff_ne (mem p) (mem q) (ground arith) (ground arith)),
    λ h. absurd (ground (arith, heads_equal mem p q n h)),
  )
  | inl same ↦ elim (Bool-cases (mem p == 0)) [
    | inl ends ↦
        rw (same, ends)
          (
            λ e. Agree-step mem p q n (ground arith) (λ ne. absurd (ground arith)),
            λ h. diff_self (mem p) (mem q) (ground arith),
          )
    | inr goes ↦
        let rest = strncmp-Agree mem (p + 1) (q + 1) n in
        rw (same, goes)
          (
            λ e. Agree-step mem p q n (ground arith) (λ ne. rest.0 e),
            λ h. rest.1 (Agree-tail mem p q n (ground arith) h),
          )
  ]
]
