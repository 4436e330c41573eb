-- ===== src/Strings/Copy.antt =====
-- `safestrcpy` of kernel/string.c: what it leaves is a string, inside its `n` bytes.
use increase_ipc_throughput.Base.{
  ℕ, zero, suc, ◌+◌, ◌<◌, ◌≡◌, ◌≢◌, refl, sym, ap, ◌∙◌, arith, false, ◌==◌, ◌⊎◌, Bool-cases, inl,
  inr, update, update_ne, update_self, add-zero,
}
use increase_ipc_throughput.Strings.{safe_from, safestrcpy}
use increase_ipc_throughput.Strings.Move.{within}

-- `r` is `mem` with a string of `k` bytes at `s`, the first `k` of that at `t`; all that it changed
-- lies within `n` bytes.
pub record IsCopied (mem r : ℕ → ℕ) (s t n k : ℕ) : Type 0 where
  pub fits : k < n
  pub copied : (i : ℕ) → i < k → (r (s + i) ≡ mem (t + i)) × (mem (t + i) ≢ 0)
  pub ends : r (s + k) ≡ 0
  pub whole : (mem (t + k) ≡ 0) ⊎ (k + 1 ≡ n)
  pub outside : (a : ℕ) → within s n a ≡ false → r a ≡ mem a

-- The source lies before or behind the `n` bytes.
abbrev pub Apart : ℕ → ℕ → ℕ → Type 0
Apart s t n = (i : ℕ) → i < n → within s n (t + i) ≡ false

-- One more byte in front.
IsCopied-step :
    (mem r : ℕ → ℕ) (s t m k : ℕ)
    → mem t ≢ 0
    → Apart s t (suc m)
    → IsCopied (update mem s (mem t)) r (s + 1) (t + 1) m k
    → IsCopied mem r s t (suc m) (k + 1)
IsCopied-step mem r s t m k ne apart c = record {
  fits = omega (arith, c.fits);
  copied = next;
  ends = ap r (omega arith) ∙ c.ends;
  whole = elim c.whole [ inl z ↦ inl (source k (c.fits) ∙ z) | inr e ↦ inr (omega arith) ];
  outside = λ a out. c.outside a (ground arith) ∙ update_ne mem (mem t) (ground arith);
}
  where
    clear : (i : ℕ) → i < m → s ≢ t + 1 + i
    clear i lt = ground (arith, apart (suc i) (omega arith))

    source : (i : ℕ) → i < m → mem (t + (i + 1)) ≡ update mem s (mem t) (t + 1 + i)
    source i lt = ap mem (omega arith) ∙ sym (update_ne mem (mem t) (clear i lt))

    next : (i : ℕ) → i < k + 1 → (r (s + i) ≡ mem (t + i)) × (mem (t + i) ≢ 0)
    next zero lt = (
      ap r (add-zero s)
          ∙ c.outside s (ground arith)
          ∙ update_self mem s (mem t)
          ∙ ap mem (sym (add-zero t)),
      λ z. ne (ap mem (sym (add-zero t)) ∙ z),
    )
    next (suc i) lt = (
      ap r (omega arith) ∙ (c.copied i (omega arith)).0 ∙ sym (from i (omega arith)),
      λ z. (c.copied i (omega arith)).1 (sym (from i (omega arith)) ∙ z),
    )
      where
        from : (i : ℕ) → i < k → mem (t + suc i) ≡ update mem s (mem t) (t + 1 + i)
        from i le = ap mem (omega arith) ∙ source i (omega (arith, c.fits))

safe_from-IsCopied :
    (mem : ℕ → ℕ) (s t n : ℕ)
    → Apart s t (suc n)
    → (k : ℕ) × IsCopied mem (safe_from mem s t n) s t (suc n) k
unfolding safe_from
safe_from-IsCopied mem s t zero h = (
  0,
  record {
    fits = omega arith;
    copied = λ i lt. absurd (omega arith);
    ends = ground arith;
    whole = inr refl;
    outside = λ a out. ground arith;
  },
)
safe_from-IsCopied mem s t (suc n) h = elim (Bool-cases (mem t == 0)) [
  | inl stop ↦ rw stop (
    0,
    record {
      fits = omega arith;
      copied = λ i lt. absurd (omega arith);
      ends = ground (arith);
      whole = inl (ap mem (add-zero t) ∙ ground arith);
      outside = λ a out. ground arith;
    },
  )
  | inr goes ↦
      let rest =
        safe_from-IsCopied (update mem s (mem t)) (s + 1) (t + 1) n
          (λ i lt. ground (arith, h (suc i) (omega arith))) in
      rw goes (
        rest.0 + 1,
        IsCopied-step mem (safe_from (update mem s (mem t)) (s + 1) (t + 1) n) s t (suc n) rest.0
            (ground arith) h rest.1,
      )
]

-- If the source is apart from the `n` bytes at `s`, and `n` is not 0, `safestrcpy` leaves there a
-- string that ends with a zero byte inside them: the whole of the source, or its first `n - 1`
-- bytes. It changes nothing outside.
safestrcpy-IsCopied :
    (mem : ℕ → ℕ) (s t n : ℕ)
    → 0 < n
    → Apart s t n
    → (k : ℕ) × IsCopied mem (safestrcpy mem s t n) s t n k
unfolding safestrcpy
safestrcpy-IsCopied mem s t zero pos h = absurd (omega arith)
safestrcpy-IsCopied mem s t (suc n) pos h = safe_from-IsCopied mem s t n h
