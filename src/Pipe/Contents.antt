-- ===== src/Pipe/Contents.antt =====
-- The bytes that a `struct pipe` of kernel/pipe.c holds, oldest first, and how storing and
-- loading a run of bytes changes them.
use increase_ipc_throughput.Base.{
  ℕ, zero, suc, ◌+◌, ◌-◌, ◌%◌, ◌≤◌, ◌<◌, ◌≡◌, refl, sym, ap, ◌∙◌, ap₂, zero-add, add-zero, suc-add,
  arith, u32, List, [], ◌∷◌, ◌++◌, append_assoc, append-nil, length, update, update_ne, update_self,
}
use increase_ipc_throughput.Pipe.{Version, Pipe, pipe_total, slot, till_end, used, store, load}
use increase_ipc_throughput.Pipe.Ring.{slot-eq, slot-add, slot_ne, mod_next, mod_u32}

-- The counters are `uint`s, and no more bytes are in the pipe than `data` has room for.
pub record IsValid (v : Version) (p : Pipe) : Type 0 where
  pub nread_fits : p.nread < u32
  pub nwrite_fits : p.nwrite < u32
  pub used_le : used p ≤ pipe_total v

module _ (v : Version) where
  -- The `n` bytes that the counters from `r` on number.
  unfoldable pub window : (ℕ → ℕ) → ℕ → ℕ → List ℕ
  window buf r zero = []
  window buf r (suc n) = buf (slot v r) ∷ window buf (r + 1) n

  pub length-window : (buf : ℕ → ℕ) (r n : ℕ) → length (window buf r n) ≡ n
  unfolding window
  length-window buf r zero = refl
  length-window buf r (suc n) = ap suc (length-window buf (r + 1) n)

  -- A window looks at its start through `slot` alone.
  window_cong :
      (buf : ℕ → ℕ) (r s n : ℕ)
      → r % pipe_total v ≡ s % pipe_total v
      → window buf r n ≡ window buf s n
  unfolding window
  window_cong buf r s zero h = refl
  window_cong buf r s (suc n) h =
      ap₂ ◌∷◌ (ap buf (slot-eq v r ∙ h ∙ sym (slot-eq v s)))
        (window_cong buf (r + 1) (s + 1) n (mod_next v r s h))

  pub window_wrap : (buf : ℕ → ℕ) (r n : ℕ) → window buf (r % u32) n ≡ window buf r n
  window_wrap buf r n = window_cong buf (r % u32) r n (mod_u32 v r)

  pub window-append :
      (buf : ℕ → ℕ) (r m n : ℕ) → window buf r (m + n) ≡ window buf r m ++ window buf (r + m) n
  unfolding window
  window-append buf r zero n = rw (zero-add, add-zero)
  window-append buf r (suc m) n =
      rw (suc-add, ← shift) (ap (λ l. buf (slot v r) ∷ l) (window-append buf (r + 1) m n))
    where
      shift : r + 1 + m ≡ r + suc m
      shift = omega arith

  -- A store behind the window leaves it alone.
  window-update :
      (buf : ℕ → ℕ) (r n j i x : ℕ)
      → i ≡ slot v (r + j)
      → n ≤ j
      → j < pipe_total v
      → window (update buf i x) r n ≡ window buf r n
  unfolding window
  window-update buf r zero j i x e h q = refl
  window-update buf r (suc n) j i x e h q =
      ap₂ ◌∷◌ (update_ne buf x (rw e (slot_ne v r j (omega arith) q))) (
        window-update buf (r + 1) n (j - 1) i x (e ∙ ap (slot v) shift) (omega arith) (omega arith))
    where
      shift : r + j ≡ r + 1 + (j - 1)
      shift = omega arith

  -- A store just behind the window extends it.
  window-update_end :
      (buf : ℕ → ℕ) (r n i x : ℕ)
      → i ≡ slot v (r + n)
      → n < pipe_total v
      → window (update buf i x) r (n + 1) ≡ window buf r n ++ (x ∷ [])
  unfolding window
  window-update_end buf r n i x e q =
      window-append (update buf i x) r n 1
      ∙ ap₂ ◌++◌ (window-update buf r n n i x e (omega arith) q)
          (ap (λ b. b ∷ []) (ap (update buf i x) (sym e) ∙ update_self buf i x))

  -- The `k` counters from `r` on have offsets in a row, from `a` on.
  abbrev Run : ℕ → ℕ → ℕ → Type 0
  Run r a k = (i : ℕ) → i < k → slot v (r + i) ≡ a + i

  Run-tail : (r s a k : ℕ) → s ≡ r + 1 → Run r a (suc k) → Run s (a + 1) k
  Run-tail r s a k e run i h = ap (slot v) shift ∙ run (suc i) (omega arith) ∙ omega arith
    where
      shift : s + i ≡ r + suc i
      shift = omega arith

  Run-till_end : (r k : ℕ) → k ≤ till_end v r → Run r (slot v r) k
  Run-till_end r k h i q = slot-add v r i (omega arith)

  Run-head : (r a k : ℕ) → Run r a (suc k) → a ≡ slot v r
  Run-head r a k run = sym (ap (slot v) (sym (add-zero r)) ∙ run 0 (omega arith) ∙ add-zero a)

  store_run :
      (buf : ℕ → ℕ) (r n a : ℕ) (bytes : List ℕ)
      → Run (r + n) a (length bytes)
      → n + length bytes ≤ pipe_total v
      → window (store buf a bytes) r (n + length bytes) ≡ window buf r n ++ bytes
  unfolding store
  store_run buf r n a [] run q = rw (add-zero, append-nil)
  store_run buf r n a (x ∷ xs) run q = rw (shift) (
      store_run (update buf a x) r (n + 1) (a + 1) xs
        (Run-tail (r + n) (r + (n + 1)) a (length xs) (omega arith) run) (omega arith)
      ∙ ap (λ l. l ++ xs)
          (window-update_end buf r n a x (Run-head (r + n) a (length xs) run) (omega arith))
      ∙ append_assoc (window buf r n) (x ∷ []) xs)
    where
      shift : n + suc (length xs) ≡ n + 1 + length xs
      shift = omega arith

  keep_run :
      (buf : ℕ → ℕ) (r n j a : ℕ) (bytes : List ℕ)
      → Run (r + j) a (length bytes)
      → n ≤ j
      → j + length bytes ≤ pipe_total v
      → window (store buf a bytes) r n ≡ window buf r n
  unfolding store
  keep_run buf r n j a [] run h q = refl
  keep_run buf r n j a (x ∷ xs) run h q =
      keep_run (update buf a x) r n (j + 1) (a + 1) xs
        (Run-tail (r + j) (r + (j + 1)) a (length xs) (omega arith) run) (omega arith) (omega arith)
      ∙ window-update buf r n j a x (Run-head (r + j) a (length xs) run) h (omega arith)

  load_run : (buf : ℕ → ℕ) (r a k : ℕ) → Run r a k → load buf a k ≡ window buf r k
  unfolding load window
  load_run buf r a zero run = refl
  load_run buf r a (suc k) run =
      ap₂ ◌∷◌ (ap buf (Run-head r a k run))
        (load_run buf (r + 1) (a + 1) k (Run-tail r (r + 1) a k refl run))

  -- Storing a run of bytes behind the window, at offsets that do not go round.
  pub window-store :
      (buf : ℕ → ℕ) (r n : ℕ) (bytes : List ℕ)
      → n + length bytes ≤ pipe_total v
      → length bytes ≤ till_end v (r + n)
      → window (store buf (slot v (r + n)) bytes) r (n + length bytes) ≡ window buf r n ++ bytes
  window-store buf r n bytes q h =
      store_run buf r n (slot v (r + n)) bytes (Run-till_end (r + n) (length bytes) h) q

  pub window-store_keep :
      (buf : ℕ → ℕ) (r n : ℕ) (bytes : List ℕ)
      → n + length bytes ≤ pipe_total v
      → length bytes ≤ till_end v (r + n)
      → window (store buf (slot v (r + n)) bytes) r n ≡ window buf r n
  window-store_keep buf r n bytes q h =
      keep_run buf r n n (slot v (r + n)) bytes (Run-till_end (r + n) (length bytes) h)
        (omega arith) q

  pub load-window :
      (buf : ℕ → ℕ) (r k : ℕ) → k ≤ till_end v r → load buf (slot v r) k ≡ window buf r k
  load-window buf r k h = load_run buf r (slot v r) k (Run-till_end r k h)

  -- The bytes in the pipe, oldest first.
  abbrev pub contents : Pipe → List ℕ
  contents p = window p.buf p.nread (used p)
