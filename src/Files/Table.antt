-- ===== src/Files/Table.antt =====
-- The entries that `filealloc` of kernel/file.c finds, and `fileclose` on one that has no type.
use increase_ipc_throughput.Base.{
  ℕ, zero, suc, ◌+◌, ◌-◌, ◌≤◌, ◌<◌, ◌≡◌, ◌≢◌, refl, sym, ap, ap₂, arith, false, Option, none, some,
  ltb, ◌==◌, update, Bool-cases, inl, inr,
}
use increase_ipc_throughput.Pipe.{Version}
use increase_ipc_throughput.Files.{
  fd_none, File, Kernel, first_free, filedup, close_what, fileclose,
}

-- What the loop of `filealloc` found.
abbrev pub Found : ℕ → ℕ → (ℕ → File) → Option ℕ → Type 0
Found n i files none = (j : ℕ) → i ≤ j → j < i + n → (files j).ref ≢ 0
Found n i files (some a) =
    (i ≤ a) × (a < i + n) × ((files a).ref ≡ 0) × ((j : ℕ) → i ≤ j → j < a → (files j).ref ≢ 0)

first_free-here :
    (n i : ℕ) (files : ℕ → File) (o : Option ℕ)
    → (files i).ref ≢ 0
    → Found n (i + 1) files o
    → Found (suc n) i files o
first_free-here n i files none ne f = λ j le lt. elim (Bool-cases (i == j)) [
  | inl same ↦ ground arith
  | inr other ↦ f j (ground arith) (ground arith)
]
first_free-here n i files (some a) ne f = (
  omega (arith, f.0),
  omega (arith, f.1),
  f.2,
  λ j le lt. elim (Bool-cases (i == j)) [
    | inl same ↦ ground arith
    | inr other ↦ f.3 j (ground arith) lt
  ],
)

-- `filealloc` finds the first entry without references, if there is one.
pub first_free-Found : (n i : ℕ) (files : ℕ → File) → Found n i files (first_free n i files)
unfolding first_free
first_free-Found zero i files = λ j le lt. absurd (omega arith)
first_free-Found (suc n) i files = elim (Bool-cases ((files i).ref == 0)) [
  | inl free ↦ rw free (omega arith, omega arith, ground arith, λ j le lt. absurd (omega arith))
  | inr busy ↦ rw busy (
      first_free-here n i files (first_free n (i + 1) files) (ground arith)
        (first_free-Found n (i + 1) files))
]

-- An entry without references has no type.
abbrev pub IsClosed : File → Type 0
IsClosed f = (f.ref ≡ 0) × (f.type ≡ fd_none)

-- Taken and given back, such an entry is what it was.
pub closed_again : (f : File) → IsClosed f → record f { ref = 0; type = fd_none } ≡ f
closed_again f h = ap₂ (λ r t. record f { ref = r; type = t }) (sym h.0) (sym h.1)

module _ (end : ℕ) (v : Version) (me : ℕ) (put : ℕ → Kernel → Kernel) where
  -- `fileclose` of an entry that was just taken.
  pub fileclose-taken :
      (f : ℕ) (s : Kernel)
      → (s.files f).ref ≡ 1
      → (s.files f).type ≡ fd_none
      → fileclose end v me put f s
        ≡ some
            (record s { files = update s.files f (record (s.files f) { ref = 0; type = fd_none }) })
  unfolding fileclose close_what
  fileclose-taken f s one none_type = rw (one, none_type) refl

  fileclose-shared :
      (f : ℕ) (s : Kernel)
      → 1 < (s.files f).ref
      → fileclose end v me put f s
        ≡ some (record s {
          files = update s.files f (record (s.files f) { ref = (s.files f).ref - 1 });
        })
  unfolding fileclose
  fileclose-shared f s h = ground arith

  -- The entries and all else after two calls.
  abbrev pub SameAs : Kernel → Option Kernel → Type 0
  SameAs s none = ⊥
  SameAs s (some t) = (t ≡ record s { files = t.files }) × ((i : ℕ) → t.files i ≡ s.files i)

  -- On an entry with references, `filedup` does not panic, and `fileclose` after it takes the
  -- reference back and closes nothing.
  fileclose-filedup :
      (f : ℕ) (s : Kernel)
      → 0 < (s.files f).ref
      → SameAs s (elim (filedup f s) [ none ↦ none | some t ↦ fileclose end v me put f t ])
  unfolding filedup
  fileclose-filedup f s h =
      rw (busy, fileclose-shared f shared (ground arith))
        (
          refl,
          λ i. elim (Bool-cases (f == i)) [
            | inl here ↦ ground (arith, ap (λ r. record (s.files f) { ref = r }) back)
            | inr other ↦ ground arith
          ],
        )
    where
      busy : ltb (s.files f).ref 1 ≡ false
      busy = ground arith

      shared : Kernel
      shared = record s {
        files = update s.files f (record (s.files f) { ref = (s.files f).ref + 1 });
      }

      back : (s.files f).ref + 1 - 1 ≡ (s.files f).ref
      back = omega arith
