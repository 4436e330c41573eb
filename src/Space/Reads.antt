-- ===== src/Space/Reads.antt =====
-- Bytes as a process sees them, read one after another.
use increase_ipc_throughput.Base.{
  ℕ, zero, suc, ◌+◌, ◌%◌, ◌<◌, ◌≡◌, refl, sym, ap, ◌∙◌, arith, subst, true, false, Option, some,
  List, [], ◌∷◌, ◌++◌, leb, length,
}
use increase_ipc_throughput.Vm.{maxva, pte2pa, pte_u, Ram}
use increase_ipc_throughput.Vm.Tree.{translate}
use increase_ipc_throughput.Space.{page_round_down}
use increase_ipc_throughput.Space.Access.{get_bytes}
use increase_ipc_throughput.Space.View.{view}

-- The bytes that stand from `a` on.
abbrev pub Reads : (ℕ → Option ℕ) → ℕ → List ℕ → Type 0
Reads v a [] = Unit
Reads v a (x ∷ xs) = (v a ≡ some x) × Reads v (a + 1) xs

pub Reads-append :
    (v : ℕ → Option ℕ) (a : ℕ) (xs ys : List ℕ)
    → Reads v a xs
    → Reads v (a + length xs) ys
    → Reads v a (xs ++ ys)
Reads-append v a [] ys h k = subst (λ n. Reads v n ys) {x = a + 0} {y = a} (omega arith) k
Reads-append v a (x ∷ xs) ys h k = (
  h.0,
  Reads-append v (a + 1) xs ys h.1
      (subst (λ n. Reads v n ys) {x = a + suc (length xs)} {y = a + 1 + length xs} (omega arith) k),
)

pub Reads-none : (v : ℕ → Option ℕ) (a : ℕ) (xs : List ℕ) → length xs ≡ 0 → Reads v a xs
Reads-none v a [] h = tt
Reads-none v a (x ∷ xs) h = absurd (omega arith)

pub Reads-same :
    (v w : ℕ → Option ℕ) (a : ℕ) (xs : List ℕ)
    → ((va : ℕ) → v va ≡ w va)
    → Reads v a xs
    → Reads w a xs
Reads-same v w a [] e h = tt
Reads-same v w a (x ∷ xs) e h = (sym (e a) ∙ h.0, Reads-same v w (a + 1) xs e h.1)

pub length-get_bytes : (b : ℕ → ℕ) (a n : ℕ) → length (get_bytes b a n) ≡ n
unfolding get_bytes
length-get_bytes b a zero = refl
length-get_bytes b a (suc n) = omega (arith, length-get_bytes b (a + 1) n)

pub get_bytes-Reads :
    (v : ℕ → Option ℕ) (b : ℕ → ℕ) (va pa n : ℕ)
    → ((i : ℕ) → i < n → v (va + i) ≡ some (b (pa + i)))
    → Reads v va (get_bytes b pa n)
unfolding get_bytes
get_bytes-Reads v b va pa zero h = tt
get_bytes-Reads v b va pa (suc n) h = (
  ap v {x = va} {y = va + 0} (omega arith)
      ∙ h 0 (omega arith)
      ∙ ap (λ k. some (b k)) {x = pa + 0} {y = pa} (omega arith),
  get_bytes-Reads v b (va + 1) (pa + 1) n (λ i lt.
      ap v {x = va + 1 + i} {y = va + suc i} (omega arith)
      ∙ h (suc i) (omega arith)
      ∙ ap (λ k. some (b k)) {x = pa + suc i} {y = pa + 1 + i} (omega arith)),
)

-- The pages of these bytes are mapped, and open to the process.
abbrev pub Opened : ℕ → Ram → ℕ → ℕ → Type 0
Opened r m a len =
    0 < len
    → (va : ℕ) → va % 4096 ≡ 0
    → a < va + 4096
    → va < a + len
    → (va < maxva) × (pte_u (translate r va m) ≡ true)

-- The byte in an open page.
pub view_open :
    (r sz : ℕ) (m : Ram) (a va : ℕ)
    → a < maxva
    → page_round_down va ≡ a
    → pte_u (translate r a m) ≡ true
    → view r sz m va ≡ some (m.bytes (pte2pa (translate r a m) + va % 4096))
unfolding view
view_open r sz m a va low e is_open =
    let below : leb maxva va ≡ false = ground arith in rw (below, e, is_open) refl
