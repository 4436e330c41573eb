-- ===== src/Vm/Bytes.antt =====
-- The words and the pages of the memory of kernel/vm.c: what a store and a fill leave as it was.
use increase_ipc_throughput.Base.{
  ℕ, zero, suc, ◌+◌, ◌/◌, ◌%◌, ◌^◌, ◌≤◌, ◌<◌, ◌≡◌, refl, ◌∙◌, arith, ◌⊎◌, inl, inr, update,
  update_ne, update_self,
}
use increase_ipc_throughput.Strings.{memset}
use increase_ipc_throughput.Strings.Move.{memset_lem}
use increase_ipc_throughput.Vm.{load_word, store_word}

-- A word depends on its bytes only.
pub load_same :
    (n : ℕ) (b b' : ℕ → ℕ) (a : ℕ)
    → ((x : ℕ) → a ≤ x → x < a + n → b' x ≡ b x)
    → load_word n b' a ≡ load_word n b a
unfolding load_word
load_same zero b b' a h = refl
load_same (suc n) b b' a h = omega (
  arith,
  h a (omega arith) (omega arith),
  load_same n b b' (a + 1) (λ x lo hi. h x (omega arith) (omega arith)),
)

pub load_zero :
    (n : ℕ) (b : ℕ → ℕ) (a : ℕ) → ((x : ℕ) → a ≤ x → x < a + n → b x ≡ 0) → load_word n b a ≡ 0
unfolding load_word
load_zero zero b a h = refl
load_zero (suc n) b a h = omega (
  arith,
  h a (omega arith) (omega arith),
  load_zero n b (a + 1) (λ x lo hi. h x (omega arith) (omega arith)),
)

-- A store changes the bytes of its word only.
pub store_other :
    (n : ℕ) (b : ℕ → ℕ) (a w x : ℕ) → (x < a) ⊎ (a + n ≤ x) → store_word n b a w x ≡ b x
unfolding store_word
store_other zero b a w x h = refl
store_other (suc n) b a w x h =
    update_ne (store_word n b (a + 1) (w / 256)) (w % 256) (omega (arith, h))
    ∙ store_other n b (a + 1) (w / 256) x
        (elim h [ inl lo ↦ inl (omega arith) | inr hi ↦ inr (omega arith) ])

-- A number of so many bytes.
Fits : ℕ → ℕ → Type 0
Fits zero w = w ≡ 0
Fits (suc n) w = Fits n (w / 256)

load_word-store_word-Fits :
    (n : ℕ) (b : ℕ → ℕ) (a w : ℕ) → Fits n w → load_word n (store_word n b a w) a ≡ w
unfolding load_word store_word Fits
load_word-store_word-Fits zero b a w h = omega arith
load_word-store_word-Fits (suc n) b a w h = omega (
  arith,
  update_self (store_word n b (a + 1) (w / 256)) a (w % 256),
  load_same n (store_word n b (a + 1) (w / 256))
      (update (store_word n b (a + 1) (w / 256)) a (w % 256)) (a + 1)
      (λ x lo hi. update_ne (store_word n b (a + 1) (w / 256)) (w % 256) (omega arith)),
  load_word-store_word-Fits n b (a + 1) (w / 256) h,
)

-- What was stored is loaded.
pub load_word-store_word :
    (b : ℕ → ℕ) (a w : ℕ) → w < 2 ^ 64 → load_word 8 (store_word 8 b a w) a ≡ w
unfolding Fits
load_word-store_word b a w h = load_word-store_word-Fits 8 b a w (omega arith)

-- A word that lies apart is as before.
pub load_word-store_word_other :
    (b : ℕ → ℕ) (a c w : ℕ)
    → (a + 8 ≤ c) ⊎ (c + 8 ≤ a)
    → load_word 8 (store_word 8 b c w) a ≡ load_word 8 b a
load_word-store_word_other b a c w h = load_same 8 b (store_word 8 b c w) a (λ x lo hi.
    store_other 8 b c w x (elim h [ inl l ↦ inl (omega arith) | inr r ↦ inr (omega arith) ]))

-- `memset` outside its range, and in it.
pub memset_other : (b : ℕ → ℕ) (d c n x : ℕ) → (x < d) ⊎ (d + n ≤ x) → memset b d c n x ≡ b x
memset_other b d c n x h = memset_lem b d c n x ∙ ground (arith, h)

pub memset_in : (b : ℕ → ℕ) (d c n x : ℕ) → d ≤ x → x < d + n → memset b d c n x ≡ c % 256
memset_in b d c n x lo hi = memset_lem b d c n x ∙ ground arith
