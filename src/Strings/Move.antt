-- ===== src/Strings/Move.antt =====
-- `memset` and `memmove` of kernel/string.c, whatever the ranges.
use increase_ipc_throughput.Base.{
  ℕ, zero, suc, ◌+◌, ◌-◌, ◌%◌, ◌≤◌, ◌<◌, ◌≡◌, ap, ◌∙◌, arith, Bool, false, ◌&&◌, ltb, leb, ◌==◌,
  if◌then◌else◌, update, update_ne, Bool-cases, inl, inr,
}
use increase_ipc_throughput.Strings.{fill, memset, copy_up, copy_down, memmove}

-- Whether `a` is one of the `n` addresses from `d` on.
abbrev pub within : ℕ → ℕ → ℕ → Bool
within d n a = leb d a && ltb a (d + n)

pub fill_lem : (mem : ℕ → ℕ) (d c n a : ℕ) → fill mem d c n a ≡ (if within d n a then c else mem a)
unfolding fill
fill_lem mem d c zero a = ground arith
fill_lem mem d c (suc n) a = ground (arith, fill_lem (update mem d c) (d + 1) c n a)

-- `memset` stores the low byte of `c` at the `n` addresses from `dst` on, and nowhere else.
pub memset_lem :
    (mem : ℕ → ℕ) (dst c n a : ℕ)
    → memset mem dst c n a ≡ (if within dst n a then c % 256 else mem a)
unfolding memset
memset_lem mem dst c n a = fill_lem mem dst (c % 256) n a

copy_up_lem :
    (mem : ℕ → ℕ) (d s n a : ℕ)
    → (ltb s d && ltb d (s + n)) ≡ false
    → copy_up mem d s n a ≡ (if within d n a then mem (s + (a - d)) else mem a)
unfolding copy_up
copy_up_lem mem d s zero a h = ground arith
copy_up_lem mem d s (suc n) a h =
    copy_up_lem (update mem d (mem s)) (d + 1) (s + 1) n a (ground arith)
    ∙ ground (arith, ahead, here)
  where
    ahead : d < a → a < d + suc n → update mem d (mem s) (s + 1 + (a - (d + 1))) ≡ mem (s + (a - d))
    ahead lo hi = update_ne mem (mem s) (ground arith) ∙ ap mem (omega arith)

    here : d ≡ a → mem s ≡ mem (s + (a - d))
    here e = ap mem (omega arith)

copy_down_lem :
    (mem : ℕ → ℕ) (d s n a : ℕ)
    → s < d
    → copy_down mem (d + n) (s + n) n a ≡ (if within d n a then mem (s + (a - d)) else mem a)
unfolding copy_down
copy_down_lem mem d s zero a h = ground arith
copy_down_lem mem d s (suc n) a h =
    rw (last d, last s)
      (copy_down_lem (update mem (d + n) (mem (s + n))) d s n a h ∙ ground (arith, below, there))
  where
    last : (b : ℕ) → b + suc n - 1 ≡ b + n
    last b = omega arith

    below : d ≤ a → a < d + n → update mem (d + n) (mem (s + n)) (s + (a - d)) ≡ mem (s + (a - d))
    below lo hi = update_ne mem (mem (s + n)) (omega arith)

    there : d + n ≡ a → mem (s + n) ≡ mem (s + (a - d))
    there e = ap mem (omega arith)

-- However the ranges overlap, `memmove` leaves at `dst` the `n` bytes that were at `src`, and
-- changes nothing else.
pub memmove_lem :
    (mem : ℕ → ℕ) (dst src n a : ℕ)
    → memmove mem dst src n a ≡ (if within dst n a then mem (src + (a - dst)) else mem a)
unfolding memmove
memmove_lem mem dst src n a = elim (Bool-cases (n == 0)) [
  | inl none_left ↦ rw none_left (ground arith)
  | inr some_left ↦ elim (Bool-cases (ltb src dst && ltb dst (src + n))) [
    | inl clash ↦ rw (some_left, clash) (copy_down_lem mem dst src n a (ground arith))
    | inr clear ↦ rw (some_left, clear) (copy_up_lem mem dst src n a clear)
  ]
]
