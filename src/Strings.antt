-- ===== src/Strings.antt =====
-- kernel/string.c: memory is a function from an address to a byte; no range goes round the end of
-- the addresses.
pub mod Move
pub mod Compare
pub mod Copy
use increase_ipc_throughput.Base.{
  ℕ, zero, suc, ◌+◌, ◌-◌, ◌%◌, Bool, true, false, not, ◌&&◌, Option, none, some, ltb, ◌==◌,
  if◌then◌else◌, update, ℤ, pos, negsuc,
}

-- The loop of `memset`, and the second loop of `strncpy`.
unfoldable pub fill : (ℕ → ℕ) → ℕ → ℕ → ℕ → ℕ → ℕ
fill mem d c zero = mem
fill mem d c (suc n) = fill (update mem d c) (d + 1) c n

-- `memset(dst, c, n)`.
unfoldable pub memset : (ℕ → ℕ) → ℕ → ℕ → ℕ → ℕ → ℕ
memset mem dst c n = fill mem dst (c % 256) n

-- The two loops of `memmove`: `*d++ = *s++`, and `*--d = *--s`.
unfoldable pub copy_up : (ℕ → ℕ) → ℕ → ℕ → ℕ → ℕ → ℕ
copy_up mem d s zero = mem
copy_up mem d s (suc n) = copy_up (update mem d (mem s)) (d + 1) (s + 1) n

unfoldable pub copy_down : (ℕ → ℕ) → ℕ → ℕ → ℕ → ℕ → ℕ
copy_down mem d s zero = mem
copy_down mem d s (suc n) = copy_down (update mem (d - 1) (mem (s - 1))) (d - 1) (s - 1) n

-- `memmove(dst, src, n)`, which is `memcpy` too.
unfoldable pub memmove : (ℕ → ℕ) → ℕ → ℕ → ℕ → ℕ → ℕ
memmove mem dst src n =
    if n == 0
    then mem
    else if ltb src dst && ltb dst (src + n)
    then copy_down mem (dst + n) (src + n) n
    else copy_up mem dst src n

-- The difference of two `uchar`s.
unfoldable pub diff : ℕ → ℕ → ℤ
diff a b = if ltb a b then negsuc (b - a - 1) else pos (a - b)

-- `memcmp(v1, v2, n)`.
unfoldable pub memcmp : (ℕ → ℕ) → ℕ → ℕ → ℕ → ℤ
memcmp mem p q zero = pos 0
memcmp mem p q (suc n) =
    let rest = memcmp mem (p + 1) (q + 1) n in if mem p == mem q then rest else diff (mem p) (mem q)

-- `strncmp(p, q, n)`.
unfoldable pub strncmp : (ℕ → ℕ) → ℕ → ℕ → ℕ → ℤ
strncmp mem p q zero = pos 0
strncmp mem p q (suc n) =
    let rest = strncmp mem (p + 1) (q + 1) n in
    if not (mem p == 0) && mem p == mem q then rest else diff (mem p) (mem q)

-- `strncpy(s, t, n)` for `n` at least 0.
unfoldable pub strncpy : (ℕ → ℕ) → ℕ → ℕ → ℕ → ℕ → ℕ
strncpy mem s t zero = mem
strncpy mem s t (suc n) =
    let mem' = update mem s (mem t) in
    if mem t == 0 then fill mem' (s + 1) 0 n else strncpy mem' (s + 1) (t + 1) n

-- The loop of `safestrcpy` with what follows it; `--n` bytes may still be copied.
unfoldable pub safe_from : (ℕ → ℕ) → ℕ → ℕ → ℕ → ℕ → ℕ
safe_from mem s t zero = update mem s 0
safe_from mem s t (suc n) =
    let mem' = update mem s (mem t) in
    if mem t == 0 then update mem' (s + 1) 0 else safe_from mem' (s + 1) (t + 1) n

-- `safestrcpy(s, t, n)` for `n` at least 0.
unfoldable pub safestrcpy : (ℕ → ℕ) → ℕ → ℕ → ℕ → ℕ → ℕ
safestrcpy mem s t zero = mem
safestrcpy mem s t (suc n) = safe_from mem s t n

-- `strlen(s)` with fuel, from `n` on.
unfoldable pub strlen_from : ℕ → (ℕ → ℕ) → ℕ → ℕ → Option ℕ
strlen_from zero mem s n = none
strlen_from (suc f) mem s n =
    let rest = strlen_from f mem s (n + 1) in if mem (s + n) == 0 then some n else rest
