-- ===== src/Space/Access.antt =====
-- kernel/vm.c: `vmfault`, and the copies `copyout`, `copyin` and `copyinstr`. No address leaves the
-- 64 bits, since those from `MAXVA` on are refused before.
use increase_ipc_throughput.Base.{
  ℕ, zero, suc, ◌+◌, ◌-◌, Bool, true, false, not, Option, none, some, List, [], ◌∷◌, ◌++◌, leb,
  ◌==◌, if◌then◌else◌, min, update, length,
}
use increase_ipc_throughput.Kalloc.{page_size}
use increase_ipc_throughput.Vm.{
  maxva, pte_w, Ram, get_pte, fill_page, page_alloc, walk, walkaddr, ismapped,
}
use increase_ipc_throughput.Space.{fault_perm, page_round_down, map_or_free}

-- The first `n` of the bytes, and the others.
abbrev pub take {ℓ} : {A : Type ℓ} → ℕ → List A → List A
take zero xs = []
take (suc n) [] = []
take (suc n) (x ∷ xs) = x ∷ take n xs

abbrev pub drop {ℓ} : {A : Type ℓ} → ℕ → List A → List A
drop zero xs = xs
drop (suc n) [] = []
drop (suc n) (x ∷ xs) = drop n xs

-- `memmove` from the kernel into a page, and from a page into the kernel.
unfoldable pub put_bytes : (ℕ → ℕ) → ℕ → List ℕ → ℕ → ℕ
put_bytes bytes a [] = bytes
put_bytes bytes a (x ∷ xs) = put_bytes (update bytes a x) (a + 1) xs

unfoldable pub get_bytes : (ℕ → ℕ) → ℕ → ℕ → List ℕ
get_bytes bytes a zero = []
get_bytes bytes a (suc n) = bytes a ∷ get_bytes bytes (a + 1) n

-- The bytes up to `'\0'`, and whether it is among the `n` bytes: the inner loop of `copyinstr`.
unfoldable pub scan : (ℕ → ℕ) → ℕ → ℕ → List ℕ × Bool
scan bytes a zero = ([], false)
scan bytes a (suc n) =
    let (xs, found) = scan bytes (a + 1) n in
    if bytes a == 0 then (0 ∷ [], true) else (bytes a ∷ xs, found)

-- `n` of a round: what is left of the page, and at most `len`.
abbrev pub chunk : ℕ → ℕ → ℕ
chunk va len = min (page_size - (va - page_round_down va)) len

module _ (end : ℕ) where
  -- `vmfault(pagetable, va, read)` in a process with this `sz` and this `pagetable`, `own`.
  unfoldable pub vmfault : ℕ → ℕ → ℕ → ℕ → Ram → Option (ℕ × Ram)
  vmfault own sz pagetable va m =
      let va0 = page_round_down va in
      let (mem, m1) = page_alloc m in
      if leb sz va then some (0, m) else elim (ismapped pagetable va0 m) [
        | none ↦ none
        | some is_mapped ↦
            if is_mapped
            then some (0, m)
            else if mem == 0
            then some (0, m1)
            else elim (map_or_free end own va0 mem fault_perm (fill_page mem 0 m1)) [
              | none ↦ none
              | some (ok, m2) ↦ some (if ok then mem else 0, m2)
            ]
      ]

  -- `walkaddr`, and `vmfault` where it returns 0.
  unfoldable pub reach : ℕ → ℕ → ℕ → ℕ → Ram → Option (ℕ × Ram)
  reach own sz pagetable va0 m =
      let pa0 = walkaddr pagetable va0 m in
      if pa0 == 0 then vmfault own sz pagetable va0 m else some (pa0, m)

  -- The loop of `copyout`, with fuel; `none` may also be the null pointer that `walk` returned.
  unfoldable pub copyout_from : ℕ → ℕ → ℕ → ℕ → ℕ → List ℕ → Ram → Option (Bool × Ram)
  copyout_from zero own sz pagetable dstva src m = if length src == 0 then some (true, m) else none
  copyout_from (suc f) own sz pagetable dstva src m =
      let va0 = page_round_down dstva in
      let n = chunk dstva (length src) in
      if length src == 0
      then some (true, m)
      else if leb maxva va0
      then some (false, m)
      else elim (reach own sz pagetable va0 m) [
        | none ↦ none
        | some (pa0, m1) ↦
            if pa0 == 0 then some (false, m1) else elim (walk pagetable va0 false m1) [
              | none ↦ none
              | some (pte, m1') ↦
                  let m2 = record m1 {
                    bytes = put_bytes m1.bytes (pa0 + (dstva - va0)) (take n src);
                  } in
                  let rest = copyout_from f own sz pagetable (va0 + page_size) (drop n src) m2 in
                  if pte == 0
                  then none
                  else if not (pte_w (get_pte m1 pte))
                  then some (false, m1)
                  else rest
            ]
      ]

  -- `copyout(pagetable, dstva, src, len)`: `true` stands for 0 and `false` for -1.
  unfoldable pub copyout : ℕ → ℕ → ℕ → ℕ → List ℕ → Ram → Option (Bool × Ram)
  copyout own sz pagetable dstva src m = copyout_from (length src) own sz pagetable dstva src m

  -- The loop of `copyin`, with fuel, and the bytes that it stores from `dst` on.
  unfoldable pub copyin_from : ℕ → ℕ → ℕ → ℕ → ℕ → ℕ → Ram → Option (Bool × List ℕ × Ram)
  copyin_from zero own sz pagetable srcva len m = if len == 0 then some (true, [], m) else none
  copyin_from (suc f) own sz pagetable srcva len m =
      let va0 = page_round_down srcva in
      let n = chunk srcva len in
      if len == 0 then some (true, [], m) else elim (reach own sz pagetable va0 m) [
        | none ↦ none
        | some (pa0, m1) ↦
            if pa0 == 0
            then some (false, [], m1)
            else elim (copyin_from f own sz pagetable (va0 + page_size) (len - n) m1) [
              | none ↦ none
              | some (ok, bytes, m2) ↦
                  some (ok, get_bytes m1.bytes (pa0 + (srcva - va0)) n ++ bytes, m2)
            ]
      ]

  -- `copyin(pagetable, dst, srcva, len)`.
  unfoldable pub copyin : ℕ → ℕ → ℕ → ℕ → ℕ → Ram → Option (Bool × List ℕ × Ram)
  copyin own sz pagetable srcva len m = copyin_from len own sz pagetable srcva len m

-- The loop of `copyinstr`, with fuel: whether `'\0'` was found, and the bytes that it stores.
unfoldable pub copyinstr_from : ℕ → ℕ → ℕ → ℕ → Ram → Option (Bool × List ℕ)
copyinstr_from zero pagetable srcva max m = if max == 0 then some (false, []) else none
copyinstr_from (suc f) pagetable srcva max m =
    let va0 = page_round_down srcva in
    let pa0 = walkaddr pagetable va0 m in
    let n = chunk srcva max in
    let (bytes, got_null) = scan m.bytes (pa0 + (srcva - va0)) n in
    let next = copyinstr_from f pagetable (va0 + page_size) (max - n) m in
    if max == 0
    then some (false, [])
    else if pa0 == 0
    then some (false, [])
    else if got_null
    then some (true, bytes)
    else elim next [ none ↦ none | some (ok, more) ↦ some (ok, bytes ++ more) ]

-- `copyinstr(pagetable, dst, srcva, max)`.
unfoldable pub copyinstr : ℕ → ℕ → ℕ → Ram → Option (Bool × List ℕ)
copyinstr pagetable srcva max m = copyinstr_from max pagetable srcva max m
