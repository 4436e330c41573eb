-- ===== src/Console/Read.antt =====
-- A round of the loop of `consoleread` in kernel/console.c.
use increase_ipc_throughput.Base.{
  ℕ, ◌%◌, ◌≤◌, ◌≡◌, ◌≢◌, refl, arith, Bool, true, false, ltb, ◌==◌, if◌then◌else◌, add32, sub32,
  Bool-cases, inl, inr, List, [], ◌∷◌, none, some, ◌⊎◌, zero, suc, ◌<◌, ap, ◌∙◌, ==→eq, ==→ne,
}
use increase_ipc_throughput.Console.{input_buf_size, Cons, ctrl_d, new_line, ConsNext, read_char}
use increase_ipc_throughput.Console.Input.{IsValid}

-- A character of a finished line is taken.
forth-IsValid : (c : Cons) → IsValid c → c.r ≢ c.w → IsValid (record c { r = add32 c.r 1 })
forth-IsValid c v ne = record {
  r_fits = omega arith;
  w_fits = v.w_fits;
  e_fits = v.e_fits;
  lines_le = omega (arith, v.r_fits, v.w_fits, v.e_fits, v.lines_le);
  edit_le = omega (arith, v.r_fits, v.w_fits, v.e_fits, v.lines_le, v.edit_le);
}

-- The characters of the finished lines that wait, in order.
pub chars : (ℕ → ℕ) → ℕ → ℕ → List ℕ
chars buf r zero = []
chars buf r (suc n) = buf (r % input_buf_size) ∷ chars buf (add32 r 1) n

abbrev pub pending : Cons → List ℕ
pending c = chars c.buf c.r (sub32 c.w c.r)

-- What a round of `consoleread` takes from the characters that wait. A ^D that comes after others
-- stays, so that the next call finds it.
abbrev pub Took : Bool → Bool → ℕ → ℕ → Cons → ConsNext → Cons → Type 0
Took killed ok target n c ConsNext.block d = (pending c ≡ []) × (killed ≡ false) × (d ≡ c)
Took killed ok target n c ConsNext.fail d = (pending c ≡ []) × (killed ≡ true) × (d ≡ c)
Took killed ok target n c (ConsNext.stop none) d =
    ((n < target) × (pending d ≡ pending c) × ((rest : List ℕ) × (pending c ≡ ctrl_d ∷ rest)))
    ⊎ (((target ≤ n) × (pending c ≡ ctrl_d ∷ pending d))
        ⊎ ((ch : ℕ) × (ch ≢ ctrl_d) × (ok ≡ false) × (pending c ≡ ch ∷ pending d)))
Took killed ok target n c (ConsNext.stop (some ch)) d =
    (ch ≡ new_line) × (ok ≡ true) × (pending c ≡ ch ∷ pending d)
Took killed ok target n c (ConsNext.again ch) d =
    (ch ≢ new_line) × (ch ≢ ctrl_d) × (ok ≡ true) × (pending c ≡ ch ∷ pending d)

pending_none : (c : Cons) → IsValid c → c.r ≡ c.w → pending c ≡ []
unfolding chars
pending_none c v e =
    let none_left : sub32 c.w c.r ≡ 0 = omega (arith, v.r_fits, e) in rw none_left refl

pending_some :
    (c : Cons)
    → IsValid c
    → c.r ≢ c.w
    → pending c ≡ c.buf (c.r % input_buf_size) ∷ pending (record c { r = add32 c.r 1 })
unfolding chars
pending_some c v ne =
    let one : sub32 c.w c.r ≡ suc (sub32 c.w (add32 c.r 1)) = omega (arith, v.r_fits, v.w_fits) in
    ap (chars c.buf c.r) one

-- A round of `consoleread` keeps the indices in order. It sleeps, or fails if the process was
-- killed, where no finished character waits; else it takes the first one, gives it to the user
-- and goes on, and stops behind a newline. It also stops at ^D, which it takes if nothing was
-- read before and leaves there if something was, and where the copy fails.
pub read_char-IsValid :
    (killed ok : Bool) (target n : ℕ) (c : Cons)
    → IsValid c
    → IsValid (read_char killed ok target n c).1
      × Took killed ok target n c
          (read_char killed ok target n c).0
          (read_char killed ok target n c).1
unfolding read_char
read_char-IsValid killed ok target n c v = elim (Bool-cases (c.r == c.w)) [
  | inl waits ↦ rw waits (v, waiting (pending_none c v (ground arith)) killed refl)
  | inr goes ↦
      let ne : c.r ≢ c.w = ground arith in
      let next = pending_some c v ne in
      rw goes (elim (Bool-cases (c.buf (c.r % input_buf_size) == ctrl_d)) [
        | inl eof ↦
            let is : c.buf (c.r % input_buf_size) ≡ ctrl_d = ==→eq _ _ eof in
            let next' = next ∙ ap (λ ch. ch ∷ pending (record c { r = add32 c.r 1 })) is in
            rw eof (elim (Bool-cases (ltb n target)) [
              | inl saved ↦
                  let same : sub32 (add32 c.r 1) 1 ≡ c.r = omega (arith, v.r_fits) in
                  rw (saved, same)
                    (
                      v,
                      inl (
                        ground (arith, saved),
                        refl,
                        (pending (record c { r = add32 c.r 1 }), next'),
                      ),
                    )
              | inr taken ↦
                  rw taken (forth-IsValid c v ne, inr (inl (ground (arith, taken), next')))
            ])
        | inr other ↦
            let not_eof : c.buf (c.r % input_buf_size) ≢ ctrl_d = ==→ne _ _ other in
            rw other (elim (Bool-cases ok) [
              | inr bad ↦ rw bad (
                forth-IsValid c v ne,
                inr (inr (c.buf (c.r % input_buf_size), not_eof, refl, next)),
              )
              | inl good ↦ rw good (elim (Bool-cases (c.buf (c.r % input_buf_size) == new_line)) [
                | inl line ↦ rw line (forth-IsValid c v ne, (==→eq _ _ line, refl, next))
                | inr more ↦ rw more (forth-IsValid c v ne, (==→ne _ _ more, not_eof, refl, next))
              ])
            ])
      ])
]
  where
    waiting :
        pending c ≡ []
        → (k : Bool) → killed ≡ k
        → Took killed ok target n c (if k then ConsNext.fail else ConsNext.block) c
    waiting none_left true is = (none_left, is, refl)
    waiting none_left false is = (none_left, is, refl)
