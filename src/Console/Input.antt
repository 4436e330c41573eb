-- ===== src/Console/Input.antt =====
-- The indices of `cons` in kernel/console.c, and the lines that wait for a reader.
use increase_ipc_throughput.Base.{
  ℕ, zero, suc, ◌+◌, ◌%◌, ◌≤◌, ◌<◌, ◌≡◌, ◌≢◌, arith, Bool, true, false, not, ◌&&◌, ◌||◌, ltb, ◌==◌,
  sub32, u32, Bool-cases, inl, inr,
}
use increase_ipc_throughput.Console.{
  input_buf_size, Cons, ctrl_h, ctrl_p, ctrl_u, delete, new_line, kill_from,
}

-- The indices are `uint`s; from `r` on there come the lines up to `w`, and the line that is being
-- edited up to `e`, no more than the ring holds.
pub record IsValid (c : Cons) : Type 0 where
  pub r_fits : c.r < u32
  pub w_fits : c.w < u32
  pub e_fits : c.e < u32
  pub lines_le : sub32 c.w c.r ≤ sub32 c.e c.r
  pub edit_le : sub32 c.e c.r ≤ input_buf_size

-- `d` comes from `c` by what was typed: no character changed, neither of the finished lines nor of
-- the line that is being edited; if the reader is woken, that line and `ch` behind it are finished
-- too; if `took`, `ch` is stored at its end, elsewhere it gets no longer.
pub record Keeps (ch : ℕ) (took woke : Bool) (c d : Cons) : Type 0 where
  pub valid : IsValid d
  pub r_kept : d.r ≡ c.r
  pub kept :
      (j : ℕ)
      → j < sub32 c.e c.r
      → d.buf ((c.r + j) % u32 % input_buf_size) ≡ c.buf ((c.r + j) % u32 % input_buf_size)
  pub finished : woke ≡ true → (d.w ≡ d.e) × (sub32 d.w d.r ≡ sub32 c.e c.r + 1)
  pub unfinished : woke ≡ false → d.w ≡ c.w
  pub stored :
      took ≡ true → (sub32 d.e d.r ≡ sub32 c.e c.r + 1) × (d.buf (c.e % input_buf_size) ≡ ch)
  pub refused : took ≡ false → sub32 d.e d.r ≤ sub32 c.e c.r

-- The last character of the line that is being edited is taken away.
back-IsValid : (c : Cons) → IsValid c → c.e ≢ c.w → IsValid (record c { e = sub32 c.e 1 })
back-IsValid c v ne = record {
  r_fits = v.r_fits;
  w_fits = v.w_fits;
  e_fits = omega arith;
  lines_le = omega (arith, v.r_fits, v.w_fits, v.e_fits, v.lines_le, v.edit_le);
  edit_le = omega (arith, v.r_fits, v.w_fits, v.e_fits, v.lines_le, v.edit_le);
}

-- A state with the characters of `c`, and an edited line that is no longer.
record Shorter (c d : Cons) : Type 0 where
  valid : IsValid d
  same_r : d.r ≡ c.r
  same_w : d.w ≡ c.w
  same_buf : d.buf ≡ c.buf
  shorter : sub32 d.e d.r ≤ sub32 c.e c.r

-- Whether a character is one to be stored, and there is room for it.
abbrev pub is_stored : ℕ → Cons → Bool
is_stored ch c =
    not (ch == ctrl_p)
    && (not (ch == ctrl_u)
        && (not (ch == ctrl_h || ch == delete)
            && (not (ch == 0) && ltb (sub32 c.e c.r) input_buf_size)))

-- The fuel of the loop for ^U is enough: it ends at the start of the line that is being edited, or
-- behind a newline.
kill_from_lem :
    (f : ℕ) (c : Cons)
    → IsValid c
    → sub32 c.e c.w ≤ f
    → let d = kill_from f c in
      (d.e == d.w || d.buf (sub32 d.e 1 % input_buf_size) == new_line) ≡ true
unfolding kill_from
kill_from_lem zero c v le = ground (arith, v.e_fits, v.w_fits)
kill_from_lem (suc f) c v le =
    elim (Bool-cases (c.e == c.w || c.buf (sub32 c.e 1 % input_buf_size) == new_line)) [
      | inl stop ↦ rw stop stop
      | inr go ↦
          let ne : c.e ≢ c.w = ground arith in
          rw go (
            kill_from_lem f (record c { e = sub32 c.e 1 }) (back-IsValid c v ne)
              (omega (arith, v.e_fits, v.w_fits)))
    ]
