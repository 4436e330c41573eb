-- ===== src/Console.antt =====
-- The input of kernel/console.c: the ring of `cons` with its three indices, `consoleintr`, and one
-- round of the loop of `consoleread`. The echo to the UART is left out.
pub mod Input
pub mod Read
use increase_ipc_throughput.Base.{
  Option, none, some, ℕ, zero, suc, ◌+◌, ◌%◌, Bool, true, false, not, ◌&&◌, ◌||◌, ltb, ◌==◌,
  if◌then◌else◌, update, add32, sub32,
}

abbrev pub input_buf_size : ℕ
input_buf_size = 128

-- `cons` without its lock.
pub record Cons : Type 0 where
  pub buf : ℕ → ℕ
  pub r : ℕ
  pub w : ℕ
  pub e : ℕ

-- The characters that `consoleintr` and `consoleread` look for.
abbrev pub ctrl_d : ℕ
ctrl_d = 4

abbrev pub ctrl_h : ℕ
ctrl_h = 8

abbrev pub new_line : ℕ
new_line = 10

abbrev pub carriage_return : ℕ
carriage_return = 13

abbrev pub ctrl_p : ℕ
ctrl_p = 16

abbrev pub ctrl_u : ℕ
ctrl_u = 21

abbrev pub delete : ℕ
delete = 127

-- The loop for ^U, with fuel.
unfoldable pub kill_from : ℕ → Cons → Cons
kill_from zero c = c
kill_from (suc f) c =
    let rest = kill_from f (record c { e = sub32 c.e 1 }) in
    if c.e == c.w || c.buf (sub32 c.e 1 % input_buf_size) == new_line then c else rest

-- One character less where there is one.
unfoldable pub erase : Cons → Cons
erase c = if c.e == c.w then c else record c { e = sub32 c.e 1 }

-- A character is stored: the state, and whether `wakeup(&cons.r)` is called.
unfoldable pub put : ℕ → Cons → Bool × Cons
put ch c =
    let c' = record c { buf = update c.buf (c.e % input_buf_size) ch; e = add32 c.e 1 } in
    if ch == new_line || (ch == ctrl_d || sub32 c'.e c'.r == input_buf_size)
    then (true, record c' { w = c'.e })
    else (false, c')

-- `consoleintr(ch)`.
unfoldable pub consoleintr : ℕ → Cons → Bool × Cons
consoleintr ch c =
    if ch == ctrl_p
    then (false, c)
    else if ch == ctrl_u
    then (false, kill_from (sub32 c.e c.w) c)
    else if ch == ctrl_h || ch == delete
    then (false, erase c)
    else if not (ch == 0) && ltb (sub32 c.e c.r) input_buf_size
    then put (if ch == carriage_return then new_line else ch) c
    else (false, c)

-- How a round of the loop of `consoleread` ends.
pub data ConsNext : Type 0 where
  -- in `sleep(&cons.r, &cons.lock)`
  block : ConsNext
  -- returns -1
  fail : ConsNext
  -- leaves the loop, with the character that reached the user, if one did
  stop : Option ℕ → ConsNext
  -- at the loop's test again, with the character that reached the user
  again : ℕ → ConsNext

-- One round of the loop of `consoleread`, with `n` characters left of `target`, up to a `sleep`;
-- `killed` is what `killed` returns in it, and `ok` whether `either_copyout` succeeds.
unfoldable pub read_char : Bool → Bool → ℕ → ℕ → Cons → ConsNext × Cons
read_char killed ok target n c =
    if c.r == c.w
    then (if killed then fail else block, c)
    else let ch = c.buf (c.r % input_buf_size) in
      let c' = record c { r = add32 c.r 1 } in
      if ch == ctrl_d
      then (stop none, if ltb n target then record c' { r = sub32 c'.r 1 } else c')
      else if not ok
      then (stop none, c')
      else (if ch == new_line then stop (some ch) else again ch, c')
