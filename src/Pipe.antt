-- ===== src/Pipe.antt =====
-- kernel/pipe.c: `struct pipe`, the sizes of its eight versions and one round of each loop.
-- The `#if PIPE_VERSION` blocks are the clauses of functions on `Version`.
pub mod Contents
pub mod Ring
pub mod Bounds
pub mod Calls
pub mod Outcome
pub mod Read
pub mod Write
pub mod Chunk
use increase_ipc_throughput.Base.{
  ℕ, zero, suc, ◌+◌, ◌-◌, ◌*◌, ◌/◌, ◌%◌, Bool, true, false, not, ◌&&◌, ◌||◌, List, [], ◌∷◌, ltb,
  ◌==◌, if◌then◌else◌, update, add32, sub32, add64, ℤ, pos, minus_one, pos_part,
}
use increase_ipc_throughput.User.{UserSpace}

-- `PIPE_VERSION`.
pub data Version : Type 0 where
  v1 v2 v3 v4 v5 v6 v7 v8 : Version

-- `PIPESIZE` of v1 and v2, `BUFSIZE` of v3.
abbrev pub buf_size : ℕ
buf_size = 512

-- `PIPE_TOTAL`: one buffer, `N_BUFS` buffers, or a page.
abbrev pub pipe_total : Version → ℕ
pipe_total v1 = buf_size
pipe_total v2 = buf_size
pipe_total v3 = 4 * buf_size
pipe_total v4 = 4096
pipe_total v5 = 4096
pipe_total v6 = 4096
pipe_total v7 = 4096
pipe_total v8 = 4096

-- `PIPE_VERSION >= 5`: `wakeup` is called only where a peer may sleep.
abbrev pub lazy : Version → Bool
lazy v1 = false
lazy v2 = false
lazy v3 = false
lazy v4 = false
lazy v5 = true
lazy v6 = true
lazy v7 = true
lazy v8 = true

-- `PIPE_VERSION == 1`: a byte at a time.
abbrev pub bytewise : Version → Bool
bytewise v1 = true
bytewise v2 = false
bytewise v3 = false
bytewise v4 = false
bytewise v5 = false
bytewise v6 = false
bytewise v7 = false
bytewise v8 = false

-- `struct pipe` without its lock. `buf` is `data`, from the offset of a byte; v3's
-- `data[i][j]` is the byte at `i * BUFSIZE + j`.
pub record Pipe : Type 0 where
  pub buf : ℕ → ℕ
  pub nread : ℕ
  pub nwrite : ℕ
  pub readopen : Bool
  pub writeopen : Bool

abbrev pub umin : ℕ → ℕ → ℕ
umin a b = if ltb a b then a else b

-- The offset in `data` of the byte that counter `x` numbers.
unfoldable pub slot : Version → ℕ → ℕ
slot v3 x = x % pipe_total v3 / buf_size * buf_size + x % pipe_total v3 % buf_size
slot v1 x = x % pipe_total v1
slot v x = x % pipe_total v

-- `till_wrap`, in v3 `till_buf_end`: the bytes from that offset to the end of its buffer.
unfoldable pub till_end : Version → ℕ → ℕ
till_end v3 x = sub32 buf_size (x % pipe_total v3 % buf_size)
till_end v1 x = sub32 (pipe_total v1) (x % pipe_total v1)
till_end v x = sub32 (pipe_total v) (x % pipe_total v)

-- `nwrite - nread`, the bytes in the pipe.
abbrev pub used : Pipe → ℕ
used p = sub32 p.nwrite p.nread

unfoldable pub is_full : Version → Pipe → Bool
is_full v p = p.nwrite == add32 p.nread (pipe_total v)

unfoldable pub is_empty : Pipe → Bool
is_empty p = p.nread == p.nwrite

-- `to_copy` of `pipewrite` and of `piperead`, with `left` for `n - i`; v1 copies one byte.
unfoldable pub write_chunk : Version → Pipe → ℕ → ℕ
write_chunk v p left =
    if bytewise v then 1 else umin left (umin (sub32 (pipe_total v) (used p)) (till_end v p.nwrite))

unfoldable pub read_chunk : Version → Pipe → ℕ → ℕ
read_chunk v p left = if bytewise v then 1 else umin left (umin (used p) (till_end v p.nread))

-- Bytes stored from an offset on, and loaded from one.
unfoldable pub store : (ℕ → ℕ) → ℕ → List ℕ → ℕ → ℕ
store buf at [] = buf
store buf at (x ∷ xs) = store (update buf at x) (at + 1) xs

unfoldable pub load : (ℕ → ℕ) → ℕ → ℕ → List ℕ
load buf at zero = []
load buf at (suc n) = buf at ∷ load buf (at + 1) n

-- The locals of `pipewrite` at the head of its loop. `n` is an `int`, `i` is never negative.
-- Only v5 and later have `need_wakeup`; the others do not read it.
pub record WriteJob : Type 0 where
  pub addr : ℕ
  pub n : ℤ
  pub i : ℕ
  pub need_wakeup : Bool

-- How a round of the loop of `pipewrite` ends.
pub data WriteNext : Type 0 where
  -- at the loop's test again
  again : WriteJob → WriteNext
  -- after `wakeup(&pi->nread)`, in `sleep(&pi->nwrite, &pi->lock)`
  block : WriteJob → WriteNext
  -- returns the number, after `wakeup(&pi->nread)` if the Boolean holds, and `release`
  finish : Bool → ℤ → WriteNext

-- The locals of `piperead` at the head of its second loop.
pub record ReadJob : Type 0 where
  pub addr : ℕ
  pub n : ℤ
  pub i : ℕ
  pub was_full : Bool

pub data ReadNext : Type 0 where
  again : ReadJob → ReadNext
  -- returns the number, after `wakeup(&pi->nwrite)` if the Boolean holds, and `release`
  finish : Bool → ℤ → ReadNext

-- How a round of the waiting loop of `piperead` ends.
pub data WaitNext : Type 0 where
  -- in `sleep(&pi->nread, &pi->lock)`
  block : WaitNext
  -- returns -1 with no `wakeup`
  fail : WaitNext
  -- past the loop
  ready : ReadJob → WaitNext

-- Whether `pipewrite` calls `wakeup` at its end.
unfoldable pub write_wakes : Version → WriteJob → Bool
write_wakes v j = if lazy v then j.need_wakeup && ltb 0 j.i else true

-- Whether `piperead` calls `wakeup` at its end, with the bytes read. The `i = -1` of a failed
-- first copy counts as none.
unfoldable pub read_wakes : Version → ReadJob → Bool
read_wakes v j = if lazy v then j.was_full && ltb 0 j.i else true

-- `pipewrite` up to its loop, with the lock held.
unfoldable pub write_start : Pipe → ℕ → ℤ → WriteJob
write_start p addr n = record { addr = addr; n = n; i = 0; need_wakeup = p.nwrite == p.nread }

-- One test of the waiting loop of `piperead`, with what follows it.
unfoldable pub read_wait : Version → Bool → Pipe → ℕ → ℤ → WaitNext
read_wait v killed p addr n =
    if is_empty p && p.writeopen
    then if killed then fail else WaitNext.block
    else ready (record { addr = addr; n = n; i = 0; was_full = is_full v p })

-- The bytes that reach `data` by a `copyin` of `pipewrite`: v1 copies into a local first, and
-- stores it if the copy succeeded.
unfoldable pub landed : Version → Bool → List ℕ → List ℕ
landed v ok bytes = if bytewise v && not ok then [] else bytes

module _ (u : UserSpace) where
  open u use {Space, copyin, copyout}

  -- `took` lists the bytes that entered the pipe, `gave` those that went to user memory, and `lost`
  -- those that left the pipe and did not arrive.
  pub record Wrote : Type 0 where
    pub pipe : Pipe
    pub space : Space
    pub took : List ℕ
    pub next : WriteNext

  pub record Gave : Type 0 where
    pub pipe : Pipe
    pub space : Space
    pub gave : List ℕ
    pub lost : List ℕ
    pub next : ReadNext

  -- What follows the `copyin` of `k` bytes in `pipewrite`: on success both counters move on, on a
  -- failure the loop breaks.
  unfoldable pub write_copied : Version → Pipe → WriteJob → ℕ → Bool → List ℕ → Space → Wrote
  write_copied v p j k true bytes s = record {
    pipe = record p {
      buf = store p.buf (slot v p.nwrite) (landed v true bytes);
      nwrite = add32 p.nwrite k;
    };
    space = s;
    took = bytes;
    next = WriteNext.again (record j { i = j.i + k });
  }
  write_copied v p j k false bytes s = record {
    pipe = record p { buf = store p.buf (slot v p.nwrite) (landed v false bytes) };
    space = s;
    took = [];
    next = WriteNext.finish (write_wakes v j) (pos j.i);
  }

  -- The copy of `pipewrite`, where there is room.
  unfoldable pub write_copy : Version → Pipe → Space → WriteJob → Wrote
  write_copy v p s j =
      let k = write_chunk v p (pos_part j.n - j.i) in
      let (ok, bytes, s') = copyin s (add64 j.addr j.i) k in write_copied v p j k ok bytes s'

  -- One round of the loop of `pipewrite`; `killed` is what `killed(pr)` returns in it.
  -- With `0 <= i`, `i < n` is `i < pos_part n`.
  unfoldable pub write_iter : Version → Bool → Pipe → Space → WriteJob → Wrote
  write_iter v killed p s j =
      if ltb j.i (pos_part j.n)
      then if not p.readopen || killed
        then record { pipe = p; space = s; took = []; next = WriteNext.finish false minus_one }
        else if is_full v p
        then record {
          pipe = p;
          space = s;
          took = [];
          next = WriteNext.block (record j { need_wakeup = true });
        }
        else write_copy v p s j
      else record {
        pipe = p;
        space = s;
        took = [];
        next = WriteNext.finish (write_wakes v j) (pos j.i);
      }

  -- What follows the `copyout` of `k` bytes in `piperead`. v1 moves `nread` before the copy, the
  -- others after it.
  unfoldable pub read_copied : Version → Pipe → ReadJob → ℕ → List ℕ → Bool → Space → Gave
  read_copied v p j k bytes true s = record {
    pipe = record p { nread = add32 p.nread k };
    space = s;
    gave = bytes;
    lost = [];
    next = ReadNext.again (record j { i = j.i + k });
  }
  read_copied v p j k bytes false s = record {
    pipe = if bytewise v then record p { nread = add32 p.nread k } else p;
    space = s;
    gave = [];
    lost = if bytewise v then bytes else [];
    next =
        ReadNext.finish (read_wakes v j)
          (if not (bytewise v) && j.i == 0 then minus_one else pos j.i);
  }

  -- The copy of `piperead`, where there are bytes.
  unfoldable pub read_copy : Version → Pipe → Space → ReadJob → Gave
  read_copy v p s j =
      let k = read_chunk v p (pos_part j.n - j.i) in
      let bytes = load p.buf (slot v p.nread) k in
      let (ok, s') = copyout s (add64 j.addr j.i) bytes in read_copied v p j k bytes ok s'

  -- One round of the second loop of `piperead`.
  unfoldable pub read_iter : Version → Pipe → Space → ReadJob → Gave
  read_iter v p s j =
      if ltb j.i (pos_part j.n) && not (is_empty p) then read_copy v p s j else record {
        pipe = p;
        space = s;
        gave = [];
        lost = [];
        next = ReadNext.finish (read_wakes v j) (pos j.i);
      }
