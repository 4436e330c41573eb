-- ===== src/Pipe/Chunk.antt =====
-- The sizes that `pipewrite` and `piperead` copy at a time in kernel/pipe.c, and the tests of a
-- full and of an empty pipe on counters that wrap.
use increase_ipc_throughput.Base.{ℕ, ◌+◌, ◌%◌, ◌≤◌, ◌<◌, ◌≡◌, ap, ◌∙◌, arith, u32, true, false}
use increase_ipc_throughput.Pipe.{
  Version, Pipe, pipe_total, till_end, used, is_full, is_empty, write_chunk, read_chunk,
}
use increase_ipc_throughput.Pipe.Ring.{till_end_pos, till_end_wrap, pipe_total_le}
use increase_ipc_throughput.Pipe.Contents.{IsValid}

module _ (v : Version) {p : Pipe} (valid : IsValid v p) where
  open valid use {nread_fits, nwrite_fits, used_le}

  pub not_full : is_full v p ≡ false → used p < pipe_total v
  unfolding is_full
  not_full h = ground (arith, pipe_total_le v)

  pub full : is_full v p ≡ true → used p ≡ pipe_total v
  unfolding is_full
  full h = ground (arith, pipe_total_le v)

  pub empty : is_empty p ≡ true → used p ≡ 0
  unfolding is_empty
  empty h = ground arith

  pub not_empty : is_empty p ≡ false → 0 < used p
  unfolding is_empty
  not_empty h = ground arith

  -- `nwrite` is `nread` and the bytes between, up to the wrap.
  pub nwrite-eq : p.nwrite ≡ (p.nread + used p) % u32
  nwrite-eq = omega arith

  pub write_chunk_bounds :
      (left : ℕ)
      → 0 < left
      → is_full v p ≡ false
      → (0 < write_chunk v p left)
        × (write_chunk v p left ≤ left)
        × (used p + write_chunk v p left ≤ pipe_total v)
        × (write_chunk v p left ≤ till_end v (p.nread + used p))
  unfolding write_chunk
  write_chunk_bounds left h nf =
      ground (arith, not_full nf, pipe_total_le v, till_end_pos v p.nwrite, tie)
    where
      tie : till_end v p.nwrite ≡ till_end v (p.nread + used p)
      tie = ap (till_end v) nwrite-eq ∙ till_end_wrap v (p.nread + used p)

  pub read_chunk_bounds :
      (left : ℕ)
      → 0 < left
      → is_empty p ≡ false
      → (0 < read_chunk v p left)
        × (read_chunk v p left ≤ left)
        × (read_chunk v p left ≤ used p)
        × (read_chunk v p left ≤ till_end v p.nread)
  unfolding read_chunk
  read_chunk_bounds left h ne = ground (arith, not_empty ne, till_end_pos v p.nread)
