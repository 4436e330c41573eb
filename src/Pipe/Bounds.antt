-- ===== src/Pipe/Bounds.antt =====
-- The copies of kernel/pipe.c stay inside `data`, and their lengths inside an `int`.
use increase_ipc_throughput.Base.{ℕ, ◌+◌, ◌%◌, ◌≤◌, ◌<◌, ◌≡◌, sym, ap, ◌∙◌, arith, false, subst}
use increase_ipc_throughput.Pipe.{
  Version, v3, Pipe, pipe_total, buf_size, slot, till_end, used, is_full, is_empty, write_chunk,
  read_chunk,
}
use increase_ipc_throughput.Pipe.Ring.{slot-add-le-total, till_end_wrap}
use increase_ipc_throughput.Pipe.Chunk.{nwrite-eq, write_chunk_bounds, read_chunk_bounds}
use increase_ipc_throughput.Pipe.Contents.{IsValid}

-- In v3 a run that ends by `till_end` stays in the sub-buffer where it starts.
pub in_one_buffer : (x k : ℕ) → k ≤ till_end v3 x → slot v3 x % buf_size + k ≤ buf_size
unfolding slot till_end
in_one_buffer x k h = omega arith

module _ (v : Version) {p : Pipe} (valid : IsValid v p) (left : ℕ) (some_left : 0 < left) where
  -- What `pipewrite` copies in one round fits behind the offset where it starts, in v3 in the same
  -- buffer of 512 bytes; it is not empty, and no more than was asked for.
  pub write_in_bounds :
      is_full v p ≡ false
      → (slot v p.nwrite + write_chunk v p left ≤ pipe_total v)
        × (v ≡ v3 → slot v3 p.nwrite % buf_size + write_chunk v p left ≤ buf_size)
        × (0 < write_chunk v p left)
        × (write_chunk v p left ≤ left)
  write_in_bounds room = (
    slot-add-le-total v p.nwrite k fits,
    (λ e. in_one_buffer p.nwrite k (subst (λ w. k ≤ till_end w p.nwrite) e fits)),
    b.0,
    b.1,
  )
    where
      k : ℕ
      k = write_chunk v p left

      b : (0 < k) × (k ≤ left) × (used p + k ≤ pipe_total v) × (k ≤ till_end v (p.nread + used p))
      b = write_chunk_bounds v valid left some_left room

      fits : k ≤ till_end v p.nwrite
      fits =
          subst (λ n. k ≤ n)
            (sym (ap (till_end v) (nwrite-eq v valid) ∙ till_end_wrap v (p.nread + used p))) b.3

  -- What `piperead` copies in one round is there, and ends before the end of `data`, in v3 of the
  -- buffer where it starts.
  pub read_in_bounds :
      is_empty p ≡ false
      → (slot v p.nread + read_chunk v p left ≤ pipe_total v)
        × (v ≡ v3 → slot v3 p.nread % buf_size + read_chunk v p left ≤ buf_size)
        × (0 < read_chunk v p left)
        × (read_chunk v p left ≤ left)
        × (read_chunk v p left ≤ used p)
  read_in_bounds some_there = (
    slot-add-le-total v p.nread k b.3,
    (λ e. in_one_buffer p.nread k (subst (λ w. k ≤ till_end w p.nread) e b.3)),
    b.0,
    b.1,
    b.2,
  )
    where
      k : ℕ
      k = read_chunk v p left

      b : (0 < k) × (k ≤ left) × (k ≤ used p) × (k ≤ till_end v p.nread)
      b = read_chunk_bounds v valid left some_left some_there
