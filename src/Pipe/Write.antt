-- ===== src/Pipe/Write.antt =====
-- A round of the loop of `pipewrite` in kernel/pipe.c against a bounded queue of bytes.
use increase_ipc_throughput.Base.{
  ℕ, ◌+◌, ◌-◌, ◌≤◌, ◌<◌, ◌≡◌, refl, sym, ap, ◌∙◌, arith, add32, sub32, add64, Bool, true, false,
  not, ◌||◌, List, [], ◌++◌, append-nil, length, pos_part, Bool-cases, inl, inr, ltb, ltb→lt,
}
use increase_ipc_throughput.User.{UserSpace}
use increase_ipc_throughput.Pipe.{
  Version, Pipe, pipe_total, slot, till_end, used, is_full, write_chunk, landed, store, WriteJob,
  WriteNext, Wrote, write_copied, write_copy, write_iter,
}
use increase_ipc_throughput.Pipe.Ring.{slot_wrap, pipe_total_le}
use increase_ipc_throughput.Pipe.Chunk.{nwrite-eq, write_chunk_bounds}
use increase_ipc_throughput.Pipe.Contents.{
  IsValid, window, contents, window-store, window-store_keep,
}

-- What the job is after a round that took some bytes.
abbrev pub Continues : WriteJob → List ℕ → WriteNext → Type 0
Continues j took (WriteNext.again j') =
    (0 < length took)
    × (j'.i ≡ j.i + length took)
    × (j'.i ≤ pos_part j.n)
    × (j'.n ≡ j.n)
    × (j'.addr ≡ j.addr)
    × (j'.need_wakeup ≡ j.need_wakeup)
Continues j took (WriteNext.block j') = (took ≡ []) × (j' ≡ record j { need_wakeup = true })
Continues j took (WriteNext.finish w r) = took ≡ []

-- A round appends the bytes that it took to the queue, and touches nothing else of the pipe.
pub record Appends (u : UserSpace) (v : Version) (p : Pipe) (j : WriteJob) (o : Wrote u)
    : Type 0 where
  pub valid : IsValid v o.pipe
  pub appended : contents v o.pipe ≡ contents v p ++ o.took
  pub nread_kept : o.pipe.nread ≡ p.nread
  pub readopen_kept : o.pipe.readopen ≡ p.readopen
  pub writeopen_kept : o.pipe.writeopen ≡ p.writeopen
  pub continues : Continues j o.took o.next

length-landed :
    (v : Version) (ok : Bool) (bytes : List ℕ) → length (landed v ok bytes) ≤ length bytes
unfolding landed
length-landed v ok bytes = ground arith

landed-true : (v : Version) (bytes : List ℕ) → landed v true bytes ≡ bytes
unfolding landed
landed-true v bytes = ground arith

module _ (v : Version) (p : Pipe) (valid : IsValid v p) where
  at : slot v p.nwrite ≡ slot v (p.nread + used p)
  at = ap (slot v) (nwrite-eq v valid) ∙ slot_wrap v (p.nread + used p)

  -- The pipe after `bytes` were stored at the writer's offset.
  stored :
      (bytes : List ℕ)
      → used p + length bytes ≤ pipe_total v
      → length bytes ≤ till_end v (p.nread + used p)
      → window v (store p.buf (slot v p.nwrite) bytes) p.nread (used p + length bytes)
        ≡ contents v p ++ bytes
  stored bytes q h = rw (at) (window-store v p.buf p.nread (used p) bytes q h)

  kept :
      (bytes : List ℕ)
      → used p + length bytes ≤ pipe_total v
      → length bytes ≤ till_end v (p.nread + used p)
      → window v (store p.buf (slot v p.nwrite) bytes) p.nread (used p) ≡ contents v p
  kept bytes q h = rw (at) (window-store_keep v p.buf p.nread (used p) bytes q h)

  module _ (u : UserSpace) where
    open u use {Space, copyin, length-copyin_ok, length-copyin_le}

    write_copied-Appends :
        (j : WriteJob) (k : ℕ) (ok : Bool) (bytes : List ℕ) (s : Space)
        → (0 < k)
          × (j.i + k ≤ pos_part j.n)
          × (used p + k ≤ pipe_total v)
          × (k ≤ till_end v (p.nread + used p))
        → (ok ≡ true → length bytes ≡ k)
        → length bytes ≤ k
        → Appends u v p j (write_copied u v p j k ok bytes s)
    unfolding write_copied
    write_copied-Appends j k true bytes s b full short = record {
      valid = record {
        nread_fits = valid.nread_fits;
        nwrite_fits = omega arith;
        used_le = omega (arith, moved);
      };
      appended =
          rw (moved, landed-true v bytes, ← full refl)
            (stored bytes (omega (arith, full refl)) (omega (arith, full refl)));
      nread_kept = refl;
      readopen_kept = refl;
      writeopen_kept = refl;
      continues =
          (omega (arith, full refl), omega (arith, full refl), omega arith, refl, refl, refl);
    }
      where
        moved : sub32 (add32 p.nwrite k) p.nread ≡ used p + k
        moved = omega (arith, pipe_total_le v, valid.nwrite_fits, valid.nread_fits)
    write_copied-Appends j k false bytes s b full short = record {
      valid = record {
        nread_fits = valid.nread_fits;
        nwrite_fits = valid.nwrite_fits;
        used_le = valid.used_le;
      };
      appended =
          kept (landed v false bytes) (omega (arith, length-landed v false bytes))
            (omega (arith, length-landed v false bytes))
          ∙ sym (append-nil _);
      nread_kept = refl;
      readopen_kept = refl;
      writeopen_kept = refl;
      continues = refl;
    }

    write_copy-Appends :
        (s : Space) (j : WriteJob)
        → ltb j.i (pos_part j.n) ≡ true
        → is_full v p ≡ false
        → Appends u v p j (write_copy u v p s j)
    unfolding write_copy
    write_copy-Appends s j more room =
        write_copied-Appends j k (got).0 got.1 got.2
          (omega (
            arith,
            ltb→lt j.i (pos_part j.n) more,
            write_chunk_bounds v valid (pos_part j.n - j.i)
                (omega (arith, ltb→lt j.i (pos_part j.n) more)) room,
          ))
          (length-copyin_ok s (add64 j.addr j.i) k) (length-copyin_le s (add64 j.addr j.i) k)
      where
        k : ℕ
        k = write_chunk v p (pos_part j.n - j.i)

        got : Bool × List ℕ × Space
        got = copyin s (add64 j.addr j.i) k

    unchanged :
        (s : Space) (j : WriteJob) (next : WriteNext)
        → Continues j [] next
        → Appends u v p j (record { pipe = p; space = s; took = []; next = next })
    unchanged s j next c = record {
      valid = valid;
      appended = sym (append-nil _);
      nread_kept = refl;
      readopen_kept = refl;
      writeopen_kept = refl;
      continues = c;
    }

    -- Whatever the state of the process and its memory, a round of `pipewrite` leaves the pipe valid,
    -- with the bytes that it took behind those that were there.
    pub write_iter-Appends :
        (killed : Bool) (s : Space) (j : WriteJob) → Appends u v p j (write_iter u v killed p s j)
    unfolding write_iter
    write_iter-Appends killed s j = elim (Bool-cases (ltb j.i (pos_part j.n))) [
      | inr done ↦ rw done (unchanged s j _ refl)
      | inl more ↦ rw more (elim (Bool-cases (not p.readopen || killed)) [
        | inl gone ↦ rw gone (unchanged s j _ refl)
        | inr alive ↦ rw alive (elim (Bool-cases (is_full v p)) [
          | inl full ↦ rw full (unchanged s j _ (refl, refl))
          | inr room ↦ rw room (write_copy-Appends s j more room)
        ])
      ])
    ]
