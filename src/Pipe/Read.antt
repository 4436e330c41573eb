-- ===== src/Pipe/Read.antt =====
-- A round of the loops of `piperead` in kernel/pipe.c against a bounded queue of bytes.
use increase_ipc_throughput.Base.{
  ℕ, ◌+◌, ◌-◌, ◌≤◌, ◌<◌, ◌≡◌, refl, arith, add32, sub32, add64, Bool, true, false, List, [], ◌++◌,
  length, pos, pos_part, Bool-cases, inl, inr, ltb, ltb→lt,
}
use increase_ipc_throughput.User.{UserSpace}
use increase_ipc_throughput.Pipe.{
  Version, Pipe, slot, till_end, used, is_empty, read_chunk, bytewise, load, ReadJob, ReadNext,
  Gave, read_copied, read_copy, read_iter, read_wakes,
}
use increase_ipc_throughput.Pipe.Ring.{pipe_total_le}
use increase_ipc_throughput.Pipe.Chunk.{read_chunk_bounds}
use increase_ipc_throughput.Pipe.Contents.{
  IsValid, window-append, length-window, contents, load-window, window_wrap,
}

-- What the job is after a round that gave some bytes.
abbrev pub Continues : ReadJob → List ℕ → ReadNext → Type 0
Continues j gave (ReadNext.again j') =
    (0 < length gave)
    × (j'.i ≡ j.i + length gave)
    × (j'.i ≤ pos_part j.n)
    × (j'.n ≡ j.n)
    × (j'.addr ≡ j.addr)
    × (j'.was_full ≡ j.was_full)
Continues j gave (ReadNext.finish w r) = gave ≡ []

-- A round takes bytes from the front of the queue, and touches nothing else of the pipe.
pub record Consumes (u : UserSpace) (v : Version) (p : Pipe) (j : ReadJob) (o : Gave u)
    : Type 0 where
  pub valid : IsValid v o.pipe
  pub consumed : contents v p ≡ o.gave ++ (o.lost ++ contents v o.pipe)
  pub none_lost : bytewise v ≡ false → o.lost ≡ []
  pub nwrite_kept : o.pipe.nwrite ≡ p.nwrite
  pub readopen_kept : o.pipe.readopen ≡ p.readopen
  pub writeopen_kept : o.pipe.writeopen ≡ p.writeopen
  pub continues : Continues j o.gave o.next

module _ (v : Version) (p : Pipe) (valid : IsValid v p) where
  -- Moving `nread` on by `k` drops the `k` bytes that are loaded.
  module _ (k : ℕ) (le : k ≤ used p) (run : k ≤ till_end v p.nread) where
    moved_used : sub32 p.nwrite (add32 p.nread k) ≡ used p - k
    moved_used = omega (arith, pipe_total_le v, valid.nwrite_fits, valid.nread_fits, valid.used_le)

    moved-IsValid : IsValid v (record p { nread = add32 p.nread k })
    moved-IsValid = record {
      nread_fits = omega arith;
      nwrite_fits = valid.nwrite_fits;
      used_le = omega (arith, moved_used, valid.used_le);
    }

    loaded :
        contents v p
        ≡ load p.buf (slot v p.nread) k ++ contents v (record p { nread = add32 p.nread k })
    loaded = rw (moved_used, load-window v p.buf p.nread k run, window_wrap, ← window-append, whole)
      where
        whole : k + (used p - k) ≡ used p
        whole = omega arith

    length-loaded : length (load p.buf (slot v p.nread) k) ≡ k
    length-loaded = rw (load-window v p.buf p.nread k run) (length-window v p.buf p.nread k)

  module _ (u : UserSpace) where
    open u use {Space, copyout}

    read_copied-Consumes :
        (j : ReadJob) (k : ℕ) (ok : Bool) (s : Space)
        → (0 < k) × (j.i + k ≤ pos_part j.n) × (k ≤ used p) × (k ≤ till_end v p.nread)
        → Consumes u v p j (read_copied u v p j k (load p.buf (slot v p.nread) k) ok s)
    unfolding read_copied
    read_copied-Consumes j k true s b = record {
      valid = moved-IsValid k b.2 b.3;
      consumed = loaded k b.2 b.3;
      none_lost = λ _. refl;
      nwrite_kept = refl;
      readopen_kept = refl;
      writeopen_kept = refl;
      continues = (
        omega (arith, length-loaded k b.2 b.3),
        omega (arith, length-loaded k b.2 b.3),
        omega arith,
        refl,
        refl,
        refl,
      );
    }
    read_copied-Consumes j k false s b = elim (Bool-cases (bytewise v)) [
      | inl one ↦ rw one (record {
        valid = moved-IsValid k b.2 b.3;
        consumed = loaded k b.2 b.3;
        none_lost = λ no_bytes. cc;
        nwrite_kept = refl;
        readopen_kept = refl;
        writeopen_kept = refl;
        continues = refl;
      })
      | inr bulk ↦ rw bulk (record {
        valid = valid;
        consumed = refl;
        none_lost = λ _. refl;
        nwrite_kept = refl;
        readopen_kept = refl;
        writeopen_kept = refl;
        continues = refl;
      })
    ]

    read_copy-Consumes :
        (s : Space) (j : ReadJob)
        → ltb j.i (pos_part j.n) ≡ true
        → is_empty p ≡ false
        → Consumes u v p j (read_copy u v p s j)
    unfolding read_copy
    read_copy-Consumes s j more some_left = read_copied-Consumes j k got.0 got.1 (
        omega (
          arith,
          ltb→lt j.i (pos_part j.n) more,
          read_chunk_bounds v valid (pos_part j.n - j.i)
              (omega (arith, ltb→lt j.i (pos_part j.n) more)) some_left,
        ))
      where
        k : ℕ
        k = read_chunk v p (pos_part j.n - j.i)

        got : Bool × Space
        got = copyout s (add64 j.addr j.i) (load p.buf (slot v p.nread) k)

    -- A round of `piperead` leaves the pipe valid, and takes from the front of its bytes those that it
    -- gives to the user; only v1 may lose some.
    pub read_iter-Consumes : (s : Space) (j : ReadJob) → Consumes u v p j (read_iter u v p s j)
    unfolding read_iter
    read_iter-Consumes s j = elim (Bool-cases (ltb j.i (pos_part j.n))) [
      | inr done ↦ rw done unchanged
      | inl more ↦ rw more (elim (Bool-cases (is_empty p)) [
        | inl none_left ↦ rw none_left unchanged
        | inr some_left ↦ rw some_left (read_copy-Consumes s j more some_left)
      ])
    ]
      where
        unchanged : Consumes u v p j (record {
          pipe = p;
          space = s;
          gave = [];
          lost = [];
          next = ReadNext.finish (read_wakes v j) (pos j.i);
        })
        unchanged = record {
          valid = valid;
          consumed = refl;
          none_lost = λ _. refl;
          nwrite_kept = refl;
          readopen_kept = refl;
          writeopen_kept = refl;
          continues = refl;
        }
