-- ===== src/Ipc/Writer.antt =====
-- A round of `pipewrite` keeps the invariant of `Ipc`.
use increase_ipc_throughput.Base.{
  ℕ, ◌+◌, ◌<◌, ◌≡◌, ◌≢◌, refl, sym, ◌∙◌, arith, Bool, true, false, ◌&&◌, none, some, update,
  update_self, List, [], ◌++◌, append_assoc, length, ℤ, ap,
}
use increase_ipc_throughput.User.{UserSpace}
use increase_ipc_throughput.Pipe.{
  Version, Pipe, pipe_total, used, WriteJob, WriteNext, Wrote, write_iter, write_wakes,
}
use increase_ipc_throughput.Pipe.Chunk.{full}
use increase_ipc_throughput.Pipe.Contents.{IsValid, contents}
use increase_ipc_throughput.Pipe.Write.{Appends, Continues, write_iter-Appends}
use increase_ipc_throughput.Pipe.Outcome.{WriteReason, write_iter-WriteReason, used-Appends}
use increase_ipc_throughput.Proc.{Table, nproc, running, wakeup, sleep}
use increase_ipc_throughput.Proc.Asleep.{
  asleep, asleep-wakeup, asleep-wakeup_none, killed-wakeup, asleep-sleep, killed-sleep,
}
use increase_ipc_throughput.Layout.{chan_ne}
use increase_ipc_throughput.Ipc.{
  outside, write_loop, write_sleep, in_lock, System, rd, wr, wake_if, after_write, write_round,
  Runs,
}
use increase_ipc_throughput.Ipc.Inv.{Inv, by_holder, owes_readers, owes_writers}
use increase_ipc_throughput.Ipc.Keep.{Knows-update, others-outside, owner-update}

module _ (u : UserSpace) (v : Version) (pipe_at : ℕ) (kills : Bool) where
  -- What is known of the system before the step of a writer that has the lock, and of the pipe
  -- after it.
  record Ctx (s : System u) (i : ℕ) (j : WriteJob) (p' : Pipe) (took : List ℕ) : Type 0 where
    inv : Inv u v pipe_at kills s
    inside : i < nproc
    runs : (s.table i).state ≡ running
    at : s.pc i ≡ write_loop j
    holds : s.lock ≡ some i
    grown : used p' ≡ used s.pipe + length took
    valid' : IsValid v p'
    appended : contents v p' ≡ contents v s.pipe ++ took
    same_end : p'.readopen ≡ s.pipe.readopen

  module _ {s : System u} {i : ℕ} {j : WriteJob} {p' : Pipe} {took : List ℕ}
      (c : Ctx s i j p' took) where
    open c use {inv, inside, runs, at, holds, grown, valid', appended, same_end}

    others : (k : ℕ) → k ≢ i → in_lock (s.pc k) ≡ false
    others = others-outside s.lock s.pc i holds inv.owner

    stream' : s.sent ++ took ≡ s.left ++ contents v p'
    stream' =
        ap (λ l. l ++ took) inv.stream
        ∙ append_assoc s.left (contents v s.pipe) took
        ∙ ap (λ l. s.left ++ l) (sym appended)

    owed_readers :
        by_holder (owes_readers v s.pipe) s.lock s.pc ≡ (write_wakes v j && s.pipe.readopen)
    owed_readers = rw (holds, at) refl

    owed_writers : by_holder (owes_writers v) s.lock s.pc ≡ false
    owed_writers = rw (holds, at) refl

    -- The round goes on after a copy.
    again-Inv :
        (m : ℕ → u.Space) (j' : WriteJob)
        → Continues j took (WriteNext.again j')
        → s.pipe.readopen ≡ true
        → Inv u v pipe_at kills (
            after_write u v pipe_at i
              (record s { pipe = p'; space = m; sent = s.sent ++ took })
              (WriteNext.again j'))
    unfolding after_write write_wakes
    again-Inv m j' go open_end = record {
      valid = valid';
      owner = owner-update s.lock s.pc i (write_loop j') (λ _. holds) others;
      knows =
          Knows-update v s.pipe p' s.pc i (write_loop j') (λ nw. omega (arith, grown, go.0)) others
            inv.knows;
      writers =
          λ k lt sl. ground (arith, inv.writers k lt sl, owed_writers, grown, go.0, valid'.used_le);
      readers = λ nk k lt sl.
          rw (holds, update_self s.pc i (write_loop j'))
            (ground (
              arith,
              inv.readers nk k lt sl,
              owed_readers,
              grown,
              go,
              at,
              inv.knows i,
              same_end,
              open_end,
            ));
      apart = inv.apart;
      alive = inv.alive;
      stream = stream';
      arrived = inv.arrived;
    }

    -- The round finds the pipe full, wakes the readers and sleeps.
    block-Inv :
        (m : ℕ → u.Space) (j' : WriteJob)
        → Continues j took (WriteNext.block j')
        → used s.pipe ≡ pipe_total v
        → Inv u v pipe_at kills (
            after_write u v pipe_at i
              (record s { pipe = p'; space = m; sent = s.sent ++ took })
              (WriteNext.block j'))
    unfolding after_write
    block-Inv m j' stop is_full' = record {
      valid = valid';
      owner = owner-update none s.pc i (write_sleep j') (λ h. cc) others;
      knows =
          Knows-update v s.pipe p' s.pc i (write_sleep j') (ground (arith, stop)) others inv.knows;
      writers = λ k lt sl. ground (arith, grown, stop, is_full');
      readers = λ nk k lt sl. absurd (no_reader k lt sl);
      apart = λ k l ltk ltl sl. absurd (no_reader k ltk sl);
      alive = λ nk k. killed-sleep woken i wr' k ∙ killed-wakeup v i rd' s.table k ∙ inv.alive nk k;
      stream = stream';
      arrived = inv.arrived;
    }
      where
        rd' : ℕ
        rd' = rd u v pipe_at

        wr' : ℕ
        wr' = wr u v pipe_at

        woken : Table
        woken = wakeup v i rd' s.table

        no_reader :
            (k : ℕ) → k < nproc → asleep (update woken i (sleep wr' (woken i))) k rd' ≡ true → ⊥
        no_reader k lt sl = ground (
          arith,
          asleep-sleep woken i wr' k rd',
          asleep-wakeup_none v i rd' s.table k lt runs,
          chan_ne v pipe_at,
        )

    -- The round returns, with a wake-up or without.
    finish-Inv :
        (m : ℕ → u.Space) (w : Bool) (r : ℤ)
        → took ≡ []
        → (w ≡ false → kills ≡ false → (write_wakes v j && s.pipe.readopen) ≡ false)
        → Inv u v pipe_at kills (
            after_write u v pipe_at i
              (record s { pipe = p'; space = m; sent = s.sent ++ took })
              (WriteNext.finish w r))
    unfolding after_write wake_if
    finish-Inv m true r none_taken why = record {
      valid = valid';
      owner = owner-update none s.pc i outside (λ h. cc) others;
      knows = Knows-update v s.pipe p' s.pc i outside tt others inv.knows;
      writers = λ k lt sl. ground (
        arith,
        grown,
        none_taken,
        owed_writers,
        inv.writers k lt (asleep-wakeup v i (rd u v pipe_at) s.table k (wr u v pipe_at) sl),
      );
      readers = λ nk k lt sl.
          absurd (ground (arith, asleep-wakeup_none v i (rd u v pipe_at) s.table k lt runs));
      apart = λ k l ltk ltl sl.
          absurd (ground (arith, asleep-wakeup_none v i (rd u v pipe_at) s.table k ltk runs));
      alive = λ nk k. killed-wakeup v i (rd u v pipe_at) s.table k ∙ inv.alive nk k;
      stream = stream';
      arrived = inv.arrived;
    }
    finish-Inv m false r none_taken why = record {
      valid = valid';
      owner = owner-update none s.pc i outside (λ h. cc) others;
      knows = Knows-update v s.pipe p' s.pc i outside tt others inv.knows;
      writers = λ k lt sl. ground (arith, grown, none_taken, owed_writers, inv.writers k lt sl);
      readers = λ nk k lt sl.
          ground (arith, grown, none_taken, owed_readers, why refl nk, inv.readers nk k lt sl);
      apart = inv.apart;
      alive = inv.alive;
      stream = stream';
      arrived = inv.arrived;
    }

  -- A round of `pipewrite` keeps the invariant.
  pub write_round-Inv :
      (s : System u) (i : ℕ) (j : WriteJob)
      → Inv u v pipe_at kills s
      → Runs u v pipe_at i s
      → s.pc i ≡ write_loop j
      → Inv u v pipe_at kills (write_round u v pipe_at i j s)
  unfolding write_round
  write_round-Inv s i j inv runs at =
      by_next o.next a.continues (write_iter-WriteReason u v s.pipe killed (s.space i) j)
    where
      killed : Bool
      killed = (s.table i).killed

      o : Wrote u
      o = write_iter u v killed s.pipe (s.space i) j

      a : Appends u v s.pipe j o
      a = write_iter-Appends v s.pipe inv.valid u killed (s.space i) j

      c : Ctx s i j o.pipe o.took
      c = record {
        inv = inv;
        inside = runs.0;
        runs = runs.1;
        at = at;
        holds = inv.owner i (rw at refl);
        grown = used-Appends u v s.pipe a;
        valid' = a.valid;
        appended = a.appended;
        same_end = a.readopen_kept;
      }

      m : ℕ → u.Space
      m = update s.space i o.space

      by_next :
          (nx : WriteNext)
          → Continues j o.took nx
          → WriteReason v killed s.pipe j nx
          → Inv u v pipe_at kills (
              after_write u v pipe_at i
                (record s { pipe = o.pipe; space = m; sent = s.sent ++ o.took })
                nx)
      by_next (WriteNext.again j') go why = again-Inv c m j' go why
      by_next (WriteNext.block j') stop why = block-Inv c m j' stop (full v inv.valid why.0)
      by_next (WriteNext.finish w r) end_ why =
          finish-Inv c m w r end_ (λ off nk. ground (arith, why, inv.alive nk i))
