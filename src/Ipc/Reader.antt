-- ===== src/Ipc/Reader.antt =====
-- The rounds of both loops of `piperead` keep the invariant of `Ipc`.
use increase_ipc_throughput.Base.{
  ℕ, ◌+◌, ◌<◌, ◌≡◌, ◌≢◌, refl, sym, ◌∙◌, arith, Bool, true, false, none, some, update, update_self,
  List, [], ◌++◌, append-nil, append_assoc, length, ℤ, ap, ap₂,
}
use increase_ipc_throughput.User.{UserSpace}
use increase_ipc_throughput.Pipe.{
  Version, Pipe, used, bytewise, ReadJob, ReadNext, WaitNext, Gave, read_iter, read_wakes,
}
use increase_ipc_throughput.Pipe.Chunk.{not_full, empty}
use increase_ipc_throughput.Pipe.Contents.{IsValid, contents}
use increase_ipc_throughput.Pipe.Read.{Consumes, Continues, read_iter-Consumes}
use increase_ipc_throughput.Pipe.Outcome.{
  ReadReason, read_iter-ReadReason, used-Consumes, bytewise_of_silent, WaitReason,
  read_wait-WaitReason,
}
use increase_ipc_throughput.Pipe.Ring.{pipe_total_pos}
use increase_ipc_throughput.Proc.{nproc, running, sleep}
use increase_ipc_throughput.Proc.Asleep.{
  asleep, asleep-wakeup, asleep-wakeup_none, killed-wakeup, asleep-sleep, killed-sleep,
}
use increase_ipc_throughput.Layout.{chan_ne}
use increase_ipc_throughput.Ipc.{
  Pc, outside, read_loop, read_test, read_sleep, in_lock, System, rd, wr, wake_if, after_read,
  read_round, after_wait, test_round, Runs,
}
use increase_ipc_throughput.Ipc.Inv.{Inv, by_holder, owes_readers, owes_writers}
use increase_ipc_throughput.Ipc.Keep.{Knows-update, others-outside, owner-update}

module _ (u : UserSpace) (v : Version) (pipe_at : ℕ) (kills : Bool) where
  -- What is known of the system before the step of a reader that has the lock, and of the pipe
  -- after it.
  record Ctx (s : System u) (i : ℕ) (j : ReadJob) (p' : Pipe) (gave lost : List ℕ) : Type 0 where
    inv : Inv u v pipe_at kills s
    runs : (s.table i).state ≡ running
    at : s.pc i ≡ read_loop j
    holds : s.lock ≡ some i
    shrunk : used s.pipe ≡ length gave + (length lost + used p')
    valid' : IsValid v p'
    consumed : contents v s.pipe ≡ gave ++ (lost ++ contents v p')
    none_lost : bytewise v ≡ false → lost ≡ []

  module _ {s : System u} {i : ℕ} {j : ReadJob} {p' : Pipe} {gave lost : List ℕ}
      (c : Ctx s i j p' gave lost) where
    open c use {inv, runs, at, holds, shrunk, valid', consumed, none_lost}

    others : (k : ℕ) → k ≢ i → in_lock (s.pc k) ≡ false
    others = others-outside s.lock s.pc i holds inv.owner

    stream' : s.sent ≡ (s.left ++ (gave ++ lost)) ++ contents v p'
    stream' =
        inv.stream
        ∙ ap (λ l. s.left ++ l) consumed
        ∙ sym (
            append_assoc s.left (gave ++ lost) (contents v p')
            ∙ ap (λ l. s.left ++ l) (append_assoc gave lost (contents v p')))

    arrived' : bytewise v ≡ false → s.got ++ gave ≡ s.left ++ (gave ++ lost)
    arrived' h =
        ap₂ ◌++◌ (inv.arrived h) (sym (ap (λ l. gave ++ l) (none_lost h) ∙ append-nil gave))

    owed_readers : by_holder (owes_readers v s.pipe) s.lock s.pc ≡ false
    owed_readers = rw (holds, at) refl

    owed_writers : by_holder (owes_writers v) s.lock s.pc ≡ read_wakes v j
    owed_writers = rw (holds, at) refl

    abbrev after : (ℕ → u.Space) → ReadNext → System u
    after m nx =
        after_read u v pipe_at i
          (record s { pipe = p'; space = m; left = s.left ++ (gave ++ lost); got = s.got ++ gave })
          nx

    -- The round goes on after a copy.
    again-Inv :
        (m : ℕ → u.Space) (j' : ReadJob)
        → Continues j gave (ReadNext.again j')
        → Inv u v pipe_at kills (after m (ReadNext.again j'))
    unfolding after_read read_wakes
    again-Inv m j' go = record {
      valid = valid';
      owner = owner-update s.lock s.pc i (read_loop j') (λ _. holds) others;
      knows =
          Knows-update v s.pipe p' s.pc i (read_loop j')
            (λ nf. omega (arith, shrunk, go.0, inv.valid.used_le)) others inv.knows;
      writers = λ k lt sl.
          rw (holds, update_self s.pc i (read_loop j'))
            (ground (arith, inv.writers k lt sl, owed_writers, shrunk, go, at, inv.knows i));
      readers = λ nk k lt sl. ground (arith, inv.readers nk k lt sl, owed_readers, shrunk, go.0);
      apart = inv.apart;
      alive = inv.alive;
      stream = stream';
      arrived = arrived';
    }

    -- The round returns, with a wake-up or without.
    finish-Inv :
        (m : ℕ → u.Space) (w : Bool) (r : ℤ)
        → gave ≡ []
        → w ≡ read_wakes v j
        → Inv u v pipe_at kills (after m (ReadNext.finish w r))
    unfolding after_read wake_if
    finish-Inv m true r none_given why = record {
      valid = valid';
      owner = owner-update none s.pc i outside (λ h. cc) others;
      knows = Knows-update v s.pipe p' s.pc i outside tt others inv.knows;
      writers = λ k lt sl.
          absurd (ground (arith, asleep-wakeup_none v i (wr u v pipe_at) s.table k lt runs));
      readers = λ nk k lt sl. ground (
        arith,
        shrunk,
        none_given,
        owed_readers,
        inv.readers nk k lt (asleep-wakeup v i (wr u v pipe_at) s.table k (rd u v pipe_at) sl),
      );
      apart = λ k l ltk ltl sl. asleep-wakeup_none v i (wr u v pipe_at) s.table l ltl runs;
      alive = λ nk k. killed-wakeup v i (wr u v pipe_at) s.table k ∙ inv.alive nk k;
      stream = stream';
      arrived = arrived';
    }
    finish-Inv m false r none_given why = record {
      valid = valid';
      owner = owner-update none s.pc i outside (λ h. cc) others;
      knows = Knows-update v s.pipe p' s.pc i outside tt others inv.knows;
      writers = λ k lt sl.
          ground (arith, shrunk, none_given, owed_writers, why, kept, inv.writers k lt sl);
      readers =
          λ nk k lt sl. ground (arith, shrunk, none_given, owed_readers, inv.readers nk k lt sl);
      apart = inv.apart;
      alive = inv.alive;
      stream = stream';
      arrived = arrived';
    }
      where
        kept : lost ≡ []
        kept = none_lost (bytewise_of_silent v j (sym why))

  -- A round of the second loop of `piperead` keeps the invariant.
  pub read_round-Inv :
      (s : System u) (i : ℕ) (j : ReadJob)
      → Inv u v pipe_at kills s
      → Runs u v pipe_at i s
      → s.pc i ≡ read_loop j
      → Inv u v pipe_at kills (read_round u v pipe_at i j s)
  unfolding read_round
  read_round-Inv s i j inv runs at =
      by_next o.next a.continues (read_iter-ReadReason u v s.pipe (s.space i) j)
    where
      o : Gave u
      o = read_iter u v s.pipe (s.space i) j

      a : Consumes u v s.pipe j o
      a = read_iter-Consumes v s.pipe inv.valid u (s.space i) j

      c : Ctx s i j o.pipe o.gave o.lost
      c = record {
        inv = inv;
        runs = runs.1;
        at = at;
        holds = inv.owner i (rw at refl);
        shrunk = used-Consumes u v s.pipe a;
        valid' = a.valid;
        consumed = a.consumed;
        none_lost = a.none_lost;
      }

      m : ℕ → u.Space
      m = update s.space i o.space

      by_next :
          (nx : ReadNext)
          → Continues j o.gave nx
          → ReadReason v j nx
          → Inv u v pipe_at kills (
              after_read u v pipe_at i
                (record s {
                  pipe = o.pipe;
                  space = m;
                  left = s.left ++ (o.gave ++ o.lost);
                  got = s.got ++ o.gave;
                })
                nx)
      by_next (ReadNext.again j') go why = again-Inv c m j' go
      by_next (ReadNext.finish w r) end_ why = finish-Inv c m w r end_ why

  module _ {s : System u} {i addr : ℕ} {n : ℤ} (inv : Inv u v pipe_at kills s)
      (runs : Runs u v pipe_at i s) (at : s.pc i ≡ read_test addr n) where
    holds' : s.lock ≡ some i
    holds' = inv.owner i (rw at refl)

    others' : (k : ℕ) → k ≢ i → in_lock (s.pc k) ≡ false
    others' = others-outside s.lock s.pc i holds' inv.owner

    none_owed : (f : Pc → Bool) → f (read_test addr n) ≡ false → by_holder f s.lock s.pc ≡ false
    none_owed f h = rw (holds', at) h

    after_wait-Inv :
        (nx : WaitNext)
        → WaitReason v (s.table i).killed s.pipe nx
        → Inv u v pipe_at kills (after_wait u v pipe_at i addr n s nx)
    unfolding after_wait
    after_wait-Inv WaitNext.block why = record {
      valid = inv.valid;
      owner = owner-update none s.pc i (read_sleep addr n) (λ h. cc) others';
      knows = Knows-update v s.pipe s.pipe s.pc i (read_sleep addr n) tt others' inv.knows;
      writers = λ k lt sl. absurd (ground (arith, no_writer k lt));
      readers = λ nk k lt sl. ground (arith, empty v inv.valid why.0);
      apart = λ k l ltk ltl sl. no_writer l ltl;
      alive = λ nk k. killed-sleep s.table i (rd u v pipe_at) k ∙ inv.alive nk k;
      stream = inv.stream;
      arrived = inv.arrived;
    }
      where
        no_writer :
            (k : ℕ)
            → k < nproc
            → asleep (update s.table i (sleep (rd u v pipe_at) (s.table i))) k (wr u v pipe_at)
              ≡ false
        no_writer k lt = ground (
          arith,
          asleep-sleep s.table i (rd u v pipe_at) k (wr u v pipe_at),
          chan_ne v pipe_at,
          inv.writers k lt,
          none_owed (owes_writers v) refl,
          empty v inv.valid why.0,
          pipe_total_pos v,
        )
    after_wait-Inv WaitNext.fail why = record {
      valid = inv.valid;
      owner = owner-update none s.pc i outside (λ h. cc) others';
      knows = Knows-update v s.pipe s.pipe s.pc i outside tt others' inv.knows;
      writers = λ k lt sl. ground (arith, inv.writers k lt sl, none_owed (owes_writers v) refl);
      readers = λ nk k lt sl. absurd (ground (arith, inv.alive nk i, why.1));
      apart = inv.apart;
      alive = inv.alive;
      stream = inv.stream;
      arrived = inv.arrived;
    }
    after_wait-Inv (WaitNext.ready j) why = record {
      valid = inv.valid;
      owner = owner-update s.lock s.pc i (read_loop j) (λ _. holds') others';
      knows =
          Knows-update v s.pipe s.pipe s.pc i (read_loop j)
            (λ nf. not_full v inv.valid (sym why.1 ∙ nf)) others' inv.knows;
      writers = λ k lt sl. ground (arith, inv.writers k lt sl, none_owed (owes_writers v) refl);
      readers = λ nk k lt sl.
          ground (arith, inv.readers nk k lt sl, none_owed (owes_readers v s.pipe) refl);
      apart = inv.apart;
      alive = inv.alive;
      stream = inv.stream;
      arrived = inv.arrived;
    }

  -- A test of the first loop of `piperead` keeps the invariant.
  pub test_round-Inv :
      (s : System u) (i addr : ℕ) (n : ℤ)
      → Inv u v pipe_at kills s
      → Runs u v pipe_at i s
      → s.pc i ≡ read_test addr n
      → Inv u v pipe_at kills (test_round u v pipe_at i addr n s)
  unfolding test_round
  test_round-Inv s i addr n inv runs at =
      after_wait-Inv inv runs at _ (read_wait-WaitReason v _ s.pipe addr n)
