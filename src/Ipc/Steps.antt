-- ===== src/Ipc/Steps.antt =====
-- Every step of `Ipc` keeps the invariant, which therefore holds in every reachable state.
use increase_ipc_throughput.Base.{
  ℕ, ◌≡◌, refl, sym, ◌∙◌, arith, Bool, true, false, none, some, update, Bool-cases, inl, inr, ◌⊎◌,
}
use increase_ipc_throughput.User.{UserSpace}
use increase_ipc_throughput.Pipe.{Version, write_start}
use increase_ipc_throughput.Proc.{Table, running, tidy_up}
use increase_ipc_throughput.Proc.Asleep.{
  asleep, asleep-wakeup, killed-wakeup, asleep-dispatch, killed-dispatch, asleep-yield,
  killed-yield, asleep-tidy_up, killed-tidy_up, asleep-kkill,
}
use increase_ipc_throughput.Ipc.{
  Pc, write_enter, read_enter, write_loop, read_test, in_lock, System, rd, wr, close_end, Step,
  Start, Reach, start, here, next, call_write, call_read, enter_write, enter_read, write_step,
  test_step, read_step, resume_write, resume_read, close, schedule, preempt, murder, elsewhere,
}
use increase_ipc_throughput.Ipc.Inv.{Inv, Knows, owes_readers, owes_writers}
use increase_ipc_throughput.Ipc.Keep.{
  Knows-update, Knows-outside, all-outside, owner-update, by_holder-update, owes_readers_outside,
  owes_writers_outside, owner-move, Knows-move,
}
use increase_ipc_throughput.Ipc.Writer.{write_round-Inv}
use increase_ipc_throughput.Ipc.Reader.{read_round-Inv, test_round-Inv}
use increase_ipc_throughput.Pipe.Contents.{window}

module _ (u : UserSpace) (v : Version) (pipe_at : ℕ) (kills : Bool) where
  -- A new table in which nobody new sleeps on the pipe.
  table-Inv :
      (s : System u) (t : Table) (m : ℕ → u.Space)
      → ((k c : ℕ)
          → (c ≡ rd u v pipe_at) ⊎ (c ≡ wr u v pipe_at)
          → asleep t k c ≡ true
          → asleep s.table k c ≡ true)
      → (kills ≡ false → (k : ℕ) → (t k).killed ≡ (s.table k).killed)
      → Inv u v pipe_at kills s
      → Inv u v pipe_at kills (record s { table = t; space = m })
  table-Inv s t m less same inv = record {
    valid = inv.valid;
    owner = inv.owner;
    knows = inv.knows;
    writers = λ k lt sl. inv.writers k lt (less k _ (inr refl) sl);
    readers = λ nk k lt sl. inv.readers nk k lt (less k _ (inl refl) sl);
    apart = λ k l ltk ltl sl. elim (Bool-cases (asleep t l (wr u v pipe_at))) [
      | inl too ↦
          absurd (
            ground (arith, inv.apart k l ltk ltl (less k _ (inl refl) sl), less l _ (inr refl) too))
      | inr awake ↦ awake
    ];
    alive = λ nk k. same nk k ∙ inv.alive nk k;
    stream = inv.stream;
    arrived = inv.arrived;
  }

  -- A process without the lock moves to another place without.
  move-Inv :
      (s : System u) (i : ℕ) (c : Pc)
      → in_lock (s.pc i) ≡ false
      → in_lock c ≡ false
      → Knows v s.pipe c
      → Inv u v pipe_at kills s
      → Inv u v pipe_at kills (record s { pc = update s.pc i c })
  move-Inv s i c out out' new inv = record {
    valid = inv.valid;
    owner = owner-move s.lock s.pc i c out' inv.owner;
    knows = Knows-move v s.pipe s.pc i c new inv.knows;
    writers = λ k lt sl.
        rw
          (by_holder-update (owes_writers v) s.lock s.pc i c
            (owes_writers_outside v c out' ∙ sym (owes_writers_outside v (s.pc i) out)))
          (inv.writers k lt sl);
    readers = λ nk k lt sl.
        rw
          (by_holder-update (owes_readers v s.pipe) s.lock s.pc i c (
            owes_readers_outside v s.pipe c out'
            ∙ sym (owes_readers_outside v s.pipe (s.pc i) out)))
          (inv.readers nk k lt sl);
    apart = inv.apart;
    alive = inv.alive;
    stream = inv.stream;
    arrived = inv.arrived;
  }

  -- A process takes the free lock.
  take-Inv :
      (s : System u) (i : ℕ) (c : Pc)
      → s.lock ≡ none
      → Knows v s.pipe c
      → Inv u v pipe_at kills s
      → Inv u v pipe_at kills (record s { lock = some i; pc = update s.pc i c })
  take-Inv s i c free new inv = record {
    valid = inv.valid;
    owner =
        owner-update (some i) s.pc i c (λ _. refl)
          (λ k _. all-outside s.pc s.lock free inv.owner k);
    knows =
        Knows-update v s.pipe s.pipe s.pc i c new (λ k _. all-outside s.pc s.lock free inv.owner k)
          inv.knows;
    writers = λ k lt sl. ground (arith, free, inv.writers k lt sl);
    readers = λ nk k lt sl. ground (arith, free, inv.readers nk k lt sl);
    apart = inv.apart;
    alive = inv.alive;
    stream = inv.stream;
    arrived = inv.arrived;
  }

  flags-Inv :
      (s : System u) (r w : Bool)
      → s.lock ≡ none
      → Inv u v pipe_at kills s
      → Inv u v pipe_at kills (record s { pipe = record (s.pipe) { readopen = r; writeopen = w } })
  flags-Inv s r w free inv = record {
    valid = record {
      nread_fits = inv.valid.nread_fits;
      nwrite_fits = inv.valid.nwrite_fits;
      used_le = inv.valid.used_le;
    };
    owner = inv.owner;
    knows = λ k.
        Knows-outside v s.pipe (record (s.pipe) { readopen = r; writeopen = w }) (s.pc k)
          (all-outside s.pc s.lock free inv.owner k) (inv.knows k);
    writers = λ k lt sl. inv.writers k lt sl;
    readers = λ nk k lt sl. ground (arith, free, inv.readers nk k lt sl);
    apart = inv.apart;
    alive = inv.alive;
    stream = inv.stream;
    arrived = inv.arrived;
  }

  -- The end of `sleep`.
  resume-Inv :
      (s : System u) (i : ℕ) (c : Pc)
      → (s.table i).state ≡ running
      → s.lock ≡ none
      → Knows v s.pipe c
      → Inv u v pipe_at kills s
      → Inv u v pipe_at kills (record s {
        lock = some i;
        table = update s.table i (tidy_up (s.table i));
        pc = update s.pc i c;
      })
  resume-Inv s i c run free new inv =
      take-Inv (record s { table = update s.table i (tidy_up (s.table i)); space = s.space }) i c
        free new
        (table-Inv s _ s.space (λ k ch _ sl. asleep-tidy_up s.table i k ch run sl)
          (λ _ k. killed-tidy_up s.table i k) inv)

  -- An end is closed while the lock is free.
  close_end-Inv :
      (s : System u) (i : ℕ) (writable : Bool)
      → s.lock ≡ none
      → Inv u v pipe_at kills s
      → Inv u v pipe_at kills (close_end u v pipe_at writable i s)
  unfolding close_end
  close_end-Inv s i true free inv =
      table-Inv (record s { pipe = record (s.pipe) { writeopen = false } }) _ s.space
        (λ k c _ sl. asleep-wakeup v i (rd u v pipe_at) s.table k c sl)
        (λ _ k. killed-wakeup v i (rd u v pipe_at) s.table k)
        (flags-Inv s s.pipe.readopen false free inv)
  close_end-Inv s i false free inv =
      table-Inv (record s { pipe = record (s.pipe) { readopen = false } }) _ s.space
        (λ k c _ sl. asleep-wakeup v i (wr u v pipe_at) s.table k c sl)
        (λ _ k. killed-wakeup v i (wr u v pipe_at) s.table k)
        (flags-Inv s false s.pipe.writeopen free inv)

  pub Step-Inv :
      {s t : System u}
      → Step u v pipe_at kills s t
      → Inv u v pipe_at kills s
      → Inv u v pipe_at kills t
  Step-Inv {s} (call_write i addr n runs at) inv =
      move-Inv s i (write_enter addr n) (rw at refl) refl tt inv
  Step-Inv {s} (call_read i addr n runs at) inv =
      move-Inv s i (read_enter addr n) (rw at refl) refl tt inv
  Step-Inv {s} (enter_write i addr n runs at free) inv =
      take-Inv s i (write_loop (write_start s.pipe addr n)) free
        (unfold write_start in (λ nw. ground arith)) inv
  Step-Inv {s} (enter_read i addr n runs at free) inv = take-Inv s i (read_test addr n) free tt inv
  Step-Inv {s} (write_step i j runs at) inv = write_round-Inv u v pipe_at kills s i j inv runs at
  Step-Inv {s} (test_step i addr n runs at) inv =
      test_round-Inv u v pipe_at kills s i addr n inv runs at
  Step-Inv {s} (read_step i j runs at) inv = read_round-Inv u v pipe_at kills s i j inv runs at
  Step-Inv {s} (resume_write i j runs at free) inv =
      resume-Inv s i (write_loop j) runs.1 free (λ nw. ground (arith, at, inv.knows i)) inv
  Step-Inv {s} (resume_read i addr n runs at free) inv =
      resume-Inv s i (read_test addr n) runs.1 free tt inv
  Step-Inv {s} (close i w runs at free) inv = close_end-Inv s i w free inv
  Step-Inv {s} (schedule i lt ready) inv =
      table-Inv s _ s.space (λ k c _ sl. asleep-dispatch s.table i k c sl)
        (λ _ k. killed-dispatch s.table i k) inv
  Step-Inv {s} (preempt i runs) inv =
      table-Inv s _ s.space (λ k c _ sl. asleep-yield v s.table i k c sl)
        (λ _ k. killed-yield v s.table i k) inv
  Step-Inv {s} (murder pid on) inv =
      table-Inv s _ s.space (λ k c _ sl. asleep-kkill pid s.table k c sl) (λ off k. absurd (cc)) inv
  Step-Inv {s} (elsewhere i p m at nr nw same) inv =
      table-Inv s _ _ (λ k c on sl. ground (arith, on, sl, nr, nw))
        (λ off k. ground (arith, same off, inv.alive off k)) inv

  Start-Inv : {s : System u} → Start u v pipe_at kills s → Inv u v pipe_at kills s
  unfolding window
  Start-Inv (start buf t m idle) = record {
    valid = omega arith;
    owner = λ k h. cc;
    knows = λ k. tt;
    writers = λ k lt sl. absurd (ground (arith, idle k));
    readers = λ nk k lt sl. refl;
    apart = λ k l ltk ltl sl. ground (arith, idle l);
    alive = λ nk k. (idle k).2 nk;
    stream = refl;
    arrived = λ _. refl;
  }

  -- The invariant holds in every state that the processes can reach.
  pub Reach-Inv : {s : System u} → Reach u v pipe_at kills s → Inv u v pipe_at kills s
  Reach-Inv (here st) = Start-Inv st
  Reach-Inv (next r st) = Step-Inv st (Reach-Inv r)
