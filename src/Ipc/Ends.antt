-- ===== src/Ipc/Ends.antt =====
-- Nobody sleeps on an end of the pipe whose other end is closed: what `pipeclose` wakes, and what
-- `pipewrite` and `piperead` test before they sleep.
use increase_ipc_throughput.Base.{
  ℕ, ◌<◌, ◌≡◌, refl, arith, Bool, true, false, ◌&&◌, not, ◌||◌, update, Bool-cases, inl, inr, List,
  ◌++◌, ltb, pos_part, ℤ,
}
use increase_ipc_throughput.User.{UserSpace}
use increase_ipc_throughput.Pipe.{
  Version, Pipe, WriteJob, WriteNext, ReadJob, ReadNext, WaitNext, is_full, is_empty, write_copied,
  write_copy, write_iter, read_copied, read_copy, read_iter,
}
use increase_ipc_throughput.Pipe.Outcome.{
  WriteReason, WaitReason, write_iter-WriteReason, read_wait-WaitReason,
}
use increase_ipc_throughput.Proc.{Table, nproc, running, sleep, wakeup}
use increase_ipc_throughput.Proc.Asleep.{
  asleep, asleep-wakeup, asleep-wakeup_none, asleep-dispatch, asleep-yield, asleep-tidy_up,
  asleep-kkill, asleep-sleep,
}
use increase_ipc_throughput.Layout.{chan_ne}
use increase_ipc_throughput.Ipc.{
  System, rd, wr, wake_if, after_write, write_round, after_wait, test_round, after_read, read_round,
  close_end, Step, Reach, start, here, next, call_write, call_read, enter_write, enter_read,
  write_step, test_step, read_step, resume_write, resume_read, close, schedule, preempt, murder,
  elsewhere,
}

-- The flags of the pipe are those of another.
abbrev SameEnds : Pipe → Pipe → Type 0
SameEnds p q = (q.readopen ≡ p.readopen) × (q.writeopen ≡ p.writeopen)

module _ (u : UserSpace) (v : Version) (p : Pipe) where
  write_copied-SameEnds :
      (j : WriteJob) (k : ℕ) (ok : Bool) (bytes : List ℕ) (s : u.Space)
      → SameEnds p (write_copied u v p j k ok bytes s).pipe
  unfolding write_copied
  write_copied-SameEnds j k true bytes s = (refl, refl)
  write_copied-SameEnds j k false bytes s = (refl, refl)

  write_iter-SameEnds :
      (killed : Bool) (s : u.Space) (j : WriteJob) → SameEnds p (write_iter u v killed p s j).pipe
  unfolding write_iter write_copy
  write_iter-SameEnds killed s j = elim (Bool-cases (ltb j.i (pos_part j.n))) [
    | inr done ↦ rw done (refl, refl)
    | inl more ↦ rw more (elim (Bool-cases (not p.readopen || killed)) [
      | inl gone ↦ rw gone (refl, refl)
      | inr alive ↦ rw alive (elim (Bool-cases (is_full v p)) [
        | inl full ↦ rw full (refl, refl)
        | inr room ↦ rw room (write_copied-SameEnds j _ _ _ _)
      ])
    ])
  ]

  read_copied-SameEnds :
      (j : ReadJob) (k : ℕ) (bytes : List ℕ) (ok : Bool) (s : u.Space)
      → SameEnds p (read_copied u v p j k bytes ok s).pipe
  unfolding read_copied
  read_copied-SameEnds j k bytes true s = (refl, refl)
  read_copied-SameEnds j k bytes false s = (ground arith, ground arith)

  read_iter-SameEnds : (s : u.Space) (j : ReadJob) → SameEnds p (read_iter u v p s j).pipe
  unfolding read_iter read_copy
  read_iter-SameEnds s j = elim (Bool-cases (ltb j.i (pos_part j.n) && not (is_empty p))) [
    | inr done ↦ rw done (refl, refl)
    | inl more ↦ rw more (read_copied-SameEnds j _ _ _ _)
  ]

module _ (u : UserSpace) (v : Version) (pipe_at : ℕ) (kills : Bool) where
  abbrev rd' : ℕ
  rd' = rd u v pipe_at

  abbrev wr' : ℕ
  wr' = wr u v pipe_at

  -- A reader sleeps only while the write end is open, a writer only while the read end is.
  pub record EndsOpen (t : Table) (p : Pipe) : Type 0 where
    pub for_readers : (k : ℕ) → k < nproc → asleep t k rd' ≡ true → p.writeopen ≡ true
    pub for_writers : (k : ℕ) → k < nproc → asleep t k wr' ≡ true → p.readopen ≡ true

  -- Nobody new sleeps, and the flags are the same.
  fewer-EndsOpen :
      (t t' : Table) (p q : Pipe)
      → ((k : ℕ) → asleep t' k rd' ≡ true → asleep t k rd' ≡ true)
      → ((k : ℕ) → asleep t' k wr' ≡ true → asleep t k wr' ≡ true)
      → SameEnds p q
      → EndsOpen t p
      → EndsOpen t' q
  fewer-EndsOpen t t' p q r w same e = record {
    for_readers = λ k lt sl. ground (arith, same, e.for_readers k lt (r k sl));
    for_writers = λ k lt sl. ground (arith, same, e.for_writers k lt (w k sl));
  }

  woken-EndsOpen :
      (i chan : ℕ) (t : Table) (p q : Pipe)
      → SameEnds p q
      → EndsOpen t p
      → EndsOpen (wakeup v i chan t) q
  woken-EndsOpen i chan t p q =
      fewer-EndsOpen t (wakeup v i chan t) p q (λ k. asleep-wakeup v i chan t k rd')
        (λ k. asleep-wakeup v i chan t k wr')

  -- One process goes to sleep, while its other end is open.
  sleep-EndsOpen :
      (i chan : ℕ) (t : Table) (p : Pipe)
      → (chan ≡ rd' → p.writeopen ≡ true)
      → (chan ≡ wr' → p.readopen ≡ true)
      → EndsOpen t p
      → EndsOpen (update t i (sleep chan (t i))) p
  sleep-EndsOpen i chan t p r w e = record {
    for_readers = λ k lt sl. ground (arith, r, asleep-sleep t i chan k rd', e.for_readers k lt);
    for_writers = λ k lt sl. ground (arith, w, asleep-sleep t i chan k wr', e.for_writers k lt);
  }

  after_write-EndsOpen :
      (s : System u) (i : ℕ) (p : Pipe) (killed : Bool) (j : WriteJob) (nx : WriteNext)
      → SameEnds p s.pipe
      → WriteReason v killed p j nx
      → EndsOpen s.table p
      → EndsOpen (after_write u v pipe_at i s nx).table (after_write u v pipe_at i s nx).pipe
  unfolding after_write wake_if
  after_write-EndsOpen s i p killed j (WriteNext.again j') same why e =
      fewer-EndsOpen s.table s.table p s.pipe (λ k sl. sl) (λ k sl. sl) same e
  after_write-EndsOpen s i p killed j (WriteNext.block j') same why e =
      sleep-EndsOpen i wr' (wakeup v i rd' s.table) s.pipe
        (λ is. absurd (ground (arith, chan_ne v pipe_at, is))) (λ _. ground (arith, same, why))
        (woken-EndsOpen i rd' s.table p s.pipe same e)
  after_write-EndsOpen s i p killed j (WriteNext.finish true r) same why e =
      woken-EndsOpen i rd' s.table p s.pipe same e
  after_write-EndsOpen s i p killed j (WriteNext.finish false r) same why e =
      fewer-EndsOpen s.table s.table p s.pipe (λ k sl. sl) (λ k sl. sl) same e

  after_read-EndsOpen :
      (s : System u) (i : ℕ) (p : Pipe) (nx : ReadNext)
      → SameEnds p s.pipe
      → EndsOpen s.table p
      → EndsOpen (after_read u v pipe_at i s nx).table (after_read u v pipe_at i s nx).pipe
  unfolding after_read wake_if
  after_read-EndsOpen s i p (ReadNext.again j') same e =
      fewer-EndsOpen s.table s.table p s.pipe (λ k sl. sl) (λ k sl. sl) same e
  after_read-EndsOpen s i p (ReadNext.finish true r) same e =
      woken-EndsOpen i wr' s.table p s.pipe same e
  after_read-EndsOpen s i p (ReadNext.finish false r) same e =
      fewer-EndsOpen s.table s.table p s.pipe (λ k sl. sl) (λ k sl. sl) same e

  after_wait-EndsOpen :
      (s : System u) (i addr : ℕ) (n : ℤ) (killed : Bool) (nx : WaitNext)
      → WaitReason v killed s.pipe nx
      → EndsOpen s.table s.pipe
      → EndsOpen
          (after_wait u v pipe_at i addr n s nx).table
          (after_wait u v pipe_at i addr n s nx).pipe
  unfolding after_wait
  after_wait-EndsOpen s i addr n killed WaitNext.block why e =
      sleep-EndsOpen i rd' s.table s.pipe (λ _. why.1)
        (λ is. absurd (ground (arith, chan_ne v pipe_at, is))) e
  after_wait-EndsOpen s i addr n killed WaitNext.fail why e = e
  after_wait-EndsOpen s i addr n killed (WaitNext.ready j) why e = e

  -- `pipeclose` wakes those that sleep on the other end.
  close_end-EndsOpen :
      (s : System u) (i : ℕ) (w : Bool)
      → (s.table i).state ≡ running
      → EndsOpen s.table s.pipe
      → EndsOpen (close_end u v pipe_at w i s).table (close_end u v pipe_at w i s).pipe
  unfolding close_end
  close_end-EndsOpen s i true runs e = record {
    for_readers = λ k lt sl. absurd (ground (arith, asleep-wakeup_none v i rd' s.table k lt runs));
    for_writers = λ k lt sl. e.for_writers k lt (asleep-wakeup v i rd' s.table k wr' sl);
  }
  close_end-EndsOpen s i false runs e = record {
    for_readers = λ k lt sl. e.for_readers k lt (asleep-wakeup v i wr' s.table k rd' sl);
    for_writers = λ k lt sl. absurd (ground (arith, asleep-wakeup_none v i wr' s.table k lt runs));
  }

  Step-EndsOpen :
      {s t : System u}
      → Step u v pipe_at kills s t
      → EndsOpen s.table s.pipe
      → EndsOpen t.table t.pipe
  unfolding write_round read_round test_round
  Step-EndsOpen (call_write i addr n runs at) e = e
  Step-EndsOpen (call_read i addr n runs at) e = e
  Step-EndsOpen (enter_write i addr n runs at free) e = e
  Step-EndsOpen (enter_read i addr n runs at free) e = e
  Step-EndsOpen {s} (write_step i j runs at) e =
      let o = write_iter u v (s.table i).killed s.pipe (s.space i) j in
      after_write-EndsOpen
        (record s { pipe = o.pipe; space = update s.space i o.space; sent = s.sent ++ o.took }) i
        s.pipe (s.table i).killed j o.next
        (write_iter-SameEnds u v s.pipe (s.table i).killed (s.space i) j)
        (write_iter-WriteReason u v s.pipe (s.table i).killed (s.space i) j) e
  Step-EndsOpen {s} (test_step i addr n runs at) e =
      after_wait-EndsOpen s i addr n (s.table i).killed _
        (read_wait-WaitReason v (s.table i).killed s.pipe addr n) e
  Step-EndsOpen {s} (read_step i j runs at) e =
      let o = read_iter u v s.pipe (s.space i) j in
      after_read-EndsOpen
        (record s {
          pipe = o.pipe;
          space = update s.space i o.space;
          left = s.left ++ (o.gave ++ o.lost);
          got = s.got ++ o.gave;
        })
        i s.pipe o.next (read_iter-SameEnds u v s.pipe (s.space i) j) e
  Step-EndsOpen {s} (resume_write i j runs at free) e =
      fewer-EndsOpen s.table _ s.pipe s.pipe (λ k sl. asleep-tidy_up s.table i k rd' runs.1 sl)
        (λ k sl. asleep-tidy_up s.table i k wr' runs.1 sl) (refl, refl) e
  Step-EndsOpen {s} (resume_read i addr n runs at free) e =
      fewer-EndsOpen s.table _ s.pipe s.pipe (λ k sl. asleep-tidy_up s.table i k rd' runs.1 sl)
        (λ k sl. asleep-tidy_up s.table i k wr' runs.1 sl) (refl, refl) e
  Step-EndsOpen {s} (close i w runs at free) e = close_end-EndsOpen s i w runs.1 e
  Step-EndsOpen {s} (schedule i lt ready) e =
      fewer-EndsOpen s.table _ s.pipe s.pipe (λ k sl. asleep-dispatch s.table i k rd' sl)
        (λ k sl. asleep-dispatch s.table i k wr' sl) (refl, refl) e
  Step-EndsOpen {s} (preempt i runs) e =
      fewer-EndsOpen s.table _ s.pipe s.pipe (λ k sl. asleep-yield v s.table i k rd' sl)
        (λ k sl. asleep-yield v s.table i k wr' sl) (refl, refl) e
  Step-EndsOpen {s} (murder pid on) e =
      fewer-EndsOpen s.table _ s.pipe s.pipe (λ k sl. asleep-kkill pid s.table k rd' sl)
        (λ k sl. asleep-kkill pid s.table k wr' sl) (refl, refl) e
  Step-EndsOpen {s} (elsewhere i p m at nr nw same) e =
      fewer-EndsOpen s.table (update s.table i p) s.pipe s.pipe (λ k sl. ground (arith, sl, nr))
        (λ k sl. ground (arith, sl, nw)) (refl, refl) e

  pub Reach-EndsOpen : {s : System u} → Reach u v pipe_at kills s → EndsOpen s.table s.pipe
  Reach-EndsOpen (here (start buf t m idle)) = record {
    for_readers = λ k lt sl. refl;
    for_writers = λ k lt sl. refl;
  }
  Reach-EndsOpen (next r st) = Step-EndsOpen st (Reach-EndsOpen r)
