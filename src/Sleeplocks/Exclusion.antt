-- ===== src/Sleeplocks/Exclusion.antt =====
-- The sleep lock of kernel/sleeplock.c in every interleaving of its processes.
use increase_ipc_throughput.Base.{
  ℕ, zero, suc, ◌+◌, ◌<◌, ◌≡◌, refl, sym, ◌∙◌, arith, Bool, true, false, Option, none, some, ◌==◌,
  update, Bool-cases, inl, inr,
}
use increase_ipc_throughput.Pipe.{Version}
use increase_ipc_throughput.Proc.{
  running, Proc, Table, nproc, wake, wakeup, sleep, tidy_up, yield, kill, kkill, kkill_from,
  dispatch,
}
use increase_ipc_throughput.Proc.Waking.{wakeup_lem}
use increase_ipc_throughput.Proc.Asleep.{
  asleep, asleep-wakeup_none, asleep-tidy_up, asleep-dispatch, asleep-yield, asleep-kkill,
}
use increase_ipc_throughput.Locks.{is_some_of}
use increase_ipc_throughput.Locks.Inv.{is_some, unowned, is_some-of_owner, is_some_of_unique}
use increase_ipc_throughput.Sleeplocks.{
  SleepPc, outside, waiting, holder, Sleeplock, holdingsleep, acquire_round, releasesleep, Step,
  call, resume, release, schedule, preempt, murder, elsewhere, Start, start, Reach, here, next,
}

abbrev is_holder : SleepPc → Bool
is_holder outside = false
is_holder waiting = false
is_holder holder = true

pid-wakeup : (v : Version) (i chan : ℕ) (t : Table) (k : ℕ) → (wakeup v i chan t k).pid ≡ (t k).pid
unfolding wake
pid-wakeup v i chan t k = ground (arith, wakeup_lem v i chan t k)

pid-kkill_from : (n j pid : ℕ) (t : Table) (k : ℕ) → ((kkill_from n j pid t).1 k).pid ≡ (t k).pid
unfolding kkill_from kill
pid-kkill_from zero j pid t k = refl
pid-kkill_from (suc n) j pid t k = elim (Bool-cases ((t j).pid == pid)) [
  | inl hit ↦ ground arith
  | inr miss ↦ rw miss (pid-kkill_from n (j + 1) pid t k)
]

pid-kkill : (pid : ℕ) (t : Table) (k : ℕ) → ((kkill pid t).1 k).pid ≡ (t k).pid
unfolding kkill
pid-kkill pid t k = pid-kkill_from nproc 0 pid t k

pid-sleep : (chan : ℕ) (t : Table) (i k : ℕ) → (update t i (sleep chan (t i)) k).pid ≡ (t k).pid
unfolding sleep
pid-sleep chan t i k = ground arith

module _ (v : Version) (chan : ℕ) where
  -- `owner` is who has the lock; who sleeps on it sleeps because it is locked.
  record Inv (s : Sleeplock) : Type 0 where
    owner : Option ℕ
    lock_owned : s.locked ≡ is_some owner
    owns : (k : ℕ) → is_holder (s.pc k) ≡ is_some_of owner k
    sleepers : (k : ℕ) → k < nproc → asleep s.table k chan ≡ true → s.locked ≡ true
    named : (k : ℕ) → is_holder (s.pc k) ≡ true → s.pid ≡ (s.table k).pid

  Start-Inv : {s : Sleeplock} → Start v chan s → Inv s
  Start-Inv (start t other) = record {
    owner = none;
    lock_owned = refl;
    owns = λ k. refl;
    sleepers = λ k lt h. absurd (ground (arith, other k));
    named = λ k h. absurd (ground (arith, h));
  }

  -- Another table, where nobody new sleeps on the lock.
  table-Inv :
      (s : Sleeplock) (t : Table)
      → Inv s
      → ((k : ℕ) → asleep t k chan ≡ true → asleep s.table k chan ≡ true)
      → ((k : ℕ) → (t k).pid ≡ (s.table k).pid)
      → Inv (record s { table = t })
  table-Inv s t i h same = record {
    owner = i.owner;
    lock_owned = i.lock_owned;
    owns = i.owns;
    sleepers = λ k lt sl. i.sleepers k lt (h k sl);
    named = λ k m. i.named k m ∙ sym (same k);
  }

  acquire_round-Inv :
      (i : ℕ) (s : Sleeplock) → Inv s → is_holder (s.pc i) ≡ false → Inv (acquire_round v chan i s)
  unfolding acquire_round
  acquire_round-Inv i s n at = elim (Bool-cases s.locked) [
    | inl busy ↦ rw (busy) (record {
      owner = n.owner;
      lock_owned = sym busy ∙ n.lock_owned;
      owns = λ k. ground (arith, n.owns k, at);
      sleepers = λ k lt sl. refl;
      named = λ k m. ground (arith, n.named k, pid-sleep chan s.table i k);
    })
    | inr free ↦ rw (free) (record {
      owner = some i;
      lock_owned = refl;
      owns = λ k. ground (arith, n.owns k, unowned n.owner k (sym n.lock_owned ∙ free));
      sleepers = λ k lt sl. refl;
      named = λ k m. ground (arith, n.owns k, unowned n.owner k (sym n.lock_owned ∙ free));
    })
  ]

  -- One entry changes, and puts nobody to sleep on the lock.
  entry-Inv :
      (i : ℕ) (p : Proc) (s : Sleeplock)
      → Inv s
      → ((k : ℕ) → asleep (update s.table i p) k chan ≡ true → asleep s.table k chan ≡ true)
      → p.pid ≡ (s.table i).pid
      → Inv (record s { table = update s.table i p })
  entry-Inv i p s n h same = table-Inv s (update s.table i p) n h (λ k. ground arith)

  releasesleep-Inv :
      (i : ℕ) (s : Sleeplock)
      → Inv s
      → (s.table i).state ≡ running
      → s.pc i ≡ holder
      → Inv (releasesleep v chan i s)
  unfolding releasesleep
  releasesleep-Inv i s n run at = record {
    owner = none;
    lock_owned = refl;
    owns = nobody;
    sleepers = λ k lt sl. sym (sym sl ∙ asleep-wakeup_none v i chan s.table k lt run);
    named = λ k m. absurd (ground (arith, nobody k));
  }
    where
      mine : is_some_of n.owner i ≡ true
      mine = ground (arith, n.owns i, at)

      nobody : (k : ℕ) → is_holder (update s.pc i outside k) ≡ false
      nobody k = elim (Bool-cases (is_some_of n.owner k)) [
        | inr clear ↦ ground (arith, n.owns k)
        | inl held ↦ ground (arith, is_some_of_unique n.owner i k mine held)
      ]

  Step-Inv : {s t : Sleeplock} → Inv s → Step v chan s t → Inv t
  unfolding tidy_up dispatch yield
  Step-Inv {s} n (call i run at) = acquire_round-Inv i s n (ground (arith, at))
  Step-Inv {s} n (resume i run at) =
      acquire_round-Inv i (record s { table = update s.table i (tidy_up (s.table i)) })
        (entry-Inv i (tidy_up (s.table i)) s n (λ k h. asleep-tidy_up s.table i k chan run.1 h)
          refl)
        (ground (arith, at))
  Step-Inv {s} n (release i run at) = releasesleep-Inv i s n run.1 at
  Step-Inv {s} n (schedule i ready) =
      entry-Inv i (dispatch (s.table i)) s n (λ k h. asleep-dispatch s.table i k chan h) refl
  Step-Inv {s} n (preempt i run) =
      entry-Inv i (yield v (s.table i)) s n (λ k h. asleep-yield v s.table i k chan h) refl
  Step-Inv {s} n (murder pid) =
      table-Inv s (kkill pid s.table).1 n (λ k h. asleep-kkill pid s.table k chan h)
        (λ k. pid-kkill pid s.table k)
  Step-Inv {s} n (elsewhere i p at other same) = entry-Inv i p s n (λ k h. ground arith) same

  Reach-Inv : {s : Sleeplock} → Reach v chan s → Inv s
  Reach-Inv (here st) = Start-Inv st
  Reach-Inv (next r st) = Step-Inv (Reach-Inv r) st

  -- In every interleaving, processes being killed included, two processes never have the sleep
  -- lock at once; the one that has it passes the test of `holdingsleep`; and no process sleeps on
  -- the lock while it is free.
  pub one_holder :
      {s : Sleeplock}
      → Reach v chan s
      → ((i k : ℕ) → s.pc i ≡ holder → s.pc k ≡ holder → i ≡ k)
        × ((i : ℕ) → s.pc i ≡ holder → holdingsleep s i ≡ true)
        × ((k : ℕ) → k < nproc → s.locked ≡ false → asleep s.table k chan ≡ false)
  one_holder {s} r = (
    λ i k hi hk.
        is_some_of_unique n.owner i k (ground (arith, n.owns i, hi)) (ground (arith, n.owns k, hk)),
    λ i h. ground (arith, locked i h, n.named i (ground (arith, h))),
    λ k lt free. ground (arith, n.sleepers k lt),
  )
    where
      n : Inv s
      n = Reach-Inv r

      locked : (i : ℕ) → s.pc i ≡ holder → s.locked ≡ true
      locked i h = n.lock_owned ∙ is_some-of_owner n.owner i (ground (arith, n.owns i, h))
