-- ===== src/Ipc/Schedule.antt =====
-- Reachable states of `Ipc` by evaluation: the processes move in a given order.
use increase_ipc_throughput.Base.{
  ℕ, ◌≡◌, refl, Bool, true, false, Option, none, some, List, ℤ, dec_lt,
}
use mathlib.Core.List.{foldl}
use increase_ipc_throughput.User.{UserSpace}
use increase_ipc_throughput.Pipe.{
  Version, slot, till_end, is_full, is_empty, write_chunk, read_chunk, read_wait, landed,
  write_copied, write_copy, write_iter, read_copied, read_copy, read_iter, write_start, write_wakes,
  read_wakes,
}
use increase_ipc_throughput.Proc.{
  ProcState, runnable, running, nproc, for_procs, wake, wakeup, sleep, tidy_up, kill, kkill_from,
  kkill, dispatch,
}
use increase_ipc_throughput.Layout.{nread_chan, nwrite_chan}
use increase_ipc_throughput.Ipc.{
  Pc, outside, write_enter, read_enter, write_loop, write_sleep, read_test, read_sleep, read_loop,
  write_round, test_round, read_round, after_write, after_wait, after_read, wake_if, System, Runs,
  Step, Reach, next, call_write, call_read, enter_write, enter_read, write_step, test_step,
  read_step, resume_write, resume_read, murder, schedule,
}

-- What happens next.
pub data Act : Type 0 where
  -- process `i` calls `pipewrite` or `piperead`
  writes : ℕ → ℤ → Act
  reads : ℕ → ℤ → Act
  -- process `i` goes on with its call
  goes : ℕ → Act
  -- the scheduler picks process `i`
  picks : ℕ → Act
  kills_pid : ℕ → Act

module _ (u : UserSpace) (v : Version) (pipe_at : ℕ) (kills : Bool) where
  abbrev Next : System u → Type 0
  Next s = Option ((t : System u) × Step u v pipe_at kills s t)

  advance :
      (s : System u) (i : ℕ)
      → Runs u v pipe_at i s
      → (c : Pc) → s.pc i ≡ c
      → (l : Option ℕ) → s.lock ≡ l
      → Next s
  advance s i runs outside e l f = none
  advance s i runs (write_enter addr n) e none f = some (_, enter_write i addr n runs e f)
  advance s i runs (write_enter addr n) e (some h) f = none
  advance s i runs (read_enter addr n) e none f = some (_, enter_read i addr n runs e f)
  advance s i runs (read_enter addr n) e (some h) f = none
  advance s i runs (write_loop j) e l f = some (_, write_step i j runs e)
  advance s i runs (write_sleep j) e none f = some (_, resume_write i j runs e f)
  advance s i runs (write_sleep j) e (some h) f = none
  advance s i runs (read_test addr n) e l f = some (_, test_step i addr n runs e)
  advance s i runs (read_sleep addr n) e none f = some (_, resume_read i addr n runs e f)
  advance s i runs (read_sleep addr n) e (some h) f = none
  advance s i runs (read_loop j) e l f = some (_, read_step i j runs e)

  -- A call by a process that is outside.
  enters :
      (s : System u) (i : ℕ) (n : ℤ) (writing : Bool)
      → Runs u v pipe_at i s
      → (c : Pc) → s.pc i ≡ c
      → Next s
  enters s i n true runs outside e = some (_, call_write i 0 n runs e)
  enters s i n false runs outside e = some (_, call_read i 0 n runs e)
  enters s i n w runs _ e = none

  is_running : (st : ProcState) → Option (st ≡ running)
  is_running running = some refl
  is_running _ = none

  is_ready : (st : ProcState) → Option (st ≡ runnable)
  is_ready runnable = some refl
  is_ready _ = none

  if_runs : (s : System u) (i : ℕ) → (Runs u v pipe_at i s → Next s) → Next s
  if_runs s i f = elim (dec_lt i nproc) [
    | yes lt ↦ elim (is_running (s.table i).state) [ none ↦ none | some r ↦ f (lt, r) ]
    | no ge ↦ none
  ]

  murders : (s : System u) (pid : ℕ) (b : Bool) → kills ≡ b → Next s
  murders s pid true e = some (_, murder pid e)
  murders s pid false e = none

  act : (s : System u) → Act → Next s
  act s (writes i n) = if_runs s i (λ r. enters s i n true r (s.pc i) refl)
  act s (reads i n) = if_runs s i (λ r. enters s i n false r (s.pc i) refl)
  act s (goes i) = if_runs s i (λ r. advance s i r (s.pc i) refl s.lock refl)
  act s (picks i) = elim (dec_lt i nproc) [
    | yes lt ↦ elim (is_ready (s.table i).state) [
      | none ↦ none
      | some r ↦ some (_, schedule i lt r)
    ]
    | no ge ↦ none
  ]
  act s (kills_pid pid) = murders s pid kills refl

  -- A state with the proof that it can be reached.
  pub record Run : Type 0 where
    pub last : System u
    pub reach : Reach u v pipe_at kills last

  -- An act that is not possible changes nothing.
  turn : Run → Act → Run
  turn r a = elim (act r.last a) [
    | none ↦ r
    | some (t, st) ↦ record { last = t; reach = next r.reach st }
  ]

  unfoldable pub run : Run → List Act → Run
  unfolding turn act if_runs is_running is_ready enters advance murders dec_lt write_round
      test_round read_round after_write after_wait after_read wake_if slot till_end is_full is_empty
      write_chunk read_chunk read_wait landed write_copied write_copy write_iter read_copied
      read_copy read_iter write_start write_wakes read_wakes for_procs wake wakeup sleep tidy_up
      kill kkill_from kkill dispatch nread_chan nwrite_chan
  run r acts = foldl turn r acts
