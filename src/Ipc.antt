-- ===== src/Ipc.antt =====
-- Processes that read and write one pipe, interleaved in any order: the calls of kernel/pipe.c with
-- the lock, `sleep` and `wakeup` between the rounds of their loops, and what kernel/proc.c does to
-- the processes meanwhile.
pub mod Inv
pub mod Keep
pub mod Writer
pub mod Reader
pub mod Steps
pub mod Ends
pub mod Schedule
pub mod Safety
pub mod LostWakeup
use increase_ipc_throughput.Base.{
  ℕ, zero, suc, ◌+◌, ◌<◌, ◌≡◌, ◌≢◌, Bool, true, false, Option, none, some, List, [], ◌++◌, update,
  ℤ, if◌then◌else◌, length,
}
use increase_ipc_throughput.User.{UserSpace}
use increase_ipc_throughput.Pipe.{
  Version, Pipe, WriteJob, WriteNext, ReadJob, ReadNext, WaitNext, Wrote, Gave, write_start,
  write_iter, read_wait, read_iter,
}
use increase_ipc_throughput.Proc.{
  ProcState, sleeping, runnable, running, Proc, Table, nproc, wakeup, sleep, tidy_up, yield, kkill,
  dispatch,
}
use increase_ipc_throughput.Layout.{nread_chan, nwrite_chan}

-- Where a process stands.
pub data Pc : Type 0 where
  -- not in a call on this pipe
  outside : Pc
  -- in `acquire(&pi->lock)`, at the start of a call
  write_enter : ℕ → ℤ → Pc
  read_enter : ℕ → ℤ → Pc
  -- with the lock, at the head of the loop of `pipewrite`
  write_loop : WriteJob → Pc
  -- in `sleep(&pi->nwrite, &pi->lock)`
  write_sleep : WriteJob → Pc
  -- with the lock, at the head of the first loop of `piperead`
  read_test : ℕ → ℤ → Pc
  -- in `sleep(&pi->nread, &pi->lock)`
  read_sleep : ℕ → ℤ → Pc
  -- with the lock, at the head of the second loop of `piperead`
  read_loop : ReadJob → Pc

-- Whether the process is between `acquire` and `release`.
abbrev pub in_lock : Pc → Bool
in_lock outside = false
in_lock (write_enter addr n) = false
in_lock (read_enter addr n) = false
in_lock (write_loop j) = true
in_lock (write_sleep j) = false
in_lock (read_test addr n) = true
in_lock (read_sleep addr n) = false
in_lock (read_loop j) = true

module _ (u : UserSpace) where
  open u use {Space}

  -- `sent`, `left` and `got` list the bytes that entered the pipe, that left it, and that reached
  -- the memory of a reader, in order.
  pub record System : Type 0 where
    pub pipe : Pipe
    pub lock : Option ℕ
    pub table : Table
    pub pc : ℕ → Pc
    pub space : ℕ → Space
    pub sent : List ℕ
    pub left : List ℕ
    pub got : List ℕ

-- `pipe_at` is the address of the structure.
module _ (u : UserSpace) (v : Version) (pipe_at : ℕ) where
  open u use {Space}

  abbrev pub rd : ℕ
  rd = nread_chan v pipe_at

  abbrev pub wr : ℕ
  wr = nwrite_chan v pipe_at

  -- `wakeup` by process `i` on a condition.
  pub wake_if : Bool → ℕ → ℕ → Table → Table
  wake_if true i chan t = wakeup v i chan t
  wake_if false i chan t = t

  -- Process `i` after a round of the loop of `pipewrite`.
  pub after_write : ℕ → System u → WriteNext → System u
  after_write i s (WriteNext.again j) = record s { pc = update s.pc i (write_loop j) }
  after_write i s (WriteNext.block j) =
      let t = wakeup v i rd s.table in
      record s {
        lock = none;
        table = update t i (sleep wr (t i));
        pc = update s.pc i (write_sleep j);
      }
  after_write i s (WriteNext.finish w r) = record s {
    lock = none;
    table = wake_if w i rd s.table;
    pc = update s.pc i outside;
  }

  pub write_round : ℕ → WriteJob → System u → System u
  write_round i j s =
      let o = write_iter u v (s.table i).killed s.pipe (s.space i) j in
      after_write i
        (record s { pipe = o.pipe; space = update s.space i o.space; sent = s.sent ++ o.took })
        o.next

  -- Process `i` after a test of the first loop of `piperead`.
  pub after_wait : ℕ → ℕ → ℤ → System u → WaitNext → System u
  after_wait i addr n s WaitNext.block = record s {
    lock = none;
    table = update s.table i (sleep rd (s.table i));
    pc = update s.pc i (read_sleep addr n);
  }
  after_wait i addr n s WaitNext.fail = record s { lock = none; pc = update s.pc i outside }
  after_wait i addr n s (WaitNext.ready j) = record s { pc = update s.pc i (read_loop j) }

  pub test_round : ℕ → ℕ → ℤ → System u → System u
  test_round i addr n s = after_wait i addr n s (read_wait v (s.table i).killed s.pipe addr n)

  -- Process `i` after a round of the second loop of `piperead`.
  pub after_read : ℕ → System u → ReadNext → System u
  after_read i s (ReadNext.again j) = record s { pc = update s.pc i (read_loop j) }
  after_read i s (ReadNext.finish w r) = record s {
    lock = none;
    table = wake_if w i wr s.table;
    pc = update s.pc i outside;
  }

  pub read_round : ℕ → ReadJob → System u → System u
  read_round i j s =
      let o = read_iter u v s.pipe (s.space i) j in
      after_read i
        (record s {
          pipe = o.pipe;
          space = update s.space i o.space;
          left = s.left ++ (o.gave ++ o.lost);
          got = s.got ++ o.gave;
        })
        o.next

  -- `pipeclose(pi, writable)` by process `i`, from `acquire` to `release`.
  unfoldable pub close_end : Bool → ℕ → System u → System u
  close_end true i s = record s {
    pipe = record (s.pipe) { writeopen = false };
    table = wakeup v i rd s.table;
  }
  close_end false i s = record s {
    pipe = record (s.pipe) { readopen = false };
    table = wakeup v i wr s.table;
  }

  -- A process that may take a step of its own.
  abbrev pub Runs : ℕ → System u → Type 0
  Runs i s = (i < nproc) × ((s.table i).state ≡ running)

  -- `kills` is whether processes may be killed.
  module _ (kills : Bool) where
    pub data Step (s : System u) : System u → Type 0 where
      -- a call of `pipewrite` or `piperead`
      call_write :
          (i addr : ℕ) (n : ℤ)
          → Runs i s
          → s.pc i ≡ outside
          → Step s (record s { pc = update s.pc i (write_enter addr n) })
      call_read :
          (i addr : ℕ) (n : ℤ)
          → Runs i s
          → s.pc i ≡ outside
          → Step s (record s { pc = update s.pc i (read_enter addr n) })
      -- `acquire` takes the lock when it is free
      enter_write :
          (i addr : ℕ) (n : ℤ)
          → Runs i s
          → s.pc i ≡ write_enter addr n
          → s.lock ≡ none
          → Step s (record s {
            lock = some i;
            pc = update s.pc i (write_loop (write_start s.pipe addr n));
          })
      enter_read :
          (i addr : ℕ) (n : ℤ)
          → Runs i s
          → s.pc i ≡ read_enter addr n
          → s.lock ≡ none
          → Step s (record s { lock = some i; pc = update s.pc i (read_test addr n) })
      -- a round of a loop
      write_step :
          (i : ℕ) (j : WriteJob) → Runs i s → s.pc i ≡ write_loop j → Step s (write_round i j s)
      test_step :
          (i addr : ℕ) (n : ℤ)
          → Runs i s
          → s.pc i ≡ read_test addr n
          → Step s (test_round i addr n s)
      read_step :
          (i : ℕ) (j : ReadJob) → Runs i s → s.pc i ≡ read_loop j → Step s (read_round i j s)
      -- the end of `sleep`: the process runs again, clears `chan` and takes the lock
      resume_write :
          (i : ℕ) (j : WriteJob)
          → Runs i s
          → s.pc i ≡ write_sleep j
          → s.lock ≡ none
          → Step s (record s {
            lock = some i;
            table = update s.table i (tidy_up (s.table i));
            pc = update s.pc i (write_loop j);
          })
      resume_read :
          (i addr : ℕ) (n : ℤ)
          → Runs i s
          → s.pc i ≡ read_sleep addr n
          → s.lock ≡ none
          → Step s (record s {
            lock = some i;
            table = update s.table i (tidy_up (s.table i));
            pc = update s.pc i (read_test addr n);
          })
      -- an end of the pipe is closed
      close :
          (i : ℕ) (writable : Bool)
          → Runs i s
          → s.pc i ≡ outside
          → s.lock ≡ none
          → Step s (close_end writable i s)
      -- the scheduler switches to a process that can run; the timer takes the processor away
      schedule :
          (i : ℕ)
          → i < nproc
          → (s.table i).state ≡ runnable
          → Step s (record s { table = update s.table i (dispatch (s.table i)) })
      preempt :
          (i : ℕ) → Runs i s → Step s (record s { table = update s.table i (yield v (s.table i)) })
      -- `kkill`
      murder : (pid : ℕ) → kills ≡ true → Step s (record s { table = (kkill pid s.table).1 })
      -- what a process does elsewhere, its own memory included, and what `freeproc` and `allocproc`
      -- do to its entry; with `kills` its flag may be set, as by `setkilled`, or cleared
      elsewhere :
          (i : ℕ) (p : Proc) (m : Space)
          → s.pc i ≡ outside
          → p.chan ≢ rd
          → p.chan ≢ wr
          → (kills ≡ false → p.killed ≡ false)
          → Step s (record s { table = update s.table i p; space = update s.space i m })

    -- A pipe as `pipealloc` makes it, and processes that have not called it.
    pub data Start : System u → Type 0 where
      start :
          (buf : ℕ → ℕ) (t : Table) (m : ℕ → Space)
          → ((i : ℕ)
              → ((t i).chan ≢ rd) × ((t i).chan ≢ wr) × (kills ≡ false → (t i).killed ≡ false))
          → Start (record {
            pipe = record { buf = buf; nread = 0; nwrite = 0; readopen = true; writeopen = true };
            lock = none;
            table = t;
            pc = λ _. outside;
            space = m;
            sent = [];
            left = [];
            got = [];
          })

    pub data Reach : System u → Type 0 where
      here : {s : System u} → Start s → Reach s
      next : {s t : System u} → Reach s → Step s t → Reach t
