-- ===== src/Ipc/Inv.antt =====
-- What holds between the steps of the processes that share a pipe.
use increase_ipc_throughput.Base.{
  ℕ, ◌<◌, ◌≡◌, Bool, true, false, ◌&&◌, ◌||◌, Option, none, some, ◌++◌, ◌==◌,
}
use increase_ipc_throughput.User.{UserSpace}
use increase_ipc_throughput.Pipe.{
  Version, Pipe, pipe_total, used, bytewise, write_wakes, read_wakes,
}
use increase_ipc_throughput.Pipe.Contents.{IsValid, contents}
use increase_ipc_throughput.Proc.{nproc}
use increase_ipc_throughput.Proc.Asleep.{asleep}
use increase_ipc_throughput.Ipc.{
  Pc, outside, write_enter, read_enter, write_loop, write_sleep, read_test, read_sleep, read_loop,
  in_lock, System, rd, wr,
}

-- Whether the process that has the lock will wake the readers, or the writers, before it returns.
-- A writer that finds the read end closed returns without.
abbrev pub owes_readers : Version → Pipe → Pc → Bool
owes_readers v p (write_loop j) = write_wakes v j && p.readopen
owes_readers v p outside = false
owes_readers v p (write_enter addr n) = false
owes_readers v p (read_enter addr n) = false
owes_readers v p (write_sleep j) = false
owes_readers v p (read_test addr n) = false
owes_readers v p (read_sleep addr n) = false
owes_readers v p (read_loop j) = false

abbrev pub owes_writers : Version → Pc → Bool
owes_writers v (read_loop j) = read_wakes v j
owes_writers v outside = false
owes_writers v (write_enter addr n) = false
owes_writers v (read_enter addr n) = false
owes_writers v (write_loop j) = false
owes_writers v (write_sleep j) = false
owes_writers v (read_test addr n) = false
owes_writers v (read_sleep addr n) = false

abbrev pub by_holder : (Pc → Bool) → Option ℕ → (ℕ → Pc) → Bool
by_holder f none pc = false
by_holder f (some h) pc = f (pc h)

-- What a process in a loop knows of the pipe, beyond what it tests.
abbrev pub Knows : Version → Pipe → Pc → Type 0
Knows v p (write_loop j) = j.need_wakeup ≡ false → 0 < used p
Knows v p (read_loop j) = j.was_full ≡ false → used p < pipe_total v
Knows v p outside = Unit
Knows v p (write_enter addr n) = Unit
Knows v p (read_enter addr n) = Unit
Knows v p (write_sleep j) = j.need_wakeup ≡ true
Knows v p (read_test addr n) = Unit
Knows v p (read_sleep addr n) = Unit

module _ (u : UserSpace) (v : Version) (pipe_at : ℕ) (kills : Bool) where
  pub record Inv (s : System u) : Type 0 where
    pub valid : IsValid v s.pipe
    -- who is between `acquire` and `release` has the lock, and who has it is there
    pub owner : (k : ℕ) → in_lock (s.pc k) ≡ true → s.lock ≡ some k
    pub knows : (k : ℕ) → Knows v s.pipe (s.pc k)
    -- a writer sleeps while the pipe is full, or will be woken
    pub writers :
        (k : ℕ)
        → k < nproc
        → asleep s.table k (wr u v pipe_at) ≡ true
        → (used s.pipe == pipe_total v || by_holder (owes_writers v) s.lock s.pc) ≡ true
    -- unless a writer was killed, a reader sleeps while the pipe is empty, or will be woken
    pub readers :
        kills ≡ false
        → (k : ℕ) → k < nproc
        → asleep s.table k (rd u v pipe_at) ≡ true
        → (used s.pipe == 0 || by_holder (owes_readers v s.pipe) s.lock s.pc) ≡ true
    -- readers and writers never sleep at once
    pub apart :
        (k l : ℕ)
        → k < nproc
        → l < nproc
        → asleep s.table k (rd u v pipe_at) ≡ true
        → asleep s.table l (wr u v pipe_at) ≡ false
    pub alive : kills ≡ false → (k : ℕ) → (s.table k).killed ≡ false
    pub stream : s.sent ≡ s.left ++ contents v s.pipe
    pub arrived : bytewise v ≡ false → s.got ≡ s.left
