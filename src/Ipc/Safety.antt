-- ===== src/Ipc/Safety.antt =====
-- What the processes that share a pipe may rely on, in every interleaving.
use increase_ipc_throughput.Base.{ℕ, ◌<◌, ◌≤◌, ◌≡◌, arith, Bool, true, false, none, ◌++◌}
use increase_ipc_throughput.User.{UserSpace}
use increase_ipc_throughput.Pipe.{Version, pipe_total, used, bytewise}
use increase_ipc_throughput.Pipe.Contents.{contents}
use increase_ipc_throughput.Proc.{nproc}
use increase_ipc_throughput.Proc.Asleep.{asleep}
use increase_ipc_throughput.Ipc.{System, rd, wr, Reach}
use increase_ipc_throughput.Ipc.Inv.{Inv}
use increase_ipc_throughput.Ipc.Steps.{Reach-Inv}
use increase_ipc_throughput.Ipc.Ends.{EndsOpen, Reach-EndsOpen}

module _ (u : UserSpace) (v : Version) (pipe_at : ℕ) (kills : Bool) where
  -- In every version and every interleaving, the bytes that were written are those that left the
  -- pipe and behind them those in it, at most `PIPE_TOTAL`, in order; but for v1, all that left
  -- reached a reader.
  pub stream_intact :
      {s : System u}
      → Reach u v pipe_at kills s
      → (s.sent ≡ s.left ++ contents v s.pipe)
        × (used s.pipe ≤ pipe_total v)
        × (bytewise v ≡ false → s.got ≡ s.left)
  stream_intact {s} r = (inv.stream, inv.valid.used_le, inv.arrived)
    where
      inv : Inv u v pipe_at kills s
      inv = Reach-Inv u v pipe_at kills r

  -- While the lock is free, a writer that sleeps on the pipe sleeps because it is full and its
  -- read end open; a reader that sleeps on it sleeps while the write end is open, and, if no process
  -- is killed, because the pipe is empty.
  pub no_lost_wakeup :
      {s : System u}
      → Reach u v pipe_at kills s
      → s.lock ≡ none
      → (k : ℕ) → k < nproc
      → (asleep s.table k (wr u v pipe_at) ≡ true
          → (used s.pipe ≡ pipe_total v) × (s.pipe.readopen ≡ true))
        × (asleep s.table k (rd u v pipe_at) ≡ true → s.pipe.writeopen ≡ true)
        × (kills ≡ false → asleep s.table k (rd u v pipe_at) ≡ true → used s.pipe ≡ 0)
  no_lost_wakeup {s} r free k lt = (
    λ sl. (ground (arith, free, inv.writers k lt sl), ends.for_writers k lt sl),
    λ sl. ends.for_readers k lt sl,
    λ nk sl. ground (arith, free, inv.readers nk k lt sl),
  )
    where
      inv : Inv u v pipe_at kills s
      inv = Reach-Inv u v pipe_at kills r

      ends : EndsOpen u v pipe_at kills s.table s.pipe
      ends = Reach-EndsOpen u v pipe_at kills r

  -- A reader and a writer never sleep on the pipe at once, not even where processes are killed.
  pub never_both_asleep :
      {s : System u}
      → Reach u v pipe_at kills s
      → (k l : ℕ) → k < nproc
      → l < nproc
      → asleep s.table k (rd u v pipe_at) ≡ true
      → asleep s.table l (wr u v pipe_at) ≡ false
  never_both_asleep r = (Reach-Inv u v pipe_at kills r).apart
