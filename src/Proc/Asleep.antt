-- ===== src/Proc/Asleep.antt =====
-- Who sleeps on a channel, and how the functions of kernel/proc.c change it.
use increase_ipc_throughput.Base.{
  ℕ, zero, suc, ◌+◌, ◌<◌, ◌≡◌, arith, Bool, true, false, ◌&&◌, update, ◌==◌, if◌then◌else◌,
  Bool-cases, inl, inr,
}
use increase_ipc_throughput.Pipe.{Version}
use increase_ipc_throughput.Proc.{
  Table, nproc, is_sleeping, running, wakeup, sleep, wake, tidy_up, yield, kill, kkill, kkill_from,
  dispatch,
}
use increase_ipc_throughput.Proc.Waking.{wakeup_lem}

-- Whether process `k` sleeps on a channel.
abbrev pub asleep : Table → ℕ → ℕ → Bool
asleep t k chan = is_sleeping (t k).state && (t k).chan == chan

-- `wakeup` puts nobody to sleep, and changes no `killed` flag.
pub asleep-wakeup :
    (v : Version) (i chan : ℕ) (t : Table) (k c : ℕ)
    → asleep (wakeup v i chan t) k c ≡ true
    → asleep t k c ≡ true
unfolding wake
asleep-wakeup v i chan t k c h = ground (arith, wakeup_lem v i chan t k)

pub killed-wakeup :
    (v : Version) (i chan : ℕ) (t : Table) (k : ℕ) → (wakeup v i chan t k).killed ≡ (t k).killed
unfolding wake
killed-wakeup v i chan t k = ground (arith, wakeup_lem v i chan t k)

pub wakeup_self : (v : Version) (i chan : ℕ) (t : Table) → wakeup v i chan t i ≡ t i
wakeup_self v i chan t = ground (arith, wakeup_lem v i chan t i)

-- After `wakeup(chan)` by a process that runs nobody sleeps on `chan`.
pub asleep-wakeup_none :
    (v : Version) (i chan : ℕ) (t : Table) (k : ℕ)
    → k < nproc
    → (t i).state ≡ running
    → asleep (wakeup v i chan t) k chan ≡ false
unfolding wake
asleep-wakeup_none v i chan t k lt run = ground (arith, wakeup_lem v i chan t k)

-- One process goes to sleep on `d`.
pub asleep-sleep :
    (t : Table) (i d k c : ℕ)
    → asleep (update t i (sleep d (t i))) k c ≡ (if i == k then d == c else asleep t k c)
unfolding sleep
asleep-sleep t i d k c = ground arith

pub killed-sleep : (t : Table) (i d k : ℕ) → (update t i (sleep d (t i)) k).killed ≡ (t k).killed
unfolding sleep
killed-sleep t i d k = ground arith

-- The other writes to an entry put nobody to sleep.
pub asleep-tidy_up :
    (t : Table) (i k c : ℕ)
    → (t i).state ≡ running
    → asleep (update t i (tidy_up (t i))) k c ≡ true
    → asleep t k c ≡ true
unfolding tidy_up
asleep-tidy_up t i k c run h = ground arith

pub killed-tidy_up : (t : Table) (i k : ℕ) → (update t i (tidy_up (t i)) k).killed ≡ (t k).killed
unfolding tidy_up
killed-tidy_up t i k = ground arith

pub asleep-dispatch :
    (t : Table) (i k c : ℕ) → asleep (update t i (dispatch (t i))) k c ≡ true → asleep t k c ≡ true
unfolding dispatch
asleep-dispatch t i k c h = ground arith

pub killed-dispatch : (t : Table) (i k : ℕ) → (update t i (dispatch (t i)) k).killed ≡ (t k).killed
unfolding dispatch
killed-dispatch t i k = ground arith

pub asleep-yield :
    (v : Version) (t : Table) (i k c : ℕ)
    → asleep (update t i (yield v (t i))) k c ≡ true
    → asleep t k c ≡ true
unfolding yield
asleep-yield v t i k c h = ground arith

pub killed-yield :
    (v : Version) (t : Table) (i k : ℕ) → (update t i (yield v (t i)) k).killed ≡ (t k).killed
unfolding yield
killed-yield v t i k = ground arith

asleep-kkill_from :
    (n j pid : ℕ) (t : Table) (k c : ℕ)
    → asleep (kkill_from n j pid t).1 k c ≡ true
    → asleep t k c ≡ true
unfolding kkill_from kill
asleep-kkill_from zero j pid t k c h = h
asleep-kkill_from (suc n) j pid t k c h = elim (Bool-cases ((t j).pid == pid)) [
  | inl hit ↦ ground arith
  | inr miss ↦ asleep-kkill_from n (j + 1) pid t k c (rw miss at h)
]

pub asleep-kkill :
    (pid : ℕ) (t : Table) (k c : ℕ) → asleep (kkill pid t).1 k c ≡ true → asleep t k c ≡ true
unfolding kkill
asleep-kkill pid t k c h = asleep-kkill_from nproc 0 pid t k c h
