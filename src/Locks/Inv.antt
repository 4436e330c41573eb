-- ===== src/Locks/Inv.antt =====
-- An invariant of the lock of kernel/spinlock.c: who has it, and who is recorded in it.
use increase_ipc_throughput.Base.{ℕ, ◌≡◌, refl, arith, Bool, true, false, Option, none, some}
use increase_ipc_throughput.Locks.{
  Cpu, LockPc, idle, spinning, taken, critical, leaving, panicked, is_idle, is_critical, Spin,
  is_some_of, IsOff, initlock,
}

-- Whether the processor has the lock.
abbrev pub has_lock : LockPc → Bool
has_lock idle = false
has_lock spinning = false
has_lock taken = true
has_lock critical = true
has_lock leaving = true
has_lock panicked = false

abbrev pub is_panicked : LockPc → Bool
is_panicked idle = false
is_panicked spinning = false
is_panicked taken = false
is_panicked critical = false
is_panicked leaving = false
is_panicked panicked = true

abbrev pub is_some : Option ℕ → Bool
is_some none = false
is_some (some a) = true

-- `owner` is who has the lock.
pub record Inv (s : Spin) : Type 0 where
  pub owner : Option ℕ
  pub lock_owned : s.locked ≡ is_some owner
  pub owns : (k : ℕ) → has_lock (s.pc k) ≡ is_some_of owner k
  pub recorded : (k : ℕ) → is_critical (s.pc k) ≡ is_some_of s.cpu k
  pub off : (k : ℕ) → is_idle (s.pc k) ≡ false → IsOff (s.cpus k)
  pub calm : (k : ℕ) → is_panicked (s.pc k) ≡ false

pub unowned : (o : Option ℕ) (k : ℕ) → is_some o ≡ false → is_some_of o k ≡ false
unowned none k h = refl
unowned (some a) k h = cc

pub is_some-of_owner : (o : Option ℕ) (k : ℕ) → is_some_of o k ≡ true → is_some o ≡ true
is_some-of_owner none k h = h
is_some-of_owner (some a) k h = refl

pub is_some_of_unique :
    (o : Option ℕ) (i k : ℕ) → is_some_of o i ≡ true → is_some_of o k ≡ true → i ≡ k
is_some_of_unique none i k h h' = cc
is_some_of_unique (some a) i k h h' = ground arith

pub has_lock-critical : (p : LockPc) → is_critical p ≡ true → has_lock p ≡ true
has_lock-critical idle h = h
has_lock-critical spinning h = h
has_lock-critical taken h = refl
has_lock-critical critical h = refl
has_lock-critical leaving h = refl
has_lock-critical panicked h = h

pub initlock-Inv : (cpus : ℕ → Cpu) → Inv (initlock cpus)
initlock-Inv cpus = record {
  owner = none;
  lock_owned = refl;
  owns = λ k. refl;
  recorded = λ k. refl;
  off = λ k h. absurd (ground (arith, h));
  calm = λ k. refl;
}
