-- ===== src/Ipc/Keep.antt =====
-- Facts with which the steps of `Ipc` keep the invariant.
use increase_ipc_throughput.Base.{
  ℕ, ◌≡◌, ◌≢◌, refl, sym, ap, arith, Bool, true, false, Option, none, some, update, update_self,
  update_ne, subst, Bool-cases, inl, inr, ℕ_discrete,
}
use increase_ipc_throughput.Pipe.{Version, Pipe}
use increase_ipc_throughput.Ipc.{
  Pc, outside, write_enter, read_enter, write_loop, write_sleep, read_test, read_sleep, read_loop,
  in_lock,
}
use increase_ipc_throughput.Ipc.Inv.{Knows, by_holder, owes_readers, owes_writers}

-- What a process knows without the lock does not depend on the pipe.
pub Knows-outside :
    (v : Version) (p q : Pipe) (c : Pc) → in_lock c ≡ false → Knows v p c → Knows v q c
Knows-outside v p q outside h k = tt
Knows-outside v p q (write_enter addr n) h k = tt
Knows-outside v p q (read_enter addr n) h k = tt
Knows-outside v p q (write_loop j) h k = cc
Knows-outside v p q (write_sleep j) h k = k
Knows-outside v p q (read_test addr n) h k = tt
Knows-outside v p q (read_sleep addr n) h k = tt
Knows-outside v p q (read_loop j) h k = cc

-- After process `i` has moved, what the others know stands, if `i` had the lock or they had not.
pub Knows-update :
    (v : Version) (p q : Pipe) (pc : ℕ → Pc) (i : ℕ) (c : Pc)
    → Knows v q c
    → ((k : ℕ) → k ≢ i → in_lock (pc k) ≡ false)
    → ((k : ℕ) → Knows v p (pc k))
    → (k : ℕ) → Knows v q (update pc i c k)
Knows-update v p q pc i c new others old k = elim (ℕ_discrete i k) [
  | yes e ↦ subst (λ l. Knows v q (update pc i c l)) e (rw (update_self pc i c) new)
  | no ne ↦ rw (update_ne pc c ne) (Knows-outside v p q (pc k) (others k (λ e. ne (sym e))) (old k))
]

-- What the holder owes is the same, if the process that moved owes the same, or has not the lock.
pub by_holder-update :
    (f : Pc → Bool) (lock : Option ℕ) (pc : ℕ → Pc) (i : ℕ) (c : Pc)
    → f c ≡ f (pc i)
    → by_holder f lock (update pc i c) ≡ by_holder f lock pc
by_holder-update f none pc i c h = refl
by_holder-update f (some k) pc i c h = elim (ℕ_discrete i k) [
  | yes e ↦ subst (λ l. f (update pc i c l) ≡ f (pc l)) e (rw (update_self pc i c) h)
  | no ne ↦ rw (update_ne pc c ne)
]

-- Only the process with the lock is between `acquire` and `release`.
pub others-outside :
    (lock : Option ℕ) (pc : ℕ → Pc) (i : ℕ)
    → lock ≡ some i
    → ((k : ℕ) → in_lock (pc k) ≡ true → lock ≡ some k)
    → (k : ℕ) → k ≢ i
    → in_lock (pc k) ≡ false
others-outside lock pc i e owner k ne = elim (Bool-cases (in_lock (pc k))) [
  | inl inside ↦ absurd (ground (arith, owner k inside))
  | inr free ↦ free
]

pub all-outside :
    (pc : ℕ → Pc) (lock : Option ℕ)
    → lock ≡ none
    → ((k : ℕ) → in_lock (pc k) ≡ true → lock ≡ some k)
    → (k : ℕ) → in_lock (pc k) ≡ false
all-outside pc lock e owner k = elim (Bool-cases (in_lock (pc k))) [
  | inl inside ↦ absurd (ground (arith, owner k inside))
  | inr free ↦ free
]

-- Who has the lock after process `i`, which has it, has moved.
pub owner-update :
    (lock : Option ℕ) (pc : ℕ → Pc) (i : ℕ) (c : Pc)
    → (in_lock c ≡ true → lock ≡ some i)
    → ((k : ℕ) → k ≢ i → in_lock (pc k) ≡ false)
    → (k : ℕ) → in_lock (update pc i c k) ≡ true
    → lock ≡ some k
owner-update lock pc i c new others k h = elim (ℕ_discrete i k) [
  | yes e ↦
      subst (λ l. in_lock (update pc i c l) ≡ true → lock ≡ some l) e
        (λ g. new (rw (update_self pc i c) at g)) h
  | no ne ↦ absurd (ground (arith, others k (λ e. ne (sym e)), update_ne pc c ne))
]

-- A process without the lock owes nothing.
pub owes_readers_outside :
    (v : Version) (p : Pipe) (c : Pc) → in_lock c ≡ false → owes_readers v p c ≡ false
owes_readers_outside v p outside h = refl
owes_readers_outside v p (write_enter addr n) h = refl
owes_readers_outside v p (read_enter addr n) h = refl
owes_readers_outside v p (write_loop j) h = cc
owes_readers_outside v p (write_sleep j) h = refl
owes_readers_outside v p (read_test addr n) h = refl
owes_readers_outside v p (read_sleep addr n) h = refl
owes_readers_outside v p (read_loop j) h = cc

pub owes_writers_outside : (v : Version) (c : Pc) → in_lock c ≡ false → owes_writers v c ≡ false
owes_writers_outside v outside h = refl
owes_writers_outside v (write_enter addr n) h = refl
owes_writers_outside v (read_enter addr n) h = refl
owes_writers_outside v (write_loop j) h = cc
owes_writers_outside v (write_sleep j) h = refl
owes_writers_outside v (read_test addr n) h = refl
owes_writers_outside v (read_sleep addr n) h = refl
owes_writers_outside v (read_loop j) h = cc

-- A process without the lock moves, and stays without.
pub owner-move :
    (lock : Option ℕ) (pc : ℕ → Pc) (i : ℕ) (c : Pc)
    → in_lock c ≡ false
    → ((k : ℕ) → in_lock (pc k) ≡ true → lock ≡ some k)
    → (k : ℕ) → in_lock (update pc i c k) ≡ true
    → lock ≡ some k
owner-move lock pc i c out owner k h = elim (ℕ_discrete i k) [
  | yes e ↦ absurd (ground (arith, update_self pc i c, ap (λ l. in_lock (update pc i c l)) e))
  | no ne ↦ owner k (rw (update_ne pc c ne) at h)
]

pub Knows-move :
    (v : Version) (p : Pipe) (pc : ℕ → Pc) (i : ℕ) (c : Pc)
    → Knows v p c
    → ((k : ℕ) → Knows v p (pc k))
    → (k : ℕ) → Knows v p (update pc i c k)
Knows-move v p pc i c new old k = elim (ℕ_discrete i k) [
  | yes e ↦ subst (λ l. Knows v p (update pc i c l)) e (rw (update_self pc i c) new)
  | no ne ↦ rw (update_ne pc c ne) (old k)
]
