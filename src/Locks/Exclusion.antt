-- ===== src/Locks/Exclusion.antt =====
-- The lock of kernel/spinlock.c in every interleaving of its processors.
use increase_ipc_throughput.Base.{
  ℕ, ◌≡◌, ◌≢◌, refl, sym, ◌∙◌, arith, true, false, none, some, ltb, ◌==◌, update, Bool-cases, inl,
  inr,
}
use increase_ipc_throughput.Locks.{
  Cpu, push_off, pop_off, idle, spinning, taken, critical, leaving, panicked, is_idle, is_critical,
  Spin, is_some_of, acquire_start, acquire_swap, acquire_end, release_start, release_popped,
  release_end, IsOff, Step, start_acquire, swap, end_acquire, start_release, end_release, outside,
  inside, Reach, here, next,
}
use increase_ipc_throughput.Locks.Inv.{
  has_lock, Inv, unowned, is_some-of_owner, is_some_of_unique, has_lock-critical, initlock-Inv,
}

acquire_start-Inv : (i : ℕ) (s : Spin) → Inv s → s.pc i ≡ idle → Inv (acquire_start i s)
unfolding acquire_start push_off
acquire_start-Inv i s v at = rw (free) (record {
  owner = v.owner;
  lock_owned = v.lock_owned;
  owns = λ k. ground (arith, v.owns k, at);
  recorded = λ k. ground (arith, v.recorded k, at);
  off = λ k h. ground (arith, v.off k);
  calm = λ k. ground (arith, v.calm k);
})
  where
    free : is_some_of s.cpu i ≡ false
    free = ground (arith, v.recorded i, at)

acquire_swap-Inv : (i : ℕ) (s : Spin) → Inv s → s.pc i ≡ spinning → Inv (acquire_swap i s)
unfolding acquire_swap
acquire_swap-Inv i s v at = elim (Bool-cases s.locked) [
  | inl busy ↦ rw (busy) (record {
    owner = v.owner;
    lock_owned = sym busy ∙ v.lock_owned;
    owns = λ k. ground (arith, v.owns k, at);
    recorded = λ k. ground (arith, v.recorded k, at);
    off = λ k h. v.off k (ground (arith, at));
    calm = λ k. ground (arith, v.calm k);
  })
  | inr free ↦ rw (free) (record {
    owner = some i;
    lock_owned = refl;
    owns = λ k. ground (arith, v.owns k, unowned v.owner k (sym v.lock_owned ∙ free));
    recorded = λ k. ground (arith, v.recorded k, at);
    off = λ k h. v.off k (ground (arith, at));
    calm = λ k. ground (arith, v.calm k);
  })
]

acquire_end-Inv : (i : ℕ) (s : Spin) → Inv s → s.pc i ≡ taken → Inv (acquire_end i s)
unfolding acquire_end
acquire_end-Inv i s v at = record {
  owner = v.owner;
  lock_owned = v.lock_owned;
  owns = λ k. ground (arith, v.owns k, at);
  recorded = λ k. elim (Bool-cases (i == k)) [
    | inl same ↦ ground arith
    | inr other ↦ ground (arith, alone k other)
  ];
  off = λ k h. v.off k (ground (arith, at));
  calm = λ k. ground (arith, v.calm k);
}
  where
    mine : is_some_of v.owner i ≡ true
    mine = ground (arith, v.owns i, at)

    alone : (k : ℕ) → (i == k) ≡ false → is_critical (s.pc k) ≡ false
    alone k ne = elim (Bool-cases (is_critical (s.pc k))) [
      | inr clear ↦ clear
      | inl held ↦ absurd (
          ground (
            arith,
            is_some_of_unique v.owner i k mine (sym (v.owns k) ∙ has_lock-critical (s.pc k) held),
          ))
    ]

release_start-Inv : (i : ℕ) (s : Spin) → Inv s → s.pc i ≡ critical → Inv (release_start i s)
unfolding release_start
release_start-Inv i s v at =
    rw (locked, recorded_here)
      (record {
        owner = v.owner;
        lock_owned = sym locked ∙ v.lock_owned;
        owns = λ k. ground (arith, v.owns k, at);
        recorded = λ k. elim (Bool-cases (i == k)) [
          | inl same ↦ ground arith
          | inr other ↦ ground (arith, alone k other)
        ];
        off = λ k h. v.off k (ground (arith, at));
        calm = λ k. ground (arith, v.calm k);
      })
  where
    recorded_here : is_some_of s.cpu i ≡ true
    recorded_here = ground (arith, v.recorded i, at)

    locked : s.locked ≡ true
    locked = v.lock_owned ∙ is_some-of_owner v.owner i (ground (arith, v.owns i, at))

    alone : (k : ℕ) → (i == k) ≡ false → is_critical (s.pc k) ≡ false
    alone k ne = elim (Bool-cases (is_critical (s.pc k))) [
      | inr clear ↦ clear
      | inl held ↦
          absurd
            (ground (arith, is_some_of_unique s.cpu i k recorded_here (sym (v.recorded k) ∙ held)))
    ]

release_end-Inv : (i : ℕ) (s : Spin) → Inv s → s.pc i ≡ leaving → Inv (release_end i s)
unfolding release_end release_popped pop_off
release_end-Inv i s v at =
    rw (on.1, deep)
      (record {
        owner = none;
        lock_owned = refl;
        owns = λ k. elim (Bool-cases (i == k)) [
          | inl same ↦ ground arith
          | inr other ↦ ground (arith, alone k other)
        ];
        recorded = λ k. ground (arith, v.recorded k, at);
        off = λ k h. ground (arith, v.off k, at);
        calm = λ k. ground (arith, v.calm k);
      })
  where
    on : IsOff (s.cpus i)
    on = v.off i (ground (arith, at))

    deep : ltb (s.cpus i).noff 1 ≡ false
    deep = ground (arith, on.0)

    mine : is_some_of v.owner i ≡ true
    mine = ground (arith, v.owns i, at)

    alone : (k : ℕ) → (i == k) ≡ false → has_lock (s.pc k) ≡ false
    alone k ne = elim (Bool-cases (has_lock (s.pc k))) [
      | inr clear ↦ clear
      | inl held ↦
          absurd (ground (arith, is_some_of_unique v.owner i k mine (sym (v.owns k) ∙ held)))
    ]

cpus-Inv :
    (i : ℕ) (c : Cpu) (s : Spin)
    → Inv s
    → (is_idle (s.pc i) ≡ false → IsOff c)
    → Inv (record s { cpus = update s.cpus i c })
cpus-Inv i c s v h = record {
  owner = v.owner;
  lock_owned = v.lock_owned;
  owns = v.owns;
  recorded = v.recorded;
  off = λ k busy. elim (Bool-cases (i == k)) [
    | inl same ↦ ground (arith, h)
    | inr other ↦ ground (arith, v.off k)
  ];
  calm = v.calm;
}

Step-Inv : {s t : Spin} → Inv s → Step s t → Inv t
Step-Inv {s} v (start_acquire i at) = acquire_start-Inv i s v at
Step-Inv {s} v (swap i at) = acquire_swap-Inv i s v at
Step-Inv {s} v (end_acquire i at) = acquire_end-Inv i s v at
Step-Inv {s} v (start_release i at) = release_start-Inv i s v at
Step-Inv {s} v (end_release i at) = release_end-Inv i s v at
Step-Inv {s} v (outside i c at) = cpus-Inv i c s v (λ h. absurd (ground (arith, at)))
Step-Inv {s} v (inside i c at off) = cpus-Inv i c s v (λ _. off)

Reach-Inv : {s : Spin} → Reach s → Inv s
Reach-Inv (here cpus) = initlock-Inv cpus
Reach-Inv (next r st) = Step-Inv (Reach-Inv r) st

-- In every interleaving two processors are never between `acquire` and `release` at once; there
-- interrupts are off; and neither `acquire` outside nor `release` inside, with other locks nested
-- in pairs, ever panics.
pub at_most_one :
    {s : Spin}
    → Reach s
    → ((i k : ℕ) → s.pc i ≡ critical → s.pc k ≡ critical → i ≡ k)
      × ((i : ℕ) → s.pc i ≡ critical → (s.cpus i).intr ≡ false)
      × ((i : ℕ) → s.pc i ≢ panicked)
at_most_one {s} r = (
  λ i k hi hk.
      is_some_of_unique s.cpu i k (ground (arith, v.recorded i, hi))
        (ground (arith, v.recorded k, hk)),
  λ i h. (v.off i (ground (arith, h))).1,
  λ i h. ground (arith, v.calm i, h),
)
  where
    v : Inv s
    v = Reach-Inv r
