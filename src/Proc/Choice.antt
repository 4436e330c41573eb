-- ===== src/Proc/Choice.antt =====
-- The choice of `scheduler` in kernel/proc.c: what phase 1 finds in v6 and later, and who is left
-- out; the pass over the table before v6.
use increase_ipc_throughput.Base.{
  ℕ, zero, suc, ◌+◌, ◌≤◌, ◌<◌, ◌≡◌, ◌≢◌, refl, sym, ap, ◌∙◌, arith, Bool, true, false, ◌&&◌, Option,
  none, some, if◌then◌else◌, update, ℤ, pos, minus_one, ltb_ℤ, Bool-cases, inl, inr, dec_lt,
  contains, below_step, subst, add-zero,
}
use increase_ipc_throughput.Pipe.{v7}
use increase_ipc_throughput.Proc.{
  runnable, is_runnable, nproc, priority_base, Table, find_best, pick, pass_from, pass, dispatch,
  yield,
}

-- What phase 1 knows after the processes below `i`.
abbrev Found : ℕ → Table → Option ℕ → ℤ → Type 0
Found i t none bp = (bp ≡ minus_one) × ((j : ℕ) → j < i → is_runnable (t j).state ≡ false)
Found i t (some b) bp =
    (b < i)
    × (bp ≡ pos (t b).priority)
    × (is_runnable (t b).state ≡ true)
    × ((j : ℕ) → j < i → is_runnable (t j).state ≡ true → (t j).priority ≤ (t b).priority)
    × ((j : ℕ) → j < b → is_runnable (t j).state ≡ true → (t j).priority < (t b).priority)

runnable_at : Table → ℕ → Bool
runnable_at t j = is_runnable (t j).state

-- One more process is looked at.
Found-step :
    (i : ℕ) (t : Table) (best : Option ℕ) (bp : ℤ) (better : Bool)
    → (is_runnable (t i).state && ltb_ℤ bp (pos (t i).priority)) ≡ better
    → Found i t best bp
    → Found (i + 1) t (if better then some i else best) (if better then pos (t i).priority else bp)
Found-step i t none bp true e f = (
  omega arith,
  refl,
  ground arith,
  below_step (λ j. is_runnable (t j).state ≡ true → (t j).priority ≤ (t i).priority) i
      (λ j h r. absurd (ground (arith, f.1 j h))) (λ r. omega arith),
  λ j h r. absurd (ground (arith, f.1 j h)),
)
Found-step i t none bp false e f =
    (f.0, below_step (λ j. is_runnable (t j).state ≡ false) i f.1 (ground arith))
Found-step i t (some b) bp true e f = (
  omega arith,
  refl,
  ground arith,
  below_step (λ j. is_runnable (t j).state ≡ true → (t j).priority ≤ (t i).priority) i
      (λ j h r. ground (arith, f.3 j h r)) (λ r. omega arith),
  λ j h r. ground (arith, f.3 j h r),
)
Found-step i t (some b) bp false e f = (
  omega (arith, f.0),
  f.1,
  f.2,
  below_step (λ j. is_runnable (t j).state ≡ true → (t j).priority ≤ (t b).priority) i f.3
      (λ r. ground arith),
  f.4,
)

find_best-Found :
    (n i k : ℕ) (t : Table) (best : Option ℕ) (bp : ℤ)
    → i + n ≡ k
    → Found i t best bp
    → Found k t (find_best n i t best bp).0 (find_best n i t best bp).1
unfolding find_best
find_best-Found zero i k t best bp e f = subst (λ k. Found k t best bp) (sym (add-zero i) ∙ e) f
find_best-Found (suc n) i k t best bp e f =
    find_best-Found n (i + 1) k t _ _ (omega arith) (Found-step i t best bp _ refl f)

-- The process of highest priority among those that can run, the first of them if there are more.
abbrev pub Chosen : Table → Option ℕ → Type 0
Chosen t none = (j : ℕ) → j < nproc → is_runnable (t j).state ≡ false
Chosen t (some b) =
    (b < nproc)
    × (is_runnable (t b).state ≡ true)
    × ((j : ℕ) → j < nproc → is_runnable (t j).state ≡ true → (t j).priority ≤ (t b).priority)
    × ((j : ℕ) → j < b → is_runnable (t j).state ≡ true → (t j).priority < (t b).priority)

Chosen-of_Found : (t : Table) (best : Option ℕ) (bp : ℤ) → Found nproc t best bp → Chosen t best
Chosen-of_Found t none bp f = f.1
Chosen-of_Found t (some b) bp f = (f.0, f.2, f.3, f.4)

-- Phase 1 of `scheduler` finds a process exactly if one can run: one of highest priority, and of
-- those the first in the table.
pub pick-Chosen : (t : Table) → Chosen t (pick t)
unfolding pick
pick-Chosen t =
    Chosen-of_Found t _ _
      (find_best-Found nproc 0 nproc t none minus_one refl (refl, λ j h. absurd (omega arith)))

Chosen-unique :
    (t : Table) (b : ℕ) (best : Option ℕ) → Chosen t (some b) → Chosen t best → best ≡ some b
Chosen-unique t b none f g = absurd (ground (arith, f.1, g b f.0))
Chosen-unique t b (some c) f g = elim (dec_lt b c) [
  | yes p ↦ absurd (omega (arith, g.3 b p f.1, f.2 c g.0 g.1))
  | no p ↦ elim (dec_lt c b) [
    | yes q ↦ absurd (omega (arith, f.3 c q g.1, g.2 b f.0 f.1))
    | no q ↦ ap some (omega arith)
  ]
]

pub pick_unique : (t : Table) (b : ℕ) → Chosen t (some b) → pick t ≡ some b
pick_unique t b f = Chosen-unique t b (pick t) f (pick-Chosen t)

-- Process `a` is the first that can run, and none that can run has a boost.
pub record AllBase (t : Table) (a : ℕ) : Type 0 where
  pub inside : a < nproc
  pub ready : (t a).state ≡ runnable
  pub first : (j : ℕ) → j < a → is_runnable (t j).state ≡ false
  pub base : (j : ℕ) → is_runnable (t j).state ≡ true → (t j).priority ≡ priority_base

-- A process that computes until the timer interrupt: it runs, and yields.
abbrev pub computes : ℕ → Table → Table
computes i t = update t i (yield v7 (t i))

-- The table after a turn of `a`.
after_turn : Table → ℕ → Table
after_turn t a = computes a (update t a (dispatch (t a)))

-- What the others do to a process that can run, while it waits in a pass.
abbrev pub Waits : (ℕ → Table → Table) → Type 0
Waits run =
    (i j : ℕ) (t : Table)
    → i ≢ j
    → is_runnable (t j).state ≡ true
    → is_runnable (run i t j).state ≡ true

pass_from-contains :
    (n i j : ℕ) (run : ℕ → Table → Table) (t : Table)
    → Waits run
    → i ≤ j
    → j < i + n
    → is_runnable (t j).state ≡ true
    → contains (pass_from n i run t).0 j ≡ true
unfolding pass_from
pass_from-contains zero i j run t w le lt r = absurd (omega arith)
pass_from-contains (suc n) i j run t w le lt r = elim (dec_lt i j) [
  | yes p ↦ elim (Bool-cases (is_runnable (t i).state)) [
    | inl goes ↦ rw goes (
        ground (
          arith,
          pass_from-contains n (i + 1) j run (run i (update t i (dispatch (t i)))) w (omega arith)
              (omega arith) (w i j (update t i (dispatch (t i))) (omega arith) (ground arith)),
        ))
    | inr stays ↦ rw stays (pass_from-contains n (i + 1) j run t w (omega arith) (omega arith) r)
  ]
  | no q ↦ let e : i ≡ j = omega arith in rw (e, r) (ground arith)
]

-- Before v6 a pass runs every process that can run at its start, if those that run before it
-- leave it ready.
pub pass-contains :
    (run : ℕ → Table → Table) (t : Table) (j : ℕ)
    → Waits run
    → j < nproc
    → is_runnable (t j).state ≡ true
    → contains (pass run t).0 j ≡ true
unfolding pass
pass-contains run t j w lt r = pass_from-contains nproc 0 j run t w (omega arith) lt r
