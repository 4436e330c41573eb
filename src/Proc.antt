-- ===== src/Proc.antt =====
-- kernel/proc.c: the process table, as far as sleeping, waking, killing and choosing go.
-- A process is an index of the table; `#if PIPE_VERSION >= 6` is a clause on `boosts`.
pub mod Waking
pub mod Asleep
pub mod Choice
use increase_ipc_throughput.Base.{
  ℕ, zero, suc, ◌+◌, ◌-◌, Bool, true, false, not, ◌&&◌, ◌||◌, Option, none, some, List, [], ◌∷◌,
  ltb, ◌==◌, if◌then◌else◌, update, ℤ, pos, negsuc, minus_one, ltb_ℤ,
}
use increase_ipc_throughput.Pipe.{Version, v1, v2, v3, v4, v5, v6, v7, v8}

-- `enum procstate`.
pub data ProcState : Type 0 where
  unused used sleeping runnable running zombie : ProcState

abbrev pub is_sleeping : ProcState → Bool
is_sleeping unused = false
is_sleeping used = false
is_sleeping sleeping = true
is_sleeping runnable = false
is_sleeping running = false
is_sleeping zombie = false

abbrev pub is_runnable : ProcState → Bool
is_runnable unused = false
is_runnable used = false
is_runnable sleeping = false
is_runnable runnable = true
is_runnable running = false
is_runnable zombie = false

-- The fields of `struct proc` that these functions use. `chan` is an address, 0 for none.
-- `priority` is an `int` in the source; it is set to 0 or 10, and counted down from above 0.
pub record Proc : Type 0 where
  pub state : ProcState
  pub chan : ℕ
  pub killed : Bool
  pub pid : ℕ
  pub priority : ℕ

abbrev pub nproc : ℕ
nproc = 64

abbrev pub priority_base : ℕ
priority_base = 0

abbrev pub priority_boost : ℕ
priority_boost = 10

-- `PIPE_VERSION >= 6`.
abbrev pub boosts : Version → Bool
boosts v1 = false
boosts v2 = false
boosts v3 = false
boosts v4 = false
boosts v5 = false
boosts v6 = true
boosts v7 = true
boosts v8 = true

-- `proc[]`.
abbrev pub Table : Type 0
Table = ℕ → Proc

-- `for(p = proc; p < &proc[n]; p++)` with a body that changes `*p` alone.
unfoldable pub for_procs : ℕ → (ℕ → Proc → Proc) → Table → Table
for_procs zero body t = t
for_procs (suc n) body t = let t' = for_procs n body t in update t' n (body n (t' n))

-- The body of `wakeup` for the process `p`.
unfoldable pub wake : Version → ℕ → Proc → Proc
wake v chan p =
    if is_sleeping p.state && p.chan == chan
    then record p { state = runnable; priority = if boosts v then priority_boost else p.priority }
    else p

-- `wakeup(chan)`, called by process `me`, an index past the table if there is none.
unfoldable pub wakeup : Version → ℕ → ℕ → Table → Table
wakeup v me chan t = for_procs nproc (λ i p. if i == me then p else wake v chan p) t

-- `sleep(chan, lk)` up to `sched()`, and its end.
unfoldable pub sleep : ℕ → Proc → Proc
sleep chan p = record p { state = sleeping; chan = chan }

unfoldable pub tidy_up : Proc → Proc
tidy_up p = record p { chan = 0 }

-- `yield()` up to `sched()`.
unfoldable pub yield : Version → Proc → Proc
yield v p = record p {
  priority = if boosts v && ltb priority_base p.priority then p.priority - 1 else p.priority;
  state = runnable;
}

-- What `kkill` does to the process that it finds.
unfoldable pub kill : Proc → Proc
kill p = record p { killed = true; state = if is_sleeping p.state then runnable else p.state }

-- `kkill(pid)` from process `i` on, with `n` processes left; 0 or -1.
unfoldable pub kkill_from : ℕ → ℕ → ℕ → Table → ℤ × Table
kkill_from zero i pid t = (minus_one, t)
kkill_from (suc n) i pid t =
    let rest = kkill_from n (i + 1) pid t in
    if (t i).pid == pid then (pos 0, update t i (kill (t i))) else rest

unfoldable pub kkill : ℕ → Table → ℤ × Table
kkill pid t = kkill_from nproc 0 pid t

-- `setkilled(p)`, and the write of `scheduler` when it switches to a process.
pub setkilled : Proc → Proc
setkilled p = record p { killed = true }

unfoldable pub dispatch : Proc → Proc
dispatch p = record p { state = running }

-- Phase 1 of `scheduler` from process `i` on: `best` and `best_priority` so far.
pub find_best : ℕ → ℕ → Table → Option ℕ → ℤ → Option ℕ × ℤ
find_best zero i t best best_priority = (best, best_priority)
find_best (suc n) i t best best_priority =
    let better = is_runnable (t i).state && ltb_ℤ best_priority (pos (t i).priority) in
    find_best n (i + 1) t (if better then some i else best)
      (if better then pos (t i).priority else best_priority)

-- The process that phase 1 chooses.
pub pick : Table → Option ℕ
pick t = (find_best nproc 0 t none minus_one).0

-- One turn of `scheduler` for v6 and later: the process that ran, and the table after it.
-- `between` is what others do to the table from the scan to `acquire(&best->lock)`, and `run i`
-- what has become of it when process `i` switches back.
pub pick_turn : (Table → Table) → (ℕ → Table → Table) → Table → Option ℕ × Table
pick_turn between run t = elim (pick t) [
  | none ↦ (none, between t)
  | some i ↦
      let t' = between t in
      if is_runnable (t' i).state
      then (some i, run i (update t' i (dispatch (t' i))))
      else (none, t')
]

-- Turns in a row: what each ran.
pub pick_turns : ℕ → (Table → Table) → (ℕ → Table → Table) → Table → List (Option ℕ)
pick_turns zero between run t = []
pick_turns (suc n) between run t =
    let (ran, t') = pick_turn between run t in ran ∷ pick_turns n between run t'

-- The loop of `scheduler` before v6, from process `i` on: the processes that ran, in order, and
-- the table after them.
pub pass_from : ℕ → ℕ → (ℕ → Table → Table) → Table → List ℕ × Table
pass_from zero i run t = ([], t)
pass_from (suc n) i run t =
    let runs = is_runnable (t i).state in
    let (ran, t') =
      pass_from n (i + 1) run (if runs then run i (update t i (dispatch (t i))) else t) in
    (if runs then i ∷ ran else ran, t')

pub pass : (ℕ → Table → Table) → Table → List ℕ × Table
pass run t = pass_from nproc 0 run t
