-- ===== src/Life/Orphans.antt =====
-- `reparent` and `kexit` of kernel/proc.c: what becomes of the children, of the parent and of the
-- process that exits.
use mathlib.Core.Option.{some-injective}
use increase_ipc_throughput.Base.{
  ◌+◌, ℕ, zero, suc, ◌<◌, ◌≡◌, ◌≢◌, refl, sym, ap, ◌∙◌, subst, arith, Bool, false, ◌&&◌, Option,
  none, some, ltb, ◌==◌, if◌then◌else◌, update_self,
}
use increase_ipc_throughput.Pipe.{Version}
use increase_ipc_throughput.Proc.{is_sleeping, zombie, nproc}
use increase_ipc_throughput.Proc.Waking.{wakeup-none_left}
use increase_ipc_throughput.Files.{Kernel}
use increase_ipc_throughput.Descriptors.{nofile}
use increase_ipc_throughput.Life.{Task, World, child_of, set_task}
use increase_ipc_throughput.Life.Calls.{
  close_fd, hand_over, reparent_from, reparent, become_zombie, close_files, kexit,
}

-- What `reparent(p)` makes of the parent of a process.
abbrev pub handed : ℕ → ℕ → Task → Task
handed p init t = if child_of p t then record t { parent = some init } else t

hand_over-initproc :
    (v : Version) (chan : ℕ → ℕ) (me p n : ℕ) (w : World)
    → (hand_over v chan me p n w).initproc ≡ w.initproc
unfolding hand_over
hand_over-initproc v chan me p n w = ground arith

hand_over-tasks :
    (v : Version) (chan : ℕ → ℕ) (me p n : ℕ) (w : World) (i : ℕ)
    → (hand_over v chan me p n w).tasks i
      ≡ (if i == n then handed p w.initproc (w.tasks i) else w.tasks i)
unfolding hand_over
hand_over-tasks v chan me p n w i = ground (arith, ap w.tasks)

reparent_from-initproc :
    (v : Version) (chan : ℕ → ℕ) (n me p : ℕ) (w : World)
    → (reparent_from v chan n me p w).initproc ≡ w.initproc
unfolding reparent_from
reparent_from-initproc v chan zero me p w = refl
reparent_from-initproc v chan (suc n) me p w =
    hand_over-initproc v chan me p n (reparent_from v chan n me p w)
    ∙ reparent_from-initproc v chan n me p w

loop_step :
    (n i : ℕ) (h : Task → Task) (t t' : Task)
    → t' ≡ (if ltb i n then h t else t)
    → (if i == n then h t' else t') ≡ (if ltb i (suc n) then h t else t)
loop_step n i h t t' e = ground (arith, ap h e)

reparent_from-tasks :
    (v : Version) (chan : ℕ → ℕ) (n me p : ℕ) (w : World) (i : ℕ)
    → (reparent_from v chan n me p w).tasks i
      ≡ (if ltb i n then handed p w.initproc (w.tasks i) else w.tasks i)
unfolding reparent_from
reparent_from-tasks v chan zero me p w i = ground arith
reparent_from-tasks v chan (suc n) me p w i =
    let w' = reparent_from v chan n me p w in
    hand_over-tasks v chan me p n w' i
    ∙ subst
        (λ q.
          (if i == n then handed p q (w'.tasks i) else w'.tasks i)
          ≡ (if ltb i (suc n) then handed p w.initproc (w.tasks i) else w.tasks i))
        (sym (reparent_from-initproc v chan n me p w))
        (loop_step n i (handed p w.initproc) (w.tasks i) (w'.tasks i)
          (reparent_from-tasks v chan n me p w i))

-- The tasks after the end of `kexit`: those of `reparent`, but for the task that exits.
pub become_zombie-tasks :
    (v : Version) (chan : ℕ → ℕ) (me status : ℕ) (w : World) (i : ℕ)
    → i ≢ me
    → (become_zombie v chan me status w).tasks i
      ≡ (if ltb i nproc then handed me w.initproc (w.tasks i) else w.tasks i)
unfolding become_zombie reparent
become_zombie-tasks v chan me status w i ne =
    let w1 = set_task me (record (w.tasks me) { cwd = 0 }) w in
    ground (arith, reparent_from-tasks v chan nproc me me w1 i)

-- The parent of the task that exits is the same after `reparent`, where it is another process.
pub reparent-parent :
    (v : Version) (chan : ℕ → ℕ) (me q : ℕ) (w : World)
    → (w.tasks me).parent ≡ some q
    → q ≢ me
    → ((reparent v chan me me w).tasks me).parent ≡ some q
unfolding reparent
reparent-parent v chan me q w is ne = ground (arith, reparent_from-tasks v chan nproc me me w me)

pub become_zombie-zombie :
    (v : Version) (chan : ℕ → ℕ) (me status : ℕ) (w : World)
    → ((become_zombie v chan me status w).kernel.table me).state ≡ zombie
      × ((become_zombie v chan me status w).tasks me).xstate ≡ status
unfolding become_zombie
become_zombie-zombie v chan me status w = (ground arith, ground arith)

-- The parent does not sleep on its channel after the end of `kexit`.
pub become_zombie-awake :
    (v : Version) (chan : ℕ → ℕ) (me status q : ℕ) (w : World)
    → (w.tasks me).parent ≡ some q
    → q ≢ me
    → q < nproc
    → (let p = (become_zombie v chan me status w).kernel.table q in
        is_sleeping p.state && p.chan == chan q)
      ≡ false
unfolding become_zombie
become_zombie-awake v chan me status q w is ne lt =
    let w1 = set_task me (record (w.tasks me) { cwd = 0 }) w in
    let w2 = reparent v chan me me w1 in
    ground (
      arith,
      reparent-parent v chan me q w1
          (ap (λ (t : Task). t.parent) (update_self w.tasks me (record (w.tasks me) { cwd = 0 }))
            ∙ is)
          ne,
      wakeup-none_left v me (chan q) w2.kernel.table q lt ne,
    )

pub become_zombie-parent :
    (v : Version) (chan : ℕ → ℕ) (me status q : ℕ) (w : World)
    → (w.tasks me).parent ≡ some q
    → q ≢ me
    → ((become_zombie v chan me status w).tasks me).parent ≡ some q
unfolding become_zombie
become_zombie-parent v chan me status q w is ne =
    let w1 = set_task me (record (w.tasks me) { cwd = 0 }) w in
    let p =
      reparent-parent v chan me q w1
        (ap (λ (t : Task). t.parent) (update_self w.tasks me (record (w.tasks me) { cwd = 0 }))
          ∙ is)
        ne in
    ground (arith, p)

-- What closing the files leaves of the tasks.
pub record SameTasks (me : ℕ) (w w' : World) : Type 0 where
  pub same_init : w'.initproc ≡ w.initproc
  pub same_parent : (w'.tasks me).parent ≡ (w.tasks me).parent
  pub same_others : (i : ℕ) → i ≢ me → w'.tasks i ≡ w.tasks i

SameTasks-trans :
    {me : ℕ} {w w' w'' : World} → SameTasks me w w' → SameTasks me w' w'' → SameTasks me w w''
SameTasks-trans a b = record {
  same_init = b.same_init ∙ a.same_init;
  same_parent = b.same_parent ∙ a.same_parent;
  same_others = λ i ne. b.same_others i ne ∙ a.same_others i ne;
}

SameTasks-refl : {me : ℕ} {w : World} → SameTasks me w w
SameTasks-refl = record { same_init = refl; same_parent = refl; same_others = λ i ne. refl }

-- A chain that ends well has a first step that ends well.
first_step :
    {P : Type 0} (o : Option World) (f : World → Option World) (w' : World)
    → (elim o [ none ↦ none | some a ↦ f a ]) ≡ some w'
    → ((a : World) → o ≡ some a → f a ≡ some w' → P)
    → P
first_step none f w' e k = ground arith
first_step (some a) f w' e k = k a refl e

not_panic :
    (b : Bool) (o : Option World) (w' : World)
    → (if b then none else o) ≡ some w'
    → b ≡ false × o ≡ some w'
not_panic b o w' e = (ground arith, ground arith)

module _ (v : Version) (chan : ℕ → ℕ) (end trampoline : ℕ)
    (put idup iput : ℕ → Kernel → Kernel) where
  close_fd-SameTasks :
      (fd me : ℕ) (w w' : World)
      → close_fd v chan end trampoline put idup iput fd me w ≡ some w'
      → SameTasks me w w'
  unfolding close_fd
  close_fd-SameTasks fd me w w' e = record {
    same_init = ground (arith, e);
    same_parent = ground (arith, e);
    same_others = λ i ne. ground (arith, e);
  }

  close_files-SameTasks :
      (n fd me : ℕ) (w w' : World)
      → close_files v chan end trampoline put idup iput n fd me w ≡ some w'
      → SameTasks me w w'
  unfolding close_files
  close_files-SameTasks zero fd me w w' e =
      subst (SameTasks me w) (some-injective w w' e) SameTasks-refl
  close_files-SameTasks (suc n) fd me w w' e =
      first_step (close_fd v chan end trampoline put idup iput fd me w)
        (close_files v chan end trampoline put idup iput n (fd + 1) me) w' e
        (λ a first rest.
          SameTasks-trans (close_fd-SameTasks fd me w a first)
            (close_files-SameTasks n (fd + 1) me a w' rest))

  -- Where `kexit` does not panic, the process is not `init`, and the end is that of `become_zombie`.
  pub kexit-become_zombie :
      {P : Type 0} (me status : ℕ) (w w' : World)
      → kexit v chan end trampoline put idup iput me status w ≡ some w'
      → (me ≢ w.initproc
          → (w1 : World) → SameTasks me w w1
          → w' ≡ become_zombie v chan me status w1
          → P)
      → P
  unfolding kexit
  kexit-become_zombie me status w w' e k =
      let files = close_files v chan end trampoline put idup iput nofile 0 me w in
      let last = λ (w1 : World).
        become_zombie v chan me status (record w1 { kernel = iput (w1.tasks me).cwd w1.kernel }) in
      let opened =
        not_panic (me == w.initproc) (elim files [ none ↦ none | some w1 ↦ some (last w1) ]) w' e in
      first_step files (λ w1. some (last w1)) w' opened.1
        (λ a closed ends.
          k (ground (arith, opened.0)) (record a { kernel = iput (a.tasks me).cwd a.kernel })
            (SameTasks-trans (close_files-SameTasks nofile 0 me w a closed)
              (record { same_init = refl; same_parent = refl; same_others = λ i ne. refl }))
            (sym (some-injective (last a) w' ends)))
