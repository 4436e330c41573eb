-- ===== src/Life/Exits.antt =====
-- What `kexit` of kernel/proc.c leaves behind.
use increase_ipc_throughput.Base.{
  ℕ, ◌<◌, ◌≡◌, ◌≢◌, ap, sym, ◌∙◌, subst, arith, true, false, ◌&&◌, some, ◌==◌,
}
use increase_ipc_throughput.Pipe.{Version}
use increase_ipc_throughput.Proc.{is_sleeping, zombie, nproc}
use increase_ipc_throughput.Files.{Kernel}
use increase_ipc_throughput.Life.{Task, World, child_of}
use increase_ipc_throughput.Life.Calls.{sleeps, become_zombie, kexit, kwait_round}
use increase_ipc_throughput.Life.Waits.{kwait_round-Sleeps}
use increase_ipc_throughput.Life.Orphans.{
  SameTasks, become_zombie-tasks, become_zombie-zombie, become_zombie-awake, become_zombie-parent,
  kexit-become_zombie,
}

-- The world after the exit of process `me`: a zombie that keeps its status and its parent, whose
-- children are those of `init`, and whose parent does not sleep on its channel.
pub record Exited (chan : ℕ → ℕ) (me status : ℕ) (w w' : World) : Type 0 where
  pub not_init : me ≢ w.initproc
  pub dead : (w'.kernel.table me).state ≡ zombie
  pub reported : (w'.tasks me).xstate ≡ status
  pub parent_kept : (q : ℕ) → (w.tasks me).parent ≡ some q → q ≢ me → (w'.tasks me).parent ≡ some q
  pub parent_awake :
      (q : ℕ)
      → (w.tasks me).parent ≡ some q
      → q ≢ me
      → q < nproc
      → (is_sleeping (w'.kernel.table q).state && (w'.kernel.table q).chan == chan q) ≡ false
  pub adopted :
      (i : ℕ)
      → i < nproc
      → i ≢ me
      → child_of me (w.tasks i) ≡ true
      → (w'.tasks i).parent ≡ some w.initproc
  pub childless : (i : ℕ) → i < nproc → i ≢ me → child_of me (w'.tasks i) ≡ false
  pub others : (i : ℕ) → i ≢ me → child_of me (w.tasks i) ≡ false → w'.tasks i ≡ w.tasks i

become_zombie-Exited :
    (v : Version) (chan : ℕ → ℕ) (me status : ℕ) (w : World)
    → me ≢ w.initproc
    → Exited chan me status w (become_zombie v chan me status w)
become_zombie-Exited v chan me status w ne =
    let last = become_zombie-zombie v chan me status w in
    let same = become_zombie-tasks v chan me status w in
    record {
      not_init = ne;
      dead = last.0;
      reported = last.1;
      parent_kept = λ q is other. become_zombie-parent v chan me status q w is other;
      parent_awake = λ q is other lt. become_zombie-awake v chan me status q w is other lt;
      adopted =
          λ i lt other child. ap (λ (t : Task). t.parent) (same i other) ∙ ground (arith, child);
      childless = λ i lt other. ap (child_of me) (same i other) ∙ ground (arith, ne);
      others = λ i other no. same i other ∙ ground (arith, no);
    }

-- The closing of the files before it changes nothing of this.
SameTasks-Exited :
    {chan : ℕ → ℕ} {me status : ℕ} {w w1 w' : World}
    → SameTasks me w w1
    → Exited chan me status w1 w'
    → Exited chan me status w w'
SameTasks-Exited {me = me} same x = record {
  not_init = λ e. x.not_init (e ∙ sym same.same_init);
  dead = x.dead;
  reported = x.reported;
  parent_kept = λ q is. x.parent_kept q (same.same_parent ∙ is);
  parent_awake = λ q is. x.parent_awake q (same.same_parent ∙ is);
  adopted = λ i lt other child.
      x.adopted i lt other (ap (child_of me) (same.same_others i other) ∙ child)
      ∙ ap some same.same_init;
  childless = x.childless;
  others = λ i other no_child.
      x.others i other (ap (child_of me) (same.same_others i other) ∙ no_child)
      ∙ same.same_others i other;
}

module _ (v : Version) (chan : ℕ → ℕ) (end trampoline : ℕ)
    (put idup iput : ℕ → Kernel → Kernel) where
  -- Where `kexit(status)` does not panic, the process was not `init`, it is a zombie with this
  -- status and its parent as before, every child of it has `init` for its parent and it has none
  -- left, the tasks of the others are as before, and its parent does not sleep on its channel.
  pub kexit-Exited :
      (me status : ℕ) (w w' : World)
      → kexit v chan end trampoline put idup iput me status w ≡ some w'
      → Exited chan me status w w'
  kexit-Exited me status w w' e =
      kexit-become_zombie v chan end trampoline put idup iput me status w w' e (λ ne w1 same last.
        subst (Exited chan me status w) (sym last) (
          SameTasks-Exited same
            (become_zombie-Exited v chan me status w1 (λ is. ne (is ∙ same.same_init)))))

  -- After `kexit` of a process with another parent, the parent does not sleep on its channel, and no
  -- round of `kwait` of it goes to sleep: an exit is never missed.
  pub exit-seen :
      (me status q addr : ℕ) (w w' w'' : World)
      → kexit v chan end trampoline put idup iput me status w ≡ some w'
      → (w.tasks me).parent ≡ some q
      → q ≢ me
      → q < nproc
      → me < nproc
      → (is_sleeping (w'.kernel.table q).state && (w'.kernel.table q).chan == chan q) ≡ false
        × ¬ (kwait_round v chan end trampoline put idup iput q addr w' ≡ some (sleeps, w''))
  exit-seen me status q addr w w' w'' e is ne lt lt' =
      let left = kexit-Exited me status w w' e in
      (
        left.parent_awake q is ne lt,
        λ sleeping.
            let may =
              ((kwait_round-Sleeps v chan end trampoline put idup iput q addr w' w'').0
                sleeping).0 in
            ground (
              arith,
              left.dead,
              left.parent_kept q is ne,
              may.no_zombie me (omega arith) (omega arith),
            ),
      )
