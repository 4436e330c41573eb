-- ===== src/Life/Waits.antt =====
-- `kwait` of kernel/proc.c: when its scan of the children goes to sleep.
use mathlib.Core.Bool.{false≢true}
use mathlib.Core.Option.{some-injective}
use increase_ipc_throughput.Base.{
  ℕ, zero, suc, ◌+◌, ◌<◌, ◌≤◌, ◌≡◌, refl, ap, sym, ◌∙◌, arith, Bool, true, false, not, ◌&&◌, ◌||◌,
  Option, none, some, ℤ, pos, minus_one, dec_lt, ◌↔◌, if◌then◌else◌,
}
use increase_ipc_throughput.Pipe.{Version}
use increase_ipc_throughput.Proc.{nproc, sleep}
use increase_ipc_throughput.Files.{Kernel}
use increase_ipc_throughput.Descriptors.{int_bytes}
use increase_ipc_throughput.Vm.{Ram}
use increase_ipc_throughput.Space.Access.{copyout}
use increase_ipc_throughput.Life.{World, child_of, is_zombie, set_proc, ram, with_ram, freeproc}
use increase_ipc_throughput.Life.Calls.{
  WaitNext, returns, sleeps, reap, reap_free, scan_children, kwait_round,
}

abbrev is_sleep : Option (WaitNext × World) → Bool
is_sleep none = false
is_sleep (some (returns z, w)) = false
is_sleep (some (sleeps, w)) = true

freed-returns :
    (pid : ℤ) (o : Option World)
    → is_sleep (elim o [ none ↦ none | some w ↦ some (returns pid, w) ]) ≡ false
freed-returns pid none = refl
freed-returns pid (some w) = refl

copied-returns :
    (o : Option (Bool × Ram)) (f : Ram → Option (WaitNext × World)) (g : Ram → World) (z : ℤ)
    → ((m : Ram) → is_sleep (f m) ≡ false)
    → is_sleep (elim o [ none ↦ none | some (ok, m) ↦ if ok then f m else some (returns z, g m) ])
      ≡ false
copied-returns none f g z h = refl
copied-returns (some (true, m)) f g z h = h m
copied-returns (some (false, m)) f g z h = refl

-- The sleep at the end of a scan, and a step of the scan that does not end it.
end-sleeps :
    (b : Bool) (z : ℤ) (w w1 w' : World)
    → if◌then◌else◌ {A = Option (WaitNext × World)} b (some (returns z, w)) (some (sleeps, w1))
      ≡ some (sleeps, w')
    → b ≡ false × w' ≡ w1
end-sleeps true z w w1 w' e = absurd (false≢true (ap is_sleep e))
end-sleeps false z w w1 w' e =
    (refl, sym (ap (λ (p : WaitNext × World). p.1) (some-injective (sleeps, w1) (sleeps, w') e)))

step-sleeps :
    (b : Bool) (r next : Option (WaitNext × World)) (w' : World)
    → is_sleep r ≡ false
    → (if b then r else next) ≡ some (sleeps, w')
    → b ≡ false × next ≡ some (sleeps, w')
step-sleeps true r next w' h e = absurd (false≢true (sym h ∙ ap is_sleep e))
step-sleeps false r next w' h e = (refl, e)

-- Process `me` may sleep: it is not killed, and of the processes from `i` on it has a child, unless
-- one was seen before, and no zombie child.
pub record MaySleep (n i me : ℕ) (kids : Bool) (w : World) : Type 0 where
  pub not_killed : (w.kernel.table me).killed ≡ false
  pub no_zombie :
      (j : ℕ)
      → i ≤ j
      → j < i + n
      → child_of me (w.tasks j) ≡ true
      → is_zombie (w.kernel.table j).state ≡ false
  pub has_child : ((j : ℕ) → i ≤ j → j < i + n → child_of me (w.tasks j) ≡ false) → kids ≡ true

MaySleep-suc :
    (n i me : ℕ) (kids : Bool) (w : World)
    → (child_of me (w.tasks i) && is_zombie (w.kernel.table i).state) ≡ false
    → MaySleep n (i + 1) me (kids || child_of me (w.tasks i)) w
    → MaySleep (suc n) i me kids w
MaySleep-suc n i me kids w h r = record {
  not_killed = r.not_killed;
  no_zombie = λ j lo hi child. elim (dec_lt i j) [
    | no here ↦ ground (arith, h, here)
    | yes past ↦ r.no_zombie j (omega arith) (omega arith) child
  ];
  has_child = λ none_here.
      let before = r.has_child (λ j lo hi. none_here j (omega arith) (omega arith)) in
      ground (arith, before, none_here i (omega arith) (omega arith));
}

MaySleep-pred :
    (n i me : ℕ) (kids : Bool) (w : World)
    → MaySleep (suc n) i me kids w
    → MaySleep n (i + 1) me (kids || child_of me (w.tasks i)) w
MaySleep-pred n i me kids w r = record {
  not_killed = r.not_killed;
  no_zombie = λ j lo hi child. r.no_zombie j (omega arith) (omega arith) child;
  has_child = λ none_here.
      elim (child_of me (w.tasks i)) as (λ b. child_of me (w.tasks i) ≡ b → (kids || b) ≡ true) [
        | true ↦ λ e. ground arith
        | false ↦ λ e. ground (
          arith,
          r.has_child (λ j lo hi. elim (dec_lt i j) [
            | yes past ↦ none_here j (omega arith) (omega arith)
            | no here ↦ ground (arith, e, here)
          ]),
        )
      ]
        refl;
}

module _ (v : Version) (chan : ℕ → ℕ) (end trampoline : ℕ)
    (put idup iput : ℕ → Kernel → Kernel) where
  reap_free-returns :
      (pid pp : ℕ) (w : World)
      → is_sleep (reap_free v chan end trampoline put idup iput pid pp w) ≡ false
  unfolding reap_free
  reap_free-returns pid pp w = freed-returns (pos pid) (freeproc end trampoline pp w)

  reap-returns :
      (me addr pp : ℕ) (w : World)
      → is_sleep (reap v chan end trampoline put idup iput me addr pp w) ≡ false
  unfolding reap
  reap-returns me addr pp w =
      let t = w.tasks me in
      let pid = (w.kernel.table pp).pid in
      let copied =
        copied-returns
          (copyout end t.pagetable t.sz t.pagetable addr (int_bytes (w.tasks pp).xstate) (ram w))
          (λ m. reap_free v chan end trampoline put idup iput pid pp (with_ram m w))
          (λ m. with_ram m w) minus_one (λ m. reap_free-returns pid pp (with_ram m w)) in
      ground (arith, copied, reap_free-returns pid pp w)

  scan-sleeps :
      (n i me addr : ℕ) (kids : Bool) (w w' : World)
      → scan_children v chan end trampoline put idup iput n i me addr kids w ≡ some (sleeps, w')
      → MaySleep n i me kids w × w' ≡ set_proc me (sleep (chan me) (w.kernel.table me)) w
  unfolding scan_children
  scan-sleeps zero i me addr kids w w' e =
      let stop =
        end-sleeps (not kids || (w.kernel.table me).killed) minus_one w
          (set_proc me (sleep (chan me) (w.kernel.table me)) w) w' e in
      (
        record {
          not_killed = ground (arith, stop.0);
          no_zombie = λ j lo hi child. absurd (omega arith);
          has_child = λ none_here. ground (arith, stop.0);
        },
        stop.1,
      )
  scan-sleeps (suc n) i me addr kids w w' e =
      let next =
        scan_children v chan end trampoline put idup iput n (i + 1) me addr
          (kids || child_of me (w.tasks i)) w in
      let step =
        step-sleeps (child_of me (w.tasks i) && is_zombie (w.kernel.table i).state)
          (reap v chan end trampoline put idup iput me addr i w) next w' (reap-returns me addr i w)
          e in
      let rest = scan-sleeps n (i + 1) me addr (kids || child_of me (w.tasks i)) w w' step.1 in
      (MaySleep-suc n i me kids w step.0 rest.0, rest.1)

  sleeps-scan :
      (n i me addr : ℕ) (kids : Bool) (w : World)
      → MaySleep n i me kids w
      → scan_children v chan end trampoline put idup iput n i me addr kids w
        ≡ some (sleeps, set_proc me (sleep (chan me) (w.kernel.table me)) w)
  unfolding scan_children
  sleeps-scan zero i me addr kids w may =
      ground (arith, may.not_killed, may.has_child (λ j lo hi. absurd (omega arith)))
  sleeps-scan (suc n) i me addr kids w may =
      let rest =
        sleeps-scan n (i + 1) me addr (kids || child_of me (w.tasks i)) w
          (MaySleep-pred n i me kids w may) in
      let quiet = may.no_zombie i (omega arith) (omega arith) in ground (arith, rest, quiet)

  -- A round of `kwait` goes to sleep just where the process is not killed, has a child and has no
  -- zombie child; it then sleeps on its own channel, and nothing else has changed.
  pub kwait_round-Sleeps :
      (me addr : ℕ) (w w' : World)
      → kwait_round v chan end trampoline put idup iput me addr w ≡ some (sleeps, w')
        ↔ MaySleep nproc 0 me false w × w' ≡ set_proc me (sleep (chan me) (w.kernel.table me)) w
  unfolding kwait_round
  kwait_round-Sleeps me addr w w' = (
    scan-sleeps nproc 0 me addr false w w',
    λ both.
        sleeps-scan nproc 0 me addr false w both.0
        ∙ ap (λ (u : World). some (sleeps, u)) (sym both.1),
  )
