-- ===== src/Locks/Nesting.antt =====
-- Matched calls of `push_off` and `pop_off` of kernel/spinlock.c.
use increase_ipc_throughput.Base.{
  ◌-◌, ◌<◌, ◌≡◌, refl, ◌∙◌, arith, true, false, ◌&&◌, Option, none, some, ◌==◌, if◌then◌else◌,
}
use increase_ipc_throughput.Locks.{Cpu, push_off, pop_off}

-- Calls in pairs: none, or a pair around some and others after it.
pub data Matched : Type 0 where
  nothing : Matched
  pair : Matched → Matched → Matched

-- What the calls do.
unfoldable pub calls : Matched → Cpu → Option Cpu
calls nothing c = some c
calls (pair m n) c = elim (calls m (push_off c)) [
  | none ↦ none
  | some c' ↦ elim (pop_off c') [ none ↦ none | some c'' ↦ calls n c'' ]
]

-- Whoever is inside a pair has interrupts off.
abbrev pub IsNested : Cpu → Type 0
IsNested c = 0 < c.noff → c.intr ≡ false

-- As deep as before, with interrupts as before.
abbrev pub Restores : Cpu → Option Cpu → Type 0
Restores c none = ⊥
Restores c (some d) = (d.noff ≡ c.noff) × (d.intr ≡ c.intr) × (0 < c.noff → d.intena ≡ c.intena)

Restores-trans : (c d : Cpu) (o : Option Cpu) → Restores c (some d) → Restores d o → Restores c o
Restores-trans c d none h k = k
Restores-trans c d (some e) h k = (k.0 ∙ h.0, k.1 ∙ h.1, λ lt. k.2 (omega (arith, h.0)) ∙ h.2 lt)

push_off-IsNested : (c : Cpu) → IsNested (push_off c)
unfolding push_off
push_off-IsNested c h = refl

-- One `pop_off` undoes a `push_off`.
popped :
    (c d : Cpu)
    → IsNested c
    → Restores (push_off c) (some d)
    → (e : Cpu) × (pop_off d ≡ some e) × IsNested e × Restores c (some e)
unfolding push_off pop_off
popped c d nested h = (
  record d { noff = d.noff - 1; intr = if d.noff - 1 == 0 && d.intena then true else d.intr },
  ground (arith, h.0, h.1),
  λ lt. ground (arith, h.0, h.1),
  (
    ground (arith, h.0),
    ground (arith, h.0, h.1, h.2 (omega arith), nested),
    λ lt. ground (arith, h.0, h.1, h.2 (omega arith)),
  ),
)

Restores-pop :
    (c : Cpu) (o : Option Cpu) (n : Cpu → Option Cpu)
    → IsNested c
    → Restores (push_off c) o
    → ((d : Cpu) → IsNested d → Restores d (n d))
    → Restores c
        (elim o [ none ↦ none | some c' ↦ elim (pop_off c') [ none ↦ none | some c'' ↦ n c'' ] ])
Restores-pop c none n nested h rest = h
Restores-pop c (some d) n nested h rest =
    let p = popped c d nested h in rw p.1 (Restores-trans c p.0 (n p.0) p.3 (rest p.0 p.2))

-- Matched calls never panic; after them the depth and the interrupts are what they were, off if
-- they were off.
pub calls-Restores : (m : Matched) (c : Cpu) → IsNested c → Restores c (calls m c)
unfolding calls
calls-Restores nothing c h = (refl, refl, λ _. refl)
calls-Restores (pair m n) c h =
    Restores-pop c (calls m (push_off c)) (calls n) h
      (calls-Restores m (push_off c) (push_off-IsNested c)) (calls-Restores n)
