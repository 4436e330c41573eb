-- ===== src/Life/Size.antt =====
-- The size of a process under `sbrk`, through `uvmalloc` and `uvmdealloc`.
use increase_ipc_throughput.Base.{
  ℕ, ◌+◌, ◌-◌, ◌≤◌, ◌≡◌, ◌≢◌, refl, arith, Bool, true, false, ◌||◌, ◌==◌, Option, none, some, ltb,
  if◌then◌else◌, ℤ, pos, negsuc, minus_one, u64, ◌%◌, update, update_self, update_ne, ltb_ℤ,
  pos_part, add64, ap, sym, subst, ◌∙◌,
}
use increase_ipc_throughput.Pipe.{Version}
use increase_ipc_throughput.Files.{Kernel}
use increase_ipc_throughput.Vm.{Ram}
use increase_ipc_throughput.Space.{uvmdealloc, uvmalloc}
use increase_ipc_throughput.Life.{Task, World, ram, with_ram, set_task, trapframe_va}
use increase_ipc_throughput.Life.Calls.{growproc}
use increase_ipc_throughput.Life.Syscalls.{sbrk, sbrk_grown}
use increase_ipc_throughput.Space.Sizes.{fits, uvmdealloc-fits, uvmalloc-fits}

-- What a change of the size of process `me` with result `r` leaves: the size ends below the trapframe,
-- it stays where the call fails, and the others stay.
pub record Resized (me : ℕ) (w : World) (r : ℤ) (w' : World) : Type 0 where
  pub bounded : (w'.tasks me).sz ≤ trapframe_va
  pub kept : ltb_ℤ r (pos 0) ≡ true → (w'.tasks me).sz ≡ (w.tasks me).sz
  pub others : (i : ℕ) → i ≢ me → w'.tasks i ≡ w.tasks i

pub ResizedOrPanic : ℕ → World → Option (ℤ × World) → Type 0
ResizedOrPanic me w none = Unit
ResizedOrPanic me w (some (r, w')) = Resized me w r w'

refused-Resized :
    (me : ℕ) (w w' : World) (r : ℤ)
    → w'.tasks ≡ w.tasks
    → (w.tasks me).sz ≤ trapframe_va
    → Resized me w r w'
refused-Resized me w w' r e h = record {
  bounded = subst (λ (t : ℕ → Task). (t me).sz ≤ trapframe_va) (sym e) h;
  kept = λ is. ap (λ (t : ℕ → Task). (t me).sz) e;
  others = λ i ne. ap (λ (t : ℕ → Task). t i) e;
}

set-Resized :
    (me sz k : ℕ) (w w' : World)
    → sz ≤ trapframe_va
    → w'.tasks ≡ update w.tasks me (record (w.tasks me) { sz = sz })
    → Resized me w (pos k) w'
set-Resized me sz k w w' h e = record {
  bounded =
      subst (λ (t : ℕ → Task). (t me).sz ≤ trapframe_va) (sym e)
        (subst (λ (t : Task). t.sz ≤ trapframe_va)
          (sym (update_self w.tasks me (record (w.tasks me) { sz = sz }))) h);
  kept = λ is. absurd (ground (arith, is));
  others = λ i ne.
      ap (λ (t : ℕ → Task). t i) e
      ∙ update_ne w.tasks (record (w.tasks me) { sz = sz }) (λ is. ne (sym is));
}

grown-Resized :
    (me : ℕ) (w : World) (o : Option (ℕ × Ram))
    → (w.tasks me).sz ≤ trapframe_va
    → fits trapframe_va o ≡ true
    → ResizedOrPanic me w (elim o [
      | none ↦ none
      | some (sz, m) ↦
          if sz == 0
          then some (minus_one, with_ram m w)
          else some (pos 0, set_task me (record (w.tasks me) { sz = sz }) (with_ram m w))
    ])
unfolding ResizedOrPanic
grown-Resized me w none h f = tt
grown-Resized me w (some (sz, m)) h f =
    elim (sz == 0)
      as (λ (b : Bool). ResizedOrPanic me w (
        if◌then◌else◌ {A = Option (ℤ × World)} b (some (minus_one, with_ram m w))
          (some (pos 0, set_task me (record (w.tasks me) { sz = sz }) (with_ram m w))))) [
            | true ↦ refused-Resized me w (with_ram m w) minus_one refl h
            | false ↦
                set-Resized me sz 0 w (set_task me (record (w.tasks me) { sz = sz }) (with_ram m w))
                  (ground (arith, f)) refl
          ]

shrunk-Resized :
    (me : ℕ) (w : World) (o : Option (ℕ × Ram))
    → fits trapframe_va o ≡ true
    → ResizedOrPanic me w (elim o [
      | none ↦ none
      | some (sz, m) ↦ some (pos 0, set_task me (record (w.tasks me) { sz = sz }) (with_ram m w))
    ])
unfolding ResizedOrPanic
shrunk-Resized me w none f = tt
shrunk-Resized me w (some (sz, m)) f =
    set-Resized me sz 0 w (set_task me (record (w.tasks me) { sz = sz }) (with_ram m w))
      (ground (arith, f)) refl

if-Resized :
    (me : ℕ) (w : World) (b : Bool) (x y : Option (ℤ × World))
    → (b ≡ true → ResizedOrPanic me w x)
    → (b ≡ false → ResizedOrPanic me w y)
    → ResizedOrPanic me w (if b then x else y)
if-Resized me w true x y f g = f refl
if-Resized me w false x y f g = g refl

module _ (v : Version) (chan : ℕ → ℕ) (end trampoline : ℕ)
    (put idup iput : ℕ → Kernel → Kernel) where
  growproc-Resized :
      (me : ℕ) (n : ℤ) (w : World)
      → (w.tasks me).sz ≤ trapframe_va
      → ResizedOrPanic me w (growproc v chan end trampoline put idup iput me n w)
  unfolding growproc ResizedOrPanic
  growproc-Resized me (pos n) w h =
      let t = w.tasks me in
      let grown = uvmalloc end t.pagetable t.sz (t.sz + n) 4 (ram w) in
      if-Resized me w (n == 0) (some (pos 0, w)) _ (λ is. refused-Resized me w w (pos 0) refl h)
        (λ is.
          if-Resized me w (ltb trapframe_va (t.sz + n)) (some (minus_one, w)) _
            (λ over. refused-Resized me w w minus_one refl h)
            (λ under. grown-Resized me w grown h (
              uvmalloc-fits end t.pagetable t.sz (t.sz + n) 4 trapframe_va (ram w) h
                (ground (arith, under)))))
  growproc-Resized me (negsuc n) w h =
      let t = w.tasks me in
      shrunk-Resized me w (uvmdealloc end t.pagetable t.sz ((t.sz + u64 - (n + 1)) % u64) (ram w))
        (uvmdealloc-fits end t.pagetable t.sz ((t.sz + u64 - (n + 1)) % u64) trapframe_va (ram w) h)

  sbrk_grown-Resized :
      (me addr : ℕ) (w : World) (o : Option (ℤ × World))
      → ResizedOrPanic me w o
      → ResizedOrPanic me w (sbrk_grown v chan end trampoline put idup iput addr o)
  unfolding sbrk_grown ResizedOrPanic
  sbrk_grown-Resized me addr w none h = tt
  sbrk_grown-Resized me addr w (some (r, w')) h =
      if-Resized me w (ltb_ℤ r (pos 0)) (some (minus_one, w')) (some (pos addr, w'))
        (λ is. record { bounded = h.bounded; kept = λ e. h.kept is; others = h.others })
        (λ is. record {
          bounded = h.bounded;
          kept = λ e. absurd (ground (arith, e));
          others = h.others;
        })

  -- `sbrk`, where it does not panic: if the size of the process was at most that of the space below
  -- the trapframe, it still is; it is as it was where the result is negative; and no other process
  -- has changed.
  pub sbrk-Resized :
      (me : ℕ) (n t : ℤ) (w : World)
      → (w.tasks me).sz ≤ trapframe_va
      → ResizedOrPanic me w (sbrk v chan end trampoline put idup iput me n t w)
  unfolding sbrk ResizedOrPanic
  sbrk-Resized me n t w h =
      let addr = (w.tasks me).sz in
      let top = add64 addr (pos_part n) in
      if-Resized me w ((pos_part t == 1) || ltb_ℤ n (pos 0)) _ _
        (λ eager.
          sbrk_grown-Resized me addr w (growproc v chan end trampoline put idup iput me n w)
            (growproc-Resized me n w h))
        (λ lazy.
          if-Resized me w (ltb top addr || ltb trapframe_va top) (some (minus_one, w)) _
            (λ over. refused-Resized me w w minus_one refl h)
            (λ fits_in.
              set-Resized me top addr w (set_task me (record (w.tasks me) { sz = top }) w)
                (ground (arith, fits_in)) refl))
