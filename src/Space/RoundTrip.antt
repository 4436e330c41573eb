-- ===== src/Space/RoundTrip.antt =====
-- `copyin` of kernel/vm.c after `copyout` to the same addresses.
use increase_ipc_throughput.Base.{
  ℕ, ◌+◌, ◌<◌, ◌≡◌, refl, ap, ap₂, ◌∙◌, sym, arith, subst, Bool, true, Option, none, some, List, [],
  ◌∷◌, inl, length, update, update_self,
}
use increase_ipc_throughput.Vm.{Ram}
use increase_ipc_throughput.Vm.Tree.{Owner}
use increase_ipc_throughput.Space.Access.{take, copyin, copyout}
use increase_ipc_throughput.Space.Process.{IsProcess}
use increase_ipc_throughput.Space.View.{view}
use increase_ipc_throughput.Space.Reads.{Opened, Reads, Reads-same}
use increase_ipc_throughput.Space.Copyin.{CopiedInOrNot, copyin-CopiedIn}
use increase_ipc_throughput.Space.Put.{overlay, overlay_other}
use increase_ipc_throughput.Space.Copyout.{CopiedOut, CopiedOutOrNot}
use increase_ipc_throughput.Space.Copies.{copyout-CopiedOut}

some_same : {x y : ℕ} → ◌≡◌ {A = Option ℕ} (some x) (some y) → x ≡ y
some_same h = cc

-- What is read of an overlay is what was laid over.
Reads-overlay :
    (v : ℕ → Option ℕ) (a : ℕ) (xs ys : List ℕ)
    → length ys ≡ length xs
    → Reads (overlay v a xs) a ys
    → ys ≡ xs
Reads-overlay v a [] [] e h = refl
Reads-overlay v a [] (y ∷ ys) e h = absurd (omega arith)
Reads-overlay v a (x ∷ xs) [] e h = absurd (omega arith)
Reads-overlay v a (x ∷ xs) (y ∷ ys) e h =
    let first : x ≡ y = some_same (
      sym (
        overlay_other (update v a (some x)) (a + 1) xs a (inl (omega arith))
        ∙ update_self v a (some x))
      ∙ h.0) in
    ap₂ (λ z zs. z ∷ zs) (sym first)
      (Reads-overlay (update v a (some x)) (a + 1) xs ys (omega arith) h.1)

pub take_all : (xs : List ℕ) → take (length xs) xs ≡ xs
take_all [] = refl
take_all (x ∷ xs) = ap (λ ys. x ∷ ys) (take_all xs)

module _ (end : ℕ) (end_pos : 0 < end) where
  -- On the page table of a process, after a `copyout` that returned 0, `copyin` from the same
  -- address returns 0 and the same bytes.
  pub copyin-copyout :
      (r sz : ℕ) (owner : ℕ → Owner) (xs : List ℕ) (m m' : Ram) (dst : ℕ) (src : List ℕ)
      → IsProcess end end_pos owner xs m r sz
      → copyout end r sz r dst src m ≡ some (true, m')
      → (m'' : Ram) × (copyin end r sz r dst (length src) m' ≡ some (true, src, m''))
  copyin-copyout r sz owner xs m m' dst src p e =
      let c : CopiedOutOrNot end end_pos r sz owner xs m dst src (some (true, m')) =
        subst (λ o. CopiedOutOrNot end end_pos r sz owner xs m dst src o) e
          (copyout-CopiedOut end end_pos r sz owner xs m dst src p) in
      read c (copyin end r sz r dst (length src) m')
        (copyin-CopiedIn end end_pos r sz c.owner' c.xs' m' dst (length src) (c.processes r sz p))
    where
      read :
          (c : CopiedOut end end_pos r sz owner xs m dst src true m')
          (o : Option (Bool × List ℕ × Ram))
          → CopiedInOrNot end end_pos r sz c.owner' c.xs' m' dst (length src) o
          → (m'' : Ram) × (o ≡ some (true, src, m''))
      read c none d = absurd d
      read c (some (ok, bytes, m'')) d =
          let whole : c.count ≡ length src = c.all.1 refl in
          let good : ok ≡ true = d.succeeds (subst (λ n. Opened r m' dst n) whole c.opened) in
          let bytes_are : bytes ≡ take c.count src =
            Reads-overlay (view r sz m) dst (take c.count src) bytes
              (d.size.1 good
                ∙ ap length (sym (take_all src))
                ∙ ap (λ n. length (take n src)) (sym whole))
              (Reads-same (view r sz m') (overlay (view r sz m) dst (take c.count src)) dst bytes
                c.written d.reads) in
          let same : bytes ≡ src = bytes_are ∙ ap (λ n. take n src) whole ∙ take_all src in
          (m'', rw (good, same) refl)
