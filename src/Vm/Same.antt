-- ===== src/Vm/Same.antt =====
-- A change of the memory of kernel/vm.c that leaves the pages of entries as they were.
use increase_ipc_throughput.Base.{
  ℕ, zero, suc, ◌+◌, ◌*◌, ◌≤◌, ◌<◌, ◌≡◌, refl, arith, List, inl, inr, Bool-cases,
}
use increase_ipc_throughput.Kalloc.FreeList.{IsFree}
use increase_ipc_throughput.Vm.{px, pte2pa, pte_v, load_word, Ram}
use increase_ipc_throughput.Vm.Bytes.{load_same}
use increase_ipc_throughput.Vm.Tree.{Owner, part, key, Linked, WellFormed, pte_at, pte_at-frame}
use increase_ipc_throughput.Vm.Pages.{Apart, pages-Apart}
use increase_ipc_throughput.Vm.Supply.{WellFormed-same}
use increase_ipc_throughput.Vm.Graft.{Harmless-same}
use increase_ipc_throughput.Vm.Walk.{find, child_owner}

-- The pages of entries have the same bytes.
abbrev pub SameTables : (ℕ → Owner) → (ℕ → ℕ) → (ℕ → ℕ) → Type 0
SameTables owner b b' =
    (p r l k x : ℕ) → owner p ≡ part r (suc l) k → p ≤ x → x < p + 4096 → b' x ≡ b x

module _ (owner : ℕ → Owner) (b b' : ℕ → ℕ) (same : SameTables owner b b') where
  pub word_same :
      (p r l k j : ℕ)
      → owner p ≡ part r (suc l) k
      → j < 512
      → load_word 8 b' (p + 8 * j) ≡ load_word 8 b (p + 8 * j)
  word_same p r l k j o lt =
      load_same 8 b b' (p + 8 * j) (λ x lo hi. same p r l k x o (omega arith) (omega arith))

  module _ (linked : Linked owner b) where
    pub find_same :
        (r va l t : ℕ) → owner t ≡ part r (suc l) (key l va) → find l t va b' ≡ find l t va b
    unfolding find
    find_same r va zero t o = refl
    find_same r va (suc l) t o =
        let e = word_same t r (suc l) (key (suc l) va) (px (suc l) va) o (omega arith) in
        elim (Bool-cases (pte_v (load_word 8 b (t + 8 * px (suc l) va)))) [
          | inr out ↦ rw (e, out) refl
          | inl valid ↦
              rw (e, valid)
                (find_same r va l (pte2pa (load_word 8 b (t + 8 * px (suc l) va)))
                  (child_owner owner b t r l va linked o valid))
        ]

    pub pte_at_same :
        (r va l t : ℕ) → owner t ≡ part r (suc l) (key l va) → pte_at l t va b' ≡ pte_at l t va b
    pte_at_same r va l t o =
        pte_at-frame owner b b' r va linked
          (λ t' l' o'.
            Harmless-same l' t' va b b' (word_same t' r l' (key l' va) (px l' va) o' (omega arith)))
          l t o

-- Whatever happens to the bytes of one page of user memory, the tables are as before.
pub frame_tables :
    (end : ℕ) (owner : ℕ → Owner) (xs : List ℕ) (m : Ram) (b' : ℕ → ℕ) (pa s k : ℕ)
    → WellFormed end owner xs m
    → owner pa ≡ part s 0 k
    → ((x : ℕ) → Apart pa x → b' x ≡ m.bytes x)
    → SameTables owner m.bytes b'
frame_tables end owner xs m b' pa s k w o same p r l q x op lo hi =
    same x (
      pages-Apart pa p x (w.page pa s 0 k o).0 (w.page p r (suc l) q op).0 (λ e. absurd (cc)) lo hi)

pub frame-WellFormed :
    (end : ℕ) (owner : ℕ → Owner) (xs : List ℕ) (m m' : Ram) (pa s k : ℕ)
    → WellFormed end owner xs m
    → owner pa ≡ part s 0 k
    → ((x : ℕ) → Apart pa x → m'.bytes x ≡ m.bytes x)
    → IsFree end m'.kmem xs
    → WellFormed end owner xs m'
frame-WellFormed end owner xs m m' pa s k w o same free =
    WellFormed-same end owner xs m m' free (frame_tables end owner xs m m'.bytes pa s k w o same)
      w.unowned w.page w.linked
