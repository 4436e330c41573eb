-- ===== src/Vm/Leaf.antt =====
-- The last store of `mappages` and of `uvmunmap` in kernel/vm.c: an entry at the lowest level.
use increase_ipc_throughput.Base.{
  ℕ, zero, suc, ◌+◌, ◌*◌, ◌/◌, ◌%◌, ◌^◌, ◌≤◌, ◌<◌, ◌≡◌, ◌≢◌, refl, sym, ap, ◌∙◌, arith, subst, true,
  List, ◌⊎◌, inl, inr, Bool-cases, dec_lt,
}
use increase_ipc_throughput.Vm.{px, pte2pa, pte_v, load_word, Ram, set_pte}
use increase_ipc_throughput.Vm.Bytes.{load_word-store_word, load_word-store_word_other, store_other}
use increase_ipc_throughput.Vm.Tree.{
  Owner, part, key, Covered, WellFormed, pte_at, Harmless, pte_at-frame,
}
use increase_ipc_throughput.Vm.Supply.{set_pte-WellFormed}
use increase_ipc_throughput.Vm.Kept.{Kept}
use increase_ipc_throughput.Vm.Graft.{Harmless-same}
use increase_ipc_throughput.Vm.Walk.{find, find-Found, masked, child_owner}

module _ (end : ℕ) where
  -- The entry of `va` in the table with this root was set, and no other.
  pub record Written (owner : ℕ → Owner) (xs : List ℕ) (m : Ram) (r va w : ℕ) (m' : Ram)
      : Type 0 where
    pub kept : Kept end 0 0 owner xs m owner xs m'
    pub here : pte_at 2 r va m'.bytes ≡ masked w
    pub others :
        (t l r' va' : ℕ)
        → owner t ≡ part r' (suc l) (key l va')
        → (r' ≢ r) ⊎ (va' / 4096 ≢ va / 4096)
        → pte_at l t va' m'.bytes ≡ pte_at l t va' m.bytes

  module _ (end_pos : 0 < end) (owner : ℕ → Owner) (xs : List ℕ) (m : Ram)
      (wf : WellFormed end owner xs m) (r va p w : ℕ) (o : owner p ≡ part r 1 (key 0 va))
      (small : w < 2 ^ 64)
      (leads : Covered 0 (va / 4096)
        → pte_v w ≡ true
        → owner (pte2pa w) ≡ part (p + 8 * px 0 va) 0 (va / 4096)) where
    abbrev written : Ram
    written = set_pte m (p + 8 * px 0 va) w

    page_key : key 0 va * 512 + px 0 va ≡ va / 4096
    page_key = omega arith

    -- Another page is as before.
    same_page :
        (a x : ℕ) → a % 4096 ≡ 0 → a ≢ p → a ≤ x → x < a + 4096 → written.bytes x ≡ m.bytes x
    unfolding set_pte
    same_page a x al ne lo hi =
        store_other 8 m.bytes (p + 8 * px 0 va) w x (elim (dec_lt x (p + 8 * px 0 va)) [
          | yes below ↦ inl below
          | no above ↦ inr (omega (arith, (wf.page p r 1 (key 0 va) o).0))
        ])

    same_word :
        (q i r' l' k' : ℕ)
        → owner q ≡ part r' l' k'
        → i < 512
        → q + 8 * i ≢ p + 8 * px 0 va
        → load_word 8 written.bytes (q + 8 * i) ≡ load_word 8 m.bytes (q + 8 * i)
    unfolding set_pte
    same_word q i r' l' k' oq li ne =
        load_word-store_word_other m.bytes (q + 8 * i) (p + 8 * px 0 va) w
          (elim (dec_lt (p + 8 * px 0 va) (q + 8 * i)) [
            | yes lt ↦
                inr (omega (arith, (wf.page p r 1 (key 0 va) o).0, (wf.page q r' l' k' oq).0))
            | no ge ↦ inl (omega (arith, (wf.page p r 1 (key 0 va) o).0, (wf.page q r' l' k' oq).0))
          ])

    find-written :
        (l t : ℕ)
        → owner t ≡ part r (suc l) (key l va)
        → find l t va written.bytes ≡ find l t va m.bytes
    unfolding find
    find-written zero t ot = refl
    find-written (suc l) t ot =
        let same =
          same_word t (px (suc l) va) r (suc (suc l)) (key (suc l) va) ot (omega arith) (λ e.
            let tp : t ≡ p = omega (
              arith,
              (wf.page p r 1 (key 0 va) o).0,
              (wf.page t r (suc (suc l)) (key (suc l) va) ot).0,
            ) in
            absurd (cc)) in
        elim (Bool-cases (pte_v (load_word 8 m.bytes (t + 8 * px (suc l) va)))) [
          | inr out ↦ rw (same, out) refl
          | inl valid ↦
              rw (same, valid)
                (find-written l (pte2pa (load_word 8 m.bytes (t + 8 * px (suc l) va)))
                  (child_owner owner m.bytes t r l va wf.linked ot valid))
        ]

    harmless :
        (va' r' t l : ℕ)
        → (r' ≢ r) ⊎ (va' / 4096 ≢ va / 4096)
        → owner t ≡ part r' (suc l) (key l va')
        → Harmless l t va' m.bytes written.bytes
    harmless va' r' t l ne ot =
        Harmless-same l t va' m.bytes written.bytes
          (same_word t (px l va') r' (suc l) (key l va') ot (omega arith) clash)
      where
        clash : t + 8 * px l va' ≢ p + 8 * px 0 va
        clash e =
            let tp : t ≡ p =
              omega
                (arith, (wf.page p r 1 (key 0 va) o).0, (wf.page t r' (suc l) (key l va') ot).0) in
            let same : part r' (suc l) (key l va') ≡ part r 1 (key 0 va) = cc in
            let rr : r' ≡ r = cc in
            let ll : l ≡ 0 = cc in
            let kk : key l va' ≡ key 0 va = cc in
            let kk0 : key 0 va' ≡ key 0 va = subst (λ n. key n va' ≡ key 0 va) ll kk in
            let pp : px 0 va' ≡ px 0 va =
              subst (λ n. t + 8 * px n va' ≡ p + 8 * px 0 va → px 0 va' ≡ px 0 va) (sym ll)
                (λ e0. omega (arith, tp)) e in
            elim ne [ inl n ↦ n rr | inr n ↦ n (omega (arith, kk0, pp)) ]

    new_well : WellFormed end owner xs written
    new_well =
        set_pte-WellFormed end owner xs m p r 0 (key 0 va) (px 0 va) w o (omega arith) small
          (λ cov v. rw page_key (leads (subst (λ n. Covered 0 n) page_key cov) v)) wf

    -- The entry that `walk` found is set.
    pub set_leaf-Written :
        owner r ≡ part r 3 0
        → va < 2 ^ 38
        → find 2 r va m.bytes ≡ p + 8 * px 0 va
        → Written owner xs m r va w written
    unfolding set_pte
    set_leaf-Written root lt found = record {
      kept = record {
        well = new_well;
        keeps = λ a r' l k oa. oa;
        frames =
            λ a r' k x oa lo hi. same_page a x (wf.page a r' 0 k oa).0 (λ e. absurd (cc)) lo hi;
        spare = λ c al oc un. inl (oc, un);
        spare_bytes = λ c x al oc un lo hi. same_page c x al (λ e. absurd (cc)) lo hi;
      };
      here = elim (find-Found owner written.bytes r va new_well.linked 2 r top) [
        | inl (none_found, gone) ↦
            absurd (omega (arith, find-written 2 r top, wf.page p r 1 (key 0 va) o))
        | inr (q, oq, a, e) ↦
            e
            ∙ ap (λ n. masked (load_word 8 written.bytes n)) (find-written 2 r top ∙ found)
            ∙ ap (λ n. masked n) (load_word-store_word m.bytes (p + 8 * px 0 va) w small)
      ];
      others = λ t l r' va' ot ne.
          pte_at-frame owner m.bytes written.bytes r' va' wf.linked
            (λ t' l' o'. harmless va' r' t' l' ne o') l t ot;
    }
      where
        top : owner r ≡ part r 3 (key 2 va)
        top = root ∙ ap (part r 3) (omega arith)
