-- ===== src/Vm/Graft.antt =====
-- A new page of entries in a page table of kernel/vm.c.
use increase_ipc_throughput.Base.{
  ℕ, zero, suc, ◌+◌, ◌*◌, ◌%◌, ◌^◌, ◌≤◌, ◌<◌, ◌≡◌, ◌≢◌, ◌∙◌, arith, false, List, ◌∷◌, ◌⊎◌, inl, inr,
  ◌==◌, Bool-cases, update, update_ne, update_self, dec_lt, ==→eq, ==→ne,
}
use increase_ipc_throughput.Kalloc.{phystop}
use increase_ipc_throughput.Kalloc.FreeList.{IsPage}
use increase_ipc_throughput.Vm.{px, pa2pte, pte2pa, pte_v, load_word, Ram, set_pte, fill_page}
use increase_ipc_throughput.Vm.Bytes.{load_same, load_word-store_word, store_other}
use increase_ipc_throughput.Vm.Tree.{Owner, part, key, Linked, Harmless, pte_at-frame, pte_at-zero}
use increase_ipc_throughput.Vm.Pages.{Apart, pages-Apart, owned_ne}
use increase_ipc_throughput.Vm.Supply.{
  fill_page_other, fill_page_blank, fill_page-WellFormed, Taken, give_page, set_pte-WellFormed,
}
use increase_ipc_throughput.Vm.Kept.{Extends}

pub Harmless-same :
    (l t va : ℕ) (b b' : ℕ → ℕ)
    → load_word 8 b' (t + 8 * px l va) ≡ load_word 8 b (t + 8 * px l va)
    → Harmless l t va b b'
Harmless-same zero t va b b' h = h
Harmless-same (suc l) t va b b' h = inl h

module _ (end : ℕ) where
  module _ (owner : ℕ → Owner) (m m1 : Ram) (c : ℕ) (ys : List ℕ)
      (taken : Taken end owner c ys m m1) (p r l k j : ℕ) (o : owner p ≡ part r (suc (suc l)) k)
      (lt : j < 512) (invalid : pte_v (load_word 8 m.bytes (p + 8 * j)) ≡ false)
      (page : (a r l k : ℕ) → owner a ≡ part r l k → IsPage end a)
      (linked : Linked owner m.bytes) where
    abbrev pub grafted : Ram
    grafted = set_pte (fill_page c 0 m1) (p + 8 * j) (pa2pte c + 1)

    abbrev pub new_owner : ℕ → Owner
    new_owner = update owner c (part r (suc l) (k * 512 + j))

    pub leads_back : (c : ℕ) → c % 4096 ≡ 0 → c < phystop → pte2pa (pa2pte c + 1) ≡ c
    leads_back c al lt = omega arith

    small : pa2pte c + 1 < 2 ^ 64
    small = omega (arith, taken.page.2)

    same_byte :
        (x : ℕ) → Apart c x → (x < p + 8 * j) ⊎ (p + 8 * j + 8 ≤ x) → grafted.bytes x ≡ m.bytes x
    unfolding set_pte
    same_byte x h h' =
        store_other 8 (fill_page c 0 m1).bytes (p + 8 * j) (pa2pte c + 1) x h'
        ∙ fill_page_other c 0 m1 x h
        ∙ taken.others x h

    -- Another page that was aligned is as before where the entry is not.
    same_word :
        (q i r' l' k' : ℕ)
        → owner q ≡ part r' l' k'
        → i < 512
        → q + 8 * i ≢ p + 8 * j
        → load_word 8 grafted.bytes (q + 8 * i) ≡ load_word 8 m.bytes (q + 8 * i)
    same_word q i r' l' k' oq li ne = load_same 8 m.bytes grafted.bytes (q + 8 * i) λ x lo hi.
        same_byte x
          (pages-Apart c q x taken.page.0 (page q r' l' k' oq).0
            (owned_ne owner c q r' l' k' taken.fresh oq) (omega arith) (omega arith))
          (elim (dec_lt x (p + 8 * j)) [
            | yes below ↦ inl below
            | no above ↦ inr (omega (arith, (page q r' l' k' oq).0, (page p r (suc (suc l)) k o).0))
          ])

    pub new_word : load_word 8 grafted.bytes (p + 8 * j) ≡ pa2pte c + 1
    unfolding set_pte
    new_word = load_word-store_word (fill_page c 0 m1).bytes (p + 8 * j) (pa2pte c + 1) small

    blank : (i : ℕ) → i < 512 → load_word 8 grafted.bytes (c + 8 * i) ≡ 0
    unfolding set_pte
    blank i li =
        load_same 8 (fill_page c 0 m1).bytes grafted.bytes (c + 8 * i) (λ x lo hi.
          store_other 8 (fill_page c 0 m1).bytes (p + 8 * j) (pa2pte c + 1) x
            (elim (dec_lt x (p + 8 * j)) [
              | yes below ↦ inl below
              | no above ↦ inr (
                  omega (
                    arith,
                    taken.page.0,
                    (page p r (suc (suc l)) k o).0,
                    owned_ne owner c p r (suc (suc l)) k taken.fresh o,
                  ))
            ]))
        ∙ fill_page_blank c m1 i li

    harmless :
        (va r' t l' : ℕ)
        → owner t ≡ part r' (suc l') (key l' va)
        → Harmless l' t va m.bytes grafted.bytes
    harmless va r' t zero ot = same_word t (px 0 va) r' 1 (key 0 va) ot (omega arith) λ e.
        let tp : t ≡ p =
          omega (arith, e, (page t r' 1 (key 0 va) ot).0, (page p r (suc (suc l)) k o).0) in
        absurd (cc)
    harmless va r' t (suc l') ot = elim (Bool-cases (t + 8 * px (suc l') va == p + 8 * j)) [
      | inr other ↦ inl (
          same_word t (px (suc l') va) r' (suc (suc l')) (key (suc l') va) ot (omega arith)
            (==→ne (t + 8 * px (suc l') va) (p + 8 * j) other))
      | inl here ↦
          let e : t + 8 * px (suc l') va ≡ p + 8 * j =
            ==→eq (t + 8 * px (suc l') va) (p + 8 * j) here in
          rw (e, new_word)
            (inr (
              invalid,
              rw (leads_back c taken.page.0 taken.page.2)
                  (pte_at-zero grafted.bytes l' c va (blank (px l' va) (omega arith))),
            ))
    ]

    -- A fresh page of entries, entered where the entry was invalid.
    pub graft-Extends : Extends end owner (c ∷ ys) m new_owner ys grafted
    graft-Extends = record {
      kept = record {
        well =
            set_pte-WellFormed end new_owner ys (fill_page c 0 m1) p r (suc l) k j (pa2pte c + 1)
              (update_ne owner (part r (suc l) (k * 512 + j))
                  (owned_ne owner c p r (suc (suc l)) k taken.fresh o)
                ∙ o)
              lt small
              (λ cov v.
                rw (leads_back c taken.page.0 taken.page.2)
                  (update_self owner c (part r (suc l) (k * 512 + j))))
              (give_page end owner ys (fill_page c 0 m1) c r (suc l) (k * 512 + j) taken.page
                taken.fresh taken.unlisted (inl (fill_page_blank c m1))
                (fill_page-WellFormed end owner ys m1 c 0 taken.page.0 taken.fresh taken.well));
        keeps = λ a r' l' k' oa.
            update_ne owner (part r (suc l) (k * 512 + j))
              (owned_ne owner c a r' l' k' taken.fresh oa)
            ∙ oa;
        frames = λ a r' k' x oa lo hi.
            same_byte x
              (pages-Apart c a x taken.page.0 (page a r' 0 k' oa).0
                (owned_ne owner c a r' 0 k' taken.fresh oa) lo hi)
              (in_other a r' 0 k' x oa (λ e. absurd (cc)) lo hi);
        spare = λ a al oa un. elim (Bool-cases (c == a)) [
          | inl here ↦ absurd (ground (arith, here))
          | inr other ↦ inl (rw other oa, ground (arith, other))
        ];
        spare_bytes = λ a x al oa un lo hi.
            same_byte x (pages-Apart c a x taken.page.0 al (λ e. absurd (ground (arith, e))) lo hi)
              (beside a x al (λ e. absurd (cc)) lo hi);
      };
      entries = λ t l' r' va ot.
          pte_at-frame owner m.bytes grafted.bytes r' va linked (harmless va r') l' t ot;
      tables = λ q r' l' k' i oq li v. same_word q i r' (suc l') k' oq li (λ e. absurd (cc));
    }
      where
        beside :
            (a x : ℕ)
            → a % 4096 ≡ 0
            → a ≢ p
            → a ≤ x
            → x < a + 4096
            → (x < p + 8 * j) ⊎ (p + 8 * j + 8 ≤ x)
        beside a x al ne lo hi = elim (dec_lt x (p + 8 * j)) [
          | yes below ↦ inl below
          | no above ↦ inr (omega (arith, (page p r (suc (suc l)) k o).0))
        ]

        in_other :
            (a r' l' k' x : ℕ)
            → owner a ≡ part r' l' k'
            → a ≢ p
            → a ≤ x
            → x < a + 4096
            → (x < p + 8 * j) ⊎ (p + 8 * j + 8 ≤ x)
        in_other a r' l' k' x oa ne lo hi = beside a x (page a r' l' k' oa).0 ne lo hi
