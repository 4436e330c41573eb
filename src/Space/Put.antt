-- ===== src/Space/Put.antt =====
-- The bytes that a round of `copyout` in kernel/vm.c stores into a page.
use increase_ipc_throughput.Base.{
  ℕ, ◌+◌, ◌-◌, ◌*◌, ◌/◌, ◌%◌, ◌≤◌, ◌<◌, ◌≡◌, ◌≢◌, refl, sym, ap, ◌∙◌, arith, true, Option, some,
  List, [], ◌∷◌, ◌++◌, ◌⊎◌, inl, inr, ◌==◌, Bool-cases, dec_lt, ==→eq, ==→ne, length, update,
  update_ne, ap₂,
}
use increase_ipc_throughput.Vm.{maxva, px, pte2pa, pte_u, Ram}
use increase_ipc_throughput.Vm.Tree.{Owner, part, key, user_pages, translate}
use increase_ipc_throughput.Vm.Pages.{Apart, pages-Apart}
use increase_ipc_throughput.Vm.Same.{SameTables, pte_at_same, frame_tables, frame-WellFormed}
use increase_ipc_throughput.Space.{page_round_down}
use increase_ipc_throughput.Space.Access.{put_bytes}
use increase_ipc_throughput.Space.Process.{IsProcess, top_owner, frame_at, frames_differ}
use increase_ipc_throughput.Space.View.{view, view_same, open_nonzero}
use increase_ipc_throughput.Space.Reads.{view_open}

-- A memory with these bytes from `a` on.
abbrev pub overlay : (ℕ → Option ℕ) → ℕ → List ℕ → ℕ → Option ℕ
overlay v a [] = v
overlay v a (x ∷ xs) = overlay (update v a (some x)) (a + 1) xs

pub overlay-append :
    (v : ℕ → Option ℕ) (a : ℕ) (xs ys : List ℕ)
    → overlay v a (xs ++ ys) ≡ overlay (overlay v a xs) (a + length xs) ys
overlay-append v a [] ys = ap (λ n. overlay v n ys) (omega arith)
overlay-append v a (x ∷ xs) ys =
    overlay-append (update v a (some x)) (a + 1) xs ys
    ∙ ap (λ n. overlay (overlay (update v a (some x)) (a + 1) xs) n ys) (omega arith)

pub overlay_other :
    (v : ℕ → Option ℕ) (a : ℕ) (xs : List ℕ) (va : ℕ)
    → (va < a) ⊎ (a + length xs ≤ va)
    → overlay v a xs va ≡ v va
overlay_other v a [] va h = refl
overlay_other v a (x ∷ xs) va h =
    overlay_other (update v a (some x)) (a + 1) xs va
      (elim h [ inl lo ↦ inl (omega arith) | inr hi ↦ inr (omega arith) ])
    ∙ update_ne v (some x) (omega (arith, h))

put_bytes_other :
    (b : ℕ → ℕ) (a : ℕ) (xs : List ℕ) (x : ℕ)
    → (x < a) ⊎ (a + length xs ≤ x)
    → put_bytes b a xs x ≡ b x
unfolding put_bytes
put_bytes_other b a [] x h = refl
put_bytes_other b a (y ∷ xs) x h =
    put_bytes_other (update b a y) (a + 1) xs x
      (elim h [ inl lo ↦ inl (omega arith) | inr hi ↦ inr (omega arith) ])
    ∙ update_ne b y (omega (arith, h))

-- In a page, a store is a store to what is seen of it.
overlay-put :
    (v : ℕ → Option ℕ) (b : ℕ → ℕ) (va pa off : ℕ) (xs : List ℕ)
    → ((o : ℕ) → o < 4096 → v (va + o) ≡ some (b (pa + o)))
    → off + length xs ≤ 4096
    → (o : ℕ) → o < 4096
    → overlay v (va + off) xs (va + o) ≡ some (put_bytes b (pa + off) xs (pa + o))
unfolding put_bytes
overlay-put v b va pa off [] h le o lt = h o lt
overlay-put v b va pa off (x ∷ xs) h le o lt =
    ap (λ n. overlay (update v (va + off) (some x)) n xs (va + o)) {x = va + off + 1}
      {y = va + (off + 1)} (omega arith)
    ∙ overlay-put (update v (va + off) (some x)) (update b (pa + off) x) va pa (off + 1) xs
        (λ i li. ground (arith, h i li)) (omega arith) o lt
    ∙ ap (λ n. some (put_bytes (update b (pa + off) x) n xs (pa + o))) {x = pa + (off + 1)}
        {y = pa + off + 1} (omega arith)

module _ (end : ℕ) (end_pos : 0 < end) (r sz : ℕ) (owner : ℕ → Owner) (xs : List ℕ) (m : Ram)
    (dst : ℕ) (piece : List ℕ) (p : IsProcess end end_pos owner xs m r sz)
    (low : page_round_down dst < maxva)
    (is_open : pte_u (translate r (page_round_down dst) m) ≡ true)
    (fits : dst - page_round_down dst + length piece ≤ 4096) where
  abbrev a : ℕ
  a = page_round_down dst

  abbrev pa : ℕ
  pa = pte2pa (translate r a m)

  abbrev pub stored : Ram
  stored = record m { bytes = put_bytes m.bytes (pa + (dst - a)) piece }

  here : (q : ℕ) × (owner q ≡ part r 1 (key 0 a)) × (owner pa ≡ part (q + 8 * px 0 a) 0 (a / 4096))
  here =
      let f =
        frame_at end end_pos owner xs m r a p.well p.root (p.guarded a low is_open)
          (open_nonzero end end_pos (translate r a m) is_open) in
      (f.0, f.1, f.2)

  other_bytes : (x : ℕ) → Apart pa x → stored.bytes x ≡ m.bytes x
  other_bytes x h =
      put_bytes_other m.bytes (pa + (dst - a)) piece x
        (elim h [ inl lo ↦ inl (omega arith) | inr hi ↦ inr (omega arith) ])

  tables : SameTables owner m.bytes stored.bytes
  tables = frame_tables end owner xs m stored.bytes pa _ _ p.well here.2 other_bytes

  pub entries :
      (s va : ℕ) → owner s ≡ part s 3 0 → va < maxva → translate s va stored ≡ translate s va m
  entries s va root lt =
      pte_at_same owner m.bytes stored.bytes tables p.well.linked s va 2 s
        (top_owner end end_pos owner s va root lt)

  pub stored-IsProcess :
      (s size : ℕ)
      → IsProcess end end_pos owner xs m s size
      → IsProcess end end_pos owner xs stored s size
  stored-IsProcess s size ps = record {
    well = frame-WellFormed end owner xs m stored pa _ _ ps.well here.2 other_bytes ps.well.free;
    root = ps.root;
    limit = ps.limit;
    guarded = λ va lt u. ps.guarded va lt (ap (λ e. pte_u e) (sym (entries s va ps.root lt)) ∙ u);
  }

  -- Other processes, and other pages of this one, do not see it.
  pub stored_other :
      (s size va : ℕ)
      → IsProcess end end_pos owner xs m s size
      → (s ≢ r) ⊎ (page_round_down va ≢ a)
      → view s size stored va ≡ view s size m va
  stored_other s size va ps ne =
      view_same end end_pos owner xs m stored s size va ps
        (λ lt. entries s (page_round_down va) ps.root (omega arith))
        (λ b s' k x o e lt u lo hi.
          let b0 : ℕ = page_round_down va in
          let user : b0 / 4096 < user_pages = ps.guarded b0 (omega arith) u in
          let differ : pa ≢ pte2pa (translate s b0 m) =
            frames_differ end end_pos owner xs m r a s b0 p.well (p.root, ps.root)
              (p.guarded a low is_open, user)
              (
                open_nonzero end end_pos (translate r a m) is_open,
                open_nonzero end end_pos (translate s b0 m) u,
              )
              (elim ne [
                | inl other ↦ inl (λ e'. other (sym e'))
                | inr other ↦ inr (λ e'. other (omega arith))
              ]) in
          other_bytes x (
            pages-Apart pa b x (p.well.page pa _ 0 _ here.2).0 (p.well.page b s' 0 k o).0
              (λ e'. differ (e' ∙ e)) lo hi))

  -- This process sees the bytes where it had them stored.
  pub stored-view : (va : ℕ) → view r sz stored va ≡ overlay (view r sz m) dst piece va
  stored-view va = elim (Bool-cases (page_round_down va == a)) [
    | inr other ↦
        let ne : page_round_down va ≢ a = ==→ne (page_round_down va) a other in
        stored_other r sz va p (inr ne)
        ∙ sym (
            overlay_other (view r sz m) dst piece va
              (elim (dec_lt va dst) [ yes lo ↦ inl lo | no hi ↦ inr (omega arith) ]))
    | inl same ↦
        let e : page_round_down va ≡ a = ==→eq (page_round_down va) a same in
        let at : translate r a stored ≡ translate r a m = entries r a p.root low in
        view_open r sz stored a va low e (ap (λ n. pte_u n) at ∙ is_open)
        ∙ ap (λ n. some (stored.bytes (pte2pa n + va % 4096))) at
        ∙ sym (
            overlay-put (view r sz m) m.bytes a pa (dst - a) piece
              (λ o lt.
                view_open r sz m a (a + o) low (omega arith) is_open
                ∙ ap (λ n. some (m.bytes (pa + n))) (omega arith))
              fits (va % 4096) (omega arith))
        ∙ ap₂ (λ d w. overlay (view r sz m) d piece w) (omega arith) (omega arith)
  ]
