-- ===== src/Log/Space.antt =====
-- The space that kernel/log.c reserves is enough.
use increase_ipc_throughput.Base.{
  ℕ, suc, ◌+◌, ◌-◌, ◌*◌, ◌≤◌, ◌≡◌, ◌≢◌, refl, sym, ap, ◌∙◌, arith, true, false, ◌||◌, none, some,
  List, [], ◌∷◌, ◌++◌, ltb, leb, ◌==◌, contains, length, length-append, subst, Bool-cases, inl, inr,
}
use increase_ipc_throughput.Log.{
  max_op_blocks, log_blocks, Log, begin_op, log_write, end_op, committed, Ops, begins, writes, ends,
  commits, Reach, here, next,
}

abbrev sum : List ℕ → ℕ
sum [] = 0
sum (x ∷ xs) = x + sum xs

-- A sum, and a length, with one summand named.
sum-split : (xs : List ℕ) (k : ℕ) (ys : List ℕ) → sum (xs ++ (k ∷ ys)) ≡ k + sum (xs ++ ys)
sum-split [] k ys = refl
sum-split (x ∷ xs) k ys = omega (arith, sum-split xs k ys)

length-split :
    (xs : List ℕ) (k : ℕ) (ys : List ℕ) → length (xs ++ (k ∷ ys)) ≡ suc (length (xs ++ ys))
length-split [] k ys = refl
length-split (x ∷ xs) k ys = ap suc (length-split xs k ys)

-- No operation has more than its share left.
abbrev Share : List ℕ → Type 0
Share [] = Unit
Share (x ∷ xs) = (x ≤ max_op_blocks) × Share xs

sum-Share : (xs : List ℕ) → Share xs → sum xs ≤ length xs * max_op_blocks
sum-Share [] h = omega arith
sum-Share (x ∷ xs) h = omega (arith, h.0, sum-Share xs h.1)

Share-without : (xs : List ℕ) (k : ℕ) (ys : List ℕ) → Share (xs ++ (k ∷ ys)) → Share (xs ++ ys)
Share-without [] k ys h = h.1
Share-without (x ∷ xs) k ys h = (h.0, Share-without xs k ys h.1)

Share-less :
    (xs : List ℕ) (k : ℕ) (ys : List ℕ) → Share (xs ++ (suc k ∷ ys)) → Share (xs ++ (k ∷ ys))
Share-less [] k ys h = (omega (arith, h.0), h.1)
Share-less (x ∷ xs) k ys h = (h.0, Share-less xs k ys h.1)

-- The operations in progress are counted, and the log has room for all that they may still write.
record Inv (s : Ops) : Type 0 where
  counted : s.log.outstanding ≡ length s.ops
  share : Share s.ops
  alone : s.log.committing ≡ true → s.log.outstanding ≡ 0
  room : length s.log.blocks + sum s.ops ≤ log_blocks

begin_op-Inv :
    (s : Ops) (l : Log)
    → Inv s
    → begin_op s.log ≡ some l
    → Inv (record { log = l; ops = max_op_blocks ∷ s.ops })
unfolding begin_op
begin_op-Inv s l v e = elim (Bool-cases s.log.committing) [
  | inl busy ↦ absurd (ground (arith, e))
  | inr idle ↦
      elim (Bool-cases
        (ltb log_blocks (length s.log.blocks + (s.log.outstanding + 1) * max_op_blocks))) [
          | inl full ↦ absurd (ground (arith, e))
          | inr free ↦
              let it : record (s.log) { outstanding = s.log.outstanding + 1 } ≡ l =
                ground (arith, e) in
              subst (λ l. Inv (record { log = l; ops = max_op_blocks ∷ s.ops })) it
                (record {
                  counted = omega (arith, v.counted);
                  share = (omega arith, v.share);
                  alone = λ h. absurd (ground arith);
                  room = ground (arith, sum-Share s.ops v.share, v.counted);
                })
        ]
]

-- Who may still write finds room.
has_room :
    (s : Ops) (k : ℕ) (xs ys : List ℕ)
    → Inv s
    → s.ops ≡ xs ++ (suc k ∷ ys)
    → (leb log_blocks (length s.log.blocks) || ltb s.log.outstanding 1) ≡ false
has_room s k xs ys v e = ground (
  arith,
  v.room,
  v.counted,
  ap sum e ∙ sum-split xs (suc k) ys,
  ap length e ∙ length-split xs (suc k) ys,
)

log_write-Inv :
    (s : Ops) (b k : ℕ) (xs ys : List ℕ) (l : Log)
    → Inv s
    → s.ops ≡ xs ++ (suc k ∷ ys)
    → log_write b s.log ≡ some l
    → Inv (record { log = l; ops = xs ++ (k ∷ ys) })
unfolding log_write
log_write-Inv s b k xs ys l v e w = elim (Bool-cases (contains s.log.blocks b)) [
  | inl there ↦
      let it : s.log ≡ l = ground (arith, w, has_room s k xs ys v e) in
      subst (λ l. Inv (record { log = l; ops = xs ++ (k ∷ ys) })) it
        (record {
          counted = count;
          share = fewer;
          alone = v.alone;
          room = omega (arith, v.room, before, after);
        })
  | inr new ↦
      let it : record (s.log) { blocks = s.log.blocks ++ (b ∷ []) } ≡ l =
        ground (arith, w, has_room s k xs ys v e) in
      subst (λ l. Inv (record { log = l; ops = xs ++ (k ∷ ys) })) it
        (record {
          counted = count;
          share = fewer;
          alone = v.alone;
          room = omega (arith, v.room, before, after, length-append s.log.blocks (b ∷ []));
        })
]
  where
    before : sum s.ops ≡ suc k + sum (xs ++ ys)
    before = ap sum e ∙ sum-split xs (suc k) ys

    after : sum (xs ++ (k ∷ ys)) ≡ k + sum (xs ++ ys)
    after = sum-split xs k ys

    count : s.log.outstanding ≡ length (xs ++ (k ∷ ys))
    count = v.counted ∙ ap length e ∙ length-split xs (suc k) ys ∙ sym (length-split xs k ys)

    fewer : Share (xs ++ (k ∷ ys))
    fewer = Share-less xs k ys (subst Share e v.share)

-- While an operation is in progress nothing commits.
busy_idle :
    (s : Ops) (k : ℕ) (xs ys : List ℕ) → Inv s → s.ops ≡ xs ++ (k ∷ ys) → s.log.committing ≡ false
busy_idle s k xs ys v e = ground (arith, v.alone, v.counted, ap length e ∙ length-split xs k ys)

end_op-Inv :
    (s : Ops) (k : ℕ) (xs ys : List ℕ) (l : Log)
    → Inv s
    → s.ops ≡ xs ++ (k ∷ ys)
    → end_op s.log ≡ some l
    → Inv (record { log = l; ops = xs ++ ys })
unfolding end_op
end_op-Inv s k xs ys l v e w =
    let it : record (s.log) {
      outstanding = s.log.outstanding - 1;
      committing = s.log.outstanding - 1 == 0;
    }
        ≡ l =
      ground (arith, w, busy_idle s k xs ys v e) in
    subst (λ l. Inv (record { log = l; ops = xs ++ ys })) it
      (record {
        counted = omega (arith, v.counted, ap length e ∙ length-split xs k ys);
        share = Share-without xs k ys (subst Share e v.share);
        alone = λ h. ground arith;
        room = omega (arith, v.room, ap sum e ∙ sum-split xs k ys);
      })

committed-Inv :
    (s : Ops) → Inv s → s.log.committing ≡ true → Inv (record s { log = committed s.log })
unfolding committed
committed-Inv s v h = record {
  counted = v.counted;
  share = v.share;
  alone = λ h'. cc;
  room = omega (arith, v.room);
}

Reach-Inv : {s : Ops} → Reach s → Inv s
Reach-Inv here = record { counted = refl; share = tt; alone = λ h. refl; room = omega arith }
Reach-Inv (next {s} r (begins l e)) = begin_op-Inv s l (Reach-Inv r) e
Reach-Inv (next {s} r (writes b k xs ys l e w)) = log_write-Inv s b k xs ys l (Reach-Inv r) e w
Reach-Inv (next {s} r (ends k xs ys l e w)) = end_op-Inv s k xs ys l (Reach-Inv r) e w
Reach-Inv (next {s} r (commits h)) = committed-Inv s (Reach-Inv r) h

-- If no operation logs more than `MAXOPBLOCKS` times, the log never overflows: it holds at most
-- `LOGBLOCKS` blocks, a commit never meets an operation in progress, and neither `log_write` by
-- an operation with a share left nor its `end_op` ever panics.
pub enough_space :
    {s : Ops}
    → Reach s
    → (length s.log.blocks ≤ log_blocks)
      × (s.log.committing ≡ true → s.ops ≡ [])
      × ((b k : ℕ) (xs ys : List ℕ) → s.ops ≡ xs ++ (suc k ∷ ys) → log_write b s.log ≢ none)
      × ((k : ℕ) (xs ys : List ℕ) → s.ops ≡ xs ++ (k ∷ ys) → end_op s.log ≢ none)
unfolding log_write end_op
enough_space {s} r = (
  omega (arith, v.room),
  λ h. none_left s.ops (sym v.counted ∙ v.alone h),
  λ b k xs ys e p. ground (arith, has_room s k xs ys v e, p),
  λ k xs ys e p. ground (arith, busy_idle s k xs ys v e, p),
)
  where
    v : Inv s
    v = Reach-Inv r

    none_left : (xs : List ℕ) → length xs ≡ 0 → xs ≡ []
    none_left [] h = refl
    none_left (x ∷ xs) h = absurd (omega arith)
