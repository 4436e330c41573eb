-- ===== src/Pipe/Outcome.antt =====
-- Why a round of a loop of kernel/pipe.c goes on, sleeps or returns, and what it owes to the sleepers.
use increase_ipc_throughput.Base.{
  ℕ, ◌+◌, ◌≡◌, refl, sym, ap, ◌∙◌, arith, Bool, true, false, not, ◌&&◌, ◌||◌, List, ◌++◌, length,
  length-append, ℤ, pos, pos_part, minus_one, Bool-cases, inl, inr, ◌⊎◌, ltb, if◌then◌else◌,
}
use increase_ipc_throughput.User.{UserSpace}
use increase_ipc_throughput.Pipe.{
  Version, Pipe, used, is_full, is_empty, bytewise, WriteJob, WriteNext, Wrote, write_copied,
  write_copy, write_iter, write_wakes, ReadJob, ReadNext, Gave, read_copied, read_copy, read_iter,
  read_wakes, WaitNext, read_wait,
}
use increase_ipc_throughput.Pipe.Contents.{contents, length-window}
use increase_ipc_throughput.Pipe.Write.{Appends}
use increase_ipc_throughput.Pipe.Read.{Consumes}

-- Why a round of `pipewrite` ended as it did.
abbrev pub WriteReason : Version → Bool → Pipe → WriteJob → WriteNext → Type 0
WriteReason v killed p j (WriteNext.again j') = p.readopen ≡ true
WriteReason v killed p j (WriteNext.block j') = (is_full v p ≡ true) × (p.readopen ≡ true)
WriteReason v killed p j (WriteNext.finish w r) =
    ((w ≡ false) × (r ≡ minus_one) × ((not p.readopen || killed) ≡ true))
    ⊎ ((w ≡ write_wakes v j) × (r ≡ pos j.i))

abbrev pub ReadReason : Version → ReadJob → ReadNext → Type 0
ReadReason v j (ReadNext.again j') = Unit
ReadReason v j (ReadNext.finish w r) = w ≡ read_wakes v j

module _ (u : UserSpace) (v : Version) (p : Pipe) where
  open u use {Space}

  write_copied-WriteReason :
      (killed : Bool) (j : WriteJob) (k : ℕ) (ok : Bool) (bytes : List ℕ) (s : Space)
      → p.readopen ≡ true
      → WriteReason v killed p j (write_copied u v p j k ok bytes s).next
  unfolding write_copied
  write_copied-WriteReason killed j k true bytes s h = h
  write_copied-WriteReason killed j k false bytes s h = inr (refl, refl)

  pub write_iter-WriteReason :
      (killed : Bool) (s : Space) (j : WriteJob)
      → WriteReason v killed p j (write_iter u v killed p s j).next
  unfolding write_iter write_copy
  write_iter-WriteReason killed s j = elim (Bool-cases (ltb j.i (pos_part j.n))) [
    | inr done ↦ rw done (inr (refl, refl))
    | inl more ↦ rw more (elim (Bool-cases (not p.readopen || killed)) [
      | inl gone ↦ rw gone (inl (refl, refl, gone))
      | inr alive ↦ rw alive (elim (Bool-cases (is_full v p)) [
        | inl full ↦ rw full (full, ground arith)
        | inr room ↦ rw room (write_copied-WriteReason killed j _ _ _ _ (ground arith))
      ])
    ])
  ]

  read_copied-ReadReason :
      (j : ReadJob) (k : ℕ) (bytes : List ℕ) (ok : Bool) (s : Space)
      → ReadReason v j (read_copied u v p j k bytes ok s).next
  unfolding read_copied
  read_copied-ReadReason j k bytes true s = tt
  read_copied-ReadReason j k bytes false s = refl

  pub read_iter-ReadReason : (s : Space) (j : ReadJob) → ReadReason v j (read_iter u v p s j).next
  unfolding read_iter read_copy
  read_iter-ReadReason s j = elim (Bool-cases (ltb j.i (pos_part j.n) && not (is_empty p))) [
    | inr done ↦ rw done refl
    | inl more ↦ rw more (read_copied-ReadReason j _ _ _ _)
  ]

  pub used-contents : (q : Pipe) → length (contents v q) ≡ used q
  used-contents q = length-window v q.buf q.nread (used q)

  -- The bytes in the pipe after a round.
  pub used-Appends :
      {j : WriteJob} {o : Wrote u} → Appends u v p j o → used o.pipe ≡ used p + length o.took
  used-Appends {o} a =
      sym (used-contents o.pipe)
      ∙ ap length a.appended
      ∙ length-append (contents v p) o.took
      ∙ ap (λ k. k + length o.took) (used-contents p)

  pub used-Consumes :
      {j : ReadJob} {o : Gave u}
      → Consumes u v p j o
      → used p ≡ length o.gave + (length o.lost + used o.pipe)
  used-Consumes {o} a =
      sym (used-contents p)
      ∙ ap length a.consumed
      ∙ length-append o.gave (o.lost ++ contents v o.pipe)
      ∙ ap (λ k. length o.gave + k)
          (length-append o.lost (contents v o.pipe)
            ∙ ap (λ k. length o.lost + k) (used-contents o.pipe))

-- Why a test of the first loop of `piperead` ended as it did.
abbrev pub WaitReason : Version → Bool → Pipe → WaitNext → Type 0
WaitReason v killed p WaitNext.block = (is_empty p ≡ true) × (p.writeopen ≡ true) × (killed ≡ false)
WaitReason v killed p WaitNext.fail = (is_empty p ≡ true) × (killed ≡ true)
WaitReason v killed p (WaitNext.ready j) =
    ((is_empty p && p.writeopen) ≡ false) × (j.was_full ≡ is_full v p) × (j.i ≡ 0)

pub read_wait-WaitReason :
    (v : Version) (killed : Bool) (p : Pipe) (addr : ℕ) (n : ℤ)
    → WaitReason v killed p (read_wait v killed p addr n)
unfolding read_wait
read_wait-WaitReason v killed p addr n = elim (Bool-cases (is_empty p && p.writeopen)) [
  | inr go ↦ rw go (go, refl, refl)
  | inl stay ↦ rw stay (waits killed refl stay)
]
  where
    waits :
        (k : Bool)
        → killed ≡ k
        → (is_empty p && p.writeopen) ≡ true
        → WaitReason v killed p (if k then WaitNext.fail else WaitNext.block)
    waits true e stay = (ground arith, e)
    waits false e stay = (ground arith, ground arith, e)

-- A reader that will not wake the writers has lost no byte.
pub bytewise_of_silent : (v : Version) (j : ReadJob) → read_wakes v j ≡ false → bytewise v ≡ false
unfolding read_wakes
bytewise_of_silent v j h = ground arith
