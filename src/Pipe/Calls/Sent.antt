-- ===== src/Pipe/Calls/Sent.antt =====
-- A call of `pipewrite` that finds room for all its bytes, in every version of kernel/pipe.c.
use increase_ipc_throughput.Base.{
  ℕ, zero, suc, ◌+◌, ◌-◌, ◌≤◌, ◌<◌, ◌≡◌, refl, sym, ap, ◌∙◌, subst, arith, true, false, Option,
  none, some, [], ◌∷◌, ◌++◌, append_assoc, append-nil, length, ℤ, pos, pos_part, Bool-cases, inl,
  inr, lt→ltb, le→ltb, add64, u64, add-zero, zero-add, suc-add, dec_lt,
}
use increase_ipc_throughput.User.{UserSpace}
use increase_ipc_throughput.Pipe.{
  Version, Pipe, pipe_total, used, is_full, load, write_chunk, WriteJob, WriteNext, Wrote,
  write_copied, write_copy, write_iter, write_wakes, write_start,
}
use increase_ipc_throughput.Pipe.Chunk.{write_chunk_bounds, full}
use increase_ipc_throughput.Pipe.Contents.{IsValid, contents}
use increase_ipc_throughput.Pipe.Write.{Appends, write_iter-Appends}
use increase_ipc_throughput.Pipe.Calls.{write_until, go_on_write, after_took}
use increase_ipc_throughput.Pipe.Ring.{pipe_total_le}

pub length-load : (m : ℕ → ℕ) (a n : ℕ) → length (load m a n) ≡ n
unfolding load
length-load m a zero = refl
length-load m a (suc n) = ap suc (length-load m (a + 1) n)

pub load-append :
    (m : ℕ → ℕ) (a b k n : ℕ) → b ≡ a + k → load m a (k + n) ≡ load m a k ++ load m b n
unfolding load
load-append m a b zero n e = rw (zero-add, e, add-zero)
load-append m a b (suc k) n e =
    rw suc-add (ap (λ l. m a ∷ l) (load-append m (a + 1) b k n (omega arith)))

module _ (u : UserSpace) (v : Version) (mem : ℕ → ℕ) (s : u.Space) where
  open u use {Space, copyin}

  -- The user's bytes from `addr` to `addr + n` can be read.
  abbrev pub Readable : ℕ → ℕ → Type 0
  Readable addr n =
      (addr + n ≤ u64)
      × ((a len : ℕ) → addr ≤ a → a + len ≤ addr + n → copyin s a len ≡ (true, load mem a len, s))

  -- All bytes from `i` on were taken, and the call returns `n`.
  abbrev pub Sent : Pipe → WriteJob → Option (Wrote u) → Type 0
  Sent p j none = ⊥
  Sent p j (some o) =
      (o.next
        ≡ WriteNext.finish (write_wakes v (record j { i = pos_part j.n })) (pos (pos_part j.n)))
      × (o.space ≡ s)
      × IsValid v o.pipe
      × (contents v o.pipe ≡ contents v p ++ load mem (j.addr + j.i) (pos_part j.n - j.i))

  write_iter-copied :
      (p : Pipe) (j : WriteJob)
      → j.i < pos_part j.n
      → p.readopen ≡ true
      → is_full v p ≡ false
      → Readable j.addr (pos_part j.n)
      → write_chunk v p (pos_part j.n - j.i) ≤ pos_part j.n - j.i
      → let k = write_chunk v p (pos_part j.n - j.i) in
        write_iter u v false p s j ≡ write_copied u v p j k true (load mem (j.addr + j.i) k) s
  unfolding write_iter write_copy
  write_iter-copied p j more open_end room readable le = simp (
    lt→ltb j.i (pos_part j.n) more,
    open_end,
    room,
    at,
    readable.1 (j.addr + j.i) k (omega arith) (omega arith),
  )
    where
      k : ℕ
      k = write_chunk v p (pos_part j.n - j.i)

      at : add64 j.addr j.i ≡ j.addr + j.i
      at = omega (arith, readable.0)

  write_iter-done :
      (p : Pipe) (j : WriteJob)
      → j.i ≡ pos_part j.n
      → write_iter u v false p s j ≡ record {
        pipe = p;
        space = s;
        took = [];
        next = WriteNext.finish (write_wakes v j) (pos j.i);
      }
  unfolding write_iter
  write_iter-done p j e = simp (le→ltb j.i (pos_part j.n) (omega arith))

  after_took-Sent :
      (p q : Pipe) (j : WriteJob) (k : ℕ) (r : Option (Wrote u))
      → j.i + k ≤ pos_part j.n
      → contents v q ≡ contents v p ++ load mem (j.addr + j.i) k
      → Sent q (record j { i = j.i + k }) r
      → Sent p j (after_took u v (load mem (j.addr + j.i) k) r)
  unfolding after_took
  after_took-Sent p q j k none le e h = h
  after_took-Sent p q j k (some o) le e h = (
    h.0,
    h.1,
    h.2,
    h.3
        ∙ ap (λ l. l ++ load mem (j.addr + (j.i + k)) (pos_part j.n - (j.i + k))) e
        ∙ append_assoc (contents v p) (load mem (j.addr + j.i) k) _
        ∙ ap (λ l. contents v p ++ l)
            (sym (
              load-append mem (j.addr + j.i) (j.addr + (j.i + k)) k (pos_part j.n - (j.i + k))
                (omega arith)))
        ∙ ap (λ n. contents v p ++ load mem (j.addr + j.i) n) (omega arith),
  )

  nothing_left :
      (p : Pipe) (j : WriteJob)
      → IsValid v p
      → j.i ≡ pos_part j.n
      → Sent p j (
          some (record {
            pipe = p;
            space = s;
            took = [];
            next = WriteNext.finish (write_wakes v j) (pos j.i);
          }))
  unfolding load
  nothing_left p j valid e = (
    ap (λ n. WriteNext.finish (write_wakes v (record j { i = n })) (pos n)) e,
    refl,
    valid,
    sym (append-nil (contents v p)) ∙ ap (λ n. contents v p ++ load mem (j.addr + j.i) n) none_left,
  )
    where
      none_left : 0 ≡ pos_part j.n - j.i
      none_left = omega arith

  has_room :
      (p : Pipe) (j : WriteJob)
      → IsValid v p
      → j.i < pos_part j.n
      → used p + (pos_part j.n - j.i) ≤ pipe_total v
      → is_full v p ≡ false
  has_room p j valid more room = elim (Bool-cases (is_full v p)) [
    | inl filled ↦ absurd (omega (arith, full v valid filled))
    | inr free ↦ free
  ]

  -- If the read end is open, the process is not killed, its bytes can be read and the pipe has room
  -- for them, `pipewrite` does not sleep: it returns their number, and they are in the pipe behind
  -- what was there, whatever the version.
  pub write_until-Sent :
      (f : ℕ) (p : Pipe) (j : WriteJob)
      → IsValid v p
      → p.readopen ≡ true
      → j.i ≤ pos_part j.n
      → used p + (pos_part j.n - j.i) ≤ pipe_total v
      → Readable j.addr (pos_part j.n)
      → pos_part j.n - j.i < f
      → Sent p j (write_until u v f (λ _. false) p s j)
  unfolding write_until go_on_write write_copied
  write_until-Sent zero p j valid open_end le room readable h = absurd (omega arith)
  write_until-Sent (suc f) p j valid open_end le room readable h =
      elim (dec_lt j.i (pos_part j.n)) [
        | no done ↦
            let e : j.i ≡ pos_part j.n = omega arith in
            rw (write_iter-done p j e) (nothing_left p j valid e)
        | yes more ↦
            let k = write_chunk v p (pos_part j.n - j.i) in
            let b =
              write_chunk_bounds v valid (pos_part j.n - j.i) (omega arith)
                (has_room p j valid more room) in
            let e =
              write_iter-copied p j more open_end (has_room p j valid more room) readable b.1 in
            let a : Appends u v p j (write_copied u v p j k true (load mem (j.addr + j.i) k) s) =
              subst (Appends u v p j) e (write_iter-Appends v p valid u false s j) in
            let q : Pipe = (write_copied u v p j k true (load mem (j.addr + j.i) k) s).pipe in
            rw e (
              after_took-Sent p q j k _ (omega (arith, b)) a.appended (
                write_until-Sent f q (record j { i = j.i + k }) a.valid open_end (omega (arith, b))
                  (omega (arith, b, pipe_total_le v)) readable (omega (arith, b))))
      ]

-- What a call returned, if it did.
abbrev pub result : WriteNext → Option ℤ
result (WriteNext.again j) = none
result (WriteNext.block j) = none
result (WriteNext.finish w r) = some r

-- Two pipes of two versions that hold the same bytes hold the same after the same call, which
-- returns the same: the wake-up apart, no version can be told from another by its bytes.
abbrev pub SameOutcome :
    (u : UserSpace) → Version → Version → Option (Wrote u) → Option (Wrote u) → Type 0
SameOutcome u v w none o' = ⊥
SameOutcome u v w (some o) none = ⊥
SameOutcome u v w (some o) (some o') =
    (result o.next ≡ result o'.next)
    × (o.space ≡ o'.space)
    × (contents v o.pipe ≡ contents w o'.pipe)

module _ (u : UserSpace) (v w : Version) (mem : ℕ → ℕ) (s : u.Space) where
  same_Sent :
      (p q : Pipe) (addr : ℕ) (n : ℤ) (r r' : Option (Wrote u))
      → contents v p ≡ contents w q
      → Sent u v mem s p (write_start p addr n) r
      → Sent u w mem s q (write_start q addr n) r'
      → SameOutcome u v w r r'
  unfolding write_start
  same_Sent p q addr n none r' e h h' = h
  same_Sent p q addr n (some o) none e h h' = h'
  same_Sent p q addr n (some o) (some o') e h h' = (
    ap result h.0 ∙ sym (ap result h'.0),
    h.1 ∙ sym h'.1,
    h.3 ∙ ap (λ l. l ++ load mem (addr + 0) (pos_part n - 0)) e ∙ sym h'.3,
  )

  -- If the read ends are open, the process is not killed, all its bytes can be read and there is
  -- room for all of them, a call of `pipewrite` on two pipes that hold the same bytes returns the
  -- same, and leaves the same bytes in them, in any two versions: byte by byte, in bulk or over
  -- four buffers.
  pub versions_agree :
      (f : ℕ) (p q : Pipe) (addr : ℕ) (n : ℤ)
      → IsValid v p
      → IsValid w q
      → contents v p ≡ contents w q
      → p.readopen ≡ true
      → q.readopen ≡ true
      → used p + pos_part n ≤ pipe_total v
      → used q + pos_part n ≤ pipe_total w
      → Readable u v mem s addr (pos_part n)
      → pos_part n < f
      → SameOutcome u v w
          (write_until u v f (λ _. false) p s (write_start p addr n))
          (write_until u w f (λ _. false) q s (write_start q addr n))
  unfolding write_start
  versions_agree f p q addr n vp vq e op oq rp rq readable h =
      same_Sent p q addr n _ _ e
        (write_until-Sent u v mem s f p (write_start p addr n) vp op (omega arith) (omega arith)
          readable (omega arith))
        (write_until-Sent u w mem s f q (write_start q addr n) vq oq (omega arith) (omega arith)
          readable (omega arith))
