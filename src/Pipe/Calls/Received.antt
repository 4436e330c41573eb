-- ===== src/Pipe/Calls/Received.antt =====
-- Calls of `piperead` of kernel/pipe.c past the waiting loop: they end, and give the oldest bytes.
use increase_ipc_throughput.Base.{
  ℕ, zero, suc, ◌+◌, ◌-◌, ◌≤◌, ◌<◌, ◌≡◌, refl, sym, ap, ◌∙◌, subst, arith, true, false, not, ◌&&◌,
  Option, none, some, List, [], ◌++◌, append_assoc, length, length-append, pos, pos_part,
  Bool-cases, inl, inr, ltb, add64, add-zero, min,
}
use increase_ipc_throughput.User.{UserSpace}
use increase_ipc_throughput.Pipe.{
  Version, Pipe, slot, used, is_empty, load, read_chunk, bytewise, ReadJob, ReadNext, Gave,
  read_copied, read_copy, read_iter, read_wakes,
}
use increase_ipc_throughput.Pipe.Chunk.{empty}
use increase_ipc_throughput.Pipe.Contents.{IsValid, contents}
use increase_ipc_throughput.Pipe.Read.{Consumes, Continues, read_iter-Consumes}
use increase_ipc_throughput.Pipe.Outcome.{used-Consumes}
use increase_ipc_throughput.Pipe.Calls.{read_until, go_on_read, after_gave}

module _ (u : UserSpace) (v : Version) where
  open u use {Space, copyout}

  -- The loop has stopped; what it gave stood in front of what is in the pipe, but for what was lost.
  abbrev pub Ended : Pipe → Option (Gave u) → Type 0
  Ended p none = ⊥
  Ended p (some o) =
      IsValid v o.pipe × (bytewise v ≡ false → contents v p ≡ o.gave ++ contents v o.pipe)

  front :
      (p : Pipe) (o : Gave u)
      → contents v p ≡ o.gave ++ (o.lost ++ contents v o.pipe)
      → (bytewise v ≡ false → o.lost ≡ [])
      → bytewise v ≡ false
      → contents v p ≡ o.gave ++ contents v o.pipe
  front p o e none_lost bulk = e ∙ ap (λ l. o.gave ++ (l ++ contents v o.pipe)) (none_lost bulk)

  after_gave-Ended :
      (p q : Pipe) (gave lost : List ℕ) (r : Option (Gave u))
      → (bytewise v ≡ false → contents v p ≡ gave ++ contents v q)
      → Ended q r
      → Ended p (after_gave u v gave lost r)
  unfolding after_gave
  after_gave-Ended p q gave lost none e h = h
  after_gave-Ended p q gave lost (some o) e h = (
    h.0,
    λ bulk.
        e bulk
        ∙ ap (λ l. gave ++ l) (h.1 bulk)
        ∙ sym (append_assoc gave o.gave (contents v o.pipe)),
  )

  go_on_read-Ended :
      (p : Pipe) (j : ReadJob) (f : ℕ) (o : Gave u) (nx : ReadNext)
      (rest : ReadJob → Option (Gave u))
      → Consumes u v p j o
      → Continues j o.gave nx
      → pos_part j.n - j.i < suc f
      → ((j' : ReadJob) → pos_part j'.n - j'.i < f → Ended o.pipe (rest j'))
      → Ended p (go_on_read u v o nx rest)
  unfolding go_on_read
  go_on_read-Ended p j f o (ReadNext.again j') rest a go h later =
      after_gave-Ended p o.pipe o.gave o.lost (rest j') (front p o a.consumed a.none_lost)
        (later j' (ground (arith, go)))
  go_on_read-Ended p j f o (ReadNext.finish w r) rest a go h later =
      (a.valid, front p o a.consumed a.none_lost)

  -- With fuel above `n - i` the second loop of `piperead` returns, whatever the copies do; but for
  -- v1, what it gave to the user and what is left in the pipe are what was in the pipe.
  pub read_until-Ended :
      (f : ℕ) (p : Pipe) (s : Space) (j : ReadJob)
      → IsValid v p
      → pos_part j.n - j.i < f
      → Ended p (read_until u v f p s j)
  unfolding read_until
  read_until-Ended zero p s j valid h = absurd (omega arith)
  read_until-Ended (suc f) p s j valid h =
      go_on_read-Ended p j f o o.next _ a a.continues h
        (λ j' h'. read_until-Ended f o.pipe o.space j' a.valid h')
    where
      o : Gave u
      o = read_iter u v p s j

      a : Consumes u v p j o
      a = read_iter-Consumes v p valid u s j

  -- Every `copyout` succeeds.
  abbrev pub Writable : Type 0
  Writable = (s : Space) (addr : ℕ) (bytes : List ℕ) → (copyout s addr bytes).0 ≡ true

  -- The call returns the number of the bytes that it gave: the oldest ones, as many as were asked
  -- for, or all.
  abbrev pub Received : Pipe → ReadJob → Option (Gave u) → Type 0
  Received p j none = ⊥
  Received p j (some o) =
      (o.next
        ≡ ReadNext.finish (read_wakes v (record j { i = j.i + length o.gave }))
            (pos (j.i + length o.gave)))
      × IsValid v o.pipe
      × (contents v p ≡ o.gave ++ contents v o.pipe)
      × (length o.gave ≡ min (pos_part j.n - j.i) (used p))

  after_gave-Received :
      (p q : Pipe) (j : ReadJob) (k : ℕ) (gave : List ℕ) (r : Option (Gave u))
      → contents v p ≡ gave ++ contents v q
      → length gave ≡ k
      → used p ≡ k + used q
      → j.i + k ≤ pos_part j.n
      → Received q (record j { i = j.i + k }) r
      → Received p j (after_gave u v gave [] r)
  unfolding after_gave
  after_gave-Received p q j k gave none e len m le h = h
  after_gave-Received p q j k gave (some o) e len m le h = (
    h.0 ∙ ap (λ n. ReadNext.finish (read_wakes v (record j { i = n })) (pos n)) grown,
    h.1,
    e ∙ ap (λ l. gave ++ l) h.2 ∙ sym (append_assoc gave o.gave (contents v o.pipe)),
    omega (arith, length-append gave o.gave, h.3),
  )
    where
      grown : j.i + k + length o.gave ≡ j.i + length (gave ++ o.gave)
      grown = omega (arith, length-append gave o.gave)

  nothing_more :
      (p : Pipe) (s : Space) (j : ReadJob)
      → IsValid v p
      → (ltb j.i (pos_part j.n) && not (is_empty p)) ≡ false
      → Received p j (
          some (record {
            pipe = p;
            space = s;
            gave = [];
            lost = [];
            next = ReadNext.finish (read_wakes v j) (pos j.i);
          }))
  nothing_more p s j valid e = (
    ap (λ n. ReadNext.finish (read_wakes v (record j { i = n })) (pos n)) (sym (add-zero j.i)),
    valid,
    refl,
    ground (arith, empty v valid),
  )

  read_iter-stop :
      (p : Pipe) (s : Space) (j : ReadJob)
      → (ltb j.i (pos_part j.n) && not (is_empty p)) ≡ false
      → read_iter u v p s j ≡ record {
        pipe = p;
        space = s;
        gave = [];
        lost = [];
        next = ReadNext.finish (read_wakes v j) (pos j.i);
      }
  unfolding read_iter
  read_iter-stop p s j e = simp e

  -- The bytes of the next copy, and the memory after it.
  abbrev next_bytes : Pipe → ReadJob → List ℕ
  next_bytes p j = load p.buf (slot v p.nread) (read_chunk v p (pos_part j.n - j.i))

  abbrev next_space : Pipe → Space → ReadJob → Space
  next_space p s j = (copyout s (add64 j.addr j.i) (next_bytes p j)).1

  read_iter-copied :
      (p : Pipe) (s : Space) (j : ReadJob)
      → Writable
      → (ltb j.i (pos_part j.n) && not (is_empty p)) ≡ true
      → read_iter u v p s j
        ≡ read_copied u v p j
            (read_chunk v p (pos_part j.n - j.i))
            (next_bytes p j)
            true
            (next_space p s j)
  unfolding read_iter read_copy
  read_iter-copied p s j w e = simp (e, w s (add64 j.addr j.i) (next_bytes p j))

  -- If every copy to the user succeeds, the second loop of `piperead` returns, in every version, the
  -- number of the bytes asked for or in the pipe, whichever is less, and has given that many of the
  -- oldest bytes.
  pub read_until-Received :
      (f : ℕ) (p : Pipe) (s : Space) (j : ReadJob)
      → IsValid v p
      → Writable
      → pos_part j.n - j.i < f
      → Received p j (read_until u v f p s j)
  unfolding read_until read_copied go_on_read
  read_until-Received zero p s j valid w h = absurd (omega arith)
  read_until-Received (suc f) p s j valid w h =
      elim (Bool-cases (ltb j.i (pos_part j.n) && not (is_empty p))) [
        | inr stop ↦ rw (read_iter-stop p s j stop) (nothing_more p s j valid stop)
        | inl more ↦
            let k = read_chunk v p (pos_part j.n - j.i) in
            let e = read_iter-copied p s j w more in
            let o : Gave u = read_copied u v p j k (next_bytes p j) true (next_space p s j) in
            let a : Consumes u v p j o =
              subst (Consumes u v p j) e (read_iter-Consumes v p valid u s j) in
            let len : length (next_bytes p j) ≡ k = omega (arith, a.continues.1) in
            rw e (
              after_gave-Received p o.pipe j k (next_bytes p j) _ a.consumed len
                (omega (arith, used-Consumes u v p a, len)) a.continues.2
                (read_until-Received f o.pipe o.space (record j { i = j.i + k }) a.valid w
                  (omega (arith, a.continues))))
      ]
