-- ===== src/Pipe/Calls.antt =====
-- Calls of `pipewrite` and `piperead` of kernel/pipe.c from `acquire` on, as far as they go without
-- sleeping: they end, and what they return and leave where nothing stands in their way.
pub mod Sent
pub mod Received
use increase_ipc_throughput.Base.{
  ℕ, zero, suc, ◌+◌, ◌-◌, ◌≤◌, ◌<◌, ◌≡◌, ◌≢◌, refl, sym, ap, ap₂, ◌∙◌, arith, Bool, true, false,
  not, ◌&&◌, ◌||◌, Option, none, some, List, [], ◌∷◌, ◌++◌, append_assoc, append-nil, length, ℤ,
  pos, pos_part, minus_one, Bool-cases, inl, inr, ltb, ltb→lt, le→ltb, if◌then◌else◌, ◌==◌, add64,
  u64, add-zero, subst,
}
use increase_ipc_throughput.User.{UserSpace}
use increase_ipc_throughput.Pipe.{
  Version, Pipe, pipe_total, slot, used, is_full, is_empty, load, write_chunk, read_chunk, bytewise,
  WriteJob, WriteNext, Wrote, write_copied, write_copy, write_iter, write_wakes, ReadJob, ReadNext,
  Gave, read_copied, read_copy, read_iter, read_wakes,
}
use increase_ipc_throughput.Pipe.Contents.{IsValid, window, contents}
use increase_ipc_throughput.Pipe.Write.{Appends, Continues, write_iter-Appends}
use increase_ipc_throughput.Pipe.Read.{Consumes, read_iter-Consumes}
use increase_ipc_throughput.Pipe.Outcome.{used-Appends, used-Consumes}

module _ (u : UserSpace) (v : Version) where
  open u use {Space, copyin, copyout}

  -- The rounds after a round: what it took stands before what they took.
  pub after_took : List ℕ → Option (Wrote u) → Option (Wrote u)
  after_took took none = none
  after_took took (some o) = some (record o { took = took ++ o.took })

  pub after_gave : List ℕ → List ℕ → Option (Gave u) → Option (Gave u)
  after_gave gave lost none = none
  after_gave gave lost (some o) = some (record o { gave = gave ++ o.gave; lost = lost ++ o.lost })

  pub go_on_write : Wrote u → WriteNext → (WriteJob → Option (Wrote u)) → Option (Wrote u)
  go_on_write o (WriteNext.again j) rest = after_took o.took (rest j)
  go_on_write o (WriteNext.block j) rest = some o
  go_on_write o (WriteNext.finish w r) rest = some o

  pub go_on_read : Gave u → ReadNext → (ReadJob → Option (Gave u)) → Option (Gave u)
  go_on_read o (ReadNext.again j) rest = after_gave o.gave o.lost (rest j)
  go_on_read o (ReadNext.finish w r) rest = some o

  -- The loop of `pipewrite` until it sleeps or returns; `none` if the fuel runs out. `killed f` is
  -- what `killed(pr)` returns in the round with `f` more to come.
  pub write_until : ℕ → (ℕ → Bool) → Pipe → Space → WriteJob → Option (Wrote u)
  unfolding go_on_write after_took
  write_until zero killed p s j = none
  write_until (suc f) killed p s j =
      let o = write_iter u v (killed f) p s j in
      go_on_write o o.next (λ j'. write_until f killed o.pipe o.space j')

  -- The second loop of `piperead` until it returns.
  pub read_until : ℕ → Pipe → Space → ReadJob → Option (Gave u)
  unfolding go_on_read after_gave
  read_until zero p s j = none
  read_until (suc f) p s j =
      let o = read_iter u v p s j in go_on_read o o.next (λ j'. read_until f o.pipe o.space j')

  abbrev pub Stops : WriteNext → Type 0
  Stops (WriteNext.again j) = ⊥
  Stops (WriteNext.block j) = Unit
  Stops (WriteNext.finish w r) = Unit

  -- The loop has stopped, and the pipe holds what was taken behind what it held.
  abbrev pub Ended : Pipe → Option (Wrote u) → Type 0
  Ended p none = ⊥
  Ended p (some o) = Stops o.next × IsValid v o.pipe × (contents v o.pipe ≡ contents v p ++ o.took)

  after_took-Ended :
      (p q : Pipe) (took : List ℕ) (r : Option (Wrote u))
      → contents v q ≡ contents v p ++ took
      → Ended q r
      → Ended p (after_took took r)
  unfolding after_took
  after_took-Ended p q took none e h = h
  after_took-Ended p q took (some o) e h =
      (h.0, h.1, h.2 ∙ ap (λ l. l ++ o.took) e ∙ append_assoc (contents v p) took o.took)

  go_on_write-Ended :
      (p : Pipe) (j : WriteJob) (f : ℕ) (o : Wrote u) (nx : WriteNext)
      (rest : WriteJob → Option (Wrote u))
      → IsValid v o.pipe
      → contents v o.pipe ≡ contents v p ++ o.took
      → Continues j o.took nx
      → pos_part j.n - j.i < suc f
      → nx ≡ o.next
      → ((j' : WriteJob) → pos_part j'.n - j'.i < f → Ended o.pipe (rest j'))
      → Ended p (go_on_write o nx rest)
  unfolding go_on_write
  go_on_write-Ended p j f o (WriteNext.again j') rest valid e go h same later =
      after_took-Ended p o.pipe o.took (rest j') e (later j' (ground (arith, go)))
  go_on_write-Ended p j f o (WriteNext.block j') rest valid e go h same later =
      (subst Stops same tt, valid, e)
  go_on_write-Ended p j f o (WriteNext.finish w r) rest valid e go h same later =
      (subst Stops same tt, valid, e)

  -- With fuel above `n - i`, the loop of `pipewrite` sleeps or returns, whenever the process is
  -- killed and whatever the copies do, and every byte that it took is in the pipe, in order.
  pub write_until-Ended :
      (f : ℕ) (killed : ℕ → Bool) (p : Pipe) (s : Space) (j : WriteJob)
      → IsValid v p
      → pos_part j.n - j.i < f
      → Ended p (write_until f killed p s j)
  unfolding write_until
  write_until-Ended zero killed p s j valid h = absurd (omega arith)
  write_until-Ended (suc f) killed p s j valid h =
      go_on_write-Ended p j f o o.next _ a.valid a.appended a.continues h refl
        (λ j' h'. write_until-Ended f killed o.pipe o.space j' a.valid h')
    where
      o : Wrote u
      o = write_iter u v (killed f) p s j

      a : Appends u v p j o
      a = write_iter-Appends v p valid u (killed f) s j
