-- ===== src/Space/PipeRounds.antt =====
-- The rounds of `pipewrite` and `piperead` of kernel/pipe.c on the memory of kernel/vm.c.
use increase_ipc_throughput.Base.{
  ℕ, ◌-◌, ◌<◌, ◌≡◌, ◌≢◌, refl, ap, ◌∙◌, Bool, true, false, not, ◌&&◌, ◌||◌, List, [], ◌++◌, inl,
  inr, ◌⊎◌, Bool-cases, ltb, pos_part, add64,
}
use increase_ipc_throughput.Pipe.{
  Version, Pipe, WriteJob, ReadJob, Wrote, Gave, is_full, is_empty, write_chunk, read_chunk, slot,
  load, write_copied, write_copy, write_iter, read_copied, read_copy, read_iter,
}
use increase_ipc_throughput.Pipe.Contents.{IsValid, contents}
use increase_ipc_throughput.Pipe.Write
use increase_ipc_throughput.Pipe.Read
use increase_ipc_throughput.Pipe.Write.{write_iter-Appends}
use increase_ipc_throughput.Pipe.Read.{read_iter-Consumes}
use increase_ipc_throughput.Space.Access.{take}
use increase_ipc_throughput.Space.Process.{IsProcess}
use increase_ipc_throughput.Space.View.{view}
use increase_ipc_throughput.Space.Reads.{Reads}
use increase_ipc_throughput.Space.Put.{overlay}
use increase_ipc_throughput.Space.Copyin.{CopiedIn}
use increase_ipc_throughput.Space.Copyout.{CopiedOut}
use increase_ipc_throughput.Space.RoundTrip.{take_all}
use increase_ipc_throughput.Space.Interface.{Loaded, in_call, out_call, vm_space}

module _ (end : ℕ) (end_pos : 0 < end) (r sz : ℕ) (v : Version) (p : Pipe)
    (s : Loaded end end_pos r sz) where
  -- The bytes that a round of `pipewrite` took are those that the process sees from `addr + i` on,
  -- and no process sees a change.
  pub record Sees (j : WriteJob) (o : Wrote (vm_space end end_pos r sz)) : Type 0 where
    pub reads : Reads (view r sz s.ram) (add64 j.addr j.i) o.took
    pub unseen :
        (q size : ℕ)
        → IsProcess end end_pos s.owner s.xs s.ram q size
        → (q ≢ r) ⊎ (size ≡ sz)
        → (va : ℕ) → view q size o.space.ram va ≡ view q size s.ram va

  write_copied-Sees :
      (j : WriteJob) (k : ℕ) (ok : Bool) (bytes : List ℕ) (t : Loaded end end_pos r sz)
      → CopiedIn end end_pos r sz s.owner s.xs s.ram (add64 j.addr j.i) k ok bytes t.ram
      → Sees j (write_copied (vm_space end end_pos r sz) v p j k ok bytes t)
  unfolding write_copied
  write_copied-Sees j k true bytes t c = record { reads = c.reads; unseen = c.unseen.views }
  write_copied-Sees j k false bytes t c = record { reads = tt; unseen = c.unseen.views }

  write_iter-Sees_memory :
      (killed : Bool) (j : WriteJob)
      → Sees j (write_iter (vm_space end end_pos r sz) v killed p s j)
  unfolding write_iter write_copy
  write_iter-Sees_memory killed j = elim (Bool-cases (ltb j.i (pos_part j.n))) [
    | inr done ↦ rw done (record { reads = tt; unseen = λ q size h w va. refl })
    | inl more ↦ rw more (elim (Bool-cases (not p.readopen || killed)) [
      | inl gone ↦ rw gone (record { reads = tt; unseen = λ q size h w va. refl })
      | inr alive ↦ rw alive (elim (Bool-cases (is_full v p)) [
        | inl full ↦ rw full (record { reads = tt; unseen = λ q size h w va. refl })
        | inr room ↦
            let k = write_chunk v p (pos_part j.n - j.i) in
            let c = in_call end end_pos r sz s (add64 j.addr j.i) k in
            rw room (write_copied-Sees j k c.0 c.1 c.2 c.6)
      ])
    ])
  ]

  -- On a valid pipe and the memory of a process, a round of `pipewrite` puts behind the bytes in the
  -- pipe those that the process sees from `addr + i` on; it goes on with `i` behind them, or sleeps
  -- or returns and put none. Neither it nor another process sees a change of its memory.
  pub write_iter-Sees :
      (killed : Bool) (j : WriteJob)
      → IsValid v p
      → let o = write_iter (vm_space end end_pos r sz) v killed p s j in
        (contents v o.pipe ≡ contents v p ++ o.took) × Write.Continues j o.took o.next × Sees j o
  write_iter-Sees killed j valid = (
    (write_iter-Appends v p valid (vm_space end end_pos r sz) killed s j).appended,
    (write_iter-Appends v p valid (vm_space end end_pos r sz) killed s j).continues,
    write_iter-Sees_memory killed j,
  )

  -- The bytes that a round of `piperead` gave to the process stand where it sees them, from
  -- `addr + i` on, and no other process sees a change.
  pub record Shows (j : ReadJob) (o : Gave (vm_space end end_pos r sz)) : Type 0 where
    pub shown :
        o.gave ≢ []
        → (va : ℕ)
        → view r sz o.space.ram va ≡ overlay (view r sz s.ram) (add64 j.addr j.i) o.gave va
    pub unseen :
        (q size : ℕ)
        → IsProcess end end_pos s.owner s.xs s.ram q size
        → q ≢ r
        → (va : ℕ) → view q size o.space.ram va ≡ view q size s.ram va

  read_copied-Shows :
      (j : ReadJob) (k : ℕ) (bytes : List ℕ) (ok : Bool) (t : Loaded end end_pos r sz)
      → CopiedOut end end_pos r sz s.owner s.xs s.ram (add64 j.addr j.i) bytes ok t.ram
      → Shows j (read_copied (vm_space end end_pos r sz) v p j k bytes ok t)
  unfolding read_copied
  read_copied-Shows j k bytes true t c = record {
    shown = λ some_given va.
        c.written va
        ∙ ap (λ l. overlay (view r sz s.ram) (add64 j.addr j.i) l va)
            (ap (λ n. take n bytes) (c.all.1 refl) ∙ take_all bytes);
    unseen = c.others;
  }
  read_copied-Shows j k bytes false t c = record {
    shown = λ some_given. absurd (some_given refl);
    unseen = c.others;
  }

  read_iter-Shows_memory : (j : ReadJob) → Shows j (read_iter (vm_space end end_pos r sz) v p s j)
  unfolding read_iter read_copy
  read_iter-Shows_memory j = elim (Bool-cases (ltb j.i (pos_part j.n) && not (is_empty p))) [
    | inr done ↦
        rw done (record {
          shown = λ some_given. absurd (some_given refl);
          unseen = λ q size h ne va. refl;
        })
    | inl more ↦
        let k = read_chunk v p (pos_part j.n - j.i) in
        let bytes = load p.buf (slot v p.nread) k in
        let c = out_call end end_pos r sz s (add64 j.addr j.i) bytes in
        rw more (read_copied-Shows j k bytes c.0 c.1 c.3)
  ]

  -- On a valid pipe and the memory of a process, a round of `piperead` takes bytes from the front of
  -- the pipe; it goes on with `i` behind those that it gave, or returns and gave none. Where it gave
  -- some, the process sees them from `addr + i` on, with the rest of its memory as it was; no other
  -- process sees a change.
  pub read_iter-Shows :
      (j : ReadJob)
      → IsValid v p
      → let o = read_iter (vm_space end end_pos r sz) v p s j in
        (contents v p ≡ o.gave ++ (o.lost ++ contents v o.pipe))
        × Read.Continues j o.gave o.next
        × Shows j o
  read_iter-Shows j valid = (
    (read_iter-Consumes v p valid (vm_space end end_pos r sz) s j).consumed,
    (read_iter-Consumes v p valid (vm_space end end_pos r sz) s j).continues,
    read_iter-Shows_memory j,
  )
