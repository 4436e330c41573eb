-- ===== src/Log.antt =====
-- The operations of kernel/log.c and the space that they reserve: `begin_op`, `log_write`, `end_op`.
-- What `commit` writes to the disk is left out.
pub mod Space
use increase_ipc_throughput.Base.{
  ℕ, zero, suc, ◌+◌, ◌-◌, ◌*◌, ◌<◌, ◌≡◌, Bool, true, false, ◌||◌, Option, none, some, List, [], ◌∷◌,
  ◌++◌, ltb, leb, ◌==◌, if◌then◌else◌, contains, length,
}

abbrev pub max_op_blocks : ℕ
max_op_blocks = 10

abbrev pub log_blocks : ℕ
log_blocks = max_op_blocks * 3

-- `log` without its lock and the place on the disk; `blocks` is `lh.block` up to `lh.n`.
pub record Log : Type 0 where
  pub blocks : List ℕ
  pub outstanding : ℕ
  pub committing : Bool

-- A test of the loop of `begin_op`; `none` is its `sleep`.
unfoldable pub begin_op : Log → Option Log
begin_op l =
    if l.committing
    then none
    else if ltb log_blocks (length l.blocks + (l.outstanding + 1) * max_op_blocks)
    then none
    else some (record l { outstanding = l.outstanding + 1 })

-- `log_write(b)`; `none` is a panic.
unfoldable pub log_write : ℕ → Log → Option Log
log_write b l =
    if leb log_blocks (length l.blocks) || ltb l.outstanding 1
    then none
    else if contains l.blocks b
    then some l
    else some (record l { blocks = l.blocks ++ (b ∷ []) })

-- `end_op()` up to `commit`; `none` is the panic.
unfoldable pub end_op : Log → Option Log
end_op l =
    if l.committing
    then none
    else some (record l { outstanding = l.outstanding - 1; committing = l.outstanding - 1 == 0 })

-- `commit()`, and the end of `end_op`.
unfoldable pub committed : Log → Log
committed l = record l { blocks = []; committing = false }

-- `ops` lists how many more calls of `log_write` each operation in progress may make.
pub record Ops : Type 0 where
  pub log : Log
  pub ops : List ℕ

pub data Step (s : Ops) : Ops → Type 0 where
  begins :
      (l : Log) → begin_op s.log ≡ some l → Step s (record { log = l; ops = max_op_blocks ∷ s.ops })
  writes :
      (b k : ℕ) (xs ys : List ℕ) (l : Log)
      → s.ops ≡ xs ++ (suc k ∷ ys)
      → log_write b s.log ≡ some l
      → Step s (record { log = l; ops = xs ++ (k ∷ ys) })
  ends :
      (k : ℕ) (xs ys : List ℕ) (l : Log)
      → s.ops ≡ xs ++ (k ∷ ys)
      → end_op s.log ≡ some l
      → Step s (record { log = l; ops = xs ++ ys })
  commits : s.log.committing ≡ true → Step s (record s { log = committed s.log })

-- After `initlog`, and any steps.
pub data Reach : Ops → Type 0 where
  here :
      Reach (record { log = record { blocks = []; outstanding = 0; committing = false }; ops = [] })
  next : {s t : Ops} → Reach s → Step s t → Reach t
