-- ===== src/Tests/LogTests.antt =====
-- The theorem on kernel/log.c where one operation has logged block 7 and may log nine times more.
use increase_ipc_throughput.Base.{
  ℕ, suc, ◌≤◌, ◌≡◌, ◌≢◌, refl, true, false, none, List, [], ◌∷◌, ◌++◌, length,
}
use increase_ipc_throughput.Log.{
  log_blocks, begin_op, log_write, end_op, Ops, Reach, begins, writes, here, next,
}
use increase_ipc_throughput.Log.Space.{enough_space}

abbrev one_logged : Ops
one_logged = record {
  log = record { blocks = 7 ∷ []; outstanding = 1; committing = false };
  ops = 9 ∷ [];
}

one_logged-Reach : Reach one_logged
unfolding begin_op log_write
one_logged-Reach = next (next here (begins _ refl)) (writes 7 9 [] [] _ refl refl)

enough_space_example :
    (length one_logged.log.blocks ≤ log_blocks)
    × (one_logged.log.committing ≡ true → one_logged.ops ≡ [])
    × ((b k : ℕ) (xs ys : List ℕ)
        → one_logged.ops ≡ xs ++ (suc k ∷ ys)
        → log_write b one_logged.log ≢ none)
    × ((k : ℕ) (xs ys : List ℕ) → one_logged.ops ≡ xs ++ (k ∷ ys) → end_op one_logged.log ≢ none)
enough_space_example = enough_space one_logged-Reach
