-- ===== src/User.antt =====
-- The user memory of one process, as `pipewrite` and `piperead` reach it: the two calls
-- `copyin` and `copyout` of kernel/vm.c, with what a client may rely on.
use increase_ipc_throughput.Base.{ℕ, ◌≤◌, ◌≡◌, Bool, true, List, length}

-- `copyin s addr len` is the result of the call (`true` for 0, `false` for -1), the bytes that it
-- stored from `dst` on, and the memory after it, since a page may be allocated on the way.
-- `copyout s addr bytes` is the result and the memory after it.
pub record UserSpace : Type 1 where
  pub Space : Type 0
  pub copyin : Space → ℕ → ℕ → Bool × List ℕ × Space
  pub copyout : Space → ℕ → List ℕ → Bool × Space
  pub length-copyin_ok :
      (s : Space) (addr len : ℕ) → (copyin s addr len).0 ≡ true → length (copyin s addr len).1 ≡ len
  pub length-copyin_le : (s : Space) (addr len : ℕ) → length (copyin s addr len).1 ≤ len
