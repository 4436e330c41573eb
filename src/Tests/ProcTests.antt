-- ===== src/Tests/ProcTests.antt =====
-- The theorems on kernel/proc.c at a table of four processes.
use increase_ipc_throughput.Base.{ℕ, zero, suc, ◌≡◌, refl, arith, true, false, contains, update_ne}
use increase_ipc_throughput.Pipe.{v7}
use increase_ipc_throughput.Proc.{
  ProcState, unused, sleeping, runnable, Proc, Table, pick, pass, yield,
}
use increase_ipc_throughput.Proc.Choice.{Chosen, pick-Chosen, computes, Waits, pass-contains}

abbrev proc_at : ProcState → ℕ → Proc
proc_at st chan = record { state = st; chan = chan; killed = false; pid = 0; priority = 0 }

-- Processes 1 and 3 can run, process 2 sleeps on channel 9.
abbrev four : Table
four zero = proc_at unused 0
four (suc zero) = proc_at runnable 0
four (suc (suc zero)) = proc_at sleeping 9
four (suc (suc (suc zero))) = proc_at runnable 0
four (suc (suc (suc (suc n)))) = proc_at unused 0

pick-Chosen_example : Chosen four (pick four)
pick-Chosen_example = pick-Chosen four

computes-Waits : Waits computes
computes-Waits i j t ne r = ground (arith, update_ne t (yield v7 (t i)) ne)

pass-contains_example : contains (pass computes four).0 3 ≡ true
pass-contains_example = pass-contains computes four 3 computes-Waits (omega arith) refl
