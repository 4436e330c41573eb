-- ===== src/Proc/Waking.antt =====
-- `wakeup`, `yield` and `kkill` of kernel/proc.c over the whole process table.
use increase_ipc_throughput.Base.{
  ℕ, zero, suc, ◌<◌, ◌≡◌, ◌≢◌, refl, ap, ◌∙◌, arith, false, not, ◌&&◌, ltb, ◌==◌, if◌then◌else◌,
}
use increase_ipc_throughput.Pipe.{Version}
use increase_ipc_throughput.Proc.{is_sleeping, Proc, nproc, Table, for_procs, wake, wakeup}

for_procs_lem :
    (n : ℕ) (body : ℕ → Proc → Proc) (t : Table) (i : ℕ)
    → for_procs n body t i ≡ (if ltb i n then body i (t i) else t i)
unfolding for_procs
for_procs_lem zero body t i = ground arith
for_procs_lem (suc n) body t i =
    ground (arith, for_procs_lem n body t i, for_procs_lem n body t n, ap (body i) (ap t refl))

-- `wakeup` reaches every process of the table but the caller.
pub wakeup_lem :
    (v : Version) (me chan : ℕ) (t : Table) (i : ℕ)
    → wakeup v me chan t i ≡ (if ltb i nproc && not (i == me) then wake v chan (t i) else t i)
unfolding wakeup
wakeup_lem v me chan t i =
    for_procs_lem nproc (λ j p. if j == me then p else wake v chan p) t i ∙ ground arith

-- After `wakeup(chan)` no process of the table but the caller sleeps on `chan`.
pub wakeup-none_left :
    (v : Version) (me chan : ℕ) (t : Table) (i : ℕ)
    → i < nproc
    → i ≢ me
    → (is_sleeping (wakeup v me chan t i).state && (wakeup v me chan t i).chan == chan) ≡ false
unfolding wake
wakeup-none_left v me chan t i lt other = ground (arith, wakeup_lem v me chan t i)

-- It leaves every process alone that does not sleep on `chan`.
pub wakeup-others :
    (v : Version) (me chan : ℕ) (t : Table) (i : ℕ)
    → is_sleeping (t i).state && (t i).chan == chan ≡ false
    → wakeup v me chan t i ≡ t i
unfolding wake
wakeup-others v me chan t i h = ground (arith, wakeup_lem v me chan t i)
