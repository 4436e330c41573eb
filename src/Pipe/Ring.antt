-- ===== src/Pipe/Ring.antt =====
-- The offsets of kernel/pipe.c: how `slot` and `till_end` go round the buffer in each version.
use increase_ipc_throughput.Base.{ℕ, ◌+◌, ◌%◌, ◌≤◌, ◌<◌, ◌≡◌, ◌≢◌, arith, u32}
use increase_ipc_throughput.Pipe.{Version, v1, v3, pipe_total, slot, till_end}

-- The two-dimensional index of v3 is the flat one.
pub slot-eq : (v : Version) (x : ℕ) → slot v x ≡ x % pipe_total v
unfolding slot
slot-eq v1 x = omega arith
slot-eq v3 x = omega arith
slot-eq v x = omega arith

pub slot-lt : (v : Version) (x : ℕ) → slot v x < pipe_total v
unfolding slot
slot-lt v1 x = omega arith
slot-lt v3 x = omega arith
slot-lt v x = omega arith

-- A counter may wrap: the buffer's size divides 2 ^ 32.
pub slot_wrap : (v : Version) (x : ℕ) → slot v (x % u32) ≡ slot v x
unfolding slot
slot_wrap v1 x = omega arith
slot_wrap v3 x = omega arith
slot_wrap v x = omega arith

pub till_end_pos : (v : Version) (x : ℕ) → 0 < till_end v x
unfolding till_end
till_end_pos v1 x = omega arith
till_end_pos v3 x = omega arith
till_end_pos v x = omega arith

-- A chunk that stays before `till_end` does not go round.
pub slot-add : (v : Version) (x k : ℕ) → k < till_end v x → slot v (x + k) ≡ slot v x + k
unfolding slot till_end
slot-add v1 x k h = omega arith
slot-add v3 x k h = omega arith
slot-add v x k h = omega arith

pub slot-add-le-total : (v : Version) (x k : ℕ) → k ≤ till_end v x → slot v x + k ≤ pipe_total v
unfolding slot till_end
slot-add-le-total v1 x k h = omega arith
slot-add-le-total v3 x k h = omega arith
slot-add-le-total v x k h = omega arith

-- Fewer than `pipe_total` steps on is another offset.
pub slot_ne : (v : Version) (x k : ℕ) → 0 < k → k < pipe_total v → slot v (x + k) ≢ slot v x
unfolding slot
slot_ne v1 x k p q = omega arith
slot_ne v3 x k p q = omega arith
slot_ne v x k p q = omega arith

pub pipe_total_le : (v : Version) → pipe_total v ≤ 4096
pipe_total_le v1 = omega arith
pipe_total_le v = omega arith

pub pipe_total_pos : (v : Version) → 512 ≤ pipe_total v
pipe_total_pos v1 = omega arith
pipe_total_pos v = omega arith

-- Counters that agree on an offset agree on the next.
pub mod_next :
    (v : Version) (r s : ℕ)
    → r % pipe_total v ≡ s % pipe_total v
    → (r + 1) % pipe_total v ≡ (s + 1) % pipe_total v
mod_next v1 r s h = omega arith
mod_next v3 r s h = omega arith
mod_next v r s h = omega arith

pub mod_u32 : (v : Version) (r : ℕ) → r % u32 % pipe_total v ≡ r % pipe_total v
mod_u32 v1 r = omega arith
mod_u32 v3 r = omega arith
mod_u32 v r = omega arith

pub till_end_wrap : (v : Version) (x : ℕ) → till_end v (x % u32) ≡ till_end v x
unfolding till_end
till_end_wrap v1 x = omega arith
till_end_wrap v3 x = omega arith
till_end_wrap v x = omega arith
