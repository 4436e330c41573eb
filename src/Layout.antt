-- ===== src/Layout.antt =====
-- The memory layout of `struct pipe` in kernel/pipe.c for each version, by the C rule that a field
-- stands at the next multiple of its alignment. The addresses `&pi->nread` and `&pi->nwrite` are the
-- channels on which readers and writers sleep.
use increase_ipc_throughput.Base.{
  ℕ, zero, suc, ◌+◌, ◌-◌, ◌*◌, ◌/◌, ◌≤◌, ◌<◌, ◌≡◌, ◌≢◌, refl, arith, Bool, true, false, List, [],
  ◌∷◌,
}
use increase_ipc_throughput.Pipe.{Version, v1, v2, v3, v4, v5, v6, v7, v8, pipe_total}

pub record Field : Type 0 where
  pub size : ℕ
  pub align : ℕ

abbrev pub round_up : ℕ → ℕ → ℕ
round_up n a = (n + a - 1) / a * a

-- The offset of field number `k`, with the first field at or after `at`.
unfoldable pub offset : ℕ → List Field → ℕ → ℕ
offset at [] k = at
offset at (f ∷ fs) zero = round_up at f.align
offset at (f ∷ fs) (suc k) = offset (round_up at f.align + f.size) fs k

-- The end of the last field.
unfoldable pub fields_end : ℕ → List Field → ℕ
fields_end at [] = at
fields_end at (f ∷ fs) = fields_end (round_up at f.align + f.size) fs

-- `uint` and `int`, a pointer, an array of `char`.
abbrev pub word : Field
word = record { size = 4; align = 4 }

abbrev pub pointer : Field
pointer = record { size = 8; align = 8 }

abbrev pub chars : ℕ → Field
chars n = record { size = n; align = 1 }

-- `struct spinlock` of kernel/spinlock.h.
unfoldable pub spinlock_size : ℕ
unfolding fields_end
spinlock_size = round_up (fields_end 0 (word ∷ pointer ∷ pointer ∷ [])) 8

abbrev pub cacheline : ℕ
cacheline = 64

unfoldable pub lock_field : Field
unfolding spinlock_size
lock_field = record { size = spinlock_size; align = 8 }

-- The fields of `struct pipe` in the order of the source: lock, data, nread, nwrite, readopen,
-- writeopen in v1 to v6; lock, data, nwrite, padding, nread, padding, readopen, writeopen after.
abbrev embedded : Version → List Field
unfolding lock_field
embedded v = lock_field ∷ chars (pipe_total v) ∷ word ∷ word ∷ word ∷ word ∷ []

abbrev paged : List Field
unfolding lock_field
paged = lock_field ∷ pointer ∷ word ∷ word ∷ word ∷ word ∷ []

abbrev padded : List Field
unfolding lock_field
padded =
    lock_field
    ∷ pointer
    ∷ word
    ∷ chars (cacheline - spinlock_size - 8 - 4)
    ∷ word
    ∷ chars (cacheline - 4 - 2 * 4)
    ∷ word
    ∷ word
    ∷ []

unfoldable pub fields : Version → List Field
unfolding embedded paged padded
fields v1 = embedded v1
fields v2 = embedded v2
fields v3 = embedded v3
fields v4 = paged
fields v5 = paged
fields v6 = paged
fields v7 = padded
fields v8 = padded

-- Which field is which.
unfoldable pub nread_index : Version → ℕ
nread_index v7 = 4
nread_index v8 = 4
nread_index v = 2

unfoldable pub nwrite_index : Version → ℕ
nwrite_index v7 = 2
nwrite_index v8 = 2
nwrite_index v = 3

pub readopen_index : Version → ℕ
readopen_index v7 = 6
readopen_index v8 = 6
readopen_index v = 4

unfoldable pub field_offset : Version → ℕ → ℕ
unfolding offset fields
field_offset v k = offset 0 (fields v) k

-- `sizeof(struct pipe)`.
pub struct_size : Version → ℕ
unfolding fields_end fields
struct_size v = round_up (fields_end 0 (fields v)) 8

-- `&pi->nread` and `&pi->nwrite`.
unfoldable pub nread_chan : Version → ℕ → ℕ
unfolding nread_index field_offset
nread_chan v pi = pi + field_offset v (nread_index v)

unfoldable pub nwrite_chan : Version → ℕ → ℕ
unfolding nwrite_index field_offset
nwrite_chan v pi = pi + field_offset v (nwrite_index v)

-- Readers and writers sleep on different channels.
pub chan_ne : (v : Version) (pi : ℕ) → nread_chan v pi ≢ nwrite_chan v pi
unfolding nread_chan nwrite_chan
chan_ne v1 pi = omega arith
chan_ne v7 pi = omega arith
chan_ne v8 pi = omega arith
chan_ne v pi = omega arith

-- In every version the structure fits into the page that `kalloc` returns.
struct_fits : (v : Version) → struct_size v ≤ 4096
unfolding struct_size
struct_fits v1 = omega arith
struct_fits v = omega arith

sizes :
    (struct_size v1 ≡ 552)
    × (struct_size v3 ≡ 2088)
    × (struct_size v5 ≡ 48)
    × (struct_size v7 ≡ 128)
unfolding struct_size
sizes = (refl, refl, refl, refl)

-- `PIPE_VERSION >= 7`.
abbrev pub aligned : Version → Bool
aligned v7 = true
aligned v8 = true
aligned v = false

-- In v7 and v8 `nwrite` stands on the first cache line of the structure and `nread` on the second,
-- where both flags stand too; before v7 the two counters share a line.
pub cache_lines :
    (v : Version)
    → (aligned v ≡ true
        → (field_offset v (nwrite_index v) / cacheline ≡ 0)
          × (field_offset v (nread_index v) / cacheline ≡ 1)
          × (field_offset v (readopen_index v) / cacheline ≡ 1)
          × (field_offset v (readopen_index v + 1) / cacheline ≡ 1))
      × (aligned v ≡ false
          → field_offset v (nread_index v) / cacheline
            ≡ field_offset v (nwrite_index v) / cacheline)
unfolding field_offset nwrite_index nread_index readopen_index
cache_lines v7 = (λ h. (refl, refl, refl, refl), λ h. cc)
cache_lines v8 = (λ h. (refl, refl, refl, refl), λ h. cc)
cache_lines v = (λ h. cc, λ h. refl)

-- No channel is the null pointer.
pub chan_pos : (v : Version) (pi : ℕ) → (0 < nread_chan v pi) × (0 < nwrite_chan v pi)
unfolding nread_chan nwrite_chan
chan_pos v1 pi = omega arith
chan_pos v7 pi = omega arith
chan_pos v8 pi = omega arith
chan_pos v pi = omega arith
