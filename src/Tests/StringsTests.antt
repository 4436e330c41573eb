-- ===== src/Tests/StringsTests.antt =====
-- The theorems on kernel/string.c at overlapping ranges.
use increase_ipc_throughput.Base.{ℕ, ◌+◌, ◌-◌, ◌≡◌, if◌then◌else◌}
use increase_ipc_throughput.Strings.{memmove}
use increase_ipc_throughput.Strings.Move.{within, memmove_lem}

-- Each address holds itself.
abbrev counting : ℕ → ℕ
counting a = a

memmove_lem_example :
    memmove counting 12 10 5 14
    ≡ (if within 12 5 14 then counting (10 + (14 - 12)) else counting 14)
memmove_lem_example = memmove_lem counting 12 10 5 14
