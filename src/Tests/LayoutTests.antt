-- ===== src/Tests/LayoutTests.antt =====
-- The theorems on the layout of `struct pipe` at two versions.
use increase_ipc_throughput.Base.{◌≡◌, true, false, ◌/◌, ◌+◌}
use increase_ipc_throughput.Pipe.{v7}
use increase_ipc_throughput.Layout.{
  cacheline, field_offset, nread_index, nwrite_index, readopen_index, aligned, cache_lines,
}

cache_lines_example :
    (aligned v7 ≡ true
      → (field_offset v7 (nwrite_index v7) / cacheline ≡ 0)
        × (field_offset v7 (nread_index v7) / cacheline ≡ 1)
        × (field_offset v7 (readopen_index v7) / cacheline ≡ 1)
        × (field_offset v7 (readopen_index v7 + 1) / cacheline ≡ 1))
    × (aligned v7 ≡ false
        → field_offset v7 (nread_index v7) / cacheline
          ≡ field_offset v7 (nwrite_index v7) / cacheline)
cache_lines_example = cache_lines v7
