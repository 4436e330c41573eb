-- ===== src/Files.antt =====
-- The table of open files in kernel/file.c, and `pipealloc` and `pipeclose` of kernel/pipe.c, which
-- take entries of it and pages of kernel/kalloc.c.
pub mod Table
pub mod Alloc
pub mod Close
use increase_ipc_throughput.Base.{
  ℕ, zero, suc, ◌+◌, ◌-◌, Bool, true, false, not, ◌&&◌, Option, none, some, ltb, ◌==◌,
  if◌then◌else◌, update, ℤ, pos, minus_one,
}
use increase_ipc_throughput.Pipe.{Version, v1, v2, v3, v4, v5, v6, v7, v8, Pipe}
use increase_ipc_throughput.Layout.{nread_chan, nwrite_chan}
use increase_ipc_throughput.Proc
use increase_ipc_throughput.Proc.{wakeup}
use increase_ipc_throughput.Kalloc.{Kmem, kalloc, kfree}

-- `type` of `struct file`.
pub data FileType : Type 0 where
  fd_none fd_pipe fd_inode fd_device : FileType

-- `struct file`; `pipe` and `ip` are addresses.
pub record File : Type 0 where
  pub type : FileType
  pub ref : ℕ
  pub readable : Bool
  pub writable : Bool
  pub pipe : ℕ
  pub ip : ℕ
  pub off : ℕ
  pub major : ℕ

abbrev pub nfile : ℕ
nfile = 100

-- `PIPE_VERSION >= 4`: `data` is a page of its own.
abbrev pub own_page : Version → Bool
own_page v1 = false
own_page v2 = false
own_page v3 = false
own_page v4 = true
own_page v5 = true
own_page v6 = true
own_page v7 = true
own_page v8 = true

-- The state that these functions change. `pipes` and `data` are `struct pipe` and its field `data`
-- at an address; the junk that `kalloc` and `kfree` write over the bytes of a page is left out.
pub record Kernel : Type 0 where
  pub kmem : Kmem
  pub files : ℕ → File
  pub pipes : ℕ → Pipe
  pub data_page : ℕ → ℕ
  pub table : Proc.Table

-- The loop of `filealloc` from entry `i` on.
unfoldable pub first_free : ℕ → ℕ → (ℕ → File) → Option ℕ
first_free zero i files = none
first_free (suc n) i files =
    let rest = first_free n (i + 1) files in if (files i).ref == 0 then some i else rest

-- `filealloc()` where the loop found an entry or none.
unfoldable pub taken : Option ℕ → Kernel → Option ℕ × Kernel
taken none s = (none, s)
taken (some i) s = (some i, record s { files = update s.files i (record (s.files i) { ref = 1 }) })

unfoldable pub filealloc : Kernel → Option ℕ × Kernel
filealloc s = taken (first_free nfile 0 s.files) s

-- `filedup(f)`; `none` is the panic.
unfoldable pub filedup : ℕ → Kernel → Option Kernel
filedup f s =
    if ltb (s.files f).ref 1
    then none
    else some
        (record s { files = update s.files f (record (s.files f) { ref = (s.files f).ref + 1 }) })

-- What `pipealloc` returns, `*f0`, `*f1`, and the state after it.
pub record Made : Type 0 where
  pub result : ℤ
  pub f0 : Option ℕ
  pub f1 : Option ℕ
  pub after : Kernel

-- `end` is the address after the kernel; `me` the process that calls; `put ip` what `begin_op`,
-- `iput(ip)` and `end_op` of the file system do.
module _ (end : ℕ) (v : Version) (me : ℕ) (put : ℕ → Kernel → Kernel) where
  -- `kfree(pa)`.
  unfoldable pub free_page : ℕ → Kernel → Option Kernel
  free_page pa s = elim (kfree end pa s.kmem) [
    | none ↦ none
    | some k ↦ some (record s { kmem = k })
  ]

  -- The two calls of `kfree` at the end of `pipeclose`.
  unfoldable pub free_pipe : ℕ → Kernel → Option Kernel
  free_pipe pi s =
      if own_page v
      then elim (free_page (s.data_page pi) s) [ none ↦ none | some s' ↦ free_page pi s' ]
      else free_page pi s

  -- `pipeclose` up to its second `if`.
  unfoldable pub close_flag : ℕ → Bool → Kernel → Kernel
  close_flag pi true s = record s {
    pipes = update s.pipes pi (record (s.pipes pi) { writeopen = false });
    table = wakeup v me (nread_chan v pi) s.table;
  }
  close_flag pi false s = record s {
    pipes = update s.pipes pi (record (s.pipes pi) { readopen = false });
    table = wakeup v me (nwrite_chan v pi) s.table;
  }

  -- `pipeclose(pi, writable)`; `none` is a panic of `kfree`.
  unfoldable pub pipeclose : ℕ → Bool → Kernel → Option Kernel
  pipeclose pi writable s =
      let s' = close_flag pi writable s in
      if not (s'.pipes pi).readopen && not (s'.pipes pi).writeopen then free_pipe pi s' else some s'

  -- The end of `fileclose`, for what the entry was.
  unfoldable pub close_what : FileType → File → Kernel → Option Kernel
  close_what fd_none ff s = some s
  close_what fd_pipe ff s = pipeclose ff.pipe ff.writable s
  close_what fd_inode ff s = some (put ff.ip s)
  close_what fd_device ff s = some (put ff.ip s)

  -- `fileclose(f)`; `none` is a panic.
  unfoldable pub fileclose : ℕ → Kernel → Option Kernel
  fileclose f s =
      let ff = s.files f in
      if ltb ff.ref 1
      then none
      else if ltb 0 (ff.ref - 1)
      then some (record s { files = update s.files f (record ff { ref = ff.ref - 1 }) })
      else close_what ff.type ff
          (record s { files = update s.files f (record ff { ref = 0; type = fd_none }) })

  -- `if(*f) fileclose(*f)`.
  unfoldable pub close_if : Option ℕ → Kernel → Option Kernel
  close_if none s = some s
  close_if (some f) s = fileclose f s

  -- From `bad` on.
  unfoldable pub undo : Option ℕ → Option ℕ → ℕ → Kernel → Option Made
  undo f0 f1 pi s = elim (if pi == 0 then some s else free_page pi s) [
    | none ↦ none
    | some s1 ↦ elim (close_if f0 s1) [
      | none ↦ none
      | some s2 ↦ elim (close_if f1 s2) [
        | none ↦ none
        | some s3 ↦ some (record { result = minus_one; f0 = f0; f1 = f1; after = s3 })
      ]
    ]
  ]

  -- From `pi->readopen = 1` on.
  unfoldable pub set_up : ℕ → ℕ → ℕ → Kernel → Kernel
  set_up a b pi s =
      let files =
        update s.files a
          (record (s.files a) { type = fd_pipe; readable = true; writable = false; pipe = pi }) in
      record s {
        pipes =
            update s.pipes pi
              (record (s.pipes pi) { nread = 0; nwrite = 0; readopen = true; writeopen = true });
        files =
            update files b
              (record (files b) { type = fd_pipe; readable = false; writable = true; pipe = pi });
      }

  -- With both entries and the page `pi` in hand.
  unfoldable pub alloc_data : ℕ → ℕ → ℕ → Kernel → Option Made
  alloc_data a b pi s =
      let (d, k) = kalloc s.kmem in
      let s' = record s { kmem = k; data_page = update s.data_page pi d } in
      if own_page v
      then if d == 0
        then elim (free_page pi s') [ none ↦ none | some s2 ↦ undo (some a) (some b) 0 s2 ]
        else some (record { result = pos 0; f0 = some a; f1 = some b; after = set_up a b pi s' })
      else some (record { result = pos 0; f0 = some a; f1 = some b; after = set_up a b pi s })

  unfoldable pub alloc_pages : ℕ → ℕ → Kernel → Option Made
  alloc_pages a b s =
      let (pi, k) = kalloc s.kmem in
      let s' = record s { kmem = k } in
      if pi == 0 then undo (some a) (some b) 0 s' else alloc_data a b pi s'

  unfoldable pub alloc_second : Option ℕ → Kernel → Option Made
  alloc_second none s = undo none none 0 s
  alloc_second (some a) s =
      let (f1, s') = filealloc s in
      elim f1 [ none ↦ undo (some a) none 0 s' | some b ↦ alloc_pages a b s' ]

  -- `pipealloc(f0, f1)`; `none` is a panic.
  unfoldable pub pipealloc : Kernel → Option Made
  pipealloc s = let (f0, s') = filealloc s in alloc_second f0 s'
