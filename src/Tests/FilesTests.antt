-- ===== src/Tests/FilesTests.antt =====
-- The theorems on pages and open files, at two free pages and an empty table.
use increase_ipc_throughput.Base.{
  ℕ, ◌-◌, ◌%◌, ◌≤◌, ◌<◌, ◌≡◌, ◌≢◌, refl, arith, false, none, some, [], ◌∷◌, ◌==◌, if◌then◌else◌,
  pos, contains, update,
}
use increase_ipc_throughput.Pipe.{v7}
use increase_ipc_throughput.Ipc.LostWakeup.{all_run}
use increase_ipc_throughput.Kalloc.{Kmem, phystop, kalloc, kinit, junk}
use increase_ipc_throughput.Kalloc.FreeList.{
  IsFree, Chain, AllFree, kinit-AllFree, kalloc-Allocated,
}
use increase_ipc_throughput.Files.{
  fd_none, File, Kernel, Made, pipealloc, set_up, alloc_second, filealloc, taken, first_free,
  alloc_pages, alloc_data,
}
use increase_ipc_throughput.Files.Alloc.{IsMade, AllOrNothing, pipealloc-AllOrNothing, take_at}
use increase_ipc_throughput.Files.Close.{close_two, Restored, close_two-Restored}
use increase_ipc_throughput.Tests.SpaceTests.{root, pages, machine}
use increase_ipc_throughput.Descriptors.{Sys}

-- The last two pages.
abbrev page_one : ℕ
page_one = phystop - 4096

abbrev page_two : ℕ
page_two = phystop - 8192

abbrev two_pages : Kmem
two_pages = record { link = λ a. if a == page_one then page_two else 0; freelist = page_one }

two_pages-IsFree : IsFree page_two two_pages (page_one ∷ page_two ∷ [])
unfolding IsFree Chain
two_pages-IsFree = (
  refl,
  (refl, omega arith, omega arith),
  refl,
  (refl, (refl, omega arith, omega arith), refl, refl),
)

kinit-AllFree_example : AllFree page_two (kinit page_two (λ a. 0))
kinit-AllFree_example = kinit-AllFree page_two (λ a. 0) (omega arith)

kalloc-Allocated_example :
    ((kalloc two_pages).0 ≡ page_one)
    × (page_one ≢ 0)
    × ((page_one % 4096 ≡ 0) × (page_two ≤ page_one) × (page_one < phystop))
    × (contains (page_two ∷ []) page_one ≡ false)
    × IsFree page_two (kalloc two_pages).1 (page_two ∷ [])
kalloc-Allocated_example =
    kalloc-Allocated page_two (omega arith) two_pages (page_one ∷ page_two ∷ []) two_pages-IsFree

abbrev closed_file : File
closed_file = record {
  type = fd_none;
  ref = 0;
  readable = false;
  writable = false;
  pipe = 0;
  ip = 0;
  off = 0;
  major = 0;
}

abbrev no_files : Kernel
no_files = record {
  kmem = two_pages;
  files = λ i. closed_file;
  pipes = λ a. record { buf = λ i. 0; nread = 9; nwrite = 8; readopen = false; writeopen = false };
  data_page = λ a. 0;
  table = all_run;
}

pipealloc-AllOrNothing_example :
    AllOrNothing page_two v7 0
      (λ ip s. s)
      no_files
      (page_one ∷ page_two ∷ [])
      (pipealloc page_two v7 0 (λ ip s. s) no_files)
pipealloc-AllOrNothing_example =
    pipealloc-AllOrNothing page_two v7 0 (λ ip s. s) (omega arith) no_files
      (page_one ∷ page_two ∷ []) two_pages-IsFree (λ i h. refl)

-- What `pipealloc` returns there.
abbrev made_first : Made
made_first = record {
  result = pos 0;
  f0 = some 0;
  f1 = some 1;
  after =
      set_up page_two v7 0 (λ ip s. s) 0 1 page_one
        (record no_files {
          kmem = record {
            link = update (update (two_pages.link) page_one (junk 5)) page_two (junk 5);
            freelist = 0;
          };
          files = take_at (take_at (no_files.files) 0) 1;
          data_page = update (no_files.data_page) page_one page_two;
        });
}

made_first-made : pipealloc page_two v7 0 (λ ip s. s) no_files ≡ some made_first
unfolding pipealloc alloc_second filealloc taken first_free alloc_pages alloc_data kalloc
made_first-made = refl

made_first-IsMade :
    IsMade page_two v7 0 (λ ip s. s) no_files (page_one ∷ page_two ∷ []) made_first 0 1 page_one []
unfolding set_up IsFree Chain
made_first-IsMade = record {
  result = refl;
  first = refl;
  second = refl;
  differ = omega arith;
  a_free = refl;
  b_free = refl;
  read_end = refl;
  write_end = refl;
  others = λ i na nb. ground arith;
  fresh = refl;
  pages = refl;
  free = refl;
}

close_two-Restored_example :
    Restored page_two v7 0
      (λ ip s. s)
      no_files
      (page_one ∷ page_two ∷ [])
      0
      1
      (close_two page_two v7 0 (λ ip s. s) 0 1 made_first.after)
    × Restored page_two v7 0
        (λ ip s. s)
        no_files
        (page_one ∷ page_two ∷ [])
        0
        1
        (close_two page_two v7 0 (λ ip s. s) 1 0 made_first.after)
close_two-Restored_example =
    close_two-Restored page_two v7 0 (λ ip s. s) no_files (page_one ∷ page_two ∷ []) made_first 0 1
      page_one [] two_pages-IsFree made_first-IsMade

-- A process without descriptors.
abbrev no_fds : Sys
no_fds = record {
  kernel = record no_files { kmem = machine.kmem };
  bytes = machine.bytes;
  ofile = λ fd. none;
  pagetable = root;
  sz = 8192;
}
