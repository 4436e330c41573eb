-- ===== src/Tests/LifeTests.antt =====
-- The exit of a process with a parent, a child and an open file, and the wait for it.
use increase_ipc_throughput.Base.{
  ℕ, zero, suc, ◌+◌, ◌≡◌, refl, arith, false, true, ◌&&◌, ◌==◌, Option, none, some, ◌↔◌, pos,
  update,
}
use increase_ipc_throughput.Pipe.{v7}
use increase_ipc_throughput.Proc.{
  ProcState, unused, sleeping, runnable, running, Proc, Table, is_sleeping, nproc, sleep,
}
use increase_ipc_throughput.Files.{Kernel, File, fd_inode, fileclose}
use increase_ipc_throughput.Life.{Task, World, set_proc}
use increase_ipc_throughput.Life.Calls.{
  sleeps, close_fd, close_files, become_zombie, kexit, kwait_round,
}
use increase_ipc_throughput.Life.Exits.{Exited, kexit-Exited, exit-seen}
use increase_ipc_throughput.Life.Syscalls.{sbrk}
use increase_ipc_throughput.Life.Size.{ResizedOrPanic, sbrk-Resized}
use increase_ipc_throughput.Life.Waits.{MaySleep, kwait_round-Sleeps}

abbrev proc_in : ProcState → ℕ → Proc
proc_in st chan = record { state = st; chan = chan; killed = false; pid = 0; priority = 0 }

-- Process 0 is `init`, process 1 waits for its child 2, which has the child 3.
abbrev table : Table
table zero = proc_in runnable 0
table (suc zero) = proc_in sleeping 1001
table (suc (suc zero)) = proc_in running 0
table (suc (suc (suc zero))) = proc_in runnable 0
table (suc (suc (suc (suc n)))) = proc_in unused 0

abbrev task_of : Option ℕ → Task
task_of parent = record {
  xstate = 0;
  parent = parent;
  sz = 0;
  pagetable = 0;
  trapframe = 0;
  ofile = λ fd. none;
  cwd = 0;
}

abbrev tasks : ℕ → Task
tasks zero = task_of none
tasks (suc zero) = task_of (some 0)
tasks (suc (suc zero)) = record (task_of (some 1)) { ofile = update (λ fd. none) 1 (some 5) }
tasks (suc (suc (suc zero))) = task_of (some 2)
tasks (suc (suc (suc (suc n)))) = task_of none

abbrev inode_file : File
inode_file = record {
  type = fd_inode;
  ref = 2;
  readable = true;
  writable = false;
  pipe = 0;
  ip = 0;
  off = 0;
  major = 0;
}

abbrev world : World
world = record {
  kernel = record {
    kmem = record { link = λ a. 0; freelist = 0 };
    files = λ i. inode_file;
    pipes =
        λ a. record { buf = λ i. 0; nread = 0; nwrite = 0; readopen = false; writeopen = false };
    data_page = λ a. 0;
    table = table;
  };
  bytes = λ a. 0;
  tasks = tasks;
  next_pid = 9;
  initproc = 0;
}

-- The channel of a process is its address.
abbrev chan : ℕ → ℕ
chan i = 1000 + i

-- The inode calls, which leave this state alone.
abbrev same : ℕ → Kernel → Kernel
same ip k = k

-- Process 2 once its file is closed, and the world after its exit.
abbrev closed : World
closed = record world {
  kernel = record world.kernel {
    files = update world.kernel.files 5 (record inode_file { ref = 1 });
  };
  tasks = update tasks 2 (record (tasks 2) { ofile = update (tasks 2).ofile 1 none });
}

abbrev exited : World
exited = become_zombie v7 chan 2 7 closed

exits : kexit v7 chan 0 0 same same same 2 7 world ≡ some exited
unfolding kexit close_files close_fd fileclose
exits = refl

kexit-Exited_example : Exited chan 2 7 world exited
kexit-Exited_example = kexit-Exited v7 chan 0 0 same same same 2 7 world exited exits

exit-seen_example :
    (is_sleeping (exited.kernel.table 1).state && (exited.kernel.table 1).chan == chan 1) ≡ false
    × ¬ (kwait_round v7 chan 0 0 same same same 1 0 exited ≡ some (sleeps, exited))
exit-seen_example =
    exit-seen v7 chan 0 0 same same same 2 7 1 0 world exited exited exits refl (omega arith)
      (omega arith) (omega arith)

-- Process 1 waits, as its child 2 runs.
abbrev waiting : World
waiting = set_proc 1 (sleep (chan 1) (table 1)) world

kwait_round-Sleeps_example :
    kwait_round v7 chan 0 0 same same same 1 0 world ≡ some (sleeps, waiting)
    ↔ MaySleep nproc 0 1 false world × waiting ≡ set_proc 1 (sleep (chan 1) (table 1)) world
kwait_round-Sleeps_example = kwait_round-Sleeps v7 chan 0 0 same same same 1 0 world waiting

-- Process 1 asks for 5000 bytes, without a page for them yet.
sbrk-Resized_example :
    ResizedOrPanic 1 world (sbrk v7 chan 0 0 same same same 1 (pos 5000) (pos 2) world)
sbrk-Resized_example =
    sbrk-Resized v7 chan 0 0 same same same 1 (pos 5000) (pos 2) world (omega arith)
