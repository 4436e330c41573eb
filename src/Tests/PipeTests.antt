-- ===== src/Tests/PipeTests.antt =====
-- The theorems on kernel/pipe.c at a pipe of v3 whose counters are about to wrap.
use increase_ipc_throughput.Base.{
  ℕ, ◌+◌, ◌-◌, ◌%◌, ◌≤◌, ◌<◌, ◌≡◌, refl, arith, true, false, [], ◌∷◌, pos, ◌^◌, ◌==◌, replicate,
  zero, suc, ap,
}
use increase_ipc_throughput.Pipe.{
  Version, v1, v2, v3, v7, Pipe, buf_size, slot, WriteJob, ReadJob, write_iter, read_iter,
  write_start, write_chunk, read_chunk, load, is_full, is_empty,
}
use increase_ipc_throughput.Pipe.Contents.{IsValid, contents, window}
use increase_ipc_throughput.Pipe.Write.{Appends, write_iter-Appends}
use increase_ipc_throughput.Pipe.Read.{Consumes, read_iter-Consumes}
use increase_ipc_throughput.Pipe.Bounds.{write_in_bounds, read_in_bounds}
use increase_ipc_throughput.Pipe.Calls
use increase_ipc_throughput.Pipe.Calls.{write_until, read_until, write_until-Ended}
use increase_ipc_throughput.Pipe.Calls.Sent.{
  write_until-Sent, versions_agree, Sent, SameOutcome, Readable,
}
use increase_ipc_throughput.Pipe.Calls.Received
use increase_ipc_throughput.Pipe.Calls.Received.{read_until-Ended, read_until-Received, Received}
use increase_ipc_throughput.Ipc.LostWakeup.{zeros}

-- Five bytes, 510 to 514 of the counter modulo 512, so that the data go round in v1 to v3.
abbrev five : Pipe
five = record {
  buf = λ i. i % 251;
  nread = 2 ^ 32 - 2;
  nwrite = 3;
  readopen = true;
  writeopen = true;
}

abbrev write_job : WriteJob
write_job = record { addr = 100; n = pos 600; i = 0; need_wakeup = false }

abbrev read_job : ReadJob
read_job = record { addr = 100; n = pos 600; i = 0; was_full = false }

five-IsValid : (v : Version) → IsValid v five
five-IsValid v1 = omega arith
five-IsValid v = omega arith

contents-five : contents v3 five ≡ 38 ∷ 39 ∷ 0 ∷ 1 ∷ 2 ∷ []
unfolding window slot
contents-five = refl

write_iter-Appends_example :
    Appends zeros v3 five write_job (write_iter zeros v3 false five tt write_job)
write_iter-Appends_example = write_iter-Appends v3 five (five-IsValid v3) zeros false tt write_job

read_iter-Consumes_example : Consumes zeros v3 five read_job (read_iter zeros v3 five tt read_job)
read_iter-Consumes_example = read_iter-Consumes v3 five (five-IsValid v3) zeros tt read_job

write_in_bounds_example :
    (slot v3 3 + write_chunk v3 five 600 ≤ 2048)
    × (v3 ≡ v3 → slot v3 3 % buf_size + write_chunk v3 five 600 ≤ buf_size)
    × (0 < write_chunk v3 five 600)
    × (write_chunk v3 five 600 ≤ 600)
unfolding is_full
write_in_bounds_example = write_in_bounds v3 (five-IsValid v3) 600 (omega arith) refl

read_in_bounds_example :
    (slot v3 (2 ^ 32 - 2) + read_chunk v3 five 600 ≤ 2048)
    × (v3 ≡ v3 → slot v3 (2 ^ 32 - 2) % buf_size + read_chunk v3 five 600 ≤ buf_size)
    × (0 < read_chunk v3 five 600)
    × (read_chunk v3 five 600 ≤ 600)
    × (read_chunk v3 five 600 ≤ 5)
unfolding is_empty
read_in_bounds_example = read_in_bounds v3 (five-IsValid v3) 600 (omega arith) refl

write_until-Ended_example :
    Calls.Ended zeros v2 five (write_until zeros v2 601 (λ k. k == 3) five tt write_job)
write_until-Ended_example =
    write_until-Ended zeros v2 601 (λ k. k == 3) five tt write_job (five-IsValid v2) (omega arith)

read_until-Ended_example : Received.Ended zeros v7 five (read_until zeros v7 601 five tt read_job)
read_until-Ended_example =
    read_until-Ended zeros v7 601 five tt read_job (five-IsValid v7) (omega arith)

read_until-Received_example :
    Received zeros v1 five read_job (read_until zeros v1 601 five tt read_job)
read_until-Received_example =
    read_until-Received zeros v1 601 five tt read_job (five-IsValid v1) (λ s addr bytes. refl)
      (omega arith)

replicate-load : (a n : ℕ) → replicate n 0 ≡ load (λ i. 0) a n
unfolding load
replicate-load a zero = refl
replicate-load a (suc n) = ap (λ l. 0 ∷ l) (replicate-load (a + 1) n)

zeros-Readable :
    (v : Version) (addr n : ℕ) → addr + n ≤ 2 ^ 64 → Readable zeros v (λ i. 0) tt addr n
zeros-Readable v addr n h = (h, λ a len lo hi. ap (λ l. (true, l, tt)) (replicate-load a len))

write_until-Sent_example :
    Sent zeros v3
      (λ i. 0)
      tt
      five
      write_job
      (write_until zeros v3 601 (λ k. false) five tt write_job)
write_until-Sent_example =
    write_until-Sent zeros v3 (λ i. 0) tt 601 five write_job (five-IsValid v3) refl (omega arith)
      (omega arith) (zeros-Readable v3 100 600 (omega arith)) (omega arith)

-- The same bytes in v1 and in v7.
abbrev three : Pipe
three = record { buf = λ i. 7; nread = 1; nwrite = 4; readopen = true; writeopen = true }

three-IsValid : (v : Version) → IsValid v three
three-IsValid v1 = omega arith
three-IsValid v = omega arith

versions_agree_example :
    SameOutcome zeros v1 v7
      (write_until zeros v1 501 (λ k. false) three tt (write_start three 100 (pos 500)))
      (write_until zeros v7 501 (λ k. false) three tt (write_start three 100 (pos 500)))
unfolding window slot
versions_agree_example =
    versions_agree zeros v1 v7 (λ i. 0) tt 501 three three 100 (pos 500) (three-IsValid v1)
      (three-IsValid v7) refl refl refl (omega arith) (omega arith)
      (zeros-Readable v1 100 500 (omega arith)) (omega arith)
