-- ===== src/Tests/ConsoleTests.antt =====
-- The theorems on kernel/console.c at a finished line `a` and two characters behind it.
use increase_ipc_throughput.Base.{◌^◌, ◌-◌, ◌==◌, arith, true, false, if◌then◌else◌}
use increase_ipc_throughput.Console.{Cons, read_char}
use increase_ipc_throughput.Console.Input.{IsValid}
use increase_ipc_throughput.Console.Read.{Took, read_char-IsValid}

abbrev typed : Cons
typed = record { buf = λ i. if i == 127 then 10 else 97; r = 2 ^ 32 - 2; w = 0; e = 2 }

typed-IsValid : IsValid typed
typed-IsValid = record {
  r_fits = omega arith;
  w_fits = omega arith;
  e_fits = omega arith;
  lines_le = omega arith;
  edit_le = omega arith;
}

read_char-IsValid_example :
    IsValid (read_char false true 5 5 typed).1
    × Took false true 5 5 typed
        (read_char false true 5 5 typed).0
        (read_char false true 5 5 typed).1
read_char-IsValid_example = read_char-IsValid false true 5 5 typed typed-IsValid
