-- ===== src/Space/Interface.antt =====
-- The memory of kernel/vm.c as `pipewrite` and `piperead` use it: it fills `UserSpace`.
use increase_ipc_throughput.Base.{
  ℕ, ◌≤◌, ◌<◌, ◌≡◌, refl, Bool, true, Option, none, some, List, length,
}
use increase_ipc_throughput.User.{UserSpace}
use increase_ipc_throughput.Vm.{Ram}
use increase_ipc_throughput.Vm.Tree.{Owner}
use increase_ipc_throughput.Space.Access.{copyin, copyout}
use increase_ipc_throughput.Space.Process.{IsProcess}
use increase_ipc_throughput.Space.Copyin.{CopiedIn, CopiedInOrNot, copyin-CopiedIn}
use increase_ipc_throughput.Space.Copyout.{CopiedOut, CopiedOutOrNot}
use increase_ipc_throughput.Space.Copies.{copyout-CopiedOut}

module _ (end : ℕ) (end_pos : 0 < end) (r sz : ℕ) where
  -- The machine with the page table of the process.
  pub record Loaded : Type 0 where
    pub owner : ℕ → Owner
    pub xs : List ℕ
    pub ram : Ram
    pub process : IsProcess end end_pos owner xs ram r sz

  copied_in :
      (s : Loaded) (src len : ℕ) (o : Option (Bool × List ℕ × Ram))
      → CopiedInOrNot end end_pos r sz s.owner s.xs s.ram src len o
      → (ok : Bool) × (bytes : List ℕ) × (s' : Loaded) × (o ≡ some (ok, bytes, s'.ram))
        × (length bytes ≤ len)
        × (ok ≡ true → length bytes ≡ len)
        × CopiedIn end end_pos r sz s.owner s.xs s.ram src len ok bytes s'.ram
  copied_in s src len none c = absurd c
  copied_in s src len (some (ok, bytes, m')) c = (
    ok,
    bytes,
    record {
      owner = c.unseen.owner';
      xs = c.unseen.xs';
      ram = m';
      process = c.unseen.processes r sz s.process;
    },
    refl,
    c.size.0,
    c.size.1,
    c,
  )

  copied_out :
      (s : Loaded) (dst : ℕ) (src : List ℕ) (o : Option (Bool × Ram))
      → CopiedOutOrNot end end_pos r sz s.owner s.xs s.ram dst src o
      → (ok : Bool) × (s' : Loaded) × (o ≡ some (ok, s'.ram))
        × CopiedOut end end_pos r sz s.owner s.xs s.ram dst src ok s'.ram
  copied_out s dst src none c = absurd c
  copied_out s dst src (some (ok, m')) c = (
    ok,
    record { owner = c.owner'; xs = c.xs'; ram = m'; process = c.processes r sz s.process },
    refl,
    c,
  )

  pub in_call :
      (s : Loaded) (src len : ℕ)
      → (ok : Bool) × (bytes : List ℕ) × (s' : Loaded) × (copyin end r sz r src len s.ram
          ≡ some (ok, bytes, s'.ram))
        × (length bytes ≤ len)
        × (ok ≡ true → length bytes ≡ len)
        × CopiedIn end end_pos r sz s.owner s.xs s.ram src len ok bytes s'.ram
  in_call s src len =
      copied_in s src len (copyin end r sz r src len s.ram)
        (copyin-CopiedIn end end_pos r sz s.owner s.xs s.ram src len s.process)

  pub out_call :
      (s : Loaded) (dst : ℕ) (src : List ℕ)
      → (ok : Bool) × (s' : Loaded) × (copyout end r sz r dst src s.ram ≡ some (ok, s'.ram))
        × CopiedOut end end_pos r sz s.owner s.xs s.ram dst src ok s'.ram
  out_call s dst src =
      copied_out s dst src (copyout end r sz r dst src s.ram)
        (copyout-CopiedOut end end_pos r sz s.owner s.xs s.ram dst src s.process)

  -- What the pipes take for granted of `copyin` and `copyout` holds of those of kernel/vm.c.
  abbrev pub vm_space : UserSpace
  vm_space = record {
    Space = Loaded;
    copyin = λ s src len. let c = in_call s src len in (c.0, c.1, c.2);
    copyout = λ s dst src. let c = out_call s dst src in (c.0, c.1);
    length-copyin_ok = λ s src len good. (in_call s src len).5 good;
    length-copyin_le = λ s src len. (in_call s src len).4;
  }
