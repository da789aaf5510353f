-- ===== src/Ioctl.antt =====
-- sysThrot_ioctl.c: the commands of the character device. Each checks that the caller is root, copies
-- its argument into a buffer of its own, and hands it on to the store, the probes or the switch.
pub mod Access
pub mod Safety
pub mod Effects
pub mod Marks
pub mod Removals
pub mod Samples
mod Tests
use syscall_throttling.Base.{
  ℕ, zero, suc, ◌==◌, leb, Bool, Option, none, some, List, [], ◌∷◌, if◌then◌else◌,
}
use syscall_throttling.Base.Int.{ℤ, pos, negsuc}
use syscall_throttling.Base.Code.{eperm, enomem, efault, einval}
use syscall_throttling.Base.Heap.{Heap, kmalloc, kfree}
use syscall_throttling.Base.Text.{task_comm_len}
use syscall_throttling.Store.{Store}
use syscall_throttling.Store.History.{
  Request, add_user, remove_user, add_program, remove_program, serve,
}
use syscall_throttling.Throttle.{Driver, to_int, turn_on, turn_off}
use syscall_throttling.Probe.{Kernel, Probes, install_probe, remove_probe}

-- The commands, by their numbers 1 to 8, and any other.
pub data Command : Type 0 where
  register_user deregister_user register_program deregister_program : Command
  register_syscall deregister_syscall switch_on switch_off : Command
  unknown : ℕ → Command

-- The memory of the caller at `arg`: the `int` there, or `none` when `copy_from_user` fails; and what
-- `strncpy_from_user` returns, with the bytes that it copies.
pub record Argument : Type 0 where
  pub word : Option ℕ
  pub name : ℤ × List ℕ

-- The module: the driver with its store, the probes, and the heap of the store and the handlers.
pub record Module : Type 0 where
  pub driver : Driver
  pub probes : Probes
  pub heap : Heap

abbrev pub set_store : Module → ℤ × Store × Heap → ℤ × Module
set_store m (code, s, h) =
    (code, record m { driver = record m.driver { store = s }; heap = kfree h })

abbrev pub set_probes : Module → Heap → ℤ × Probes → ℤ × Module
set_probes m h (code, p) = (code, record m { probes = p; heap = kfree h })

-- A handler that gives up, and frees its buffer.
abbrev pub give_up : Module → Heap → ℤ → ℤ × Module
give_up m h code = (code, record m { heap = kfree h })

-- `available` says which allocations succeed; `made` and `armed` are what `turn_on` asks for.
module _ (available : ℕ → Bool) (k : Kernel) (made : Bool) (armed : ℤ) where
  -- `sysThrot_register_user` and `sysThrot_deregister_user`, after `kmalloc`.
  unfoldable pub change_user : (ℕ → Request) → Option ℕ → Module → Heap → ℤ × Module
  change_user request none m h = give_up m h efault
  change_user request (some user_id) m h =
      set_store m (serve available (request user_id) m.driver.store h)

  -- `sysThrot_register_program` and `sysThrot_deregister_program`.
  unfoldable pub change_program : (List ℕ → Request) → ℤ × List ℕ → Module → Heap → ℤ × Module
  change_program request (negsuc n, name) m h = give_up m h (negsuc n)
  change_program request (pos zero, name) m h = give_up m h (pos 0)
  change_program request (pos (suc n), name) m h =
      let done = set_store m (serve available (request name) m.driver.store h) in
      if leb task_comm_len (suc n) then give_up m h einval else done

  -- `sysThrot_register_syscall` and `sysThrot_deregister_syscall`.
  unfoldable pub change_syscall : (ℤ → Probes → ℤ × Probes) → Option ℕ → Module → Heap → ℤ × Module
  change_syscall change none m h = give_up m h efault
  change_syscall change (some syscall_id) m h = set_probes m h (change (to_int syscall_id) m.probes)

  -- The buffer that a handler starts with.
  unfoldable pub with_buffer : (Heap → ℤ × Module) → Module → ℤ × Module
  with_buffer handler m =
      let (got, h) = kmalloc available m.heap in
      let done = handler h in if got then done else (enomem, record m { heap = h })

  abbrev pub set_driver : Module → ℤ × Driver → ℤ × Module
  set_driver m (code, d) = (code, record m { driver = d })

  abbrev pub returns : ℤ × Module → Option ℤ × Module
  returns (code, m) = (some code, m)

  abbrev pub set_stopping : Module → Option ℤ × Driver → Option ℤ × Module
  set_stopping m (code, d) = (code, record m { driver = d })

  -- What is done once the caller has been found to be root; `none` when `sysThrot_turn_off` goes on to its loop.
  unfoldable pub command_by_root : Command → Argument → Module → Option ℤ × Module
  command_by_root register_user arg m = returns (with_buffer (change_user add_user arg.word m) m)
  command_by_root deregister_user arg m =
      returns (with_buffer (change_user remove_user arg.word m) m)
  command_by_root register_program arg m =
      returns (with_buffer (change_program add_program arg.name m) m)
  command_by_root deregister_program arg m =
      returns (with_buffer (change_program remove_program arg.name m) m)
  command_by_root register_syscall arg m =
      returns (with_buffer (change_syscall (install_probe k) arg.word m) m)
  command_by_root deregister_syscall arg m =
      returns (with_buffer (change_syscall (remove_probe k) arg.word m) m)
  command_by_root switch_on arg m = returns (set_driver m (turn_on made armed m.driver))
  command_by_root switch_off arg m = set_stopping m (turn_off m.driver)
  command_by_root (unknown n) arg m = (some einval, m)

  -- `if (!check_root_user()) return -EPERM;` and what follows; `check_root_user` is `uid == 0`.
  abbrev pub checked : ℕ → Module → Option ℤ × Module → Option ℤ × Module
  checked uid m done = if uid == 0 then done else (some eperm, m)

  -- `sysThrot_ioctl` for a caller with the user id `uid`.
  unfoldable pub ioctl : ℕ → Command → Argument → Module → Option ℤ × Module
  ioctl uid register_user arg m = checked uid m (command_by_root register_user arg m)
  ioctl uid deregister_user arg m = checked uid m (command_by_root deregister_user arg m)
  ioctl uid register_program arg m = checked uid m (command_by_root register_program arg m)
  ioctl uid deregister_program arg m = checked uid m (command_by_root deregister_program arg m)
  ioctl uid register_syscall arg m = checked uid m (command_by_root register_syscall arg m)
  ioctl uid deregister_syscall arg m = checked uid m (command_by_root deregister_syscall arg m)
  ioctl uid switch_on arg m = checked uid m (command_by_root switch_on arg m)
  ioctl uid switch_off arg m = checked uid m (command_by_root switch_off arg m)
  ioctl uid (unknown n) arg m = (some einval, m)

  -- Calls in order, by caller, command and argument.
  unfoldable pub ioctls : List (ℕ × Command × Argument) → Module → Module
  ioctls [] m = m
  ioctls ((uid, command, arg) ∷ rest) m = ioctls rest (ioctl uid command arg m).1
