-- ===== src/User.antt =====
-- user/: the programs that command the module through its device. user/lib/sysThrot.h has one
-- function for each command, which opens the device, sends the command and closes the device;
-- user/systhrot.c calls the one that its command line names, and user/client.c calls several.
pub mod Symbols
pub mod Systhrot
pub mod Closing
pub mod CommandLine
pub mod Effects
pub mod Samples
mod Tests
pub mod Client
use syscall_throttling.Base.{ℕ, suc, Bool, true, false, Option, none, some, List, [], if◌then◌else◌}
use syscall_throttling.Base.Int.{ℤ, pos, negsuc, is_negative}
use syscall_throttling.Base.Code.{success, failure}
use syscall_throttling.Throttle.{Driver, of_int}
use syscall_throttling.Throttle.Events.{Event}
use syscall_throttling.Throttle.Switch.{wait_drained}
use syscall_throttling.Throttle.Events
use syscall_throttling.Probe.{Kernel}
use syscall_throttling.Ioctl.{Command, Argument, Module}
use syscall_throttling.Ioctl
use syscall_throttling.Device.{sys_throt_open, sys_throt_release}
use Symbols.{find_syscall_id}

-- What the program runs on. `node_error` is the error of opening the device's node, if it cannot be
-- opened at all; `strncpy_from_user` gives what the kernel's function returns for a string of the
-- program, and the bytes that it copies; `meanwhile` is what the threads do while
-- `sysThrot_turn_off` waits; `syscall_symbols` is the array of user/syscalls.h.
pub record Machine : Type 0 where
  pub available : ℕ → Bool
  pub kernel : Kernel
  pub made : Bool
  pub armed : ℤ
  pub slab_available : ℕ → Bool
  pub entry_available : ℕ → Bool
  pub meanwhile : List Event
  pub uid : ℕ
  pub node_error : Option ℕ
  pub strncpy_from_user : List ℕ → ℤ × List ℕ
  pub syscall_symbols : List (Option (List ℕ))

-- The module, the counter of its device, and the program's `errno`.
pub record World : Type 0 where
  pub loaded : Module
  pub dev_available : ℤ
  pub errno : ℕ

-- A program that goes on, with a status, or that stays in the kernel for ever.
abbrev pub Result : Type 0
Result = Option (ℤ × World)

unfoldable pub opened : World → ℤ × ℤ → Bool × World
opened w (pos n, left) = (true, record w { dev_available = left })
opened w (negsuc n, left) = (false, record w { dev_available = left; errno = suc n })

unfoldable pub close_device : World → World
close_device w = record w { dev_available = (sys_throt_release w.dev_available).1 }

module _ (c : Machine) where
  -- `open(DEVICE_PATH, O_RDWR)`, and whether it gives a descriptor.
  unfoldable pub open_node : Option ℕ → World → Bool × World
  open_node none w = opened w (sys_throt_open w.dev_available)
  open_node (some error) w = (false, record w { errno = error })

  unfoldable pub open_device : World → Bool × World
  open_device w = open_node c.node_error w

  -- What `ioctl` makes of the status of the kernel.
  unfoldable pub answered : World → ℤ → Module → ℤ × World
  answered w (pos n) m = (pos n, record w { loaded = m })
  answered w (negsuc n) m = (failure, record w { loaded = m; errno = suc n })

  unfoldable pub stopped : World → Module → Option (ℤ × Driver) → Result
  stopped w m none = none
  stopped w m (some (code, d)) = some (answered w code (record m { driver = d }))

  -- The return to the program, for `sysThrot_turn_off` after its loop.
  unfoldable pub come_back : World → Option ℤ × Module → Result
  come_back w (some code, m) = some (answered w code m)
  come_back w (none, m) =
      let supported = c.kernel.supported in
      stopped w m (
        wait_drained c.slab_available c.entry_available supported
          (Events.steps c.slab_available c.entry_available supported m.driver c.meanwhile))

  unfoldable pub ioctl : Command → Argument → World → Result
  ioctl command arg w =
      come_back w (Ioctl.ioctl c.available c.kernel c.made c.armed c.uid command arg w.loaded)

  unfoldable pub close_after : Result → Result
  close_after none = none
  close_after (some (code, w)) =
      some (if is_negative code then failure else success, close_device w)

  -- What the functions of user/lib/sysThrot.h have in common.
  unfoldable pub send : Command → Argument → World → Result
  send command arg w =
      let (got, w1) = open_device w in
      let sent = close_after (ioctl command arg w1) in if got then sent else some (failure, w1)

  -- The address of an `int`, or of a string.
  abbrev pub int_argument : ℕ → Argument
  int_argument n = record { word = some n; name = (success, []) }

  abbrev pub text_argument : List ℕ → Argument
  text_argument text = record { word = none; name = c.strncpy_from_user text }

  abbrev pub no_argument : Argument
  no_argument = record { word = none; name = (success, []) }

  unfoldable pub register_user : ℕ → World → Result
  register_user user_id = send Command.register_user (int_argument user_id)

  unfoldable pub deregister_user : ℕ → World → Result
  deregister_user user_id = send Command.deregister_user (int_argument user_id)

  unfoldable pub register_program : List ℕ → World → Result
  register_program name = send Command.register_program (text_argument name)

  unfoldable pub deregister_program : List ℕ → World → Result
  deregister_program name = send Command.deregister_program (text_argument name)

  -- The test `syscall_id == -1`, which every negative number meets that `find_syscall_id` returns.
  unfoldable pub send_id : Command → ℤ → World → Result
  send_id command (negsuc n) w = some (failure, w)
  send_id command (pos id) w = send command (int_argument (of_int (pos id))) w

  unfoldable pub register_syscall : List ℕ → World → Result
  register_syscall name = send_id Command.register_syscall (find_syscall_id name c.syscall_symbols)

  unfoldable pub deregister_syscall : List ℕ → World → Result
  deregister_syscall name =
      send_id Command.deregister_syscall (find_syscall_id name c.syscall_symbols)

  unfoldable pub turn_on_monitor : World → Result
  turn_on_monitor = send Command.switch_on no_argument

  unfoldable pub turn_off_monitor : World → Result
  turn_off_monitor = send Command.switch_off no_argument

  -- `double_open_test`: the second of two openings.
  unfoldable pub open_again : Bool × World → ℤ × World
  open_again (false, w) = (failure, close_device w)
  open_again (true, w) = (success, close_device (close_device w))

  unfoldable pub double_open_test : World → ℤ × World
  double_open_test w =
      let (got, w1) = open_device w in
      let twice = open_again (open_device w1) in if got then twice else (failure, w1)
