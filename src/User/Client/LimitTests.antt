-- ===== src/User/Client/LimitTests.antt =====
-- The chain from `setup_throttle` to the handler on a concrete input.
use syscall_throttling.Base.{◌^◌, ◌≡◌, refl, true, none, some, [], inl, ltb}
use syscall_throttling.Base.Int.{◌+ℤ◌, ◌-ℤ◌}
use syscall_throttling.Base.Code.{success}
use syscall_throttling.Base.Heap.{kmalloc, kfree}
use syscall_throttling.Store.Cuckoo.{
  contains, clone_map, create_map, clone_slots, clone_slot, insert, kick, destroy_map, free_slots,
}
use syscall_throttling.Store.Hash.{hash1, hash2}
use syscall_throttling.Store.Keys.{compare_user, get_key_from_user_id}
use syscall_throttling.Store.{add_user_to_store, add_item}
use syscall_throttling.Store.History.{serve}
use syscall_throttling.Queue.{init_queue}
use syscall_throttling.Monitor.{Task}
use syscall_throttling.Throttle.{turn_on, dec32, stub}
use syscall_throttling.Throttle.Events.{is_let_through}
use syscall_throttling.Ioctl.{command_by_root, with_buffer, change_user}
use syscall_throttling.Ioctl
use syscall_throttling.Ioctl.Samples.{always, loaded-IsSound}
use syscall_throttling.Device.{sys_throt_open, sys_throt_release}
use syscall_throttling.User.{
  World, Result, opened, open_node, open_device, close_device, answered, come_back, ioctl,
  close_after, send, register_user, turn_on_monitor,
}
use syscall_throttling.User.Samples.{machine, machine-IsUsual, closed}
use syscall_throttling.User.Client.{check, check_each, setup_throttle}
use syscall_throttling.User.Client.Limit.{setup_throttle-limits}

abbrev world_of : Result → World
world_of none = closed
world_of (some (code, w)) = w

-- After setting up for the user root alone.
abbrev set_up : World
set_up = world_of (setup_throttle machine [] [] closed)

set_up_succeeds : setup_throttle machine [] [] closed ≡ some (success, set_up)
unfolding setup_throttle check check_each register_user turn_on_monitor send open_device open_node
    opened sys_throt_open ◌-ℤ◌ ◌+ℤ◌ close_after close_device sys_throt_release ioctl come_back
    Ioctl.ioctl command_by_root answered with_buffer change_user kmalloc kfree serve
    add_user_to_store add_item contains clone_map create_map clone_slots clone_slot insert kick
    destroy_map free_slots hash1 hash2 compare_user get_key_from_user_id turn_on init_queue
set_up_succeeds = refl

set_up_on : set_up.loaded.driver.working ≡ true
unfolding setup_throttle check check_each register_user turn_on_monitor send open_device open_node
    opened sys_throt_open ◌-ℤ◌ ◌+ℤ◌ close_after close_device sys_throt_release ioctl come_back
    Ioctl.ioctl command_by_root answered with_buffer change_user kmalloc kfree serve
    add_user_to_store add_item contains clone_map create_map clone_slots clone_slot insert kick
    destroy_map free_slots hash1 hash2 compare_user get_key_from_user_id turn_on init_queue
set_up_on = refl

abbrev shell : Task
shell = record { pid = 4242; uid = 0; comm = [] }

setup_throttle-limits_example :
    is_let_through (stub always always 5 shell 39 7 set_up.loaded.driver).0
    ≡ ltb (dec32 set_up.loaded.driver.current_epoch_tokens) (2 ^ 31)
setup_throttle-limits_example =
    setup_throttle-limits machine machine-IsUsual [] [] closed set_up tt loaded-IsSound
      set_up_succeeds shell (inl refl) set_up.loaded.driver refl set_up_on 39 7
