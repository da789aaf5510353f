-- ===== src/Status.antt =====
-- sysThrot.c, `sysThrot_read`: the text that reading the device gives.
pub mod Report
pub mod Buffers
mod Tests
use syscall_throttling.Base.{
  ℕ, zero, suc, ◌-◌, ◌*◌, ◌==◌, Bool, true, false, Option, none, some, List, [], ◌∷◌, ◌++◌, map,
  if◌then◌else◌,
}
use syscall_throttling.Base.Int.{ℤ}
use syscall_throttling.Base.Code.{eperm, enomem}
use syscall_throttling.Base.Heap.{Heap, kmalloc, kfree}
use syscall_throttling.Base.Lists.{length, take}
use syscall_throttling.Base.Text.{codes}
use syscall_throttling.Store.{get_all_users_from_store, get_all_programs_from_store}
use syscall_throttling.Store.Listing.{max_store_programs}
use syscall_throttling.Ioctl.{Module}

-- What the kernel and the build give: which allocations succeed, PAGE_SIZE, how `%d` prints a 32-bit
-- pattern, what `simple_read_from_buffer` returns for a text, and the names of the system calls.
pub record Reader : Type 0 where
  pub available : ℕ → Bool
  pub page_size : ℕ
  pub decimal : ℕ → List ℕ
  pub simple_read_from_buffer : List ℕ → ℤ
  pub syscall_symbols : List (Option (List ℕ))

abbrev pub newline : List ℕ
newline = 10 ∷ []

-- `len += scnprintf(buf + len, size - len, ...)` for a text: `buf` is the text up to `len`, and one
-- byte is kept for the terminating zero.
unfoldable pub scnprintf : ℕ → List ℕ → List ℕ → List ℕ
scnprintf size buf text = buf ++ take (size - length buf - 1) text

-- The same in a loop over lines.
unfoldable pub print_lines : ℕ → List ℕ → List (List ℕ) → List ℕ
print_lines size buf [] = buf
print_lines size buf (line ∷ lines) = print_lines size (scnprintf size buf line) lines

module _ (c : Reader) where
  abbrev pub user_line : ℕ → List ℕ
  user_line user = codes "  UID: " ++ c.decimal user ++ newline

  abbrev pub program_line : List ℕ → List ℕ
  program_line program = codes "  " ++ program ++ newline

  -- The loop over the system calls, from the number `i`.
  unfoldable pub print_syscalls : ℕ → (ℕ → Bool) → ℕ → List (Option (List ℕ)) → List ℕ → List ℕ
  print_syscalls size bits i [] buf = buf
  print_syscalls size bits i (none ∷ symbols) buf = print_syscalls size bits (suc i) symbols buf
  print_syscalls size bits i (some symbol ∷ symbols) buf =
      let line = codes "  [" ++ c.decimal i ++ codes "] " ++ symbol ++ newline in
      print_syscalls size bits (suc i) symbols (if bits i then scnprintf size buf line else buf)

  -- The text in `buf`, up to `len`. The line "=== Syscall Throttling Module Status ===" is written at
  -- the start of `buf` and not added to `len`, so the first line here is written over it.
  unfoldable pub fill : ℕ → Module → List ℕ
  fill size m =
      let users = get_all_users_from_store m.driver.store in
      let programs = get_all_programs_from_store m.driver.store in
      let on = if m.driver.working then codes "ON" else codes "OFF" in
      let limit = c.decimal m.driver.max_syscalls_for_epoch in
      let buf1 = scnprintf size [] (codes "Throttling is " ++ on ++ newline) in
      let buf2 = scnprintf size buf1 (codes "Max syscalls per epoch: " ++ limit ++ newline) in
      let buf3 =
        scnprintf size buf2 (
          codes "=== Registered Users (" ++ c.decimal (length users) ++ codes ") ===" ++ newline) in
      let buf4 = print_lines size buf3 (map user_line users) in
      let buf5 = scnprintf size buf4 (
        newline
        ++ codes "=== Registered Programs ("
        ++ c.decimal (length programs)
        ++ codes ") ==="
        ++ newline) in
      let buf6 = print_lines size buf5 (map program_line programs) in
      let buf7 = scnprintf size buf6 (newline ++ codes "=== Monitored Syscalls ===" ++ newline) in
      print_syscalls size m.probes.syscall_presence_bitmap 0 c.syscall_symbols buf7

  -- `n` buffers for names: whether all were got, how many, and the heap.
  unfoldable pub get_names : ℕ → Heap → Bool × ℕ × Heap
  get_names zero h = (true, 0, h)
  get_names (suc n) h =
      let (got, h1) = kmalloc c.available h in
      let (all, some_got, h2) = get_names n h1 in
      if got then (all, suc some_got, h2) else (false, 0, h1)

  unfoldable pub free_names : ℕ → Heap → Heap
  free_names zero h = h
  free_names (suc n) h = free_names n (kfree h)

  -- From `out:` on: the status, the text handed to `simple_read_from_buffer` if it came to that, and
  -- the heap. A `NULL` is not freed.
  abbrev pub Result : Type 0
  Result = ℤ × Option (List ℕ) × Heap

  unfoldable pub with_names : Module → Bool × ℕ × Heap → Result
  with_names m (all, got, h) =
      let text = fill (c.page_size * 4) m in
      let freed = kfree (kfree (kfree (free_names got h))) in
      if all then (c.simple_read_from_buffer text, some text, freed) else (enomem, none, freed)

  unfoldable pub with_programs : Module → Bool × Heap → Result
  with_programs m (got, h) =
      let named = with_names m (get_names max_store_programs h) in
      if got then named else (enomem, none, kfree (kfree h))

  unfoldable pub with_users : Module → Bool × Heap → Result
  with_users m (got, h) =
      let listed = with_programs m (kmalloc c.available h) in
      if got then listed else (enomem, none, kfree h)

  unfoldable pub with_buffer : Module → Bool × Heap → Result
  with_buffer m (got, h) =
      let read = with_users m (kmalloc c.available h) in if got then read else (enomem, none, h)

  -- `sysThrot_read` for a caller with the user id `uid`.
  unfoldable pub sys_throt_read : ℕ → Module → Result
  sys_throt_read uid m =
      let read = with_buffer m (kmalloc c.available m.heap) in
      if uid == 0 then read else (eperm, none, m.heap)
