-- ===== src/Monitor/Iteration.antt =====
-- The iteration over `/proc/SYSTHROT`, by a reader that starts at 0 and goes on with `my_seq_next`.
use syscall_throttling.Base.{
  ℕ, zero, suc, ◌+◌, ◌<◌, ◌≡◌, refl, ap, sym, ◌∙◌, Option, none, some, List, [], ◌∷◌, ◌++◌, map,
  arith,
}
use syscall_throttling.Base.Lists.{length, length-append}
use mathlib.Core.List.{append_assoc}
use syscall_throttling.Monitor.{SyscallEntry, Monitor}
use syscall_throttling.Monitor.Report.{
  Row, show_entry, Cursor, at_entry, at_end, seek, seq_start, seq_next, seq_show,
}

-- A reader that shows what the cursor stands on and goes on with `my_seq_next`, until that gives
-- `NULL` or `n` rounds are over.
unfoldable pub read_from : ℕ → Monitor → ℕ → Option Cursor → List Row
read_from zero m position c = []
read_from (suc n) m position none = []
read_from (suc n) m position (some c) =
    let (position', c') = seq_next m c position in seq_show m c ++ read_from n m position' c'

abbrev cursor_of : List SyscallEntry → Cursor
cursor_of [] = at_end
cursor_of (e ∷ es) = at_entry e

-- The place behind `passed` is that of the first entry of `rest`.
seek-append :
    (passed rest : List SyscallEntry) (i position : ℕ)
    → position ≡ i + length passed
    → seek (passed ++ rest) i position ≡ some (cursor_of rest)
unfolding seek
seek-append [] [] i position h = ground arith
seek-append [] (e ∷ es) i position h = ground arith
seek-append (x ∷ xs) rest i position h =
    ground (arith, seek-append xs rest (i + 1) position (omega arith))

read-none : (n : ℕ) (m : Monitor) (position : ℕ) → read_from n m position none ≡ []
unfolding read_from
read-none zero m position = refl
read-none (suc n) m position = refl

read-rest :
    (rest passed : List SyscallEntry) (m : Monitor) (n position : ℕ)
    → m.syscall_list ≡ passed ++ rest
    → position ≡ length passed
    → length rest < n
    → read_from n m position (some (cursor_of rest)) ≡ map (show_entry m) rest
unfolding read_from seq_next seq_show
read-rest rest passed m zero position l h few = absurd (omega arith)
read-rest [] passed m (suc n) position l h few = read-none n m (position + 1)
read-rest (e ∷ es) passed m (suc n) position l h few =
    let split : m.syscall_list ≡ (passed ++ e ∷ []) ++ es =
      l ∙ sym (append_assoc passed (e ∷ []) es) in
    let place : position + 1 ≡ length (passed ++ e ∷ []) =
      omega (arith, h, length-append passed (e ∷ [])) in
    ap (show_entry m e ∷◌) (
      ap (λ c. read_from n m (position + 1) c)
        (ap (λ es'. seek es' 0 (position + 1)) split
          ∙ seek-append (passed ++ e ∷ []) es 0 (position + 1) (omega (arith, place)))
      ∙ read-rest es (passed ++ e ∷ []) m n (position + 1) split place (omega arith))

-- A read from the start shows the row of each entry once, in the order of the list, and ends: more
-- rounds of the loop than there are entries are enough, and any further ones show nothing more.
pub read_from-all :
    (m : Monitor) (n : ℕ)
    → length m.syscall_list < n
    → read_from n m 0 (seq_start m 0) ≡ map (show_entry m) m.syscall_list
unfolding seq_start
read_from-all m n enough =
    ap (read_from n m 0) (seek-append [] m.syscall_list 0 0 refl)
    ∙ read-rest m.syscall_list [] m n 0 refl refl enough
