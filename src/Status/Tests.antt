-- ===== src/Status/Tests.antt =====
-- Reading the device on concrete inputs.
use syscall_throttling.Base.{ℕ, ◌+◌, ◌≡◌, ◌≢◌, refl, ◌⊎◌, none, some, [], ◌∷◌}
use syscall_throttling.Base.Int.{pos}
use syscall_throttling.Base.Code.{eperm, enomem}
use syscall_throttling.Base.Heap.{IsBalanced}
use syscall_throttling.Base.Lists.{length}
use syscall_throttling.Base.Text.{codes}
use syscall_throttling.Ioctl.Samples.{always, loaded}
use syscall_throttling.Status.{Reader, sys_throt_read, scnprintf}
use syscall_throttling.Status.Buffers.{shown, sys_throt_read-Outcome}

abbrev reader : Reader
reader = record {
  available = always;
  page_size = 4096;
  decimal = λ n. (48 + n) ∷ [];
  simple_read_from_buffer = λ text. pos (length text);
  syscall_symbols = some (codes "__x64_sys_read") ∷ [];
}

abbrev root : ℕ
root = 0

sys_throt_read-Outcome_example :
    IsBalanced loaded.heap 0 (sys_throt_read reader root loaded).2 0
    × (((root ≢ 0)
          × ((sys_throt_read reader root loaded).0 ≡ eperm)
          × ((sys_throt_read reader root loaded).1 ≡ none))
        ⊎ ((root ≡ 0)
            × ((sys_throt_read reader root loaded).0 ≡ enomem)
            × ((sys_throt_read reader root loaded).1 ≡ none))
        ⊎ ((root ≡ 0)
            × ((sys_throt_read reader root loaded).0 ≡ pos (length (shown reader loaded)))
            × ((sys_throt_read reader root loaded).1 ≡ some (shown reader loaded))))
sys_throt_read-Outcome_example = sys_throt_read-Outcome reader loaded root

-- The buffer keeps a byte for the terminating zero.
cut_text : scnprintf 4 (codes "a") (codes "bcde") ≡ codes "abc"
unfolding scnprintf
cut_text = refl
