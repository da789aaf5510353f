-- ===== src/User/Client/Tests.antt =====
-- The load generator on concrete inputs.
use syscall_throttling.Base.{ℕ, ◌≡◌, refl, Bool, true, false, some, List, [], ◌∷◌, map, arith}
use syscall_throttling.Base.Int.{ℤ, pos}
use syscall_throttling.Base.Lists.{length, take}
use syscall_throttling.Base.Text.{codes}
use syscall_throttling.Ioctl.Samples.{loaded-IsSound}
use syscall_throttling.User.Samples.{machine, machine-IsUsual, closed, getpid}
use syscall_throttling.User.Client.{setup_throttle}
use syscall_throttling.User.Client.Split.{split_list, join, split_list-join}
use syscall_throttling.User.Client.Options.{
  defaults, Setting, threads, syscalls, setup, read_options, print_all, set_all,
  read_options-print_all,
}
use syscall_throttling.User.Client.Setup.{Ends, IsSetUp, setup_throttle-Ends}

abbrev always : ℕ → Bool
always n = true

abbrev names : List (List ℕ)
names = codes "a" ∷ [] ∷ codes "bc" ∷ []

split_list-join_example :
    split_list always (some (join names)) 2 ≡ some (map (λ name. some name) (take 2 names))
split_list-join_example =
    split_list-join always (λ n. refl) names 2 ((refl, tt), (tt, ((refl, (refl, tt)), tt)))
      (λ e. cc)

abbrev atoi : List ℕ → ℤ
atoi text = pos (length text)

abbrev settings : List Setting
settings = threads (codes "77") ∷ setup ∷ syscalls (codes "a,b") ∷ threads (codes "8") ∷ []

read_options-print_all_example :
    read_options atoi false defaults (print_all settings) ≡ some (set_all atoi defaults settings)
read_options-print_all_example = read_options-print_all atoi settings defaults

abbrev programs : List (List ℕ)
programs = codes "st_load_gen1" ∷ codes "st_load_gen2" ∷ []

setup_throttle-Ends_example :
    Ends machine closed
      (IsSetUp machine programs (getpid ∷ []))
      (setup_throttle machine programs (getpid ∷ []) closed)
setup_throttle-Ends_example =
    setup_throttle-Ends machine machine-IsUsual programs (getpid ∷ []) closed
      ((omega arith, omega arith), ((omega arith, omega arith), tt)) loaded-IsSound
