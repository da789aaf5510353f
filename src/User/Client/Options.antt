-- ===== src/User/Client/Options.antt =====
-- user/client.c, `main`: the command line of the load generator.
use syscall_throttling.Base.{
  ℕ, ◌≡◌, refl, Bool, true, false, Option, none, some, List, [], ◌∷◌, ◌++◌, ◌||◌, if◌then◌else◌,
}
use syscall_throttling.Base.Int.{ℤ, pos, is_negative, ltb_ℤ}
use syscall_throttling.Base.Text.{codes}
use syscall_throttling.Store.Keys.{compare_program}

pub record Options : Type 0 where
  pub threads : ℤ
  pub duration : ℤ
  pub kill_after : ℤ
  pub syscall_list : Option (List ℕ)
  pub program_list : Option (List ℕ)
  pub do_setup : Bool
  pub do_teardown : Bool

abbrev pub defaults : Options
defaults = record {
  threads = pos 16;
  duration = pos 5;
  kill_after = pos 0;
  syscall_list = none;
  program_list = none;
  do_setup = false;
  do_teardown = false;
}

-- What one argument says, with the arguments behind it: the options and whether the next argument
-- has been taken with it; `none` is the way to the usage.
module _ (atoi : List ℕ → ℤ) where
  unfoldable pub read_switch : Options → List ℕ → Option (Options × Bool)
  read_switch o arg =
      if compare_program arg (codes "--setup")
      then some (record o { do_setup = true }, false)
      else if compare_program arg (codes "--teardown")
      then some (record o { do_teardown = true }, false)
      else none

  unfoldable pub read_option : Options → List ℕ → List (List ℕ) → Option (Options × Bool)
  read_option o arg [] = read_switch o arg
  read_option o arg (value ∷ more) =
      if compare_program arg (codes "-t")
      then some (record o { threads = atoi value }, true)
      else if compare_program arg (codes "-d")
      then some (record o { duration = atoi value }, true)
      else if compare_program arg (codes "-k")
      then some (record o { kill_after = atoi value }, true)
      else if compare_program arg (codes "-s")
      then some (record o { syscall_list = some value }, true)
      else if compare_program arg (codes "-p")
      then some (record o { program_list = some value }, true)
      else read_switch o arg

  -- The loop over `argv`; the flag says that this argument has been taken with the one before.
  unfoldable pub read_options : Bool → Options → List (List ℕ) → Option Options
  read_options taken o [] = some o
  read_options true o (value ∷ args) = read_options false o args
  read_options false o (arg ∷ args) = elim (read_option o arg args) [
    | none ↦ none
    | some r ↦ read_options r.1 r.0 args
  ]

  abbrev pub is_nonpositive : ℤ → Bool
  is_nonpositive n = ltb_ℤ n (pos 1)

  -- The test behind the loop.
  unfoldable pub check_options : Option Options → Option Options
  check_options none = none
  check_options (some o) =
      if is_nonpositive o.threads || (is_nonpositive o.duration || is_negative o.kill_after)
      then none
      else some o

  -- From `argv[1]` on; `none` is the usage and EXIT_FAILURE.
  unfoldable pub options : List (List ℕ) → Option Options
  options [] = none
  options (arg ∷ args) = check_options (read_options false defaults (arg ∷ args))

-- What a user asks for, and how it is written on the command line.
pub data Setting : Type 0 where
  threads duration kill_after syscalls programs : List ℕ → Setting
  setup teardown : Setting

unfoldable pub print : Setting → List (List ℕ)
print (threads n) = codes "-t" ∷ n ∷ []
print (duration n) = codes "-d" ∷ n ∷ []
print (kill_after n) = codes "-k" ∷ n ∷ []
print (syscalls names) = codes "-s" ∷ names ∷ []
print (programs names) = codes "-p" ∷ names ∷ []
print setup = codes "--setup" ∷ []
print teardown = codes "--teardown" ∷ []

unfoldable pub print_all : List Setting → List (List ℕ)
print_all [] = []
print_all (s ∷ ss) = print s ++ print_all ss

module _ (atoi : List ℕ → ℤ) where
  unfoldable pub set : Options → Setting → Options
  set o (threads n) = record o { threads = atoi n }
  set o (duration n) = record o { duration = atoi n }
  set o (kill_after n) = record o { kill_after = atoi n }
  set o (syscalls names) = record o { syscall_list = some names }
  set o (programs names) = record o { program_list = some names }
  set o setup = record o { do_setup = true }
  set o teardown = record o { do_teardown = true }

  unfoldable pub set_all : Options → List Setting → Options
  set_all o [] = o
  set_all o (s ∷ ss) = set_all (set o s) ss

  -- A switch is read in the same way before other arguments and at the end.
  read_switch_last :
      (o : Options) (args : List (List ℕ))
      → (read_option atoi o (codes "--setup") args ≡ some (record o { do_setup = true }, false))
        × (read_option atoi o (codes "--teardown") args
            ≡ some (record o { do_teardown = true }, false))
  unfolding read_option read_switch compare_program
  read_switch_last o [] = (refl, refl)
  read_switch_last o (arg ∷ args) = (refl, refl)

  -- The command line is read as it was written: from the arguments of any settings the loop gets the
  -- options with these settings made, in order, so that the last one of a kind counts.
  pub read_options-print_all :
      (ss : List Setting) (o : Options)
      → read_options atoi false o (print_all ss) ≡ some (set_all o ss)
  unfolding read_options print_all print set_all set read_option compare_program
  read_options-print_all [] o = refl
  read_options-print_all (threads n ∷ ss) o = read_options-print_all ss (set o (threads n))
  read_options-print_all (duration n ∷ ss) o = read_options-print_all ss (set o (duration n))
  read_options-print_all (kill_after n ∷ ss) o = read_options-print_all ss (set o (kill_after n))
  read_options-print_all (syscalls names ∷ ss) o =
      read_options-print_all ss (set o (syscalls names))
  read_options-print_all (programs names ∷ ss) o =
      read_options-print_all ss (set o (programs names))
  read_options-print_all (setup ∷ ss) o =
      rw ((read_switch_last o (print_all ss)).0, read_options)
        (read_options-print_all ss (set o setup))
  read_options-print_all (teardown ∷ ss) o =
      rw ((read_switch_last o (print_all ss)).1, read_options)
        (read_options-print_all ss (set o teardown))
