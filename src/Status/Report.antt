-- ===== src/Status/Report.antt =====
-- The text of `sysThrot_read` against the whole report.
use syscall_throttling.Base.{
  ℕ, zero, suc, ◌-◌, ◌≡◌, refl, ap, sym, ◌∙◌, Bool, Option, none, some, List, [], ◌∷◌, ◌++◌, map,
  if◌then◌else◌, Bool-cases, inl, inr, arith,
}
use syscall_throttling.Base.Lists.{length, take}
use syscall_throttling.Base.Text.{codes}
use syscall_throttling.Store.{get_all_users_from_store, get_all_programs_from_store}
use syscall_throttling.Ioctl.{Module}
use syscall_throttling.Status.{
  Reader, newline, scnprintf, print_lines, print_syscalls, user_line, program_line, fill,
}

-- The lines one behind the other.
unfoldable pub concat : List (List ℕ) → List ℕ
concat [] = []
concat (line ∷ lines) = line ++ concat lines

module _ (c : Reader) where
  -- The marked calls that have a name, from the number `i` on.
  unfoldable pub syscall_lines : (ℕ → Bool) → ℕ → List (Option (List ℕ)) → List (List ℕ)
  syscall_lines bits i [] = []
  syscall_lines bits i (none ∷ symbols) = syscall_lines bits (suc i) symbols
  syscall_lines bits i (some symbol ∷ symbols) =
      let rest = syscall_lines bits (suc i) symbols in
      if bits i
      then (codes "  [" ++ c.decimal i ++ codes "] " ++ symbol ++ newline) ∷ rest
      else rest

  -- The lines of the report.
  unfoldable pub report_lines : Module → List (List ℕ)
  report_lines m =
      let users = get_all_users_from_store m.driver.store in
      let programs = get_all_programs_from_store m.driver.store in
      let on = if m.driver.working then codes "ON" else codes "OFF" in
      ((codes "Throttling is " ++ on ++ newline)
        ∷ (codes "Max syscalls per epoch: " ++ c.decimal m.driver.max_syscalls_for_epoch ++ newline)
        ∷ (codes "=== Registered Users (" ++ c.decimal (length users) ++ codes ") ===" ++ newline)
        ∷ (map (user_line c) users
            ++ ((newline
                  ++ codes "=== Registered Programs ("
                  ++ c.decimal (length programs)
                  ++ codes ") ==="
                  ++ newline)
                ∷ (map (program_line c) programs
                    ++ ((newline ++ codes "=== Monitored Syscalls ===" ++ newline)
                        ∷ syscall_lines m.probes.syscall_presence_bitmap 0 c.syscall_symbols)))))

  -- The report, however long.
  unfoldable pub report : Module → List ℕ
  report m = concat (report_lines m)

append_assoc : (x y z : List ℕ) → (x ++ y) ++ z ≡ x ++ (y ++ z)
append_assoc [] y z = refl
append_assoc (a ∷ x) y z = ap (λ t. a ∷ t) (append_assoc x y z)

append_nil : (x : List ℕ) → x ++ [] ≡ x
append_nil [] = refl
append_nil (a ∷ x) = ap (λ t. a ∷ t) (append_nil x)

take_nil : (n : ℕ) → take {A = ℕ} n [] ≡ []
take_nil zero = refl
take_nil (suc n) = refl

take-append : (n : ℕ) (x y : List ℕ) → take n x ++ take (n - length (take n x)) y ≡ take n (x ++ y)
take-append zero x y = refl
take-append (suc n) [] y = let e : suc n - 0 ≡ suc n = omega arith in ap (λ m. take m y) e
take-append (suc n) (a ∷ x) y =
    let e : suc n - suc (length (take n x)) ≡ n - length (take n x) = omega arith in
    ap (λ t. a ∷ t) (ap (λ m. take n x ++ take m y) e ∙ take-append n x y)

-- A text that was cut, and goes on.
scnprintf-take :
    (size : ℕ) (x y : List ℕ) → scnprintf size (take (size - 1) x) y ≡ take (size - 1) (x ++ y)
unfolding scnprintf
scnprintf-take size x y =
    let cut : List ℕ = take (size - 1) x in
    let e : size - length cut - 1 ≡ size - 1 - length cut = omega arith in
    ap (λ n. cut ++ take n y) e ∙ take-append (size - 1) x y

print_lines-take :
    (size : ℕ) (x : List ℕ) (lines : List (List ℕ))
    → print_lines size (take (size - 1) x) lines ≡ take (size - 1) (x ++ concat lines)
unfolding print_lines concat
print_lines-take size x [] = ap (take (size - 1)) (sym (append_nil x))
print_lines-take size x (line ∷ lines) =
    ap (λ b. print_lines size b lines) (scnprintf-take size x line)
    ∙ print_lines-take size (x ++ line) lines
    ∙ ap (take (size - 1)) (append_assoc x line (concat lines))

module _ (c : Reader) where
  -- The loop over the system calls is a loop over the lines.
  print_syscalls-lines :
      (size : ℕ) (bits : ℕ → Bool) (i : ℕ) (symbols : List (Option (List ℕ))) (buf : List ℕ)
      → print_syscalls c size bits i symbols buf
        ≡ print_lines size buf (syscall_lines c bits i symbols)
  unfolding print_syscalls print_lines syscall_lines
  print_syscalls-lines size bits i [] buf = refl
  print_syscalls-lines size bits i (none ∷ symbols) buf =
      print_syscalls-lines size bits (suc i) symbols buf
  print_syscalls-lines size bits i (some symbol ∷ symbols) buf = elim (Bool-cases (bits i)) [
    | inl marked ↦ rw marked (print_syscalls-lines size bits (suc i) symbols _)
    | inr clear ↦ rw clear (print_syscalls-lines size bits (suc i) symbols buf)
  ]

  print_lines-append :
      (size : ℕ) (buf : List ℕ) (xs ys : List (List ℕ))
      → print_lines size (print_lines size buf xs) ys ≡ print_lines size buf (xs ++ ys)
  unfolding print_lines
  print_lines-append size buf [] ys = refl
  print_lines-append size buf (x ∷ xs) ys = print_lines-append size (scnprintf size buf x) xs ys

  -- Single lines and loops, one after the other.
  lay_out :
      (size : ℕ) (a b d e g : List ℕ) (us ps ss : List (List ℕ))
      → let buf = scnprintf size (scnprintf size (scnprintf size [] a) b) d in
        print_lines size
          (scnprintf size (print_lines size (scnprintf size (print_lines size buf us) e) ps) g)
          ss
        ≡ print_lines size [] (a ∷ b ∷ d ∷ (us ++ (e ∷ (ps ++ (g ∷ ss)))))
  unfolding print_lines
  lay_out size a b d e g us ps ss =
      let buf = scnprintf size (scnprintf size (scnprintf size [] a) b) d in
      print_lines-append size (scnprintf size (print_lines size buf us) e) ps (g ∷ ss)
      ∙ print_lines-append size buf us (e ∷ (ps ++ (g ∷ ss)))

  -- The buffer has the whole report, cut where one byte is left for the terminating zero.
  pub fill-report : (size : ℕ) (m : Module) → fill c size m ≡ take (size - 1) (report c m)
  unfolding fill report report_lines
  fill-report size m =
      print_syscalls-lines size m.probes.syscall_presence_bitmap 0 c.syscall_symbols _
      ∙ lay_out size _ _ _ _ _ (map (user_line c) (get_all_users_from_store m.driver.store))
          (map (program_line c) (get_all_programs_from_store m.driver.store))
          (syscall_lines c m.probes.syscall_presence_bitmap 0 c.syscall_symbols)
      ∙ ap (λ b. print_lines size b (report_lines c m)) (sym (take_nil (size - 1)))
      ∙ print_lines-take size [] (report_lines c m)
