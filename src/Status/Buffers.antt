-- ===== src/Status/Buffers.antt =====
-- The results of `sysThrot_read`, and its buffers.
use syscall_throttling.Base.{
  ℕ, zero, suc, ◌+◌, ◌-◌, ◌*◌, ◌≡◌, ◌≢◌, refl, ap, subst, ◌⊎◌, inl, inr, Bool, true, false, none,
  some, List, ◌==◌, ==_iff, if◌then◌else◌, if_cases, arith,
}
use syscall_throttling.Base.Code.{eperm, enomem}
use syscall_throttling.Base.Heap.{Heap, kmalloc, kfree, IsBalanced}
use syscall_throttling.Base.Lists.{take}
use syscall_throttling.Store.Listing.{max_store_programs}
use syscall_throttling.Ioctl.{Module}
use syscall_throttling.Status.{
  Reader, get_names, free_names, Result, with_names, with_programs, with_users, with_buffer,
  sys_throt_read,
}
use syscall_throttling.Status.Report.{report, fill-report}

module _ (c : Reader) (m : Module) where
  -- The text that is cut to the four pages of the buffer, less a byte.
  abbrev pub shown : List ℕ
  shown = take (c.page_size * 4 - 1) (report c m)

  -- A read by root ends with ENOMEM and no text, or with the text; every buffer has been freed.
  abbrev pub Reads : Heap → ℕ → Result c → Type 0
  Reads h buffers (code, text, h') =
      IsBalanced h buffers h' 0
      × (((code ≡ enomem) × (text ≡ none))
          ⊎ ((code ≡ c.simple_read_from_buffer shown) × (text ≡ some shown)))

  -- One allocation.
  abbrev Gets : Heap → Bool × Heap → Type 0
  Gets h (got, h') = IsBalanced h 0 h' (if got then 1 else 0)

  kmalloc-Gets : (h : Heap) → Gets h (kmalloc c.available h)
  unfolding kmalloc
  kmalloc-Gets h = if_cases (Gets h) (c.available h.requests) (λ _. omega arith) (λ _. omega arith)

  -- The same with `n` objects in hand.
  kmalloc_more :
      (h : Heap) (n : ℕ)
      → let (got, h1) = kmalloc c.available h in IsBalanced h n h1 (if got then suc n else n)
  unfolding kmalloc
  kmalloc_more h n =
      if_cases (λ (r : Bool × Heap). IsBalanced h n r.1 (if r.0 then suc n else n))
        (c.available h.requests) (λ _. omega arith) (λ _. omega arith)

  free_names-freed :
      (n : ℕ) (h : Heap)
      → ((free_names c n h).allocated ≡ h.allocated) × ((free_names c n h).freed ≡ h.freed + n)
  unfolding free_names kfree
  free_names-freed zero h = (refl, omega arith)
  free_names-freed (suc n) h = let (a, f) = free_names-freed n (kfree h) in (a, omega (arith, f))

  abbrev GetsNames : Heap → Bool × ℕ × Heap → Type 0
  GetsNames h (all, got, h') = IsBalanced h 0 h' got

  get_names-GetsNames : (n : ℕ) (h : Heap) → GetsNames h (get_names c n h)
  unfolding get_names
  get_names-GetsNames zero h = omega arith
  get_names-GetsNames (suc n) h =
      let (got, h1) = kmalloc c.available h in
      let rest = get_names-GetsNames n h1 in
      let gets : (b : Bool) → got ≡ b → IsBalanced h 0 h1 (if b then 1 else 0) =
        λ b e. subst (λ x. IsBalanced h 0 h1 (if x then 1 else 0)) e (kmalloc-Gets h) in
      if_cases (GetsNames h) got (λ e. omega (arith, rest, gets true e)) (λ e. gets false e)

  with_names-Reads : (h : Heap) (r : Bool × ℕ × Heap) → GetsNames h r → Reads h 3 (with_names c m r)
  unfolding with_names kfree
  with_names-Reads h (all, got, h1) b =
      let (a, f) = free_names-freed got h1 in
      if_cases (Reads h 3) all
        (λ _. (
          omega (arith, a, f),
          inr (
            ap c.simple_read_from_buffer (fill-report c _ m),
            ap (λ t. some t) (fill-report c _ m),
          ),
        ))
        (λ _. (omega (arith, a, f), inl (refl, refl)))

  with_programs-Reads :
      (h : Heap) (r : Bool × Heap)
      → IsBalanced h 2 r.1 (if r.0 then 3 else 2)
      → Reads h 2 (with_programs c m r)
  unfolding with_programs kfree
  with_programs-Reads h (false, h1) b = (omega (arith, b), inl (refl, refl))
  with_programs-Reads h (true, h1) b =
      let (freed, ends) =
        with_names-Reads h1 (get_names c max_store_programs h1)
          (get_names-GetsNames max_store_programs h1) in
      (omega (arith, b, freed), ends)

  with_users-Reads :
      (h : Heap) (r : Bool × Heap)
      → IsBalanced h 1 r.1 (if r.0 then 2 else 1)
      → Reads h 1 (with_users c m r)
  unfolding with_users kfree
  with_users-Reads h (false, h1) b = (omega (arith, b), inl (refl, refl))
  with_users-Reads h (true, h1) b =
      let (freed, ends) = with_programs-Reads h1 (kmalloc c.available h1) (kmalloc_more h1 2) in
      (omega (arith, b, freed), ends)

  with_buffer-Reads :
      (h : Heap) (r : Bool × Heap)
      → IsBalanced h 0 r.1 (if r.0 then 1 else 0)
      → Reads h 0 (with_buffer c m r)
  unfolding with_buffer
  with_buffer-Reads h (false, h1) b = (b, inl (refl, refl))
  with_buffer-Reads h (true, h1) b =
      let (freed, ends) = with_users-Reads h1 (kmalloc c.available h1) (kmalloc_more h1 1) in
      (omega (arith, b, freed), ends)

  -- `sysThrot_read` by anyone but root returns EPERM. By root it returns ENOMEM, or what
  -- `simple_read_from_buffer` returns for the text: the report of the state, whether the throttling
  -- is on, the limit, the users, the programs and the marked system calls, cut where the four pages
  -- of the buffer end less one byte. In every case every buffer that it got has been freed.
  pub sys_throt_read-Outcome :
      (uid : ℕ)
      → let (code, text, h) = sys_throt_read c uid m in
        IsBalanced m.heap 0 h 0
        × (((uid ≢ 0) × (code ≡ eperm) × (text ≡ none))
            ⊎ ((uid ≡ 0) × (code ≡ enomem) × (text ≡ none))
            ⊎ ((uid ≡ 0) × (code ≡ c.simple_read_from_buffer shown) × (text ≡ some shown)))
  unfolding sys_throt_read
  sys_throt_read-Outcome uid =
      if_cases
        (λ (r : Result c).
          let (code, text, h) = r in
          IsBalanced m.heap 0 h 0
          × (((uid ≢ 0) × (code ≡ eperm) × (text ≡ none))
              ⊎ ((uid ≡ 0) × (code ≡ enomem) × (text ≡ none))
              ⊎ ((uid ≡ 0) × (code ≡ c.simple_read_from_buffer shown) × (text ≡ some shown))))
        (uid == 0)
        (λ root.
          let e : uid ≡ 0 = (==_iff uid 0).0 root in
          let (freed, ends) =
            with_buffer-Reads m.heap (kmalloc c.available m.heap) (kmalloc-Gets m.heap) in
          (
            freed,
            elim ends [
              | inl (code, text) ↦ inr (inl (e, code, text))
              | inr (code, text) ↦ inr (inr (e, code, text))
            ],
          ))
        (λ other. (omega arith, inl (λ e. absurd (ground (arith, other, e)), refl, refl)))
