-- ===== src/Device/Setup.antt =====
-- sysThrot.c: setting the character device up and taking it down. What the kernel holds for the
-- module is one flag for each of the four things; `misused` is set by giving back something that is
-- not held, or something that another thing still stands on.
use syscall_throttling.Base.{
  ◌≡◌, refl, ◌⊎◌, inl, inr, Bool, true, false, not, ◌||◌, Option, none, some, if◌then◌else◌,
  if_cases,
}
use syscall_throttling.Base.Int.{ℤ, is_negative}
use syscall_throttling.Base.Code.{success, failure}

pub record Resources : Type 0 where
  pub region : Bool
  pub cdev : Bool
  pub device_class : Bool
  pub device : Bool
  pub misused : Bool

abbrev pub unregister_chrdev_region : Resources → Resources
unregister_chrdev_region r = record r {
  region = false;
  misused = r.misused || not r.region || r.cdev;
}

abbrev pub cdev_del : Resources → Resources
cdev_del r = record r { cdev = false; misused = r.misused || not r.cdev }

abbrev pub class_destroy : Resources → Resources
class_destroy r = record r {
  device_class = false;
  misused = r.misused || not r.device_class || r.device;
}

abbrev pub device_destroy : Resources → Resources
device_destroy r = record r { device = false; misused = r.misused || not r.device }

-- `allocated` and `added` are what `alloc_chrdev_region` and `cdev_add` return; `class_error` is
-- `PTR_ERR` of the class when that is an error, and `created` says whether `device_create` gave a
-- device.
unfoldable pub device_driver_init : ℤ → ℤ → Option ℤ → Bool → Resources → ℤ × Resources
device_driver_init allocated added none created r =
    let r1 = record r { region = true } in
    let r2 = record r1 { cdev = true } in
    let r3 = record r2 { device_class = true } in
    if is_negative allocated
    then (allocated, r)
    else if is_negative added
    then (added, unregister_chrdev_region r1)
    else if created
    then (success, record r3 { device = true })
    else (failure, unregister_chrdev_region (cdev_del (class_destroy r3)))
device_driver_init allocated added (some class_error) created r =
    let r1 = record r { region = true } in
    let r2 = record r1 { cdev = true } in
    if is_negative allocated
    then (allocated, r)
    else if is_negative added
    then (added, unregister_chrdev_region r1)
    else (class_error, unregister_chrdev_region (cdev_del r2))

unfoldable pub device_driver_cleanup : Resources → ℤ × Resources
device_driver_cleanup r =
    (success, unregister_chrdev_region (class_destroy (device_destroy (cdev_del r))))

abbrev pub nothing_held : Resources
nothing_held = record {
  region = false;
  cdev = false;
  device_class = false;
  device = false;
  misused = false;
}

abbrev pub all_held : Resources
all_held = record {
  region = true;
  cdev = true;
  device_class = true;
  device = true;
  misused = false;
}

-- An error and nothing held, or success and everything held, which the clean-up gives back.
abbrev pub IsAllOrNothing : ℤ × Resources → Type 0
IsAllOrNothing (code, r) =
    ((is_negative code ≡ true) × (r ≡ nothing_held))
    ⊎ ((code ≡ success) × (r ≡ all_held) × ((device_driver_cleanup r).1 ≡ nothing_held))

-- The error that `PTR_ERR` gives is negative.
abbrev pub IsError : Option ℤ → Type 0
IsError none = Unit {0}
IsError (some code) = is_negative code ≡ true

-- Whatever step of `device_driver_init` fails, it returns an error and has given back everything that
-- it got, each thing once and in an order in which nothing stands on it any more; when none fails it
-- returns 0, everything is held, and `device_driver_cleanup` gives everything back in the same way.
-- The error of a class is negative.
pub device_driver_init-IsAllOrNothing :
    (allocated added : ℤ) (class_error : Option ℤ) (created : Bool)
    → IsError class_error
    → IsAllOrNothing (device_driver_init allocated added class_error created nothing_held)
unfolding device_driver_init device_driver_cleanup
device_driver_init-IsAllOrNothing allocated added none created h =
    if_cases IsAllOrNothing (is_negative allocated) (λ e. inl (e, refl))
      (λ _.
        if_cases IsAllOrNothing (is_negative added) (λ e. inl (e, refl))
          (λ _.
            if_cases IsAllOrNothing created (λ _. inr (refl, refl, refl)) (λ _. inl (refl, refl))))
device_driver_init-IsAllOrNothing allocated added (some class_error) created h =
    if_cases IsAllOrNothing (is_negative allocated) (λ e. inl (e, refl))
      (λ _. if_cases IsAllOrNothing (is_negative added) (λ e. inl (e, refl)) (λ _. inl (h, refl)))
