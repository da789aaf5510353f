-- ===== src/Base/Code.antt =====
-- The status codes of the kernel: 0 for success, a negated error number for a failure.
-- The numbers are those of the kernel's asm-generic/errno-base.h and errno.h.
use syscall_throttling.Base.Int.{ℤ, pos, negsuc}

abbrev pub success : ℤ
success = pos 0

-- -1, which the source returns where it names no error.
abbrev pub failure : ℤ
failure = negsuc 0

abbrev pub eperm : ℤ
eperm = negsuc 0

abbrev pub enoent : ℤ
enoent = negsuc 1

abbrev pub eagain : ℤ
eagain = negsuc 10

abbrev pub enomem : ℤ
enomem = negsuc 11

abbrev pub efault : ℤ
efault = negsuc 13

abbrev pub ebusy : ℤ
ebusy = negsuc 15

abbrev pub eexist : ℤ
eexist = negsuc 16

abbrev pub einval : ℤ
einval = negsuc 21

abbrev pub enospc : ℤ
enospc = negsuc 27

abbrev pub ealready : ℤ
ealready = negsuc 113
