-- ===== src/Prelude/Errors.antt =====
-- Results of the kernel's functions: a value, or the error that the source returns as `-E…`.
use mathlib.Core.Path.{◌≡◌, refl}
use mathlib.Core.Logic.{◌⊎◌, inl, inr}

-- errno.h: the codes that the modelled functions return.
pub data Errno : Type 0 where
  enoent eio e2big enoexec ebadf echild enomem efault eexist enotdir eisdir einval emfile enospc
        erange :
      Errno
  enametoolong enosys enotempty eloop : Errno

pub data Result {ℓ} (A : Type ℓ) : Type ℓ where
  ok : A → Result A
  err : Errno → Result A

pub Result-cases {ℓ} :
    {A : Type ℓ} (r : Result A) → ((a : A) × (r ≡ ok a)) ⊎ ((e : Errno) × (r ≡ err e))
Result-cases (ok a) = inl (a, refl)
Result-cases (err e) = inr (e, refl)
