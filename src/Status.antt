-- ===== src/Status.antt =====
-- The error codes of include/rorthox/status.h. A function that returns 0 or a value, and the
-- negated code on failure, returns a `Result`.
use rorth_ox.Prelude.{ℕ}

pub data Errno : Type 0 where
  eio einvarg enomem ebadpath efsnotus erdonly eunimp eistkn einformat : Errno
  enoent ebadf enospc emfile efbig : Errno

pub data Result {ℓ} (A : Type ℓ) : Type ℓ where
  ok : A → Result A
  err : Errno → Result A

-- The number behind the code; the C function returns its negation.
pub code : Errno → ℕ
code Errno.eio = 1
code Errno.einvarg = 2
code Errno.enomem = 3
code Errno.ebadpath = 4
code Errno.efsnotus = 5
code Errno.erdonly = 6
code Errno.eunimp = 7
code Errno.eistkn = 8
code Errno.einformat = 9
code Errno.enoent = 10
code Errno.ebadf = 11
code Errno.enospc = 12
code Errno.emfile = 13
code Errno.efbig = 14
