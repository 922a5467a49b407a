-- ===== src/Rc.antt =====
-- The `int` return codes of the C code: 0, or a negated `errno` value. The codes that the
-- repository names are constructors; any other code stands under `other`.
use n_rf52840_power_meter.Prelude.{ℕ, Bool, true, false}

pub data Errno : Type 0 where
  enoent eio enodev einval ealready : Errno
  other : ℕ → Errno

pub data Rc : Type 0 where
  success : Rc
  fail : Errno → Rc

abbrev pub is_enoent : Errno → Bool
is_enoent enoent = true
is_enoent _ = false

abbrev pub is_ealready : Errno → Bool
is_ealready ealready = true
is_ealready _ = false

abbrev pub is_success : Rc → Bool
is_success success = true
is_success (fail e) = false
