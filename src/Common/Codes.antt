-- ===== src/Common/Codes.antt =====
-- The `int` that a kernel function returns: `none` is 0, an error is a negative errno or the
-- return code of the APM firmware.
use Prim.Native.Nat.{ℕ}
use mathlib.Core.Bool.{Bool, true, false}
use mathlib.Core.Option.{Option, none, some}

pub data Errno : Type 0 where
  einval enodev enomem ebusy etimedout eagain eio emsgsize eprobe_defer : Errno
  -- a positive return code of the firmware
  firmware : ℕ → Errno
  -- whatever error a callee outside the repository hands back
  other : ℕ → Errno

abbrev pub Ret : Type 0
Ret = Option Errno

abbrev pub is_ok : Ret → Bool
is_ok none = true
is_ok (some e) = false
