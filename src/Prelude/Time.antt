-- ===== src/Prelude/Time.antt =====
-- `datetime` and `timedelta`, in microseconds. A timestamp counts from a fixed origin in the past;
-- the upper end of Python's range (year 9999) is not modelled.
use Prim.Native.Nat.{ℕ, zero, suc, ◌+◌, ◌-◌, ◌<◌}
use mathlib.Core.Path.{◌≡◌}
use mathlib.Core.Bool.{Bool, true, false}
use native.Mathlib.Omega.{arith}
use pytitect.Prelude.Exec.{value_error, Result, ok, err}

-- A timezone-aware UTC timestamp, or any other (naive, or at another offset).
pub data Datetime : Type 0 where
  utc other : ℕ → Datetime

-- `_utc`: anything but aware UTC is refused. The instant is what the stores keep.
abbrev pub instant : Datetime → Result ℕ
instant (utc t) = ok t
instant (other t) = err value_error

-- A duration, which may be zero or negative: `negsuc n` is -(n + 1).
pub data Timedelta : Type 0 where
  pos negsuc : ℕ → Timedelta

-- `value <= timedelta(0)`
abbrev pub not_positive : Timedelta → Bool
not_positive (pos zero) = true
not_positive (pos (suc n)) = false
not_positive (negsuc n) = true

infixl 65 ◌+ₜ◌
abbrev pub ◌+ₜ◌ : ℕ → Timedelta → ℕ
t +ₜ pos n = t + n
t +ₜ negsuc n = t - suc n

-- A positive duration ends after its start.
pub lt-add_positive : (t : ℕ) (d : Timedelta) → not_positive d ≡ false → t < t +ₜ d
lt-add_positive t (pos zero) h = ground arith
lt-add_positive t (pos (suc n)) h = omega arith
lt-add_positive t (negsuc n) h = ground arith
