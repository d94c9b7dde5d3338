-- ===== src/Base/Integers.antt =====
-- Go's signed integers: `negsuc n` is -(n + 1).
use Prim.Native.Nat.{ℕ, ◌%◌, ◌^◌, ◌-◌}
use macos_exec_kubelet.Base.Tests.{ltb, if◌then◌else◌}

pub data ℤ : Type 0 where
  pos : ℕ → ℤ
  negsuc : ℕ → ℤ

abbrev pub minus_one : ℤ
minus_one = negsuc 0

-- The two's complement pattern of w bits that stands for a number, and back.
abbrev pub from_word : ℕ → ℕ → ℤ
from_word w n = if ltb n (2 ^ (w - 1)) then pos n else negsuc (2 ^ w - 1 - n)

abbrev pub to_word : ℕ → ℤ → ℕ
to_word w (pos n) = n % 2 ^ w
to_word w (negsuc n) = 2 ^ w - 1 - n % 2 ^ w

-- int32(x)
unfoldable pub int32 : ℤ → ℤ
int32 z = from_word 32 (to_word 32 z)

-- int64(x) of a number that is not negative
abbrev pub int64 : ℕ → ℤ
int64 n = from_word 64 (n % 2 ^ 64)
