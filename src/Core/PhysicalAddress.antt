-- ===== src/Core/PhysicalAddress.antt =====
-- `PhysicalAddress` (linux-cec/src/lib.rs).
use linux_cec.Prelude.{ℕ, ◌<◌, Bool, ◌==◌}
use mathlib.Core.Bool.{not}

-- A `u16`.
pub record PhysicalAddress : Type 0 where
  pub value : ℕ

abbrev pub IsU16 : ℕ → Type 0
IsU16 v = v < 65536

abbrev pub root : PhysicalAddress
root = record { value = 0x0000 }

abbrev pub invalid : PhysicalAddress
invalid = record { value = 0xffff }

unfoldable pub is_valid : PhysicalAddress → Bool
is_valid address = not (address.value == 0xffff)

unfoldable pub is_root : PhysicalAddress → Bool
is_root address = address.value == 0x0000
