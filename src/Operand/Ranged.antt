-- ===== src/Operand/Ranged.antt =====
-- Operands of one byte whose values are checked: `Delay`, `AudioVolumeLevel`, `BcdByte`
-- (linux-cec/src/operand.rs).
use linux_cec.Prelude.{
  ℕ, ◌+◌, ◌*◌, ◌/◌, ◌%◌, ◌^◌, ◌≤◌, ◌≡◌, ◌≢◌, ◌⊎◌, ◌↔◌, arith, bit_and, Bool, true, false, ◌==◌,
  if◌then◌else◌,
}
use linux_cec.Prelude.Bits.{and_mask}
use linux_cec.Core.Range.{interval, admits}
use linux_cec.Core.Error.{Result, ok, ◌>>◌, check}
use linux_cec.Operand.Encodable.{OperandEncodable, Prefixed}
use linux_cec.Operand.OneByte.{one_byte, one_byte-Prefixed}

abbrev is_ok {ℓ} : {A : Type ℓ} → Result A → Bool
is_ok (ok a) = true
is_ok _ = false

pub record Delay : Type 0 where
  pub value : ℕ

abbrev pub delay_into : Delay → ℕ
delay_into d = d.value

-- `TryFrom<u8> for Delay`, between `MIN` and `MAX`.
unfoldable pub delay_try_from : ℕ → Result Delay
unfolding check admits
delay_try_from val = do check (interval 1 251) val "value"; ok (record { value = val })

unfoldable pub delay_is_valid : Delay → Bool
unfolding check admits
delay_is_valid d = is_ok (check (interval 1 251) d.value "value")

abbrev pub delay : OperandEncodable Delay
delay = one_byte delay_into delay_try_from

abbrev pub IsDelay : Delay → Type 0
IsDelay d = (1 ≤ d.value) × (d.value ≤ 251)

-- A delay is valid exactly if `try_from` makes it of its number.
pub delay_is_valid_iff : (d : Delay) → (delay_is_valid d ≡ true) ↔ (delay_try_from d.value ≡ ok d)
unfolding delay_is_valid delay_try_from
delay_is_valid_iff d = ground arith

pub delay-Prefixed : Prefixed delay IsDelay
unfolding delay_try_from
delay-Prefixed = one_byte-Prefixed delay_into delay_try_from IsDelay (record {
  into-IsByte = λ d h. omega arith;
  try_from-into = λ d h. ground arith;
  try_from_valid = λ b d h e. ground arith;
  try_from-ne-panicked = λ b e. ground arith;
})

pub record AudioVolumeLevel : Type 0 where
  pub value : ℕ

abbrev pub no_change_val : ℕ
no_change_val = 0x7f

abbrev pub volume_into : AudioVolumeLevel → ℕ
volume_into v = v.value

-- `TryFrom<u8> for AudioVolumeLevel`
unfoldable pub volume_try_from : ℕ → Result AudioVolumeLevel
unfolding check admits
volume_try_from val = do check (interval 0 100) val "value"; ok (record { value = val })

unfoldable pub volume_is_valid : AudioVolumeLevel → Bool
unfolding check admits
volume_is_valid v =
    if v.value == no_change_val then true else is_ok (check (interval 0 100) v.value "value")

-- What `try_from_bytes` does with its first byte.
unfoldable pub volume_from_byte : ℕ → Result AudioVolumeLevel
unfolding volume_try_from
volume_from_byte b = if b == no_change_val then ok (record { value = b }) else volume_try_from b

abbrev pub audio_volume_level : OperandEncodable AudioVolumeLevel
audio_volume_level = one_byte volume_into volume_from_byte

abbrev pub IsVolume : AudioVolumeLevel → Type 0
IsVolume v = (v.value ≤ 100) ⊎ (v.value ≡ no_change_val)

-- An audio volume level is valid exactly if the decoder makes it of its byte.
pub volume_is_valid_iff :
    (v : AudioVolumeLevel) → (volume_is_valid v ≡ true) ↔ (volume_from_byte v.value ≡ ok v)
unfolding volume_is_valid volume_from_byte
volume_is_valid_iff v = ground arith

-- `try_from` refuses the level that keeps the volume, which `is_valid` accepts.
pub volume_try_from-no_change :
    (v : AudioVolumeLevel)
    → v.value ≡ no_change_val
    → (volume_is_valid v ≡ true) × (volume_try_from v.value ≢ ok v)
unfolding volume_is_valid volume_try_from
volume_try_from-no_change v h = (ground arith, λ e. ground arith)

pub audio_volume_level-Prefixed : Prefixed audio_volume_level IsVolume
unfolding volume_from_byte
audio_volume_level-Prefixed = one_byte-Prefixed volume_into volume_from_byte IsVolume (record {
  into-IsByte = λ v h. omega arith;
  try_from-into = λ v h. ground arith;
  try_from_valid = λ b v h e. ground arith;
  try_from-ne-panicked = λ b e. ground arith;
})

-- Two decimal digits in a byte. The parameters `MIN` and `MAX` are arguments of its functions.
pub record BcdByte : Type 0 where
  pub digits : ℕ

abbrev pub bcd_into : BcdByte → ℕ
bcd_into bcd = bcd.digits

-- `From<BcdByte> for u8`; below 256 it does not overflow.
unfoldable pub bcd_value : BcdByte → ℕ
bcd_value bcd = bcd.digits / 2 ^ 4 * 10 + bit_and bcd.digits 0xf

-- `TryFrom<u8> for BcdByte`, with the shift of a `u8`.
unfoldable pub bcd_try_from : ℕ → ℕ → ℕ → Result BcdByte
unfolding check admits
bcd_try_from min max byte = do
  check (interval min max) byte "value"
  ok (record { digits = byte / 10 * 2 ^ 4 % 2 ^ 8 + byte % 10 })

-- What `try_from_bytes` does with its first byte.
unfoldable pub bcd_from_byte : ℕ → ℕ → ℕ → Result BcdByte
unfolding check admits
bcd_from_byte min max byte = do
  check (interval 0 9) (bit_and byte 0xf) "low bits"
  check (interval 0 9) (byte / 2 ^ 4) "high bits"
  check (interval min max) (byte / 2 ^ 4 * 10 + bit_and byte 0xf) "value"
  ok (record { digits = byte })

abbrev pub bcd_byte : ℕ → ℕ → OperandEncodable BcdByte
bcd_byte min max = one_byte bcd_into (bcd_from_byte min max)

abbrev pub IsBcd : ℕ → ℕ → BcdByte → Type 0
IsBcd min max bcd =
    (bcd.digits % 16 ≤ 9)
    × (bcd.digits / 16 ≤ 9)
    × (min ≤ bcd.digits / 16 * 10 + bcd.digits % 16)
    × (bcd.digits / 16 * 10 + bcd.digits % 16 ≤ max)

-- A number within the range, whose upper bound is at most 99, is converted to decimal digits with
-- that value, and the digits are accepted from a message.
pub bcd_value-bcd_try_from :
    (min max byte : ℕ)
    → min ≤ byte
    → byte ≤ max
    → max ≤ 99
    → (bcd : BcdByte) × (bcd_try_from min max byte ≡ ok bcd)
      × (bcd_value bcd ≡ byte)
      × (bcd_from_byte min max bcd.digits ≡ ok bcd)
unfolding bcd_try_from bcd_value bcd_from_byte
bcd_value-bcd_try_from min max byte low high small =
    let digits = byte / 10 * 2 ^ 4 % 2 ^ 8 + byte % 10 in
    (
      record { digits = digits },
      ground arith,
      omega (arith, and_mask 4 digits),
      ground (arith, and_mask 4 digits),
    )

-- The codec of decimal digits, for every range: its values that satisfy the predicate are written
-- as bytes, `len` of them, and read back, also with any bytes behind; what is read from bytes
-- satisfies the predicate and is not longer than the bytes; and no bytes make the decoder panic.
pub bcd_byte-Prefixed : (min max : ℕ) → Prefixed (bcd_byte min max) (IsBcd min max)
unfolding bcd_from_byte
bcd_byte-Prefixed min max =
    one_byte-Prefixed bcd_into (bcd_from_byte min max) (IsBcd min max) (record {
      into-IsByte = λ b h. omega arith;
      try_from-into = λ b h. ground (arith, and_mask 4 b.digits);
      try_from_valid = λ byte b h e. ground (arith, and_mask 4 byte);
      try_from-ne-panicked = λ byte e. ground arith;
    })
