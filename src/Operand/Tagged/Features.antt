-- ===== src/Operand/Tagged/Features.antt =====
-- `DeviceFeatures` and `RcProfile` (linux-cec/src/operand.rs).
use linux_cec.Core.Slice.{IsByte}
use linux_cec.Operand.Buffer.Bytes.{contents, u8_element}
use linux_cec.Operand.Enums.Device.{profile_none, rc_profile_id, RcProfileId}
use linux_cec.Core.Error.{◌>>=◌, ok, Result, panicked}
use linux_cec.Operand.Tagged.Instances.{with_buffer-IsTagged, with_buffer}
use linux_cec.Operand.Tagged.Laws.{IsTagged, tagged-Prefixed}
use linux_cec.Operand.Buffer.Laws.{IsBuffer}
use linux_cec.Prelude.Bits.{byte_table, and_mask, agree}
use linux_cec.Operand.Tagged.{tagged, TaggedLengthBuffer}
use linux_cec.Operand.Encodable.{OperandEncodable, Prefixed}
use linux_cec.Operand.Tagged.Extra.{IsSeven}
use linux_cec.Operand.Primitive.{try_from_primitive-ne-panicked, try_from_primitive}
use linux_cec.Operand.Flags.{DeviceFeatures1, RcProfileSource}
use linux_cec.Operand.Buffer.{BoundedBuffer}
use linux_cec.Prelude.{
  refl, true, ◌*◌, ◌==◌, All, ◌%◌, ◌/◌, arith, if◌then◌else◌, ◌≤◌, bit_and, ◌≡◌, ◌<◌, ◌≢◌, ℕ,
}

pub record DeviceFeatures : Type 0 where
  pub device_features_1 : DeviceFeatures1
  pub device_features_n : BoundedBuffer ℕ

abbrev pub device_features_tagged : TaggedLengthBuffer DeviceFeatures DeviceFeatures1
device_features_tagged =
    with_buffer (λ f n. record { device_features_1 = f; device_features_n = n })
      (λ u. u.device_features_1) (λ u. u.device_features_n) (λ f. f.bits)
      (λ b. ok (record { bits = b }))

abbrev pub device_features : OperandEncodable DeviceFeatures
device_features = tagged device_features_tagged

-- The top bit of the first byte is the mark, not a feature.
abbrev pub IsDeviceFeatures : DeviceFeatures → Type 0
IsDeviceFeatures u =
    IsSeven u.device_features_1.bits
    × (IsBuffer u8_element IsByte 14 u.device_features_n
        × All IsSeven (contents u.device_features_n))

pub device_features_tagged-IsTagged : IsTagged device_features_tagged IsDeviceFeatures
device_features_tagged-IsTagged =
    with_buffer-IsTagged (λ f n. record { device_features_1 = f; device_features_n = n })
      (λ u. u.device_features_1) (λ u. u.device_features_n) (λ f. f.bits)
      (λ b. ok (record { bits = b })) (λ f. IsSeven f.bits) (λ u. refl) (λ t n. refl) (λ t n. refl)
      (λ t h. h) (λ t h. refl) (λ b t h e. ground arith) (λ b e. cc)

-- Device features whose bytes leave the top bit free are written as bytes, `len` of them, and read
-- back, also with any bytes behind; what is read from bytes is such a value, not longer than the
-- bytes; and no bytes make the decoder panic.
pub device_features-Prefixed : Prefixed device_features IsDeviceFeatures
device_features-Prefixed =
    tagged-Prefixed device_features_tagged IsDeviceFeatures device_features_tagged-IsTagged

pub data RcProfile1 : Type 0 where
  source : RcProfileSource → RcProfile1
  tv : RcProfileId → RcProfile1

unfoldable pub rc_profile1_into : RcProfile1 → ℕ
rc_profile1_into (source profile_source) = profile_source.bits
rc_profile1_into (tv profile_id) = rc_profile_id.discriminant profile_id

unfoldable pub rc_profile1_try_from : ℕ → Result RcProfile1
unfolding try_from_primitive
rc_profile1_try_from b =
    let flags = bit_and b 0x7f in
    if bit_and flags 0x40 == 0x40
    then ok (source (record { bits = flags }))
    else (do id ← try_from_primitive rc_profile_id (bit_and flags 0xf); ok (tv id))

-- A source is written with the bit that tells it from a TV profile.
abbrev pub IsRcProfile1 : RcProfile1 → Type 0
IsRcProfile1 (source f) = IsSeven f.bits × (64 ≤ f.bits)
IsRcProfile1 (tv id) = Unit {0}

pub record RcProfile : Type 0 where
  pub rc_profile_1 : RcProfile1
  pub rc_profile_n : BoundedBuffer ℕ

abbrev pub rc_profile_tagged : TaggedLengthBuffer RcProfile RcProfile1
rc_profile_tagged =
    with_buffer (λ f n. record { rc_profile_1 = f; rc_profile_n = n }) (λ u. u.rc_profile_1)
      (λ u. u.rc_profile_n) rc_profile1_into rc_profile1_try_from

abbrev pub rc_profile : OperandEncodable RcProfile
rc_profile = tagged rc_profile_tagged

abbrev pub IsRcProfile : RcProfile → Type 0
IsRcProfile u =
    IsRcProfile1 u.rc_profile_1
    × (IsBuffer u8_element IsByte 14 u.rc_profile_n × All IsSeven (contents u.rc_profile_n))

source_bit : (b : ℕ) → b < 256 → bit_and b 0x40 ≡ b / 64 % 2 * 64
unfolding agree
source_bit = byte_table (λ b. bit_and b 0x40) (λ b. b / 64 % 2 * 64) refl

into_seven : (p : RcProfile1) → IsRcProfile1 p → rc_profile1_into p < 128
unfolding rc_profile1_into
into_seven (source f) h = h.0
into_seven (tv id) h = elim id as (λ k. rc_profile1_into (tv k) < 128) [
  | profile_none ↦ omega arith
  | _ ↦ omega arith
]

try_from-into : (p : RcProfile1) → IsRcProfile1 p → rc_profile1_try_from (rc_profile1_into p) ≡ ok p
unfolding rc_profile1_into rc_profile1_try_from
try_from-into (source f) h = rw (low, marked) refl
  where
    low : bit_and f.bits 0x7f ≡ f.bits
    low = omega (arith, and_mask 7 f.bits, h.0)

    marked : (bit_and f.bits 0x40 == 0x40) ≡ true
    marked = ground (arith, source_bit f.bits, h)
try_from-into (tv id) h =
    elim id as (λ k. rc_profile1_try_from (rc_profile1_into (tv k)) ≡ ok (tv k)) [
      | profile_none ↦ refl
      | _ ↦ refl
    ]

try_from_valid : (b : ℕ) (p : RcProfile1) → b < 128 → rc_profile1_try_from b ≡ ok p → IsRcProfile1 p
unfolding rc_profile1_try_from
try_from_valid b (tv id) h e = tt
try_from_valid b (source f) h e = ground (arith, and_mask 7 b, source_bit (bit_and b 0x7f))

try_from-ne-panicked : (b : ℕ) → rc_profile1_try_from b ≢ panicked
unfolding rc_profile1_try_from
try_from-ne-panicked b e =
    ground (arith, try_from_primitive-ne-panicked rc_profile_id (bit_and (bit_and b 0x7f) 0xf))

-- A remote control profile whose sources carry the bit 0x40, which tells them from a TV profile, is
-- written as bytes, `len` of them, and read back, also with any bytes behind; what is read from
-- bytes is such a profile, not longer than the bytes; and no bytes make the decoder panic.
pub rc_profile-Prefixed : Prefixed rc_profile IsRcProfile
rc_profile-Prefixed = tagged-Prefixed rc_profile_tagged IsRcProfile (
    with_buffer-IsTagged (λ f n. record { rc_profile_1 = f; rc_profile_n = n })
      (λ u. u.rc_profile_1) (λ u. u.rc_profile_n) rc_profile1_into rc_profile1_try_from IsRcProfile1
      (λ u. refl) (λ t n. refl) (λ t n. refl) into_seven try_from-into try_from_valid
      try_from-ne-panicked)
