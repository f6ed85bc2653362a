-- ===== src/Tests/Operands.antt =====
-- Operands (linux-cec/src/operand.rs) that are encoded and decoded.
use linux_cec.Operand.Tagged.Laws.{tagged-Prefixed}
use linux_cec.Core.Slice.{slice_from, IsByte}
use linux_cec.Core.Error.{ok}
use linux_cec.Operand.Buffer.Laws.{bounded_buffer-Lawful, IsBuffer}
use linux_cec.Operand.Fields.RoundTrip.{AllPrefixed-AllLawful}
use linux_cec.Operand.Structs.Laws.{derive_struct-Prefixed}
use linux_cec.Operand.Enums.Deck.{once, status_request}
use linux_cec.Core.LogicalAddress.{device_types_agree, by_type, ty, tuner4}
use linux_cec.Operand.Enums.Device.{tuner}
use linux_cec.Operand.Buffer.{read_elements, bounded_buffer}
use linux_cec.Operand.Buffer.Bytes.{u8_element-IsElement, u8_element}
use linux_cec.Operand.Scalars.{u8-Prefixed, u8}
use linux_cec.Operand.Tagged.Features.{
  device_features_tagged-IsTagged, device_features_tagged, IsDeviceFeatures, device_features,
}
use linux_cec.Operand.Optional.{optional-Lawful, Optionally, optional}
use linux_cec.Operand.Buffer.Loop.{read_elements-Reads, Reads}
use linux_cec.Operand.OneByte.{one_byte}
use linux_cec.Operand.Encodable.{Lawful, Prefixed}
use linux_cec.Operand.Fields.{AllPrefixed, size, AllLawful, Validity, decode}
use linux_cec.Operand.Ranged.{bcd_byte-Prefixed, IsBcd, bcd_from_byte, bcd_byte}
use linux_cec.Operand.Primitive.{try_from_primitive}
use linux_cec.Operand.Structs.Timers.{time, time_struct, Time, IsTime}
use linux_cec.Prelude.{some, List, [], ◌∷◌, arith, ◌≡◌, refl, ℕ}

abbrev evening : Time
evening = record { hour = record { digits = 0x23 }; minute = record { digits = 0x30 } }

abbrev time_validity : Validity time_struct.fields
time_validity = (IsBcd 0 23, (IsBcd 0 59, tt))

evening-IsTime : IsTime evening
evening-IsTime = omega arith

time_prefixed : AllPrefixed time_struct.fields time_validity
time_prefixed = (bcd_byte-Prefixed 0 23, (bcd_byte-Prefixed 0 59, tt))

abbrev front : List ℕ
front = 7 ∷ []

time_lawful : AllLawful time_struct.fields time_validity
time_lawful = AllPrefixed-AllLawful time_struct.fields time_validity time_prefixed

evening_read : decode time_struct.fields Time time_struct.build (0x23 ∷ 0x30 ∷ []) 0 ≡ ok evening
unfolding decode one_byte bcd_from_byte slice_from
evening_read = refl

derive_struct-Prefixed_example : Prefixed time IsTime
unfolding size one_byte
derive_struct-Prefixed_example =
    derive_struct-Prefixed time_struct time_validity time_prefixed (λ t. refl) (λ t. refl)
      (λ t. refl)

tagged-Prefixed_example : Prefixed device_features IsDeviceFeatures
tagged-Prefixed_example =
    tagged-Prefixed device_features_tagged IsDeviceFeatures device_features_tagged-IsTagged

bounded_buffer-Lawful_example :
    Lawful (bounded_buffer u8_element 14) (IsBuffer u8_element IsByte 14)
bounded_buffer-Lawful_example = bounded_buffer-Lawful u8_element IsByte u8_element-IsElement 14

read_elements-Reads_example :
    Reads u8_element IsByte u8_element-IsElement 14
      (1 ∷ 2 ∷ [])
      []
      (read_elements u8_element 14 (1 ∷ 2 ∷ []) 15 0 [])
read_elements-Reads_example =
    read_elements-Reads u8_element IsByte u8_element-IsElement 14 (1 ∷ 2 ∷ []) 15 0 [] (omega arith)
      (omega arith) (omega arith) (omega arith)

optional-Lawful_example : Lawful (optional u8) (Optionally IsByte)
optional-Lawful_example =
    optional-Lawful u8 IsByte u8-Prefixed.lawful (λ b h. unfold one_byte in omega arith)

bcd_byte-Prefixed_example : Prefixed (bcd_byte 0 59) (IsBcd 0 59)
bcd_byte-Prefixed_example = bcd_byte-Prefixed 0 59

standby_read : try_from_primitive status_request 3 ≡ ok once
unfolding try_from_primitive
standby_read = refl

device_types_agree_example : by_type (ty tuner4) ≡ (some tuner, record { bits = 0x20 })
device_types_agree_example = device_types_agree tuner4
