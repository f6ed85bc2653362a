-- ===== src/Operand/Tuner.antt =====
-- `ServiceId` and `TunerDeviceInfo` (linux-cec/src/operand.rs): the length tells an analogue service
-- from a digital one.
pub mod Laws
use linux_cec.Core.Range.{only}
use linux_cec.Operand.Primitive.{try_from_primitive}
use linux_cec.Operand.Enums.Broadcast.{tuner_display_info, TunerDisplayInfo}
use linux_cec.Operand.Headed.DigitalLaws.{IsDigitalServiceId}
use linux_cec.Operand.Encodable.{OperandEncodable}
use linux_cec.Operand.Headed.Digital.{digital_service_id, DigitalServiceId}
use linux_cec.Core.Error.{panicked, ok, ◌>>=◌, ◌>>◌, Result, check}
use linux_cec.Core.Slice.{index, slice_from}
use linux_cec.Operand.Structs.Services.{AnalogueServiceId, analogue_service_id, IsAnalogueServiceId}
use linux_cec.Prelude.{bit_and, length, [], ◌==◌, if◌then◌else◌, bit_or, ◌∷◌, List, Bool, ℕ}

pub data ServiceId : Type 0 where
  digital_id : DigitalServiceId → ServiceId
  analogue_id : AnalogueServiceId → ServiceId

pub record TunerDeviceInfo : Type 0 where
  pub is_recording : Bool
  pub display_info : TunerDisplayInfo
  pub service : ServiceId

abbrev pub service_bytes : ServiceId → List ℕ
service_bytes (analogue_id a) = analogue_service_id.to_bytes a
service_bytes (digital_id d) = digital_service_id.to_bytes d

unfoldable pub tuner_head : Bool → TunerDisplayInfo → ℕ
tuner_head is_recording display_info =
    bit_or (if is_recording then 0x80 else 0) (tuner_display_info.discriminant display_info)

-- `match bytes.len()`
unfoldable pub service_by_len : List ℕ → ℕ → Result ServiceId
unfolding slice_from
service_by_len bytes n =
    if n == 5
    then (do
      rest ← slice_from bytes 1
      a ← analogue_service_id.try_from_bytes rest
      ok (analogue_id a))
    else if n == 8
    then (do
      rest ← slice_from bytes 1
      d ← digital_service_id.try_from_bytes rest
      ok (digital_id d))
    else panicked

unfoldable pub tuner_try_from_bytes : List ℕ → Result TunerDeviceInfo
unfolding check index service_by_len try_from_primitive
tuner_try_from_bytes bytes = do
  check (only (5 ∷ 8 ∷ [])) (length bytes) "bytes"
  head ← index bytes 0
  display ← try_from_primitive tuner_display_info (bit_and head 0x7f)
  service ← service_by_len bytes (length bytes)
  ok (record {
    is_recording = bit_and head 0x80 == 0x80;
    display_info = display;
    service = service;
  })

abbrev pub service_len : ServiceId → ℕ
service_len (analogue_id a) = 5
service_len (digital_id d) = 8

abbrev pub tuner_device_info : OperandEncodable TunerDeviceInfo
tuner_device_info = record {
  to_bytes = λ t. tuner_head t.is_recording t.display_info ∷ service_bytes t.service;
  try_from_bytes = tuner_try_from_bytes;
  len = λ t. service_len t.service;
  expected_len = only (5 ∷ 8 ∷ []);
}

abbrev pub IsServiceId : ServiceId → Type 0
IsServiceId (analogue_id a) = IsAnalogueServiceId a
IsServiceId (digital_id d) = IsDigitalServiceId d
