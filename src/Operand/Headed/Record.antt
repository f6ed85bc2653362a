-- ===== src/Operand/Headed/Record.antt =====
-- `ExternalSource` and `RecordSource` (linux-cec/src/operand.rs).
use linux_cec.Operand.Fields.RoundTrip.{AllPrefixed-InitPrefixed}
use linux_cec.Operand.Primitive.{try_from_primitive, try_from_primitive-ne-panicked}
use linux_cec.Operand.Headed.DigitalLaws.{IsDigitalServiceId, digital_service_id-Prefixed}
use linux_cec.Operand.Structs.Services.{
  analogue_service_id, IsAnalogueServiceId, analogue_service_id-Prefixed, AnalogueServiceId,
}
use linux_cec.Operand.Newtype.{physical_address-Prefixed, physical_address, IsAddress}
use linux_cec.Core.Range.{only, admits}
use linux_cec.Operand.Enums.Recording.{
  digital, analogue, external_physical_address, external_plug, record_source_type-IsEnum,
  record_source_type, own, RecordSourceType,
}
use linux_cec.Core.Error.{panicked, ◌>>◌, ◌>>=◌, Result, ok, check}
use linux_cec.Operand.Encodable.{OperandEncodable, Prefixed}
use linux_cec.Operand.Headed.Laws.{headed-Prefixed, IsHeaded}
use linux_cec.Operand.Scalars.{u8, u8-Prefixed, u16}
use linux_cec.Core.PhysicalAddress.{PhysicalAddress}
use linux_cec.Core.Slice.{index, IsByte}
use linux_cec.Operand.Headed.Digital.{digital_service_id, DigitalServiceId}
use linux_cec.Operand.Headed.{headed, Headed}
use linux_cec.Operand.Fields.{
  field, nil, Fields, Validity, Curried, AllPrefixed, apply, Tuple, Valid,
}
use linux_cec.Prelude.{length, ◌==◌, arith, if◌then◌else◌, [], ap, ◌∷◌, ◌≡◌, List, refl, ℕ}

pub data ExternalSource : Type 0 where
  plug : ℕ → ExternalSource
  external_address : PhysicalAddress → ExternalSource

pub data RecordSource : Type 0 where
  record_own : RecordSource
  digital_service : DigitalServiceId → RecordSource
  analogue_service : AnalogueServiceId → RecordSource
  external : ExternalSource → RecordSource

abbrev pub record_type : RecordSource → RecordSourceType
record_type record_own = own
record_type (digital_service d) = digital
record_type (analogue_service a) = analogue
record_type (external (plug n)) = external_plug
record_type (external (external_address a)) = external_physical_address

-- A plug is one byte: the check for two bytes in all is the check for one behind the first.
abbrev pub record_fields : RecordSourceType → Fields
record_fields own = nil
record_fields digital = field digital_service_id nil
record_fields analogue = field analogue_service_id nil
record_fields external_plug = field u8 nil
record_fields external_physical_address = field physical_address nil

abbrev pub build_record : (t : RecordSourceType) → Curried (record_fields t) RecordSource
build_record own = record_own
build_record digital = digital_service
build_record analogue = analogue_service
build_record external_plug = λ n. external (plug n)
build_record external_physical_address = λ a. external (external_address a)

abbrev pub record_parts : (r : RecordSource) → Tuple (record_fields (record_type r))
record_parts record_own = tt
record_parts (digital_service d) = (d, tt)
record_parts (analogue_service a) = (a, tt)
record_parts (external (plug n)) = (n, tt)
record_parts (external (external_address a)) = (a, tt)

abbrev pub record_headed : Headed RecordSource RecordSourceType
record_headed = record {
  into = record_source_type.discriminant;
  try_from = try_from_primitive record_source_type;
  fields = record_fields;
  build = build_record;
  head = record_type;
  parts = record_parts;
  least = 1;
}

abbrev pub record_source : OperandEncodable RecordSource
record_source = headed record_headed

abbrev pub record_validity : (t : RecordSourceType) → Validity (record_fields t)
record_validity own = tt
record_validity digital = (IsDigitalServiceId, tt)
record_validity analogue = (IsAnalogueServiceId, tt)
record_validity external_plug = (IsByte, tt)
record_validity external_physical_address = (IsAddress, tt)

abbrev pub IsRecordSource : RecordSource → Type 0
IsRecordSource r =
    Valid (record_fields (record_type r)) (record_validity (record_type r)) (record_parts r)

prefixed : (t : RecordSourceType) → AllPrefixed (record_fields t) (record_validity t)
prefixed own = tt
prefixed digital = (digital_service_id-Prefixed, tt)
prefixed analogue = (analogue_service_id-Prefixed, tt)
prefixed external_plug = (u8-Prefixed, tt)
prefixed external_physical_address = (physical_address-Prefixed, tt)

build-parts :
    (r : RecordSource)
    → apply
        (record_fields (record_type r))
        RecordSource
        (build_record (record_type r))
        (record_parts r)
      ≡ r
build-parts record_own = refl
build-parts (digital_service d) = refl
build-parts (analogue_service a) = refl
build-parts (external (plug n)) = refl
build-parts (external (external_address a)) = refl

record_headed-IsHeaded : IsHeaded record_headed IsRecordSource record_validity
record_headed-IsHeaded = record {
  into-IsByte = λ r p. record_source_type-IsEnum.discriminant-lt (record_type r);
  try_from-into = λ r p. record_source_type-IsEnum.try_from-discriminant (record_type r);
  try_from-ne-panicked = try_from_primitive-ne-panicked record_source_type;
  lawful = λ h. AllPrefixed-InitPrefixed (record_fields h) (record_validity h) (prefixed h);
  build-parts = build-parts;
  parts_valid = λ r p. p;
  build_valid = λ b. elim [ own ↦ λ t tried v. v | _ ↦ λ t tried v. v ];
  len_build = λ b. elim [ own ↦ λ t tried. refl | _ ↦ λ t tried. refl ];
  least_pos = omega arith;
  long = λ r p. omega arith;
}

-- A record source whose service, plug or address is valid is written as bytes, `len` of them, and
-- read back, also with any bytes behind; what is read from bytes is such a source, not longer than
-- the bytes; and no bytes make the decoder panic.
pub record_source-Prefixed : Prefixed record_source IsRecordSource
record_source-Prefixed =
    headed-Prefixed record_headed IsRecordSource record_validity record_headed-IsHeaded prefixed

-- `OperandEncodable for ExternalSource`: the number of bytes tells a plug from an address.
unfoldable pub external_source_by_len : List ℕ → ℕ → Result ExternalSource
unfolding index
external_source_by_len bytes n =
    if n == 1
    then (do byte ← index bytes 0; ok (plug byte))
    else if n == 2
    then (do a ← physical_address.try_from_bytes bytes; ok (external_address a))
    else panicked

unfoldable pub external_source : OperandEncodable ExternalSource
unfolding check admits external_source_by_len
external_source = record {
  to_bytes = elim [ plug n ↦ n ∷ [] | external_address a ↦ physical_address.to_bytes a ];
  try_from_bytes = λ bytes. (do
    check (only (1 ∷ 2 ∷ [])) (length bytes) "bytes"
    external_source_by_len bytes (length bytes));
  len = elim [ plug n ↦ 1 | external_address a ↦ 2 ];
  expected_len = only (1 ∷ 2 ∷ []);
}

abbrev pub IsExternalSource : ExternalSource → Type 0
IsExternalSource (plug n) = IsByte n
IsExternalSource (external_address a) = IsAddress a

pub external_round_trip :
    (s : ExternalSource)
    → IsExternalSource s
    → external_source.try_from_bytes (external_source.to_bytes s) ≡ ok s
unfolding external_source u16
external_round_trip (plug n) h = refl
external_round_trip (external_address a) h =
    ap (λ (r : Result PhysicalAddress). r >>= (λ a. ok (external_address a)))
      (physical_address-Prefixed.lawful.try_from_bytes-to_bytes a h)
