-- ===== src/Operand/Enums/Recording.antt =====
-- The enums of recorders and timers (linux-cec/src/operand.rs), with their discriminants from
-- linux-cec-sys/src/constants.rs.
use linux_cec.Prelude.{ℕ, refl, [], ◌∷◌, arith}
use linux_cec.Operand.Primitive.{Primitive, IsEnum, try_from_primitive}

pub data RecordSourceType : Type 0 where
  own digital analogue external_plug external_physical_address : RecordSourceType

abbrev pub record_source_type_discriminant : RecordSourceType → ℕ
record_source_type_discriminant own = 0x01
record_source_type_discriminant digital = 0x02
record_source_type_discriminant analogue = 0x03
record_source_type_discriminant external_plug = 0x04
record_source_type_discriminant external_physical_address = 0x05

abbrev pub record_source_type : Primitive RecordSourceType
record_source_type = record {
  name = "RecordSourceType";
  variants = own ∷ digital ∷ analogue ∷ external_plug ∷ external_physical_address ∷ [];
  discriminant = record_source_type_discriminant;
}

pub record_source_type-IsEnum : IsEnum record_source_type
unfolding try_from_primitive
record_source_type-IsEnum = record {
  discriminant-lt = elim [ own ↦ omega arith | _ ↦ omega arith ];
  try_from-discriminant = elim [ own ↦ refl | _ ↦ refl ];
}

pub data RecordStatusInfo : Type 0 where
  current_source digital_service analogue_service external_input : RecordStatusInfo
  no_digital_service no_analogue_service no_service invalid_external_plug : RecordStatusInfo
  invalid_external_physical_address ca_unsupported : RecordStatusInfo
  insufficient_ca_entitlements disallowed_copy_source no_further_copies : RecordStatusInfo
  no_media playing already_recording media_protected no_signal media_problem : RecordStatusInfo
  not_enough_space parental_lock terminated_ok already_terminated other : RecordStatusInfo

abbrev pub record_status_info_discriminant : RecordStatusInfo → ℕ
record_status_info_discriminant current_source = 0x01
record_status_info_discriminant digital_service = 0x02
record_status_info_discriminant analogue_service = 0x03
record_status_info_discriminant external_input = 0x04
record_status_info_discriminant no_digital_service = 0x05
record_status_info_discriminant no_analogue_service = 0x06
record_status_info_discriminant no_service = 0x07
record_status_info_discriminant invalid_external_plug = 0x09
record_status_info_discriminant invalid_external_physical_address = 0x0a
record_status_info_discriminant ca_unsupported = 0x0b
record_status_info_discriminant insufficient_ca_entitlements = 0x0c
record_status_info_discriminant disallowed_copy_source = 0x0d
record_status_info_discriminant no_further_copies = 0x0e
record_status_info_discriminant no_media = 0x10
record_status_info_discriminant playing = 0x11
record_status_info_discriminant already_recording = 0x12
record_status_info_discriminant media_protected = 0x13
record_status_info_discriminant no_signal = 0x14
record_status_info_discriminant media_problem = 0x15
record_status_info_discriminant not_enough_space = 0x16
record_status_info_discriminant parental_lock = 0x17
record_status_info_discriminant terminated_ok = 0x1a
record_status_info_discriminant already_terminated = 0x1b
record_status_info_discriminant other = 0x1f

abbrev pub record_status_info : Primitive RecordStatusInfo
record_status_info = record {
  name = "RecordStatusInfo";
  variants =
      current_source ∷ digital_service ∷ analogue_service ∷ external_input ∷ no_digital_service
      ∷ no_analogue_service ∷ no_service ∷ invalid_external_plug ∷ invalid_external_physical_address
      ∷ ca_unsupported ∷ insufficient_ca_entitlements ∷ disallowed_copy_source ∷ no_further_copies
      ∷ no_media ∷ playing ∷ already_recording ∷ media_protected ∷ no_signal ∷ media_problem
      ∷ not_enough_space ∷ parental_lock ∷ terminated_ok ∷ already_terminated ∷ other ∷ [];
  discriminant = record_status_info_discriminant;
}

pub record_status_info-IsEnum : IsEnum record_status_info
unfolding try_from_primitive
record_status_info-IsEnum = record {
  discriminant-lt = elim [ current_source ↦ omega arith | _ ↦ omega arith ];
  try_from-discriminant = elim [ current_source ↦ refl | _ ↦ refl ];
}

pub data MediaInfo : Type 0 where
  unprotected_media protected_media no_media : MediaInfo

abbrev pub media_info_discriminant : MediaInfo → ℕ
media_info_discriminant unprotected_media = 0x00
media_info_discriminant protected_media = 0x01
media_info_discriminant no_media = 0x02

abbrev pub media_info : Primitive MediaInfo
media_info = record {
  name = "MediaInfo";
  variants = unprotected_media ∷ protected_media ∷ no_media ∷ [];
  discriminant = media_info_discriminant;
}

pub media_info-IsEnum : IsEnum media_info
unfolding try_from_primitive
media_info-IsEnum = record {
  discriminant-lt = elim [ unprotected_media ↦ omega arith | _ ↦ omega arith ];
  try_from-discriminant = elim [ unprotected_media ↦ refl | _ ↦ refl ];
}

pub data TimerClearedStatusData : Type 0 where
  recording no_matching no_info cleared : TimerClearedStatusData

abbrev pub timer_cleared_status_data_discriminant : TimerClearedStatusData → ℕ
timer_cleared_status_data_discriminant recording = 0x00
timer_cleared_status_data_discriminant no_matching = 0x01
timer_cleared_status_data_discriminant no_info = 0x02
timer_cleared_status_data_discriminant cleared = 0x80

abbrev pub timer_cleared_status_data : Primitive TimerClearedStatusData
timer_cleared_status_data = record {
  name = "TimerClearedStatusData";
  variants = recording ∷ no_matching ∷ no_info ∷ cleared ∷ [];
  discriminant = timer_cleared_status_data_discriminant;
}

pub timer_cleared_status_data-IsEnum : IsEnum timer_cleared_status_data
unfolding try_from_primitive
timer_cleared_status_data-IsEnum = record {
  discriminant-lt = elim [ recording ↦ omega arith | _ ↦ omega arith ];
  try_from-discriminant = elim [ recording ↦ refl | _ ↦ refl ];
}

pub data ExternalSourceSpecifier : Type 0 where
  external_plug external_physical_address : ExternalSourceSpecifier

abbrev pub external_source_specifier_discriminant : ExternalSourceSpecifier → ℕ
external_source_specifier_discriminant external_plug = 0x04
external_source_specifier_discriminant external_physical_address = 0x05

abbrev pub external_source_specifier : Primitive ExternalSourceSpecifier
external_source_specifier = record {
  name = "ExternalSourceSpecifier";
  variants = external_plug ∷ external_physical_address ∷ [];
  discriminant = external_source_specifier_discriminant;
}

pub external_source_specifier-IsEnum : IsEnum external_source_specifier
unfolding try_from_primitive
external_source_specifier-IsEnum = record {
  discriminant-lt = elim [ external_plug ↦ omega arith | _ ↦ omega arith ];
  try_from-discriminant = elim [ external_plug ↦ refl | _ ↦ refl ];
}
