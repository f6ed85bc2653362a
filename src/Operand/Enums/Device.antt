-- ===== src/Operand/Enums/Device.antt =====
-- The enums of devices and the protocol (linux-cec/src/operand.rs), with their discriminants from
-- linux-cec-sys/src/constants.rs.
use linux_cec.Prelude.{ℕ, refl, [], ◌∷◌, arith}
use linux_cec.Operand.Primitive.{Primitive, IsEnum, try_from_primitive}

pub data AbortReason : Type 0 where
  unrecognized_op incorrect_mode no_source invalid_op refused undetermined : AbortReason

abbrev pub abort_reason_discriminant : AbortReason → ℕ
abort_reason_discriminant unrecognized_op = 0x00
abort_reason_discriminant incorrect_mode = 0x01
abort_reason_discriminant no_source = 0x02
abort_reason_discriminant invalid_op = 0x03
abort_reason_discriminant refused = 0x04
abort_reason_discriminant undetermined = 0x05

abbrev pub abort_reason : Primitive AbortReason
abort_reason = record {
  name = "AbortReason";
  variants =
      unrecognized_op ∷ incorrect_mode ∷ no_source ∷ invalid_op ∷ refused ∷ undetermined ∷ [];
  discriminant = abort_reason_discriminant;
}

pub abort_reason-IsEnum : IsEnum abort_reason
unfolding try_from_primitive
abort_reason-IsEnum = record {
  discriminant-lt = elim [ unrecognized_op ↦ omega arith | _ ↦ omega arith ];
  try_from-discriminant = elim [ unrecognized_op ↦ refl | _ ↦ refl ];
}

pub data PowerStatus : Type 0 where
  on standby to_on to_standby : PowerStatus

abbrev pub power_status_discriminant : PowerStatus → ℕ
power_status_discriminant on = 0x00
power_status_discriminant standby = 0x01
power_status_discriminant to_on = 0x02
power_status_discriminant to_standby = 0x03

abbrev pub power_status : Primitive PowerStatus
power_status = record {
  name = "PowerStatus";
  variants = on ∷ standby ∷ to_on ∷ to_standby ∷ [];
  discriminant = power_status_discriminant;
}

pub power_status-IsEnum : IsEnum power_status
unfolding try_from_primitive
power_status-IsEnum = record {
  discriminant-lt = elim [ on ↦ omega arith | _ ↦ omega arith ];
  try_from-discriminant = elim [ on ↦ refl | _ ↦ refl ];
}

pub data PrimaryDeviceType : Type 0 where
  tv recording tuner playback audio switch processor : PrimaryDeviceType

abbrev pub primary_device_type_discriminant : PrimaryDeviceType → ℕ
primary_device_type_discriminant tv = 0x00
primary_device_type_discriminant recording = 0x01
primary_device_type_discriminant tuner = 0x03
primary_device_type_discriminant playback = 0x04
primary_device_type_discriminant audio = 0x05
primary_device_type_discriminant switch = 0x06
primary_device_type_discriminant processor = 0x07

abbrev pub primary_device_type : Primitive PrimaryDeviceType
primary_device_type = record {
  name = "PrimaryDeviceType";
  variants = tv ∷ recording ∷ tuner ∷ playback ∷ audio ∷ switch ∷ processor ∷ [];
  discriminant = primary_device_type_discriminant;
}

pub primary_device_type-IsEnum : IsEnum primary_device_type
unfolding try_from_primitive
primary_device_type-IsEnum = record {
  discriminant-lt = elim [ tv ↦ omega arith | _ ↦ omega arith ];
  try_from-discriminant = elim [ tv ↦ refl | _ ↦ refl ];
}

pub data Version : Type 0 where
  v1_1 v1_2 v1_2a v1_3 v1_3a v1_4 v2_0 : Version

abbrev pub version_discriminant : Version → ℕ
version_discriminant v1_1 = 0x00
version_discriminant v1_2 = 0x01
version_discriminant v1_2a = 0x02
version_discriminant v1_3 = 0x03
version_discriminant v1_3a = 0x04
version_discriminant v1_4 = 0x05
version_discriminant v2_0 = 0x06

abbrev pub version : Primitive Version
version = record {
  name = "Version";
  variants = v1_1 ∷ v1_2 ∷ v1_2a ∷ v1_3 ∷ v1_3a ∷ v1_4 ∷ v2_0 ∷ [];
  discriminant = version_discriminant;
}

pub version-IsEnum : IsEnum version
unfolding try_from_primitive
version-IsEnum = record {
  discriminant-lt = elim [ v1_1 ↦ omega arith | _ ↦ omega arith ];
  try_from-discriminant = elim [ v1_1 ↦ refl | _ ↦ refl ];
}

pub data RcProfileId : Type 0 where
  profile_none profile1 profile2 profile3 profile4 : RcProfileId

abbrev pub rc_profile_id_discriminant : RcProfileId → ℕ
rc_profile_id_discriminant profile_none = 0x00
rc_profile_id_discriminant profile1 = 0x02
rc_profile_id_discriminant profile2 = 0x06
rc_profile_id_discriminant profile3 = 0x0a
rc_profile_id_discriminant profile4 = 0x0e

abbrev pub rc_profile_id : Primitive RcProfileId
rc_profile_id = record {
  name = "RcProfileId";
  variants = profile_none ∷ profile1 ∷ profile2 ∷ profile3 ∷ profile4 ∷ [];
  discriminant = rc_profile_id_discriminant;
}

pub rc_profile_id-IsEnum : IsEnum rc_profile_id
unfolding try_from_primitive
rc_profile_id-IsEnum = record {
  discriminant-lt = elim [ profile_none ↦ omega arith | _ ↦ omega arith ];
  try_from-discriminant = elim [ profile_none ↦ refl | _ ↦ refl ];
}
