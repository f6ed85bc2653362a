-- ===== src/Core/LogicalAddress.antt =====
-- `LogicalAddress` and `LogicalAddressType` (linux-cec/src/lib.rs), with their discriminants from
-- linux-cec-sys/src/constants.rs, and the device types that each stands for.
use linux_cec.Prelude.{ℕ, ◌≡◌, refl, [], ◌∷◌, arith, Option, none, some}
use linux_cec.Operand.Primitive.{Primitive, IsEnum, try_from_primitive}
use linux_cec.Operand.Enums.Device.{
  PrimaryDeviceType, tv as primary_tv, recording, tuner as primary_tuner,
  playback as primary_playback, audio,
}
use linux_cec.Operand.Flags.{AllDeviceTypes}

pub data LogicalAddress : Type 0 where
  tv recording_device1 recording_device2 tuner1 playback_device1 audio_system : LogicalAddress
  tuner2 tuner3 playback_device2 recording_device3 tuner4 playback_device3 : LogicalAddress
  backup1 backup2 specific unregistered_or_broadcast : LogicalAddress

abbrev pub logical_address_discriminant : LogicalAddress → ℕ
logical_address_discriminant tv = 0
logical_address_discriminant recording_device1 = 1
logical_address_discriminant recording_device2 = 2
logical_address_discriminant tuner1 = 3
logical_address_discriminant playback_device1 = 4
logical_address_discriminant audio_system = 5
logical_address_discriminant tuner2 = 6
logical_address_discriminant tuner3 = 7
logical_address_discriminant playback_device2 = 8
logical_address_discriminant recording_device3 = 9
logical_address_discriminant tuner4 = 10
logical_address_discriminant playback_device3 = 11
logical_address_discriminant backup1 = 12
logical_address_discriminant backup2 = 13
logical_address_discriminant specific = 14
logical_address_discriminant unregistered_or_broadcast = 15

abbrev pub logical_address : Primitive LogicalAddress
logical_address = record {
  name = "LogicalAddress";
  variants =
      tv ∷ recording_device1 ∷ recording_device2 ∷ tuner1 ∷ playback_device1 ∷ audio_system ∷ tuner2
      ∷ tuner3 ∷ playback_device2 ∷ recording_device3 ∷ tuner4 ∷ playback_device3 ∷ backup1
      ∷ backup2 ∷ specific ∷ unregistered_or_broadcast ∷ [];
  discriminant = logical_address_discriminant;
}

pub logical_address-IsEnum : IsEnum logical_address
unfolding try_from_primitive
logical_address-IsEnum = record {
  discriminant-lt = elim [ tv ↦ omega arith | _ ↦ omega arith ];
  try_from-discriminant = elim [ tv ↦ refl | _ ↦ refl ];
}

pub data LogicalAddressType : Type 0 where
  tv record_device tuner playback audio_system specific unregistered : LogicalAddressType

abbrev pub logical_address_type_discriminant : LogicalAddressType → ℕ
logical_address_type_discriminant tv = 0
logical_address_type_discriminant record_device = 1
logical_address_type_discriminant tuner = 2
logical_address_type_discriminant playback = 3
logical_address_type_discriminant audio_system = 4
logical_address_type_discriminant specific = 5
logical_address_type_discriminant unregistered = 6

abbrev pub logical_address_type : Primitive LogicalAddressType
logical_address_type = record {
  name = "LogicalAddressType";
  variants = tv ∷ record_device ∷ tuner ∷ playback ∷ audio_system ∷ specific ∷ unregistered ∷ [];
  discriminant = logical_address_type_discriminant;
}

logical_address_type-IsEnum : IsEnum logical_address_type
unfolding try_from_primitive
logical_address_type-IsEnum = record {
  discriminant-lt = elim [ tv ↦ omega arith | _ ↦ omega arith ];
  try_from-discriminant = elim [ tv ↦ refl | _ ↦ refl ];
}

-- `LogicalAddressType::primary_device_type`
abbrev pub type_primary_device_type : LogicalAddressType → Option PrimaryDeviceType
type_primary_device_type tv = some primary_tv
type_primary_device_type record_device = some recording
type_primary_device_type tuner = some primary_tuner
type_primary_device_type playback = some primary_playback
type_primary_device_type audio_system = some audio
type_primary_device_type specific = none
type_primary_device_type unregistered = none

-- `LogicalAddressType::all_device_types`
abbrev pub type_all_device_types : LogicalAddressType → AllDeviceTypes
type_all_device_types tv = record { bits = 0x80 }
type_all_device_types record_device = record { bits = 0x40 }
type_all_device_types tuner = record { bits = 0x20 }
type_all_device_types playback = record { bits = 0x10 }
type_all_device_types audio_system = record { bits = 0x08 }
type_all_device_types specific = record { bits = 0 }
type_all_device_types unregistered = record { bits = 0 }

-- `LogicalAddress::ty`
abbrev pub ty : LogicalAddress → Option LogicalAddressType
ty tv = some tv
ty recording_device1 = some record_device
ty recording_device2 = some record_device
ty recording_device3 = some record_device
ty tuner1 = some tuner
ty tuner2 = some tuner
ty tuner3 = some tuner
ty tuner4 = some tuner
ty playback_device1 = some playback
ty playback_device2 = some playback
ty playback_device3 = some playback
ty audio_system = some audio_system
ty backup1 = none
ty backup2 = none
ty specific = some specific
ty unregistered_or_broadcast = some unregistered

-- `LogicalAddress::primary_device_type`
abbrev pub address_primary_device_type : LogicalAddress → Option PrimaryDeviceType
address_primary_device_type tv = some primary_tv
address_primary_device_type recording_device1 = some recording
address_primary_device_type recording_device2 = some recording
address_primary_device_type recording_device3 = some recording
address_primary_device_type tuner1 = some primary_tuner
address_primary_device_type tuner2 = some primary_tuner
address_primary_device_type tuner3 = some primary_tuner
address_primary_device_type tuner4 = some primary_tuner
address_primary_device_type playback_device1 = some primary_playback
address_primary_device_type playback_device2 = some primary_playback
address_primary_device_type playback_device3 = some primary_playback
address_primary_device_type audio_system = some audio
address_primary_device_type backup1 = none
address_primary_device_type backup2 = none
address_primary_device_type specific = none
address_primary_device_type unregistered_or_broadcast = none

-- `LogicalAddress::all_device_types`
abbrev pub address_all_device_types : LogicalAddress → AllDeviceTypes
address_all_device_types tv = record { bits = 0x80 }
address_all_device_types recording_device1 = record { bits = 0x40 }
address_all_device_types recording_device2 = record { bits = 0x40 }
address_all_device_types recording_device3 = record { bits = 0x40 }
address_all_device_types tuner1 = record { bits = 0x20 }
address_all_device_types tuner2 = record { bits = 0x20 }
address_all_device_types tuner3 = record { bits = 0x20 }
address_all_device_types tuner4 = record { bits = 0x20 }
address_all_device_types playback_device1 = record { bits = 0x10 }
address_all_device_types playback_device2 = record { bits = 0x10 }
address_all_device_types playback_device3 = record { bits = 0x10 }
address_all_device_types audio_system = record { bits = 0x08 }
address_all_device_types backup1 = record { bits = 0 }
address_all_device_types backup2 = record { bits = 0 }
address_all_device_types specific = record { bits = 0 }
address_all_device_types unregistered_or_broadcast = record { bits = 0 }

-- What the type of an address says of its device, if the address has a type.
abbrev pub by_type : Option LogicalAddressType → Option PrimaryDeviceType × AllDeviceTypes
by_type none = (none, record { bits = 0 })
by_type (some t) = (type_primary_device_type t, type_all_device_types t)

-- For every logical address, its primary device type and its set of device types are those of the
-- type of the address, and none and the empty set where the address has no type.
pub device_types_agree :
    (a : LogicalAddress)
    → by_type (ty a) ≡ (address_primary_device_type a, address_all_device_types a)
device_types_agree = elim [ tv ↦ refl | _ ↦ refl ]
