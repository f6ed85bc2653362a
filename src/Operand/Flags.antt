-- ===== src/Operand/Flags.antt =====
-- The `bitflags!` operands (linux-cec/src/operand.rs). A set of flags is its bits: the codec that
-- `derive(Operand)` generates for them keeps bits that no flag names.
use linux_cec.Prelude.{ap, ℕ, ◌≡◌, refl, arith, Bool, ◌==◌}
use linux_cec.Core.Error.{ok}
use linux_cec.Core.Slice.{IsByte}
use linux_cec.Operand.Encodable.{OperandEncodable, Prefixed}
use linux_cec.Operand.OneByte.{one_byte, one_byte-Prefixed}

-- `bits_u8_encodable`, over `bits` and `from_bits_retain`.
module _ {F : Type 0} (bits : F → ℕ) (from_bits_retain : ℕ → F) where
  abbrev pub flags : OperandEncodable F
  flags = one_byte bits (λ b. ok (from_bits_retain b))

  pub flags-Prefixed :
      ((f : F) → from_bits_retain (bits f) ≡ f)
      → ((b : ℕ) → bits (from_bits_retain b) ≡ b)
      → Prefixed flags (λ f. IsByte (bits f))
  flags-Prefixed retain-bits bits-retain =
      one_byte-Prefixed bits (λ b. ok (from_bits_retain b)) (λ f. IsByte (bits f))
        (record {
          into-IsByte = λ f h. h;
          try_from-into = λ f h. ap ok (retain-bits f);
          try_from_valid = λ b f h e. ground (arith, bits-retain b);
          try_from-ne-panicked = λ b e. cc;
        })

pub record AllDeviceTypes : Type 0 where
  pub bits : ℕ

abbrev pub all_device_types : OperandEncodable AllDeviceTypes
all_device_types = flags (λ f. f.bits) (λ b. record { bits = b })

pub all_device_types-Prefixed : Prefixed all_device_types (λ f. IsByte f.bits)
all_device_types-Prefixed =
    flags-Prefixed (λ f. f.bits) (λ b. record { bits = b }) (λ f. refl) (λ b. refl)

pub record DeviceFeatures1 : Type 0 where
  pub bits : ℕ

abbrev pub device_features1 : OperandEncodable DeviceFeatures1
device_features1 = flags (λ f. f.bits) (λ b. record { bits = b })

pub device_features1-Prefixed : Prefixed device_features1 (λ f. IsByte f.bits)
device_features1-Prefixed =
    flags-Prefixed (λ f. f.bits) (λ b. record { bits = b }) (λ f. refl) (λ b. refl)

pub record RcProfileSource : Type 0 where
  pub bits : ℕ

abbrev pub rc_profile_source : OperandEncodable RcProfileSource
rc_profile_source = flags (λ f. f.bits) (λ b. record { bits = b })

pub rc_profile_source-Prefixed : Prefixed rc_profile_source (λ f. IsByte f.bits)
rc_profile_source-Prefixed =
    flags-Prefixed (λ f. f.bits) (λ b. record { bits = b }) (λ f. refl) (λ b. refl)

pub record RecordingSequence : Type 0 where
  pub bits : ℕ

abbrev pub recording_sequence : OperandEncodable RecordingSequence
recording_sequence = flags (λ f. f.bits) (λ b. record { bits = b })

pub recording_sequence-Prefixed : Prefixed recording_sequence (λ f. IsByte f.bits)
recording_sequence-Prefixed =
    flags-Prefixed (λ f. f.bits) (λ b. record { bits = b }) (λ f. refl) (λ b. refl)

-- `AllDeviceTypes`' flags.
abbrev pub tv : AllDeviceTypes
tv = record { bits = 0x80 }

abbrev pub recording : AllDeviceTypes
recording = record { bits = 0x40 }

abbrev pub tuner : AllDeviceTypes
tuner = record { bits = 0x20 }

abbrev pub playback : AllDeviceTypes
playback = record { bits = 0x10 }

abbrev pub audiosystem : AllDeviceTypes
audiosystem = record { bits = 0x08 }

abbrev pub no_device_types : AllDeviceTypes
no_device_types = record { bits = 0 }

-- `RecordingSequence::is_once_only`
unfoldable pub is_once_only : RecordingSequence → Bool
is_once_only sequence = sequence.bits == 0
