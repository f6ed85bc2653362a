-- ===== src/Operand/Headed/Timer.antt =====
-- `TimerStatusData` (linux-cec/src/operand.rs): the first byte holds a warning, the media, and
-- whether and how the timer was programmed; a duration may follow.
pub mod Available
pub mod Parts
pub mod Laws
use linux_cec.Core.Range.{at_least}
use linux_cec.Core.Error.{ok, ◌>>=◌, Result}
use linux_cec.Operand.Structs.Timers.{duration, Duration}
use linux_cec.Operand.Enums.Recording.{media_info, MediaInfo}
use linux_cec.Operand.Encodable.{OperandEncodable}
use linux_cec.Operand.Primitive.{try_from_primitive, Primitive}
use linux_cec.Prelude.{
  length, ◌==◌, leb, ◌/◌, ◌^◌, bit_and, ◌*◌, some, none, [], ◌∷◌, if◌then◌else◌, Bool, bit_or,
  Option, ℕ,
}

pub data ProgrammedInfo : Type 0 where
  enough_space none_available : ProgrammedInfo
  not_enough_space may_not_be_enough_space : Option Duration → ProgrammedInfo

pub data NotProgrammedErrorInfo : Type 0 where
  no_free_timer date_out_of_range recording_sequence_error : NotProgrammedErrorInfo
  invalid_external_plug invalid_external_physical_address : NotProgrammedErrorInfo
  ca_unsupported insufficient_ca_entitlements resolution_unsupported : NotProgrammedErrorInfo
  parental_lock clock_failure : NotProgrammedErrorInfo
  duplicate : Option Duration → NotProgrammedErrorInfo

pub data TimerProgrammedInfo : Type 0 where
  programmed : ProgrammedInfo → TimerProgrammedInfo
  not_programmed : NotProgrammedErrorInfo → TimerProgrammedInfo

pub record TimerStatusData : Type 0 where
  pub overlap_warning : Bool
  pub media : MediaInfo
  pub programmed_info : TimerProgrammedInfo

-- The variants without the duration that some of them hold, and the codes in the low bits.
pub data ProgrammedKind : Type 0 where
  enough not_enough may_not_be_enough nothing : ProgrammedKind

abbrev pub programmed_code : ProgrammedKind → ℕ
programmed_code enough = 0x08
programmed_code not_enough = 0x09
programmed_code may_not_be_enough = 0x0b
programmed_code nothing = 0x0a

abbrev pub programmed_kinds : Primitive ProgrammedKind
programmed_kinds = record {
  name = "ProgrammedInfo";
  variants = enough ∷ not_enough ∷ may_not_be_enough ∷ nothing ∷ [];
  discriminant = programmed_code;
}

pub data ErrorKind : Type 0 where
  no_timer date sequence plug_error address_error ca ca_entitlements resolution : ErrorKind
  lock clock double : ErrorKind

abbrev pub error_code_of : ErrorKind → ℕ
error_code_of no_timer = 0x01
error_code_of date = 0x02
error_code_of sequence = 0x03
error_code_of plug_error = 0x04
error_code_of address_error = 0x05
error_code_of ca = 0x06
error_code_of ca_entitlements = 0x07
error_code_of resolution = 0x08
error_code_of lock = 0x09
error_code_of clock = 0x0a
error_code_of double = 0x0e

abbrev pub error_kinds : Primitive ErrorKind
error_kinds = record {
  name = "NotProgrammedErrorInfo";
  variants =
      no_timer ∷ date ∷ sequence ∷ plug_error ∷ address_error ∷ ca ∷ ca_entitlements ∷ resolution
      ∷ lock ∷ clock ∷ double ∷ [];
  discriminant = error_code_of;
}

pub data TimerKind : Type 0 where
  programmed_kind : ProgrammedKind → TimerKind
  error_kind : ErrorKind → TimerKind

pub data TimerHead : Type 0 where
  timer_head : Bool → MediaInfo → TimerKind → TimerHead

abbrev pub kind_bits : ℕ → TimerKind → ℕ
kind_bits byte (programmed_kind k) = bit_or (bit_or byte 0x10) (programmed_code k)
kind_bits byte (error_kind k) = bit_or byte (error_code_of k)

unfoldable pub timer_into : TimerHead → ℕ
timer_into (timer_head overlap media kind) =
    kind_bits (bit_or (if overlap then 0x80 else 0) (media_info.discriminant media * 2 ^ 5)) kind

unfoldable pub timer_try_from : ℕ → Result TimerHead
unfolding try_from_primitive
timer_try_from byte = do
  media ← try_from_primitive media_info (bit_and (byte / 2 ^ 5) 3)
  kind ←
      if bit_and byte 0x10 == 0x10
      then (do k ← try_from_primitive programmed_kinds (bit_and byte 0xf); ok (programmed_kind k))
      else (do k ← try_from_primitive error_kinds (bit_and byte 0xf); ok (error_kind k))
  ok (timer_head (bit_and byte 0x80 == 0x80) media kind)

-- `if bytes.len() >= 3`, for the bytes behind the first.
unfoldable pub available : OperandEncodable (Option Duration)
available = record {
  to_bytes = elim [ none ↦ [] | some d ↦ duration.to_bytes d ];
  try_from_bytes = λ bytes.
      if leb 2 (length bytes) then (do d ← duration.try_from_bytes bytes; ok (some d)) else ok none;
  len = elim [ none ↦ 0 | some d ↦ 2 ];
  expected_len = at_least 0;
}
