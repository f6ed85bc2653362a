-- ===== src/Operand/Bitfields.antt =====
-- The `bitfield` operands of one byte (linux-cec/src/operand.rs). The value is the byte; the
-- accessors take their bits, from the lowest one on in the order of the fields.
use linux_cec.Prelude.{if◌then◌else◌, ◌+◌, ℕ, ◌*◌, ◌/◌, ◌%◌, ◌^◌, ◌≡◌, refl, arith, Bool, ◌==◌}
use linux_cec.Core.Error.{ok}
use linux_cec.Core.Slice.{IsByte}
use linux_cec.Operand.Encodable.{OperandEncodable, Prefixed}
use linux_cec.Operand.OneByte.{one_byte}
use linux_cec.Operand.Flags.{flags-Prefixed}

-- A field of `width` bits at `offset`.
abbrev pub bits_at : ℕ → ℕ → ℕ → ℕ
bits_at offset width word = word / 2 ^ offset % 2 ^ width

pub record AudioFormatIdAndCode : Type 0 where
  pub word : ℕ

pub data AudioFormatId : Type 0 where
  cea861 cea861_cxt : AudioFormatId
  invalid : ℕ → AudioFormatId

-- `from_bits` and `into_bits`, as `BitfieldSpecifier` generates them.
unfoldable pub audio_format_id_from_bits : ℕ → AudioFormatId
audio_format_id_from_bits bits =
    if bits % 2 ^ 2 == 0
    then cea861
    else if bits % 2 ^ 2 == 1
    then cea861_cxt
    else invalid (bits % 2 ^ 2)

unfoldable pub audio_format_id_into_bits : AudioFormatId → ℕ
audio_format_id_into_bits cea861 = 0
audio_format_id_into_bits cea861_cxt = 1
audio_format_id_into_bits (invalid x) = x

unfoldable pub format_code : AudioFormatIdAndCode → ℕ
format_code a = bits_at 0 6 a.word

unfoldable pub format_id : AudioFormatIdAndCode → AudioFormatId
unfolding audio_format_id_from_bits
format_id a = audio_format_id_from_bits (bits_at 6 2 a.word)

-- A byte that holds an audio format is the sum of its identifier and its code, each at its bits.
format_word :
    (a : AudioFormatIdAndCode)
    → IsByte a.word
    → a.word ≡ audio_format_id_into_bits (format_id a) * 64 + format_code a
unfolding format_code format_id audio_format_id_into_bits
format_word a h = ground arith

pub record AudioStatus : Type 0 where
  pub word : ℕ

unfoldable pub volume : AudioStatus → ℕ
volume a = bits_at 0 7 a.word

unfoldable pub mute : AudioStatus → Bool
mute a = bits_at 7 1 a.word == 1

pub record LatencyFlags : Type 0 where
  pub word : ℕ

abbrev pub audio_format_id_and_code : OperandEncodable AudioFormatIdAndCode
audio_format_id_and_code = one_byte (λ a. a.word) (λ b. ok (record { word = b }))

abbrev pub audio_status : OperandEncodable AudioStatus
audio_status = one_byte (λ a. a.word) (λ b. ok (record { word = b }))

abbrev pub latency_flags : OperandEncodable LatencyFlags
latency_flags = one_byte (λ a. a.word) (λ b. ok (record { word = b }))

pub audio_format_id_and_code-Prefixed : Prefixed audio_format_id_and_code (λ a. IsByte a.word)
audio_format_id_and_code-Prefixed =
    flags-Prefixed (λ a. a.word) (λ b. record { word = b }) (λ a. refl) (λ b. refl)

pub audio_status-Prefixed : Prefixed audio_status (λ a. IsByte a.word)
audio_status-Prefixed =
    flags-Prefixed (λ a. a.word) (λ b. record { word = b }) (λ a. refl) (λ b. refl)

pub latency_flags-Prefixed : Prefixed latency_flags (λ a. IsByte a.word)
latency_flags-Prefixed =
    flags-Prefixed (λ a. a.word) (λ b. record { word = b }) (λ a. refl) (λ b. refl)
