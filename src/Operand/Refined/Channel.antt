-- ===== src/Operand/Refined/Channel.antt =====
-- `AtscData` and `ChannelId` (linux-cec/src/operand.rs): words that are read in order behind a
-- check of the length, like the fields of a struct, and then looked into.
use linux_cec.Operand.Structs.Laws.{derive_struct-Prefixed}
use linux_cec.Prelude.Bits.{and_mask, or_shifted}
use linux_cec.Operand.Scalars.{u16-Prefixed, u16}
use linux_cec.Operand.Refined.{refined-Prefixed, refined}
use linux_cec.Core.Error.{ok-injective, >>=-eq-ok, ◌>>=◌, ok, Result}
use linux_cec.Operand.Fields.{nil, field, size}
use linux_cec.Core.PhysicalAddress.{IsU16}
use linux_cec.Operand.Encodable.{Prefixed, OperandEncodable}
use linux_cec.Operand.Primitive.{try_from_primitive-ne-panicked, try_from_primitive}
use linux_cec.Operand.Structs.{Struct, derive_struct}
use linux_cec.Operand.Enums.Broadcast.{
  fmt2_part, channel_number_format, fmt1_part, ChannelNumberFormat,
}
use linux_cec.Prelude.{◌+◌, ◌^◌, ◌/◌, ◌*◌, ◌<◌, bit_and, ◌≡◌, arith, bit_or, refl, ℕ}

pub record Words : Type 0 where
  pub first : ℕ
  pub second : ℕ

abbrev pub words_struct : Struct Words
words_struct = record {
  fields = field u16 (field u16 nil);
  build = λ a b. record { first = a; second = b };
  parts = λ w. (w.first, (w.second, tt));
  size_of = 4;
}

abbrev pub IsWords : Words → Type 0
IsWords w = IsU16 w.first × (IsU16 w.second × Unit {0})

words_struct-Prefixed : Prefixed (derive_struct words_struct) IsWords
unfolding size u16
words_struct-Prefixed =
    derive_struct-Prefixed words_struct (IsU16, (IsU16, tt)) (u16-Prefixed, (u16-Prefixed, tt))
      (λ d. refl) (λ t. refl) (λ t. refl)

pub data ChannelId : Type 0 where
  one_part : ℕ → ChannelId
  two_part : ℕ → ℕ → ChannelId

abbrev pub number_format : ChannelId → ChannelNumberFormat
number_format (one_part part) = fmt1_part
number_format (two_part major minor) = fmt2_part

-- The two words that are written.
unfoldable pub channel_words : ChannelId → Words
channel_words (one_part part) = record {
  first = bit_or (channel_number_format.discriminant fmt1_part * 2 ^ 10) 0;
  second = part;
}
channel_words (two_part major minor) = record {
  first = bit_or (channel_number_format.discriminant fmt2_part * 2 ^ 10) major;
  second = minor;
}

abbrev pub channel_of : Words → ChannelNumberFormat → ChannelId
channel_of w fmt1_part = one_part w.second
channel_of w fmt2_part = two_part (bit_and w.first 0x3ff) w.second

unfoldable pub channel_try_from : Words → Result ChannelId
unfolding try_from_primitive
channel_try_from w = do
  format ← try_from_primitive channel_number_format (w.first / 2 ^ 10)
  ok (channel_of w format)

abbrev pub channel_id : OperandEncodable ChannelId
channel_id = refined (derive_struct words_struct) channel_words channel_try_from

-- A major number has ten bits: `to_bytes` does not mask it.
abbrev pub IsChannelId : ChannelId → Type 0
IsChannelId (one_part part) = IsU16 part
IsChannelId (two_part major minor) = (major < 1024) × IsU16 minor

into_valid : (a : ChannelId) → IsChannelId a → IsWords (channel_words a)
unfolding channel_words
into_valid (one_part part) h = omega (arith, or_shifted 10 1 0)
into_valid (two_part major minor) h = omega (arith, or_shifted 10 2 major, h)

try_from-into : (a : ChannelId) → IsChannelId a → channel_try_from (channel_words a) ≡ ok a
unfolding channel_words channel_try_from
try_from-into (one_part part) h = refl
try_from-into (two_part major minor) h =
    let high : bit_or (2 * 2 ^ 10) major ≡ 2048 + major = or_shifted 10 2 major h.0 in
    let format : (2048 + major) / 1024 ≡ 2 = omega (arith, h.0) in
    let low : bit_and (2048 + major) 0x3ff ≡ major =
      omega (arith, and_mask 10 (2048 + major), h.0) in
    rw (high, format, low) refl

try_from_valid : (w : Words) (a : ChannelId) → IsWords w → channel_try_from w ≡ ok a → IsChannelId a
unfolding channel_try_from
try_from_valid w a h e =
    let (format, _, made) =
      >>=-eq-ok (try_from_primitive channel_number_format (w.first / 2 ^ 10))
        (λ format. ok (channel_of w format)) e in
    rw (← ok-injective made) (valid format)
  where
    valid : (format : ChannelNumberFormat) → IsChannelId (channel_of w format)
    valid fmt1_part = h.1.0
    valid fmt2_part = omega (arith, and_mask 10 w.first, h.1.0)

pub channel_id-Prefixed : Prefixed channel_id IsChannelId
unfolding derive_struct
channel_id-Prefixed =
    refined-Prefixed (derive_struct words_struct) IsWords IsChannelId channel_words channel_try_from
      words_struct-Prefixed
      (record {
        into_valid = into_valid;
        try_from-into = try_from-into;
        try_from_valid = try_from_valid;
        len-into = λ r a e. omega arith;
        try_from-ne-panicked = λ w e.
            unfold channel_try_from in
            (ground
              (arith, try_from_primitive-ne-panicked channel_number_format (w.first / 2 ^ 10)));
      })
