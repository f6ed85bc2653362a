-- ===== src/Operand/Refined/Atsc.antt =====
-- `AtscData` (linux-cec/src/operand.rs): two words, and a third that must be 0.
use linux_cec.Operand.Structs.Laws.{derive_struct-Prefixed}
use linux_cec.Operand.Refined.{refined-Prefixed, refined}
use linux_cec.Operand.Scalars.{u16-Prefixed, u16}
use linux_cec.Operand.Encodable.{Prefixed, OperandEncodable}
use linux_cec.Operand.Structs.{derive_struct, Struct}
use linux_cec.Core.PhysicalAddress.{IsU16}
use linux_cec.Operand.Fields.{nil, field, size}
use linux_cec.Core.Error.{invalid_data, err, ok, Result}
use linux_cec.Prelude.{arith, ◌==◌, if◌then◌else◌, refl, ℕ}

pub record Triple : Type 0 where
  pub first : ℕ
  pub second : ℕ
  pub third : ℕ

abbrev pub triple_struct : Struct Triple
triple_struct = record {
  fields = field u16 (field u16 (field u16 nil));
  build = λ a b c. record { first = a; second = b; third = c };
  parts = λ w. (w.first, (w.second, (w.third, tt)));
  size_of = 6;
}

abbrev pub IsTriple : Triple → Type 0
IsTriple w = IsU16 w.first × (IsU16 w.second × (IsU16 w.third × Unit {0}))

triple_struct-Prefixed : Prefixed (derive_struct triple_struct) IsTriple
unfolding size u16
triple_struct-Prefixed =
    derive_struct-Prefixed triple_struct (IsU16, (IsU16, (IsU16, tt)))
      (u16-Prefixed, (u16-Prefixed, (u16-Prefixed, tt))) (λ d. refl) (λ t. refl) (λ t. refl)

pub record AtscData : Type 0 where
  pub transport_stream_id : ℕ
  pub program_number : ℕ

abbrev pub atsc_words : AtscData → Triple
atsc_words a = record { first = a.transport_stream_id; second = a.program_number; third = 0 }

unfoldable pub atsc_try_from : Triple → Result AtscData
atsc_try_from w =
    if w.third == 0
    then ok (record { transport_stream_id = w.first; program_number = w.second })
    else err invalid_data

abbrev pub atsc_data : OperandEncodable AtscData
atsc_data = refined (derive_struct triple_struct) atsc_words atsc_try_from

abbrev pub IsAtscData : AtscData → Type 0
IsAtscData a = IsU16 a.transport_stream_id × IsU16 a.program_number

pub atsc_data-Prefixed : Prefixed atsc_data IsAtscData
unfolding derive_struct atsc_try_from
atsc_data-Prefixed =
    refined-Prefixed (derive_struct triple_struct) IsTriple IsAtscData atsc_words atsc_try_from
      triple_struct-Prefixed
      (record {
        into_valid = λ a h. omega (arith, h);
        try_from-into = λ a h. refl;
        try_from_valid = λ w a h e. ground (arith, h);
        len-into = λ r a e. omega arith;
        try_from-ne-panicked = λ w e. ground arith;
      })
