-- ===== src/Operand/Primitive.antt =====
-- Enums of one byte: `TryFromPrimitive` and `IntoPrimitive` as the derives define them (the first
-- variant with the number as its discriminant), and `derive(Operand)` on them.
use linux_cec.Prelude.{
  ℕ, ◌<◌, ◌≡◌, ◌≢◌, List, [], ◌∷◌, String, arith, ◌==◌, if◌then◌else◌, Option, none, some,
}
use linux_cec.Core.Error.{Result, ok, err, panicked, invalid_value_for_type}
use linux_cec.Operand.Encodable.{OperandEncodable, Prefixed}
use linux_cec.Operand.OneByte.{one_byte, one_byte-Prefixed}

-- An enum: its name, its variants in order, and their discriminants.
pub record Primitive (A : Type 0) : Type 0 where
  pub name : String
  pub variants : List A
  pub discriminant : A → ℕ

unfoldable pub find_variant : {A : Type 0} → (A → ℕ) → List A → ℕ → Option A
find_variant discriminant [] number = none
find_variant discriminant (a ∷ variants) number =
    if discriminant a == number then some a else find_variant discriminant variants number

abbrev pub or_invalid : {A : Type 0} → String → ℕ → Option A → Result A
or_invalid name number none = err (invalid_value_for_type name number)
or_invalid name number (some a) = ok a

-- `try_from_primitive`, with its error as `From<TryFromPrimitiveError>` converts it.
unfoldable pub try_from_primitive : {A : Type 0} → Primitive A → ℕ → Result A
unfolding find_variant
try_from_primitive p number =
    or_invalid p.name number (find_variant p.discriminant p.variants number)

-- Every variant is listed, and no two share a discriminant, which fits a byte.
pub record IsEnum {A : Type 0} (p : Primitive A) : Type 0 where
  pub discriminant-lt : (a : A) → p.discriminant a < 256
  pub try_from-discriminant : (a : A) → try_from_primitive p (p.discriminant a) ≡ ok a

find_variant-discriminant :
    {A : Type 0} (discriminant : A → ℕ) (variants : List A) (number : ℕ) (a : A)
    → find_variant discriminant variants number ≡ some a
    → discriminant a ≡ number
unfolding find_variant
find_variant-discriminant discriminant [] number a h = cc
find_variant-discriminant discriminant (x ∷ variants) number a h =
    ground (arith, find_variant-discriminant discriminant variants number a)

-- A number is converted only to a variant that has it as its discriminant.
pub try_from_primitive-discriminant :
    {A : Type 0} (p : Primitive A) (number : ℕ) (a : A)
    → try_from_primitive p number ≡ ok a
    → p.discriminant a ≡ number
unfolding try_from_primitive
try_from_primitive-discriminant p number a h =
    ground (arith, find_variant-discriminant p.discriminant p.variants number a)

pub try_from_primitive-ne-panicked :
    {A : Type 0} (p : Primitive A) (number : ℕ) → try_from_primitive p number ≢ panicked
unfolding try_from_primitive
try_from_primitive-ne-panicked p number h = ground arith

-- `try_into_u8_encodable`
abbrev pub enum_operand : {A : Type 0} → Primitive A → OperandEncodable A
enum_operand p = one_byte p.discriminant (try_from_primitive p)

-- Every value of a derived enum operand is valid.
abbrev pub Any : {A : Type 0} → A → Type 0
Any a = Unit {0}

-- For an enum whose discriminants are bytes that are converted back, the generated codec: every
-- variant is written as its byte and read back, also with any bytes behind, and no bytes make the
-- decoder panic.
pub enum_operand-Prefixed :
    {A : Type 0} (p : Primitive A) → IsEnum p → Prefixed (enum_operand p) Any
enum_operand-Prefixed p e = one_byte-Prefixed p.discriminant (try_from_primitive p) Any (record {
  into-IsByte = λ a _. e.discriminant-lt a;
  try_from-into = λ a _. e.try_from-discriminant a;
  try_from_valid = λ b a _ _. tt;
  try_from-ne-panicked = try_from_primitive-ne-panicked p;
})
