-- ===== src/Operand/Tagged/Extra.antt =====
-- The bytes behind the first one: what is written is read back, up to the byte that ends it.
use linux_cec.Prelude.{
  ℕ, suc, ◌+◌, ◌*◌, ◌/◌, ◌%◌, ◌≤◌, ◌<◌, ◌≡◌, ◌≢◌, refl, ap, List, [], ◌∷◌, ◌++◌, arith, length, All,
  bit_and, bit_or,
}
use linux_cec.Prelude.Bits.{byte_table, agree, and_mask}
use linux_cec.Core.Slice.{IsByte}
use linux_cec.Operand.Tagged.{read_extra, write_extra}

abbrev pub IsSeven : ℕ → Type 0
IsSeven b = b < 128

pub low_seven : (b : ℕ) → bit_and b 0x7f ≡ b % 128
low_seven b = and_mask 7 b

pub top_bit : (b : ℕ) → b < 256 → bit_and b 0x80 ≡ b / 128 * 128
unfolding agree
top_bit = byte_table (λ b. bit_and b 0x80) (λ b. b / 128 * 128) refl

pub set_top_bit : (b : ℕ) → b < 256 → bit_or b 0x80 ≡ b % 128 + 128
unfolding agree
set_top_bit = byte_table (λ b. bit_or b 0x80) (λ b. b % 128 + 128) refl

-- Seven-bit bytes, at least one, are read back from the bytes with top bits that are written of
-- them, with any bytes behind.
pub read_extra-write_extra :
    (xs rest : List ℕ) → All IsSeven xs → xs ≢ [] → read_extra (write_extra xs ++ rest) ≡ xs
unfolding read_extra write_extra
read_extra-write_extra [] rest h n = absurd (n refl)
read_extra-write_extra (b ∷ []) rest h n =
    ground (arith, low_seven b, low_seven (b % 128), top_bit (b % 128))
read_extra-write_extra (b ∷ c ∷ xs) rest h n = ground (
  arith,
  set_top_bit b,
  low_seven (b % 128 + 128),
  top_bit (b % 128 + 128),
  read_extra-write_extra (c ∷ xs) rest h.1 (λ e. cc),
)

pub write_extra-IsByte : (xs : List ℕ) → All IsSeven xs → All IsByte (write_extra xs)
unfolding write_extra
write_extra-IsByte [] h = tt
write_extra-IsByte (b ∷ []) h = (omega (arith, low_seven b), tt)
write_extra-IsByte (b ∷ c ∷ xs) h = (omega (arith, set_top_bit b), write_extra-IsByte (c ∷ xs) h.1)

pub length-write_extra : (xs : List ℕ) → length (write_extra xs) ≡ length xs
unfolding write_extra
length-write_extra [] = refl
length-write_extra (b ∷ []) = refl
length-write_extra (b ∷ c ∷ xs) = ap suc (length-write_extra (c ∷ xs))

pub read_extra-IsSeven : (bytes : List ℕ) → All IsSeven (read_extra bytes)
unfolding read_extra
read_extra-IsSeven [] = tt
read_extra-IsSeven (b ∷ bytes) = ground (arith, low_seven b, read_extra-IsSeven bytes)

pub length-read_extra : (bytes : List ℕ) → length (read_extra bytes) ≤ length bytes
unfolding read_extra
length-read_extra [] = omega arith
length-read_extra (b ∷ bytes) = ground (arith, length-read_extra bytes)

pub seven_bytes : (xs : List ℕ) → All IsSeven xs → All IsByte xs
seven_bytes [] h = tt
seven_bytes (b ∷ xs) h = (omega (arith, h.0), seven_bytes xs h.1)
