-- ===== src/Cdc/HecField.antt =====
-- `HecField` (linux-cec/src/cdc.rs): the inputs from bit 0 on, and the output in bit 14.
use linux_cec.Core.Range.{at_least}
use linux_cec.Prelude.Bits.{and_bit, and_mask, double, or-zero, or_step}
use linux_cec.Core.Error.{ok-injective, >>=-eq-ok, ok, ◌>>=◌}
use linux_cec.Operand.Scalars.{u16-Prefixed, u16, bool_into}
use linux_cec.Operand.Encodable.{Prefixed, OperandEncodable}
use mathlib.Core.Bool.{not}
use native.Mathlib.Nat.{div-div-eq-div-mul, pow-suc}
use linux_cec.Prelude.{
  append-nil, ◌++◌, ◌∙◌, ap, false, if◌then◌else◌, arith, true, refl, bit_and, zero, suc, ◌==◌, ◌*◌,
  ◌≤◌, bit_or, ◌+◌, ◌∷◌, [], ◌^◌, ◌≡◌, ◌/◌, List, length, ◌<◌, Bool, ℕ,
}

pub record HecField : Type 0 where
  pub input : List Bool
  pub output : Bool

-- `accum | (u16::from(*bit) << idx)`, over the inputs from `idx` on.
unfoldable pub write_bits : ℕ → ℕ → List Bool → ℕ
write_bits accum idx [] = accum
write_bits accum idx (bit ∷ input) =
    write_bits (bit_or accum (bool_into bit * 2 ^ idx)) (suc idx) input

-- `(word >> idx) & 1 == 1`, for `count` inputs from `idx` on.
unfoldable pub read_bits : ℕ → ℕ → ℕ → List Bool
read_bits word idx zero = []
read_bits word idx (suc count) = (bit_and (word / 2 ^ idx) 1 == 1) ∷ read_bits word (suc idx) count

unfoldable pub hec_field : OperandEncodable HecField
hec_field = record {
  to_bytes = λ f. u16.to_bytes (write_bits (if f.output then 0x4000 else 0) 0 f.input);
  try_from_bytes = λ bytes. (do
    word ← u16.try_from_bytes bytes
    ok (record { input = read_bits word 0 14; output = not (bit_and word 0x4000 == 0) }));
  len = λ f. 2;
  expected_len = at_least 2;
}

abbrev pub IsHecField : HecField → Type 0
IsHecField f = length f.input ≡ 14

-- The number that bits spell, the lowest first.
bits_value : List Bool → ℕ
bits_value [] = 0
bits_value (bit ∷ bits) = bool_into bit + bits_value bits * 2

bool_into-le : (b : Bool) → bool_into b ≤ 1
bool_into-le true = omega arith
bool_into-le false = omega arith

bool_into_lem : (b : Bool) → (bool_into b == 1) ≡ b
bool_into_lem true = refl
bool_into_lem false = refl

or_cong : {x x' y y' : ℕ} → x ≡ x' → y ≡ y' → bit_or x y ≡ bit_or x' y'
or_cong {x} {y' = y'} p q = ap (λ (t : ℕ). bit_or x t) q ∙ ap (λ (t : ℕ). bit_or t y') p

-- A bit at `k` is put in where there is none.
or_at :
    (k q a b : ℕ)
    → a < 2 ^ k
    → b ≤ 1
    → bit_or (q * 2 * 2 ^ k + a) (b * 2 ^ k) ≡ q * 2 * 2 ^ k + (b * 2 ^ k + a)
or_at zero q a b h s = omega (
  arith,
  or_step (q * 2 * 1 + a) (b * 1),
  or_cong {x = (q * 2 * 1 + a) / 2} {x' = q} {y = b * 1 / 2} {y' = 0} (omega arith) (omega arith),
  or-zero q q,
)
or_at (suc k) q a b h s = omega (
  arith,
  or_step (q * 2 * 2 ^ suc k + a) (b * 2 ^ suc k),
  or_cong {x = (q * 2 * 2 ^ suc k + a) / 2} {x' = q * 2 * 2 ^ k + a / 2} {y = b * 2 ^ suc k / 2}
      {y' = b * 2 ^ k} (omega (arith, double k (q * 2))) (omega (arith, double k b)),
  or_at k q (a / 2) b (omega (arith, pow-suc 2 k)) s,
  double k (q * 2),
  double k b,
)

bit_below : (bit : Bool) (p a : ℕ) → a < p → bool_into bit * p + a < p * 2
bit_below true p a h = omega arith
bit_below false p a h = omega arith

write_bits-value :
    (bits : List Bool) (idx h a : ℕ)
    → a < 2 ^ idx
    → write_bits (h * 2 ^ length bits * 2 ^ idx + a) idx bits
      ≡ (h * 2 ^ length bits + bits_value bits) * 2 ^ idx + a
unfolding write_bits bits_value
write_bits-value [] idx h a s = omega arith
write_bits-value (bit ∷ bits) idx h a s =
    let q : ℕ = h * 2 ^ length bits in
    let b : ℕ = bool_into bit in
    let put : bit_or (q * 2 * 2 ^ idx + a) (b * 2 ^ idx) ≡ q * 2 ^ suc idx + (b * 2 ^ idx + a) =
      omega (arith, or_at idx q a b s (bool_into-le bit), double idx q) in
    rw (double (length bits) h) (
      ap (λ (t : ℕ). write_bits t (suc idx) bits) put
      ∙ write_bits-value bits (suc idx) h (b * 2 ^ idx + a)
          (omega (arith, bit_below bit (2 ^ idx) a s, pow-suc 2 idx))
      ∙ omega (arith, double idx (q + bits_value bits)))

read_bits-value :
    (bits : List Bool) (word idx h : ℕ)
    → word / 2 ^ idx ≡ h * 2 ^ length bits + bits_value bits
    → read_bits word idx (length bits) ≡ bits
unfolding read_bits bits_value
read_bits-value [] word idx h e = refl
read_bits-value (bit ∷ bits) word idx h e =
    let b : ℕ = bool_into bit in
    let low : bit_and (word / 2 ^ idx) 1 ≡ b =
      omega (arith, and_mask 1 (word / 2 ^ idx), e, double (length bits) h, bool_into-le bit) in
    let next : word / 2 ^ suc idx ≡ h * 2 ^ length bits + bits_value bits = omega (
      arith,
      ap (λ (t : ℕ). word / t) (pow-suc 2 idx),
      div-div-eq-div-mul word (2 ^ idx) 2,
      e,
      double (length bits) h,
      bool_into-le bit,
    ) in
    rw (low, bool_into_lem bit, read_bits-value bits word (suc idx) h next) refl

bits_value-lt : (bits : List Bool) → bits_value bits < 2 ^ length bits
unfolding bits_value
bits_value-lt [] = omega arith
bits_value-lt (bit ∷ bits) =
    omega (arith, bits_value-lt bits, pow-suc 2 (length bits), bool_into-le bit)

length-read_bits : (word idx count : ℕ) → length (read_bits word idx count) ≡ count
unfolding read_bits
length-read_bits word idx zero = refl
length-read_bits word idx (suc count) = omega (arith, length-read_bits word (suc idx) count)

abbrev output_bit : HecField → ℕ
output_bit f = bool_into f.output

-- The word of a field is the output, and below it the inputs.
word_lem :
    (f : HecField)
    → IsHecField f
    → write_bits (if f.output then 0x4000 else 0) 0 f.input
      ≡ output_bit f * 0x4000 + bits_value f.input
word_lem f h =
    ap (λ (t : ℕ). write_bits t 0 f.input) (start f.output)
    ∙ write_bits-value f.input 0 (output_bit f) 0 (omega arith)
    ∙ rw h (omega arith)
  where
    start : (b : Bool) → (if b then 0x4000 else 0) ≡ bool_into b * 2 ^ length f.input * 2 ^ 0 + 0
    start true = rw h refl
    start false = rw h refl

output_lem :
    (b : Bool) (w v : ℕ)
    → v < 0x4000
    → w ≡ bool_into b * 0x4000 + v
    → not (bit_and w 0x4000 == 0) ≡ b
output_lem true w v h e = ground (arith, and_bit 14 w)
output_lem false w v h e = ground (arith, and_bit 14 w)

overfull :
    (f : HecField) (rest : List ℕ)
    → IsHecField f
    → hec_field.try_from_bytes (hec_field.to_bytes f ++ rest) ≡ ok f
unfolding hec_field
overfull f rest h =
    let w : ℕ = write_bits (if f.output then 0x4000 else 0) 0 f.input in
    let small : bits_value f.input < 0x4000 = rw h at (bits_value-lt f.input) in
    let word : w ≡ output_bit f * 0x4000 + bits_value f.input = word_lem f h in
    let inputs : read_bits w 0 14 ≡ f.input =
      rw h at (read_bits-value f.input w 0 (output_bit f) (rw h (omega arith))) in
    rw
      (
        u16-Prefixed.overfull w rest (omega (arith, bool_into-le f.output)),
        inputs,
        output_lem f.output w (bits_value f.input) small word,
      )
      refl

-- A HEC field with 14 inputs is written as two bytes and read back input by input, also with any
-- bytes behind; what is read has 14 inputs; and no bytes make the decoder panic.
pub hec_field-Prefixed : Prefixed hec_field IsHecField
unfolding hec_field
hec_field-Prefixed = record {
  lawful = record {
    to_bytes-IsByte = λ f h.
        u16-Prefixed.lawful.to_bytes-IsByte (write_bits (if f.output then 0x4000 else 0) 0 f.input)
          (omega (arith, word_lem f h, rw h at (bits_value-lt f.input), bool_into-le f.output));
    length-to_bytes = λ f h. unfold u16 in refl;
    try_from_bytes-to_bytes = λ f h. rw append-nil at (overfull f [] h);
    decoded_valid = λ bytes f b e.
        let (w, _, same) = >>=-eq-ok (u16.try_from_bytes bytes) _ e in
        rw (← ok-injective same) (length-read_bits w 0 14);
    len_le = λ bytes f e.
        let (w, read, _) = >>=-eq-ok (u16.try_from_bytes bytes) _ e in
        unfold u16 in (u16-Prefixed.lawful.len_le bytes w read);
    never_panics = λ bytes e. ground (arith, u16-Prefixed.lawful.never_panics bytes);
  };
  overfull = overfull;
}
