-- ===== src/Operand/Scalars.antt =====
-- The scalar operands `u8`, `u16`, `bool`, `[u8; S]`, and newtypes of them (linux-cec/src/operand.rs).
use linux_cec.Prelude.{
  ℕ, ◌+◌, ◌*◌, ◌/◌, ◌^◌, ◌≤◌, ◌<◌, ◌≡◌, ◌≢◌, refl, ap, ◌∙◌, List, [], ◌∷◌, ◌++◌, arith, length,
  take, take-append, length-take, length-append, All-take, append-nil, All, bit_and, bit_or, Bool,
  true, false, ◌==◌,
}
use linux_cec.Prelude.Bits.{or_shifted, and_mask}
use mathlib.Core.Bool.{not}
use linux_cec.Core.Range.{at_least, admits}
use linux_cec.Core.Error.{ok, panicked, ◌>>=◌, ◌>>◌, check}
use linux_cec.Core.Slice.{slice_to_lem, check_at_least, IsByte, index, slice_to}
use linux_cec.Core.PhysicalAddress.{IsU16}
use linux_cec.Operand.Encodable.{OperandEncodable, Prefixed}
use linux_cec.Operand.OneByte.{one_byte, one_byte-Prefixed}

abbrev pub u8 : OperandEncodable ℕ
u8 = one_byte (λ b. b) (λ b. ok b)

pub u8-Prefixed : Prefixed u8 IsByte
u8-Prefixed =
    one_byte-Prefixed (λ b. b) (λ b. ok b) IsByte
      (record {
        into-IsByte = λ a p. p;
        try_from-into = λ a p. refl;
        try_from_valid = λ b a h e. ground arith;
        try_from-ne-panicked = λ b e. cc;
      })

abbrev pub bool_into : Bool → ℕ
bool_into false = 0
bool_into true = 1

abbrev pub bool : OperandEncodable Bool
bool = one_byte bool_into (λ b. ok (not (b == 0)))

bool_try_from-into : (a : Bool) → ok (not (bool_into a == 0)) ≡ ok a
bool_try_from-into true = refl
bool_try_from-into false = refl

pub bool-Prefixed : Prefixed bool (λ _. Unit {0})
bool-Prefixed =
    one_byte-Prefixed bool_into (λ b. ok (not (b == 0))) (λ _. Unit {0})
      (record {
        into-IsByte = elim [ true ↦ λ _. omega arith | false ↦ λ _. omega arith ];
        try_from-into = λ a _. bool_try_from-into a;
        try_from_valid = λ b a h e. tt;
        try_from-ne-panicked = λ b e. cc;
      })

-- `*self >> 8` and `*self & 0xFF`, and back.
unfoldable pub u16 : OperandEncodable ℕ
unfolding check admits index
u16 = record {
  to_bytes = λ v. (v / 2 ^ 8) ∷ bit_and v 0xff ∷ [];
  try_from_bytes = λ bytes. do
    check (at_least 2) (length bytes) "bytes"
    high ← index bytes 0
    low ← index bytes 1
    ok (bit_or (high * 2 ^ 8) low);
  len = λ v. 2;
  expected_len = at_least 2;
}

two_bytes :
    (a b : ℕ) (rest : List ℕ) → u16.try_from_bytes (a ∷ b ∷ rest) ≡ ok (bit_or (a * 2 ^ 8) b)
unfolding u16
two_bytes a b rest = ground arith

two_bytes_value : (a b : ℕ) → b < 256 → bit_or (a * 2 ^ 8) b ≡ a * 256 + b
two_bytes_value a b h = or_shifted 8 a b h

u16_overfull :
    (v : ℕ) (rest : List ℕ) → IsU16 v → u16.try_from_bytes (u16.to_bytes v ++ rest) ≡ ok v
unfolding u16
u16_overfull v rest h =
    two_bytes (v / 2 ^ 8) (bit_and v 0xff) rest
    ∙ ap ok (omega (arith, two_bytes_value (v / 2 ^ 8) (bit_and v 0xff), and_mask 8 v))

decoded-IsU16 :
    (bytes : List ℕ) (v : ℕ) → All IsByte bytes → u16.try_from_bytes bytes ≡ ok v → IsU16 v
unfolding u16
decoded-IsU16 [] v h e = cc
decoded-IsU16 (a ∷ []) v h e = cc
decoded-IsU16 (a ∷ b ∷ rest) v h e = ground (arith, two_bytes_value a b)

u16_not_short : (bytes : List ℕ) (v : ℕ) → u16.try_from_bytes bytes ≡ ok v → 2 ≤ length bytes
unfolding u16
u16_not_short [] v e = cc
u16_not_short (a ∷ []) v e = cc
u16_not_short (a ∷ b ∷ rest) v e = omega arith

u16_no_panic : (bytes : List ℕ) → u16.try_from_bytes bytes ≢ panicked
unfolding u16
u16_no_panic [] e = cc
u16_no_panic (a ∷ []) e = cc
u16_no_panic (a ∷ b ∷ rest) e = ground arith

-- A number of 16 bits is written as two bytes and read back, also with any bytes behind; what is
-- read from bytes has 16 bits; and no bytes make the decoder panic.
pub u16-Prefixed : Prefixed u16 IsU16
unfolding u16
u16-Prefixed = record {
  lawful = record {
    to_bytes-IsByte = λ v h. omega (arith, and_mask 8 v);
    length-to_bytes = λ v h. refl;
    try_from_bytes-to_bytes = λ v h. u16_overfull v [] h;
    decoded_valid = decoded-IsU16;
    len_le = u16_not_short;
    never_panics = u16_no_panic;
  };
  overfull = u16_overfull;
}

-- `[u8; S]`, as a list of `size` bytes.
unfoldable pub array : ℕ → OperandEncodable (List ℕ)
array size = record {
  to_bytes = λ xs. xs;
  try_from_bytes = λ bytes. do
    check (at_least size) (length bytes) "bytes"
    slice_to bytes size;
  len = λ xs. size;
  expected_len = at_least size;
}

abbrev pub IsArray : ℕ → List ℕ → Type 0
IsArray size xs = (length xs ≡ size) × All IsByte xs

array_read :
    (size : ℕ) (bytes : List ℕ)
    → size ≤ length bytes
    → (array size).try_from_bytes bytes ≡ ok (take size bytes)
unfolding array
array_read size bytes h =
    rw (check_at_least size (length bytes) "bytes" h) (slice_to_lem bytes size h)

array_ok :
    (size : ℕ) (bytes xs : List ℕ)
    → (array size).try_from_bytes bytes ≡ ok xs
    → (size ≤ length bytes) × (xs ≡ take size bytes)
unfolding array check admits slice_to
array_ok size bytes xs e = ground arith

array_no_panic : (size : ℕ) (bytes : List ℕ) → (array size).try_from_bytes bytes ≢ panicked
unfolding array check admits slice_to
array_no_panic size bytes e = ground arith

array_overfull :
    (size : ℕ) (xs rest : List ℕ)
    → IsArray size xs
    → (array size).try_from_bytes (xs ++ rest) ≡ ok xs
array_overfull size xs rest (h, _) =
    array_read size (xs ++ rest) (omega (arith, length-append xs rest))
    ∙ ap ok (rw (← h) (take-append xs rest))

-- An array of `size` bytes is written as it is and read back, also with any bytes behind; what is
-- read from bytes is such an array; and no bytes make the decoder panic.
pub array-Prefixed : (size : ℕ) → Prefixed (array size) (IsArray size)
array-Prefixed size = record {
  lawful = record {
    to_bytes-IsByte = λ xs h. unfold array in h.1;
    length-to_bytes = λ xs h. unfold array in h.0;
    try_from_bytes-to_bytes =
        λ xs h. unfold array in (rw append-nil at (array_overfull size xs [] h));
    decoded_valid = λ bytes xs h e.
        let (long, same) = array_ok size bytes xs e in
        rw same (length-take size bytes long, All-take IsByte size bytes h);
    len_le = λ bytes xs e. unfold array in (array_ok size bytes xs e).0;
    never_panics = array_no_panic size;
  };
  overfull = λ xs rest h. unfold array in (array_overfull size xs rest h);
}
