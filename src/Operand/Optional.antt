-- ===== src/Operand/Optional.antt =====
-- `OperandEncodable for Option<T>` (linux-cec/src/operand.rs): no bytes are no value.
use linux_cec.Prelude.{
  ℕ, ◌≤◌, ◌≡◌, ◌≢◌, refl, List, [], arith, length, All, ltb, if◌then◌else◌, Option, none, some,
}
use linux_cec.Core.Range.{at_least}
use linux_cec.Core.Error.{ok, panicked, ◌>>=◌}
use linux_cec.Core.Slice.{IsByte}
use linux_cec.Operand.Encodable.{OperandEncodable, Lawful}

unfoldable pub optional : {A : Type 0} → OperandEncodable A → OperandEncodable (Option A)
optional {A} c = record {
  to_bytes = elim [ none ↦ [] | some a ↦ c.to_bytes a ];
  try_from_bytes = λ bytes.
      if ltb (length bytes) 1 then ok none else (do a ← c.try_from_bytes bytes; ok (some a));
  len = elim [ none ↦ 0 | some a ↦ c.len a ];
  expected_len = at_least 0;
}

abbrev pub Optionally : {A : Type 0} → (A → Type 0) → Option A → Type 0
Optionally P none = Unit {0}
Optionally P (some a) = P a

module _ {A : Type 0} (c : OperandEncodable A) (P : A → Type 0) (l : Lawful c P)
    (not_empty : (a : A) → P a → 1 ≤ c.len a) where
  read_some :
      (bytes : List ℕ) (a : A)
      → 1 ≤ length bytes
      → c.try_from_bytes bytes ≡ ok a
      → (optional c).try_from_bytes bytes ≡ ok (some a)
  unfolding optional
  read_some bytes a h e = ground arith

  round_trip :
      (o : Option A) → Optionally P o → (optional c).try_from_bytes ((optional c).to_bytes o) ≡ ok o
  unfolding optional
  round_trip none h = refl
  round_trip (some a) h =
      read_some (c.to_bytes a) a (omega (arith, not_empty a h, l.length-to_bytes a h))
        (l.try_from_bytes-to_bytes a h)

  some-Read :
      (bytes : List ℕ) (a : A)
      → (optional c).try_from_bytes bytes ≡ ok (some a)
      → c.try_from_bytes bytes ≡ ok a
  unfolding optional
  some-Read bytes a e = ground arith

  decoded :
      (bytes : List ℕ) (o : Option A)
      → All IsByte bytes
      → (optional c).try_from_bytes bytes ≡ ok o
      → Optionally P o
  decoded bytes none h e = tt
  decoded bytes (some a) h e = l.decoded_valid bytes a h (some-Read bytes a e)

  fits :
      (bytes : List ℕ) (o : Option A)
      → (optional c).try_from_bytes bytes ≡ ok o
      → (optional c).len o ≤ length bytes
  fits bytes none e = unfold optional in omega arith
  fits bytes (some a) e = unfold optional in (l.len_le bytes a (some-Read bytes a e))

  no_panic : (bytes : List ℕ) → (optional c).try_from_bytes bytes ≢ panicked
  unfolding optional
  no_panic bytes e = ground (arith, l.never_panics bytes)

  to_bytes_shape :
      (o : Option A)
      → Optionally P o
      → All IsByte ((optional c).to_bytes o)
        × (length ((optional c).to_bytes o) ≡ (optional c).len o)
  unfolding optional
  to_bytes_shape none h = (tt, refl)
  to_bytes_shape (some a) h = (l.to_bytes-IsByte a h, l.length-to_bytes a h)

  -- For a lawful codec whose valid values are not empty, the codec of the optional values: a value
  -- or its absence is written as bytes, `len` of them, and read back; what is read from bytes is
  -- valid and not longer than the bytes; and no bytes make the decoder panic.
  pub optional-Lawful : Lawful (optional c) (Optionally P)
  optional-Lawful = record {
    to_bytes-IsByte = λ o h. (to_bytes_shape o h).0;
    length-to_bytes = λ o h. (to_bytes_shape o h).1;
    try_from_bytes-to_bytes = round_trip;
    decoded_valid = decoded;
    len_le = fits;
    never_panics = no_panic;
  }
