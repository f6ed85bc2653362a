-- ===== src/Operand/Structs/Laws.antt =====
-- The codec that `derive(Operand)` generates for a struct with named fields is lawful.
use linux_cec.Core.Range.{at_least}
use linux_cec.Core.Slice.{check_at_least_short, check_at_least, IsByte}
use linux_cec.Operand.Fields.Decoded.{decode-never_panics, decode-Valid, Decoded}
use linux_cec.Prelude.{
  refl, ap, inr, length-append, arith, ◌∙◌, [], inl, ◌≢◌, le_or_lt, append-nil, ◌++◌, ◌≤◌, All, ◌<◌,
}
use linux_cec.Operand.Fields.RoundTrip.{
  decode-encode_overfull, length-encode, AllPrefixed-AllLawful, encode-IsByte,
}
use linux_cec.Operand.Encodable.{Prefixed}
use linux_cec.Operand.Fields.{
  decode, encode, Valid, AllLawful, size, Tuple, apply, AllPrefixed, Validity,
}
use linux_cec.Operand.Structs.{ℕ, length, List, derive_struct, ◌≡◌, Struct}
use linux_cec.Core.Error.{out_of_range, err, ok, panicked}

module _ {S : Type 0} (s : Struct S) (v : Validity s.fields) (all : AllPrefixed s.fields v)
    (apply-parts : (a : S) → apply s.fields S s.build (s.parts a) ≡ a)
    (parts-apply : (t : Tuple s.fields) → s.parts (apply s.fields S s.build t) ≡ t)
    (size_of_fields : (t : Tuple s.fields) → size s.fields t ≡ s.size_of) where
  abbrev pub IsValidStruct : S → Type 0
  IsValidStruct a = Valid s.fields v (s.parts a)

  lawful : AllLawful s.fields v
  lawful = AllPrefixed-AllLawful s.fields v all

  length-to_bytes : (a : S) → IsValidStruct a → length (encode s.fields (s.parts a)) ≡ s.size_of
  length-to_bytes a h = length-encode s.fields v (s.parts a) lawful h ∙ size_of_fields (s.parts a)

  long_enough :
      (bytes : List ℕ)
      → s.size_of ≤ length bytes
      → (derive_struct s).try_from_bytes bytes ≡ decode s.fields S s.build bytes 0
  unfolding derive_struct
  long_enough bytes h = rw (check_at_least s.size_of (length bytes) "bytes" h) refl

  too_short :
      (bytes : List ℕ)
      → length bytes < s.size_of
      → (derive_struct s).try_from_bytes bytes
        ≡ err (out_of_range (at_least s.size_of) (length bytes) "bytes")
  unfolding derive_struct
  too_short bytes h = rw (check_at_least_short s.size_of (length bytes) "bytes" h) refl

  overfull :
      (a : S) (rest : List ℕ)
      → IsValidStruct a
      → (derive_struct s).try_from_bytes (encode s.fields (s.parts a) ++ rest) ≡ ok a
  overfull a rest h =
      long_enough (encode s.fields (s.parts a) ++ rest)
        (omega (arith, length-append (encode s.fields (s.parts a)) rest, length-to_bytes a h))
      ∙ decode-encode_overfull s.fields v S s.build (s.parts a) [] rest all h
      ∙ ap ok (apply-parts a)

  abbrev Read : List ℕ → S → Type 0
  Read bytes a = (s.size_of ≤ length bytes) × Decoded s.fields v S s.build bytes 0 a

  some-Read :
      (bytes : List ℕ) (a : S) → (derive_struct s).try_from_bytes bytes ≡ ok a → Read bytes a
  some-Read bytes a e = elim (le_or_lt s.size_of (length bytes)) [
    | inl h ↦ (
      h,
      decode-Valid s.fields v S s.build bytes 0 a lawful (omega arith)
          (rw (long_enough bytes h) at e),
    )
    | inr h ↦ cc (e, too_short bytes h)
  ]

  valid :
      (bytes : List ℕ) (a : S)
      → All IsByte bytes
      → (derive_struct s).try_from_bytes bytes ≡ ok a
      → IsValidStruct a
  valid bytes a b e =
      let (_, (t, built, _, fields_valid)) = some-Read bytes a e in
      rw (built, parts-apply t) (fields_valid b)

  no_panic : (bytes : List ℕ) → (derive_struct s).try_from_bytes bytes ≢ panicked
  no_panic bytes e = elim (le_or_lt s.size_of (length bytes)) [
    | inl h ↦
        decode-never_panics s.fields v S s.build bytes 0 lawful (omega arith)
          (rw (long_enough bytes h) at e)
    | inr h ↦ cc (too_short bytes h)
  ]

  -- For a struct that is no more than its fields, whose codecs keep their laws and whose sizes add
  -- up to its `size_of`, the generated codec: its values that satisfy the predicate are written as
  -- bytes, `len` of them, and read back, also with any bytes behind; what is read from bytes
  -- satisfies the predicate and is not longer than the bytes; and no bytes make the decoder panic.
  pub derive_struct-Prefixed : Prefixed (derive_struct s) IsValidStruct
  derive_struct-Prefixed = record {
    lawful = record {
      to_bytes-IsByte =
          λ a h. unfold derive_struct in (encode-IsByte s.fields v (s.parts a) lawful h);
      length-to_bytes = λ a h. unfold derive_struct in (length-to_bytes a h);
      try_from_bytes-to_bytes = λ a h. unfold derive_struct in (rw append-nil at (overfull a [] h));
      decoded_valid = valid;
      len_le = λ bytes a e. unfold derive_struct in ((some-Read bytes a e).0);
      never_panics = no_panic;
    };
    overfull = λ a rest h. unfold derive_struct in (overfull a rest h);
  }
