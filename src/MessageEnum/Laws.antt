-- ===== src/MessageEnum/Laws.antt =====
-- The codec that `derive(MessageEnum)` generates (linux-cec-macros/src/lib.rs) is lawful.
use linux_cec.Operand.Fields.Decoded.{decode-Valid, decode-never_panics}
use linux_cec.MessageEnum.Expected.{ExpectsVariant}
use linux_cec.Operand.Fields.RoundTrip.{
  decode-encode, length-encode, encode-IsByte, InitPrefixed-AllLawful,
}
use linux_cec.Core.Range.{admits, Range}
use linux_cec.Core.Slice.{IsByte}
use linux_cec.Core.Error.{out_of_range, err, >>=-eq-ok, >>=-eq-panicked, panicked, ok, check}
use linux_cec.Operand.Encodable.{Lawful}
use linux_cec.Operand.Fields.{decode, Tuple, apply, size, InitPrefixed, Validity, Valid, AllLawful}
use linux_cec.Operand.Primitive.{try_from_primitive-ne-panicked, try_from_primitive, IsEnum}
use linux_cec.MessageEnum.{
  expected_len, fields_of, len, message_operand, decode_message, to_bytes, try_from_bytes,
  MessageEnum,
}
use linux_cec.Prelude.{
  ap, refl, inr, ◌∙◌, [], inl, false, true, arith, ◌+◌, Bool-cases, ◌∷◌, length, ◌≢◌, ◌≤◌, All, ◌≡◌,
  List, ℕ,
}

-- What an enum of messages owes: its opcodes are those of the enum, its fields have lawful codecs,
-- of which all but the last know where they end, and it is no more than its opcode and its fields.
pub record IsMessageEnum {M O : Type 0} (e : MessageEnum M O)
    (validity : (o : O) → Validity (fields_of (e.variant o))) : Type 1 where
  pub opcodes-IsEnum : IsEnum e.opcodes
  pub lawful : (o : O) → InitPrefixed (fields_of (e.variant o)) (validity o)
  pub expects : (o : O) → ExpectsVariant (e.variant o) (validity o)
  pub build-parts :
      (m : M) → apply (fields_of (e.variant (e.opcode m))) M (e.build (e.opcode m)) (e.parts m) ≡ m
  pub valid_build :
      (o : O) (t : Tuple (fields_of (e.variant o)))
      → Valid (fields_of (e.variant o)) (validity o) t
      → (let m = apply (fields_of (e.variant o)) M (e.build o) t in
          Valid (fields_of (e.variant (e.opcode m))) (validity (e.opcode m)) (e.parts m))
  pub len_build :
      (o : O) (t : Tuple (fields_of (e.variant o)))
      → (len e (apply (fields_of (e.variant o)) M (e.build o) t)
          ≡ 1 + size (fields_of (e.variant o)) t)

-- The fields of the message are valid.
abbrev pub IsValid :
    {M O : Type 0} (e : MessageEnum M O)
    → ((o : O) → Validity (fields_of (e.variant o)))
    → M
    → Type 0
IsValid e validity m =
    Valid (fields_of (e.variant (e.opcode m))) (validity (e.opcode m)) (e.parts m)

module _ {M O : Type 0} (e : MessageEnum M O)
    (validity : (o : O) → Validity (fields_of (e.variant o))) (l : IsMessageEnum e validity) where
  all_lawful : (o : O) → AllLawful (fields_of (e.variant o)) (validity o)
  all_lawful o = InitPrefixed-AllLawful (fields_of (e.variant o)) (validity o) (l.lawful o)

  -- For every enum of messages that keeps the interface's laws, a message with valid fields is
  -- written as `len` bytes.
  pub length-to_bytes : (m : M) → IsValid e validity m → length (to_bytes e m) ≡ len e m
  unfolding to_bytes len
  length-to_bytes m h = omega (
    arith,
    length-encode (fields_of (e.variant (e.opcode m))) (validity (e.opcode m)) (e.parts m)
        (all_lawful (e.opcode m)) h,
  )

  pub to_bytes-IsByte : (m : M) → IsValid e validity m → All IsByte (to_bytes e m)
  unfolding to_bytes
  to_bytes-IsByte m h = (
    l.opcodes-IsEnum.discriminant-lt (e.opcode m),
    encode-IsByte (fields_of (e.variant (e.opcode m))) (validity (e.opcode m)) (e.parts m)
        (all_lawful (e.opcode m)) h,
  )

  -- A message that is long enough is decoded field by field.
  decode_admitted :
      (bytes : List ℕ) (o : O) (r : Range ℕ)
      → expected_len (e.variant o) ≡ ok r
      → admits r (length bytes) ≡ true
      → decode_message e bytes o ≡ decode (fields_of (e.variant o)) M (e.build o) bytes 1
  unfolding decode_message check
  decode_admitted bytes o r expects long = rw (expects, long) refl

  decode_refused :
      (bytes : List ℕ) (o : O) (r : Range ℕ)
      → expected_len (e.variant o) ≡ ok r
      → admits r (length bytes) ≡ false
      → decode_message e bytes o ≡ err (out_of_range r (length bytes) "bytes")
  unfolding decode_message check
  decode_refused bytes o r expects short = rw (expects, short) refl

  -- For every enum of messages that keeps the interface's laws, a message with valid fields is read
  -- back from the bytes that it is written as: the length check admits them, and each field is read
  -- at its offset.
  pub try_from_bytes-to_bytes :
      (m : M) → IsValid e validity m → try_from_bytes e (to_bytes e m) ≡ ok m
  unfolding try_from_bytes
  try_from_bytes-to_bytes m h =
      let o : O = e.opcode m in
      let (r, expects, fits) = l.expects o in
      let long : length (to_bytes e m) ≡ 1 + size (fields_of (e.variant o)) (e.parts m) =
        unfold len in (length-to_bytes m h) in
      let read =
        decode-encode (fields_of (e.variant o)) (validity o) M (e.build o) (e.parts m)
          (e.opcodes.discriminant o ∷ []) (l.lawful o) h in
      unfold to_bytes in
      (rw (l.opcodes-IsEnum.try_from-discriminant o) (
        decode_admitted (to_bytes e m) o r expects (rw long (fits (e.parts m) h))
        ∙ read
        ∙ ap ok (l.build-parts m)))

  no_panic : (bytes : List ℕ) (o : O) → 1 ≤ length bytes → decode_message e bytes o ≢ panicked
  no_panic bytes o h panic =
      let (r, expects, fits) = l.expects o in
      elim (Bool-cases (admits r (length bytes))) [
        | inl long ↦
            decode-never_panics (fields_of (e.variant o)) (validity o) M (e.build o) bytes 1
              (all_lawful o) h (rw (decode_admitted bytes o r expects long) at panic)
        | inr short ↦ cc (decode_refused bytes o r expects short)
      ]

  -- For every enum of messages that keeps the interface's laws, no list of bytes makes the
  -- generated decoder panic: no index or slice is out of bounds, and no `todo!` is reached.
  pub never_panics : (bytes : List ℕ) → try_from_bytes e bytes ≢ panicked
  unfolding try_from_bytes
  never_panics [] h = cc
  never_panics (byte ∷ bytes) h =
      elim (>>=-eq-panicked (try_from_primitive e.opcodes byte) (decode_message e (byte ∷ bytes))
        h) [
          | inl p ↦ try_from_primitive-ne-panicked e.opcodes byte p
          | inr (o, _, p) ↦ no_panic (byte ∷ bytes) o (omega arith) p
        ]

  abbrev Read : List ℕ → M → Type 0
  Read bytes m = (len e m ≤ length bytes) × (All IsByte bytes → IsValid e validity m)

  decoded :
      (bytes : List ℕ) (o : O) (m : M)
      → 1 ≤ length bytes
      → decode_message e bytes o ≡ ok m
      → Read bytes m
  decoded bytes o m h d =
      let (r, expects, fits) = l.expects o in
      elim (Bool-cases (admits r (length bytes))) [
        | inl long ↦
            let (t, built, short, valid) =
              decode-Valid (fields_of (e.variant o)) (validity o) M (e.build o) bytes 1 m
                (all_lawful o) h (rw (decode_admitted bytes o r expects long) at d) in
            rw built (omega (arith, l.len_build o t), λ b. l.valid_build o t (valid b))
        | inr short ↦ cc (decode_refused bytes o r expects short)
      ]

  some-Read : (bytes : List ℕ) (m : M) → try_from_bytes e bytes ≡ ok m → Read bytes m
  unfolding try_from_bytes
  some-Read [] m h = cc
  some-Read (byte ∷ bytes) m h =
      let (o, _, d) =
        >>=-eq-ok (try_from_primitive e.opcodes byte) (decode_message e (byte ∷ bytes)) h in
      decoded (byte ∷ bytes) o m (omega arith) d

  pub message-Lawful : Lawful (message_operand e) (IsValid e validity)
  message-Lawful = record {
    to_bytes-IsByte = to_bytes-IsByte;
    length-to_bytes = length-to_bytes;
    try_from_bytes-to_bytes = try_from_bytes-to_bytes;
    decoded_valid = λ bytes m b h. (some-Read bytes m h).1 b;
    len_le = λ bytes m h. (some-Read bytes m h).0;
    never_panics = never_panics;
  }

  -- For every enum of messages that keeps the interface's laws, a message that is decoded from
  -- bytes is decoded again from the bytes that it is written as.
  pub decoded_again :
      (bytes : List ℕ) (m : M)
      → All IsByte bytes
      → try_from_bytes e bytes ≡ ok m
      → try_from_bytes e (to_bytes e m) ≡ ok m
  decoded_again bytes m b h = try_from_bytes-to_bytes m ((some-Read bytes m h).1 b)
