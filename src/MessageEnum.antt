-- ===== src/MessageEnum.antt =====
-- What `derive(MessageEnum)` generates (linux-cec-macros/src/lib.rs, `MessageEnum::add_message`
-- and `MessageEnum::process`): the codec of an enum of messages from its variants' fields.
pub mod Expected
pub mod Laws
use linux_cec.Operand.Fields.{decode, Tuple, field, encode, size, nil, Curried, Fields}
use linux_cec.Operand.Primitive.{try_from_primitive, Primitive}
use linux_cec.Operand.Encodable.{OperandEncodable}
use linux_cec.Core.Range.{only, add, at_least, Range}
use linux_cec.Core.Error.{panicked, out_of_range, ◌>>◌, ◌>>=◌, err, ok, Result, check}
use linux_cec.Prelude.{[], length, map, ◌∷◌, ◌+◌, List, ℕ}

-- `Fields::Unit`, `Fields::Unnamed` with its one field, and `Fields::Named`.
pub data Variant : Type 1 where
  unit : Variant
  unnamed : {A : Type 0} → OperandEncodable A → Variant
  named : Fields → Variant

abbrev pub fields_of : Variant → Fields
fields_of unit = nil
fields_of (unnamed c) = field c nil
fields_of (named fs) = fs

-- One step of the fold over the lengths of named fields; its other cases are `todo!`.
unfoldable pub fold_step : Range ℕ → Range ℕ → Result (Range ℕ)
fold_step (at_least x) (at_least y) = ok (at_least (x + y))
fold_step (at_least x) (only ys) = ok (only (map (λ y. x + y) ys))
fold_step accum new = panicked

unfoldable pub fold_lens : Range ℕ → Fields → Result (Range ℕ)
fold_lens accum nil = ok accum
fold_lens accum (field c fs) = do accum' ← fold_step accum c.expected_len; fold_lens accum' fs

unfoldable pub expected_len : Variant → Result (Range ℕ)
unfolding fold_lens
expected_len unit = ok (at_least 1)
expected_len (unnamed c) = ok (add c.expected_len 1)
expected_len (named fs) = fold_lens (at_least 1) fs

-- An enum `M` of messages, with the opcodes `O` generated for it. The parts of a message are the
-- fields that its variant binds.
pub record MessageEnum (M O : Type 0) : Type 1 where
  pub opcodes : Primitive O
  pub variant : O → Variant
  pub build : (o : O) → Curried (fields_of (variant o)) M
  pub opcode : M → O
  pub parts : (m : M) → Tuple (fields_of (variant (opcode m)))

module _ {M O : Type 0} (e : MessageEnum M O) where
  unfoldable pub to_bytes : M → List ℕ
  to_bytes m =
      e.opcodes.discriminant (e.opcode m) ∷ encode (fields_of (e.variant (e.opcode m))) (e.parts m)

  unfoldable pub len : M → ℕ
  len m = 1 + size (fields_of (e.variant (e.opcode m))) (e.parts m)

  unfoldable pub decode_message : List ℕ → O → Result M
  unfolding expected_len check
  decode_message bytes opcode = do
    expected ← expected_len (e.variant opcode)
    check expected (length bytes) "bytes"
    decode (fields_of (e.variant opcode)) M (e.build opcode) bytes 1

  unfoldable pub try_from_bytes : List ℕ → Result M
  unfolding decode_message
  try_from_bytes [] = err (out_of_range (at_least 1) 0 "bytes")
  try_from_bytes (byte ∷ bytes) = do
    opcode ← try_from_primitive e.opcodes byte
    decode_message (byte ∷ bytes) opcode

  -- The enum as an operand of another message.
  abbrev pub message_operand : OperandEncodable M
  message_operand = record {
    to_bytes = to_bytes;
    try_from_bytes = try_from_bytes;
    len = len;
    expected_len = at_least 1;
  }
