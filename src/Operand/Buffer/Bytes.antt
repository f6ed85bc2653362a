-- ===== src/Operand/Buffer/Bytes.antt =====
-- Buffers of bytes (linux-cec/src/operand.rs): `BoundedBufferOperand<S, u8>`, and `BufferOperand`,
-- which holds a message's 14 bytes.
use linux_cec.Operand.Buffer.Laws.{read_buffer, reads}
use linux_cec.Core.Error.{ok-injective, ok}
use linux_cec.Core.Slice.{IsByte}
use linux_cec.Operand.Encodable.{OperandEncodable}
use linux_cec.Prelude.{
  replicate, take-append, zero, All-append, ◌++◌, inr, ◌∙◌, [], sym, All-drop, inl, length-drop,
  ◌*◌, ◌-◌, le_or_lt, drop, suc, length, ap, ◌≤◌, ◌∷◌, refl, ◌+◌, ◌≡◌, All, take, arith, List, ℕ,
}
use linux_cec.Operand.Buffer.{
  resized, read_elements, bounded_buffer, concat_bytes, Element, BoundedBuffer,
}
use linux_cec.Operand.OneByte.{one_byte}
use linux_cec.Operand.Buffer.Loop.{goes_on, stops, IsElement}
use linux_cec.Operand.Scalars.{u8, u8-Prefixed}

abbrev pub u8_element : Element ℕ
u8_element = record { codec = u8; size_of = 1; default = 0 }

pub u8_element-IsElement : IsElement u8_element IsByte
u8_element-IsElement = record {
  prefixed = u8-Prefixed;
  size_pos = omega arith;
  len-eq-size = λ x. unfold one_byte in refl;
}

abbrev pub bytes_operand : ℕ → OperandEncodable (BoundedBuffer ℕ)
bytes_operand capacity = bounded_buffer u8_element capacity

-- The bytes that are in use.
abbrev pub contents : BoundedBuffer ℕ → List ℕ
contents b = take b.len b.buffer

pub contents-concat_bytes : (xs : List ℕ) → concat_bytes u8 xs ≡ xs
unfolding one_byte
contents-concat_bytes [] = refl
contents-concat_bytes (x ∷ xs) = ap (λ (ys : List ℕ). x ∷ ys) (contents-concat_bytes xs)

module _ (Q : ℕ → Type 0) (capacity : ℕ) (bytes : List ℕ) (q : All Q bytes) where
  read_byte :
      (offset : ℕ)
      → offset + 1 ≤ length bytes
      → (b : ℕ) × (u8.try_from_bytes (drop offset bytes) ≡ ok b) × Q b
  unfolding one_byte
  read_byte offset h = go (drop offset bytes) (length-drop offset bytes) (All-drop Q offset bytes q)
    where
      go :
          (xs : List ℕ)
          → length xs ≡ length bytes - offset
          → All Q xs
          → (b : ℕ) × (u8.try_from_bytes xs ≡ ok b) × Q b
      go [] e a = absurd (omega arith)
      go (b ∷ xs) e a = (b, ground arith, a.0)

  -- What all the bytes satisfy, all that is read of them satisfies.
  read_elements-All :
      (fuel offset : ℕ) (buf out : List ℕ)
      → All Q buf
      → read_elements u8_element capacity bytes fuel offset buf ≡ ok out
      → All Q out
  read_elements-All zero offset buf out h e = unfold read_elements in cc
  read_elements-All (suc fuel) offset buf out h e = elim (le_or_lt (capacity * 1) offset) [
    | inl full ↦
        rw
          (ok-injective (
            sym (
              stops u8_element IsByte u8_element-IsElement capacity bytes fuel offset buf
                (inl full))
            ∙ e))
          at h
    | inr room ↦ elim (le_or_lt (offset + 1) (length bytes)) [
      | inl more ↦
          let (b, read, valid) = read_byte offset more in
          read_elements-All fuel (offset + 1) (buf ++ (b ∷ [])) out
            (All-append Q buf (b ∷ []) h (valid, tt))
            (sym (
                goes_on u8_element IsByte u8_element-IsElement capacity bytes fuel offset buf (ok b)
                  room more read)
              ∙ e)
      | inr short ↦
          rw
            (ok-injective (
              sym (
                stops u8_element IsByte u8_element-IsElement capacity bytes fuel offset buf
                  (inr short))
              ∙ e))
            at h
    ]
  ]

module _ (capacity : ℕ) (bytes : List ℕ) (b : BoundedBuffer ℕ)
    (e : (bytes_operand capacity).try_from_bytes bytes ≡ ok b) where
  contents-resized : (out : List ℕ) → b ≡ resized u8_element capacity out → contents b ≡ out
  unfolding resized
  contents-resized out same =
      ap contents same ∙ take-append out (replicate (capacity - length out) 0)

  contents_out :
      (out : List ℕ) × (read_elements u8_element capacity bytes (suc capacity) 0 [] ≡ ok out)
      × (contents b ≡ out)
  contents_out =
      let (out, read, same) =
        read_buffer u8_element IsByte u8_element-IsElement capacity bytes b e in
      (out, read, contents-resized out same)

  pub contents-All : (Q : ℕ → Type 0) → All Q bytes → All Q (contents b)
  contents-All Q h =
      let (out, read, same) = contents_out in
      rw same (read_elements-All Q capacity bytes h (suc capacity) 0 [] out tt read)

  pub length-contents : length (contents b) ≤ length bytes
  length-contents =
      let (out, read, same) = contents_out in
      let (_, room, _) = reads u8_element IsByte u8_element-IsElement capacity bytes out read in
      rw same (omega arith)
