-- ===== src/Operand/Buffer/Laws.antt =====
-- A buffer is read back, and what is read is a buffer within its bounds.
use linux_cec.Prelude.{
  ℕ, suc, ◌-◌, ◌*◌, ◌≤◌, ◌≡◌, ◌≢◌, ap, ◌∙◌, List, [], ◌∷◌, arith, length, take, replicate, All,
  All-append, length-append, take-append, length-take,
}
use Prim.Native.Nat.{min}
use linux_cec.Core.Error.{ok, panicked, >>=-eq-ok}
use linux_cec.Core.Slice.{IsByte}
use linux_cec.Operand.Encodable.{Lawful}
use linux_cec.Operand.Fields.Decoded.{Result-cases}
use mathlib.Core.Logic.{inl, inr}
use linux_cec.Operand.Buffer.{
  BoundedBuffer, Element, concat_bytes, read_elements, resized, bounded_buffer,
}
use linux_cec.Operand.Buffer.Loop.{
  IsElement, Reads, read_elements-Reads, read_elements-concat_bytes, length-concat_bytes,
}

-- At most `capacity` valid elements, followed by nothing but padding.
pub record IsBuffer {T : Type 0} (e : Element T) (P : T → Type 0) (capacity : ℕ)
    (b : BoundedBuffer T) : Type 0 where
  pub within : b.len ≤ capacity
  pub long : b.len ≤ length b.buffer
  pub padded : resized e capacity (take b.len b.buffer) ≡ b
  pub elements : All P (take b.len b.buffer)

module _ {T : Type 0} (e : Element T) (P : T → Type 0) (l : IsElement e P) (capacity : ℕ) where
  -- What the elements are resized to is a buffer.
  pub resized-IsBuffer :
      (xs : List T)
      → length xs ≤ capacity
      → All P xs
      → IsBuffer e P capacity (resized e capacity xs)
  unfolding resized
  resized-IsBuffer xs h p = record {
    within = h;
    long = omega (arith, length-append xs (replicate (capacity - length xs) e.default));
    padded = rw (take-append xs (replicate (capacity - length xs) e.default));
    elements = rw (take-append xs (replicate (capacity - length xs) e.default)) p;
  }

  concat_bytes-IsByte : (xs : List T) → All P xs → All IsByte (concat_bytes e.codec xs)
  concat_bytes-IsByte [] h = tt
  concat_bytes-IsByte (x ∷ xs) h =
      All-append IsByte (e.codec.to_bytes x) (concat_bytes e.codec xs)
        (l.prefixed.lawful.to_bytes-IsByte x h.0) (concat_bytes-IsByte xs h.1)

  buffer_round_trip :
      (b : BoundedBuffer T)
      → IsBuffer e P capacity b
      → (bounded_buffer e capacity).try_from_bytes ((bounded_buffer e capacity).to_bytes b) ≡ ok b
  unfolding bounded_buffer
  buffer_round_trip b h =
      let count : length (take b.len b.buffer) ≡ b.len = length-take b.len b.buffer h.long in
      rw
        (read_elements-concat_bytes e P l capacity (take b.len b.buffer) [] (suc capacity) []
          h.elements (omega (arith, h.within)) (grind (arith, h.within)))
        (ap ok h.padded)

  pub read_buffer :
      (bytes : List ℕ) (b : BoundedBuffer T)
      → (bounded_buffer e capacity).try_from_bytes bytes ≡ ok b
      → (out : List T) × (read_elements e capacity bytes (suc capacity) 0 [] ≡ ok out)
        × (b ≡ resized e capacity out)
  unfolding bounded_buffer
  read_buffer bytes b h =
      let (out, read, same) = >>=-eq-ok _ (λ buf. ok (resized e capacity buf)) h in (out, read, cc)

  loop-Reads :
      (bytes : List ℕ)
      → Reads e P l capacity bytes [] (read_elements e capacity bytes (suc capacity) 0 [])
  loop-Reads bytes =
      read_elements-Reads e P l capacity bytes (suc capacity) 0 [] (omega arith) (omega arith)
        (omega arith) (omega arith)

  pub reads :
      (bytes : List ℕ) (out : List T)
      → read_elements e capacity bytes (suc capacity) 0 [] ≡ ok out
      → Reads e P l capacity bytes [] (ok out)
  reads bytes out h = rw h at (loop-Reads bytes)

  decoded-IsBuffer :
      (bytes : List ℕ) (b : BoundedBuffer T)
      → All IsByte bytes
      → (bounded_buffer e capacity).try_from_bytes bytes ≡ ok b
      → IsBuffer e P capacity b
  decoded-IsBuffer bytes b h r =
      let (out, read, same) = read_buffer bytes b r in
      let (few, _, valid) = reads bytes out read in rw same (resized-IsBuffer out few (valid h tt))

  buffer_length :
      (b : BoundedBuffer T)
      → IsBuffer e P capacity b
      → length (concat_bytes e.codec (take b.len b.buffer)) ≡ min b.len capacity * e.size_of
  buffer_length b h =
      let count : length (take b.len b.buffer) ≡ min b.len capacity =
        omega (arith, length-take b.len b.buffer h.long, h.within) in
      length-concat_bytes e P l capacity (take b.len b.buffer) h.elements
      ∙ ap (λ (t : ℕ). t * e.size_of) count

  buffer_fits :
      (bytes : List ℕ) (b : BoundedBuffer T)
      → (bounded_buffer e capacity).try_from_bytes bytes ≡ ok b
      → min b.len capacity * e.size_of ≤ length bytes
  unfolding resized
  buffer_fits bytes b r =
      let (out, read, same) = read_buffer bytes b r in
      let (few, room, _) = reads bytes out read in
      let count : min b.len capacity ≡ length out =
        omega (arith, ap (λ (x : BoundedBuffer T). x.len) same) in
      rw count room

  buffer_no_panic : (bytes : List ℕ) → (bounded_buffer e capacity).try_from_bytes bytes ≢ panicked
  unfolding bounded_buffer
  buffer_no_panic bytes h =
      elim (Result-cases (read_elements e capacity bytes (suc capacity) 0 [])) [
        | inl (out, r) ↦ cc (rw r at h)
        | inr (inl (x, r)) ↦ cc (rw r at h)
        | inr (inr r) ↦ rw r at (loop-Reads bytes)
      ]

  -- A bounded buffer of elements of a fixed size that are read back one by one: a buffer with at
  -- most `capacity` valid elements and the padding of `resize` is written as bytes, `len` of them,
  -- and read back from them; what is read from bytes is such a buffer, not longer than the bytes;
  -- and no bytes make the decoder panic.
  pub bounded_buffer-Lawful : Lawful (bounded_buffer e capacity) (IsBuffer e P capacity)
  unfolding bounded_buffer
  bounded_buffer-Lawful = record {
    to_bytes-IsByte = λ b h. concat_bytes-IsByte (take b.len b.buffer) h.elements;
    length-to_bytes = buffer_length;
    try_from_bytes-to_bytes = buffer_round_trip;
    decoded_valid = decoded-IsBuffer;
    len_le = buffer_fits;
    never_panics = buffer_no_panic;
  }
