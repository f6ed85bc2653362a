-- ===== src/Operand/Buffer/Loop.antt =====
-- The loop that reads the elements of a buffer.
use linux_cec.Prelude.{
  drop-append, ◌⊎◌, ℕ, zero, suc, ◌+◌, ◌*◌, ◌≤◌, ◌<◌, ◌≡◌, sym, ap, ◌∙◌, List, [], ◌∷◌, ◌++◌, arith,
  length, drop, All, All-append, All-drop, length-append, append-nil, append_assoc, ltb, leb, ◌&&◌,
  true, inl, inr,
}
use native.Mathlib.Decide.{dec_lt, dec_le}
use linux_cec.Core.Error.{Result, ok, err, panicked, ◌>>=◌, map_err, add_offset}
use linux_cec.Core.Slice.{IsByte, slice_from_lem}
use linux_cec.Operand.Encodable.{Prefixed}
use linux_cec.Operand.Fields.Decoded.{Result-cases}
use linux_cec.Operand.Buffer.{Element, concat_bytes, read_elements}

-- The elements are read one behind the other, each of the same size, which is not 0.
pub record IsElement {T : Type 0} (e : Element T) (P : T → Type 0) : Type 0 where
  pub prefixed : Prefixed e.codec P
  pub size_pos : 0 < e.size_of
  pub len-eq-size : (x : T) → e.codec.len x ≡ e.size_of

module _ {T : Type 0} (e : Element T) (P : T → Type 0) (l : IsElement e P) (capacity : ℕ) where
  -- The loop ends if the next element would not fit, in the buffer or in the bytes.
  pub stops :
      (bytes : List ℕ) (fuel offset : ℕ) (buf : List T)
      → (capacity * e.size_of ≤ offset) ⊎ (length bytes < offset + e.size_of)
      → read_elements e capacity bytes (suc fuel) offset buf ≡ ok buf
  unfolding read_elements
  stops bytes fuel offset buf h = ground arith

  -- Otherwise it reads one element.
  pub goes_on :
      (bytes : List ℕ) (fuel offset : ℕ) (buf : List T) (r : Result T)
      → offset < capacity * e.size_of
      → offset + e.size_of ≤ length bytes
      → e.codec.try_from_bytes (drop offset bytes) ≡ r
      → read_elements e capacity bytes (suc fuel) offset buf ≡ (do
        x ← map_err (add_offset offset) r
        read_elements e capacity bytes fuel (offset + e.size_of) (buf ++ (x ∷ [])))
  unfolding read_elements
  goes_on bytes fuel offset buf r a b read =
      rw (test, read_elements, slice_from_lem bytes offset (omega arith), read)
    where
      test : (ltb offset (capacity * e.size_of) && leb (offset + e.size_of) (length bytes)) ≡ true
      test = ground arith

  pub length-concat_bytes :
      (xs : List T) → All P xs → length (concat_bytes e.codec xs) ≡ length xs * e.size_of
  length-concat_bytes [] h = omega arith
  length-concat_bytes (x ∷ xs) h = omega (
    arith,
    length-append (e.codec.to_bytes x) (concat_bytes e.codec xs),
    l.prefixed.lawful.length-to_bytes x h.0,
    l.len-eq-size x,
    length-concat_bytes xs h.1,
  )

  -- Elements that fit in the buffer are read back, behind those that it has.
  pub read_elements-concat_bytes :
      (xs : List T) (front : List ℕ) (fuel : ℕ) (buf : List T)
      → All P xs
      → length xs < fuel
      → length front + length xs * e.size_of ≤ capacity * e.size_of
      → read_elements e capacity (front ++ concat_bytes e.codec xs) fuel (length front) buf
        ≡ ok (buf ++ xs)
  read_elements-concat_bytes xs front zero buf p f h = absurd (omega arith)
  read_elements-concat_bytes [] front (suc fuel) buf p f h =
      stops (front ++ []) fuel (length front) buf
        (inr (omega (arith, ap length (append-nil front), l.size_pos)))
      ∙ ap ok (sym (append-nil buf))
  read_elements-concat_bytes (x ∷ xs) front (suc fuel) buf p f h =
      goes_on bytes fuel (length front) buf (ok x) (omega (arith, l.size_pos))
        (omega (arith, total, length-concat_bytes (x ∷ xs) p))
        (rw drop-append (l.prefixed.overfull x (concat_bytes e.codec xs) p.0))
      ∙ rw
          (
            ← append_assoc front (e.codec.to_bytes x) (concat_bytes e.codec xs),
            next,
            ← append_assoc buf (x ∷ []) xs,
          )
          (read_elements-concat_bytes xs (front ++ e.codec.to_bytes x) fuel (buf ++ (x ∷ [])) p.1
            (omega arith) (omega (arith, length-append front (e.codec.to_bytes x), width)))
    where
      bytes : List ℕ
      bytes = front ++ concat_bytes e.codec (x ∷ xs)

      total : length bytes ≡ length front + length (concat_bytes e.codec (x ∷ xs))
      total = length-append front (concat_bytes e.codec (x ∷ xs))

      width : length (e.codec.to_bytes x) ≡ e.size_of
      width = l.prefixed.lawful.length-to_bytes x p.0 ∙ l.len-eq-size x

      next : length front + e.size_of ≡ length (front ++ e.codec.to_bytes x)
      next = omega (arith, width, length-append front (e.codec.to_bytes x))

  -- What the loop makes of any bytes: it does not run out of fuel or panic, and the elements fit in
  -- the buffer and in the bytes, and are valid if the bytes are.
  abbrev pub Reads : List ℕ → List T → Result (List T) → Type 0
  Reads bytes buf (ok out) =
      (length out ≤ capacity)
      × (length out * e.size_of ≤ length bytes)
      × (All IsByte bytes → All P buf → All P out)
  Reads bytes buf (err x) = Unit {0}
  Reads bytes buf panicked = ⊥

  room :
      (bytes : List ℕ) (offset : ℕ) (buf : List T)
      → ((length buf < capacity) × (offset + e.size_of ≤ length bytes))
        ⊎ ((capacity ≤ length buf) ⊎ (length bytes < offset + e.size_of))
  room bytes offset buf = elim (dec_lt (length buf) capacity) [
    | yes few ↦ elim (dec_le (offset + e.size_of) (length bytes)) [
      | yes long ↦ inl (few, long)
      | no short ↦ inr (inr (omega arith))
    ]
    | no full ↦ inr (inl (omega arith))
  ]

  before_end :
      (buf : List T) (offset : ℕ)
      → offset ≡ length buf * e.size_of
      → length buf < capacity
      → offset < capacity * e.size_of
  before_end buf offset at few = grind (arith, l.size_pos)

  at_end :
      (buf : List T) (bytes : List ℕ) (offset : ℕ)
      → offset ≡ length buf * e.size_of
      → (capacity ≤ length buf) ⊎ (length bytes < offset + e.size_of)
      → (capacity * e.size_of ≤ offset) ⊎ (length bytes < offset + e.size_of)
  at_end buf bytes offset at (inl full) = inl (grind arith)
  at_end buf bytes offset at (inr short) = inr short

  -- From a state where the offset counts the elements that are read, the loop that reads a buffer
  -- does not panic and does not run out of fuel above the free capacity; the elements it ends with
  -- fit in the capacity and in the bytes, and are valid if the bytes and the elements before are.
  pub read_elements-Reads :
      (bytes : List ℕ) (fuel offset : ℕ) (buf : List T)
      → offset ≡ length buf * e.size_of
      → length buf ≤ capacity
      → capacity < length buf + fuel
      → offset ≤ length bytes
      → Reads bytes buf (read_elements e capacity bytes fuel offset buf)
  read_elements-Reads bytes zero offset buf at fits enough within = absurd (omega arith)
  read_elements-Reads bytes (suc fuel) offset buf at fits enough within =
      elim (room bytes offset buf) [
        | inl (few, long) ↦ elim (Result-cases (e.codec.try_from_bytes (drop offset bytes))) [
          | inl (x, read) ↦
              rw (goes_on bytes fuel offset buf (ok x) (before_end buf offset at few) long read) (
                weaken x read
                  (read_elements e capacity bytes fuel (offset + e.size_of) (buf ++ (x ∷ [])))
                  (read_elements-Reads bytes fuel (offset + e.size_of) (buf ++ (x ∷ []))
                    (omega (arith, ap (λ (t : ℕ). t * e.size_of) (longer x)))
                    (omega (arith, longer x)) (omega (arith, longer x)) long))
          | inr (inl (z, read)) ↦
              rw (goes_on bytes fuel offset buf (err z) (before_end buf offset at few) long read) tt
          | inr (inr read) ↦ absurd (l.prefixed.lawful.never_panics (drop offset bytes) read)
        ]
        | inr done ↦
            rw (stops bytes fuel offset buf (at_end buf bytes offset at done))
              (fits, omega arith, λ b p. p)
      ]
    where
      longer : (x : T) → length (buf ++ (x ∷ [])) ≡ length buf + 1
      longer x = length-append buf (x ∷ [])

      weaken :
          (x : T)
          → e.codec.try_from_bytes (drop offset bytes) ≡ ok x
          → (r : Result (List T)) → Reads bytes (buf ++ (x ∷ [])) r
          → Reads bytes buf r
      weaken x read (ok out) (a, b, valid) = (
        a,
        b,
        λ h p. valid h (
            All-append P buf (x ∷ []) p (
              l.prefixed.lawful.decoded_valid (drop offset bytes) x (All-drop IsByte offset bytes h)
                  read,
              tt,
            )),
      )
      weaken x read (err z) h = tt
      weaken x read panicked h = h
