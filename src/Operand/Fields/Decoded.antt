-- ===== src/Operand/Fields/Decoded.antt =====
-- What is read from fields, whatever the bytes.
use linux_cec.Prelude.{
  ℕ, ◌+◌, ◌≤◌, ◌≡◌, ◌≢◌, refl, List, arith, length, drop, length-drop, All, All-drop, ◌⊎◌, inl, inr,
}
use linux_cec.Core.Error.{Result, Error, ok, err, panicked}
use linux_cec.Core.Slice.{IsByte, slice_from_lem}
use linux_cec.Operand.Encodable.{OperandEncodable, Lawful}
use linux_cec.Operand.Fields.{
  Fields, nil, field, Curried, Tuple, apply, size, decode, Validity, Valid, AllLawful,
}

pub Result-cases {ℓ} :
    {A : Type ℓ} (r : Result A)
    → ((a : A) × (r ≡ ok a)) ⊎ (((e : Error) × (r ≡ err e)) ⊎ (r ≡ panicked))
Result-cases (ok a) = inl (a, refl)
Result-cases (err e) = inr (inl (e, refl))
Result-cases panicked = inr (inr refl)

-- The offset behind a field that was read is still within the bytes.
next_offset :
    {A : Type 0} (c : OperandEncodable A) (P : A → Type 0) (bytes : List ℕ) (offset : ℕ) (a : A)
    → Lawful c P
    → offset ≤ length bytes
    → c.try_from_bytes (drop offset bytes) ≡ ok a
    → offset + c.len a ≤ length bytes
next_offset c P bytes offset a l h read =
    omega (arith, l.len_le (drop offset bytes) a read, length-drop offset bytes)

-- Reading fields with lawful codecs from an offset within the bytes does not panic: the offset
-- never passes the end of the bytes.
pub decode-never_panics :
    (fs : Fields) (v : Validity fs) (R : Type 0) (k : Curried fs R) (bytes : List ℕ) (offset : ℕ)
    → AllLawful fs v
    → offset ≤ length bytes
    → decode fs R k bytes offset ≢ panicked
unfolding decode
decode-never_panics nil v R k bytes offset l h = λ e. cc
decode-never_panics (field c fs) v R k bytes offset l h =
    rw (slice_from_lem bytes offset h) (elim (Result-cases (c.try_from_bytes (drop offset bytes))) [
      | inl (a, read) ↦ rw read (
          decode-never_panics fs v.1 R (k a) bytes (offset + c.len a) l.1
            (next_offset c v.0 bytes offset a l.0 h read))
      | inr (inl (e, read)) ↦ rw read (λ e. cc)
      | inr (inr read) ↦ λ e. l.0.never_panics (drop offset bytes) read
    ])

abbrev pub Decoded :
    (fs : Fields) → Validity fs → (R : Type 0) → Curried fs R → List ℕ → ℕ → R → Type 0
Decoded fs v R k bytes offset r =
    (t : Tuple fs) × (r ≡ apply fs R k t)
    × (offset + size fs t ≤ length bytes)
    × (All IsByte bytes → Valid fs v t)

-- What is read from an offset within the bytes by lawful codecs is built from fields whose sizes
-- fit in the bytes behind the offset, and which are valid if the bytes are bytes.
pub decode-Valid :
    (fs : Fields) (v : Validity fs) (R : Type 0) (k : Curried fs R) (bytes : List ℕ) (offset : ℕ)
    (r : R)
    → AllLawful fs v
    → offset ≤ length bytes
    → decode fs R k bytes offset ≡ ok r
    → Decoded fs v R k bytes offset r
unfolding decode size
decode-Valid nil v R k bytes offset r l h e = (tt, cc, omega arith, λ _. tt)
decode-Valid (field c fs) v R k bytes offset r l h e =
    elim (Result-cases (c.try_from_bytes (drop offset bytes))) [
      | inl (a, read) ↦
          let (t, built, fits, valid) =
            decode-Valid fs v.1 R (k a) bytes (offset + c.len a) r l.1
              (next_offset c v.0 bytes offset a l.0 h read)
              (rw (slice_from_lem bytes offset h, read) at e) in
          (
            (a, t),
            built,
            omega arith,
            λ b. (
              l.0.decoded_valid (drop offset bytes) a (All-drop IsByte offset bytes b) read,
              valid b,
            ),
          )
      | inr (inl (x, read)) ↦ cc (rw (slice_from_lem bytes offset h, read) at e)
      | inr (inr read) ↦ cc (rw (slice_from_lem bytes offset h, read) at e)
    ]
