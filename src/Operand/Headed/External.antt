-- ===== src/Operand/Headed/External.antt =====
-- The codec of `ExternalSource` (linux-cec/src/operand.rs) is lawful: the number of bytes, which the
-- range of lengths holds to one or two, says what is read.
use linux_cec.Operand.Scalars.{u16}
use linux_cec.Core.Range.{only}
use linux_cec.Core.Slice.{IsByte}
use linux_cec.Core.Error.{
  >>=-eq-ok, ok-injective, out_of_range, ◌>>=◌, >>=-eq-panicked, ok, err, panicked,
}
use linux_cec.Operand.Encodable.{Lawful}
use linux_cec.Operand.Headed.Record.{
  external_address, plug, external_round_trip, ExternalSource, IsExternalSource, external_source,
}
use linux_cec.Operand.Newtype.{physical_address, physical_address-Prefixed}
use linux_cec.Prelude.{inr, inl, ◌∙◌, arith, ◌≤◌, length, All, [], ◌≡◌, ◌∷◌, ◌≢◌, List, refl, ℕ}

one_byte_read : (a : ℕ) → external_source.try_from_bytes (a ∷ []) ≡ ok (plug a)
unfolding external_source
one_byte_read a = refl

two_bytes_read :
    (a b : ℕ)
    → external_source.try_from_bytes (a ∷ b ∷ [])
      ≡ (do address ← physical_address.try_from_bytes (a ∷ b ∷ []); ok (external_address address))
unfolding external_source
two_bytes_read a b = refl

too_long :
    (a b c : ℕ) (rest : List ℕ)
    → (n : ℕ) × (external_source.try_from_bytes (a ∷ b ∷ c ∷ rest)
        ≡ err (out_of_range (only (1 ∷ 2 ∷ [])) n "bytes"))
unfolding external_source
too_long a b c rest = (length (a ∷ b ∷ c ∷ rest), ground arith)

not_empty : (s : ExternalSource) → external_source.try_from_bytes [] ≢ ok s
unfolding external_source
not_empty s e = cc

decoded :
    (bytes : List ℕ) (s : ExternalSource)
    → external_source.try_from_bytes bytes ≡ ok s
    → (external_source.len s ≤ length bytes) × (All IsByte bytes → IsExternalSource s)
decoded [] s e = absurd (not_empty s e)
decoded (a ∷ []) s e =
    rw (← ok-injective (rw (one_byte_read a) at e))
      (unfold external_source in (omega arith), λ h. h.0)
decoded (a ∷ b ∷ []) s e =
    let (address, read, made) =
      >>=-eq-ok (physical_address.try_from_bytes (a ∷ b ∷ []))
        (λ address. ok (external_address address)) (rw (two_bytes_read a b) at e) in
    rw (← ok-injective made) (
      unfold external_source in (omega arith),
      λ h. physical_address-Prefixed.lawful.decoded_valid (a ∷ b ∷ []) address h read,
    )
decoded (a ∷ b ∷ c ∷ rest) s e = let (n, refused) = too_long a b c rest in cc

no_panic : (bytes : List ℕ) → external_source.try_from_bytes bytes ≢ panicked
no_panic [] e = unfold external_source in cc
no_panic (a ∷ []) e = cc (one_byte_read a)
no_panic (a ∷ b ∷ []) e =
    elim (>>=-eq-panicked (physical_address.try_from_bytes (a ∷ b ∷ []))
      (λ address. ok (external_address address)) (rw (two_bytes_read a b) at e)) [
        | inl p ↦ physical_address-Prefixed.lawful.never_panics (a ∷ b ∷ []) p
        | inr (address, _, p) ↦ cc
      ]
no_panic (a ∷ b ∷ c ∷ rest) e = let (n, refused) = too_long a b c rest in cc

written :
    (s : ExternalSource)
    → IsExternalSource s
    → All IsByte (external_source.to_bytes s)
      × (length (external_source.to_bytes s) ≡ external_source.len s)
unfolding external_source
written (plug n) h = ((h, tt), refl)
written (external_address a) h = (
  physical_address-Prefixed.lawful.to_bytes-IsByte a h,
  physical_address-Prefixed.lawful.length-to_bytes a h ∙ unfold u16 in refl,
)

-- An external source whose plug is a byte, or whose address has 16 bits, is written as one or two
-- bytes and read back from them, with none behind; what is read from bytes is such a source; and no
-- bytes make the decoder panic.
pub external_source-Lawful : Lawful external_source IsExternalSource
external_source-Lawful = record {
  to_bytes-IsByte = λ s h. (written s h).0;
  length-to_bytes = λ s h. (written s h).1;
  try_from_bytes-to_bytes = external_round_trip;
  decoded_valid = λ bytes s h e. (decoded bytes s e).1 h;
  len_le = λ bytes s e. (decoded bytes s e).0;
  never_panics = no_panic;
}
