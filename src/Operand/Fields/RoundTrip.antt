-- ===== src/Operand/Fields/RoundTrip.antt =====
-- Fields that were written are read back.
use linux_cec.Prelude.{
  ℕ, ◌+◌, ◌≡◌, refl, ◌∙◌, List, [], ◌++◌, append-nil, append_assoc, arith, length, length-append,
  All, All-append,
}
use linux_cec.Core.Error.{Result, ok}
use linux_cec.Core.Slice.{IsByte, slice_from-append}
use linux_cec.Operand.Encodable.{OperandEncodable, Lawful}
use linux_cec.Operand.Fields.{
  Fields, nil, field, Curried, Tuple, apply, encode, size, decode, Validity, Valid, AllLawful,
  AllPrefixed, InitPrefixed,
}

-- One field that is read back from what stands behind `front`.
decode_field :
    {A : Type 0} (c : OperandEncodable A) (fs : Fields) (R : Type 0) (k : A → Curried fs R)
    (front bytes : List ℕ) (a : A)
    → c.try_from_bytes bytes ≡ ok a
    → decode (field c fs) R k (front ++ bytes) (length front)
      ≡ decode fs R (k a) (front ++ bytes) (length front + c.len a)
unfolding decode
decode_field c fs R k front bytes a h = rw (slice_from-append, h)

-- The same, with the fields behind it.
decode_step :
    {A : Type 0} (c : OperandEncodable A) (P : A → Type 0) (fs : Fields) (R : Type 0)
    (k : A → Curried fs R) (front rest : List ℕ) (a : A) (r : Result R)
    → Lawful c P
    → P a
    → c.try_from_bytes (c.to_bytes a ++ rest) ≡ ok a
    → decode fs R (k a) ((front ++ c.to_bytes a) ++ rest) (length (front ++ c.to_bytes a)) ≡ r
    → decode (field c fs) R k (front ++ (c.to_bytes a ++ rest)) (length front) ≡ r
decode_step c P fs R k front rest a r l p read next =
    decode_field c fs R k front (c.to_bytes a ++ rest) a read
    ∙ rw
        (
          ← append_assoc front (c.to_bytes a) rest,
          ← l.length-to_bytes a p,
          ← length-append front (c.to_bytes a),
        )
        next

-- Fields with valid values that are each read back with any bytes behind them are read back from
-- what is written of them, behind any prefix and with any bytes behind.
pub decode-encode_overfull :
    (fs : Fields) (v : Validity fs) (R : Type 0) (k : Curried fs R) (t : Tuple fs)
    (front rest : List ℕ)
    → AllPrefixed fs v
    → Valid fs v t
    → decode fs R k (front ++ (encode fs t ++ rest)) (length front) ≡ ok (apply fs R k t)
unfolding encode
decode-encode_overfull nil v R k t front rest l p = unfold decode in refl
decode-encode_overfull (field c fs) v R k t front rest l p = rw append_assoc (
    decode_step c v.0 fs R k front (encode fs t.1 ++ rest) t.0 _ l.0.lawful p.0
      (l.0.overfull t.0 (encode fs t.1 ++ rest) p.0)
      (decode-encode_overfull fs v.1 R (k t.0) t.1 (front ++ c.to_bytes t.0) rest l.1 p.1))

-- Fields with valid values, of which all but the last are read back with any bytes behind them and
-- the last with none, are read back from what is written of them behind any prefix.
pub decode-encode :
    (fs : Fields) (v : Validity fs) (R : Type 0) (k : Curried fs R) (t : Tuple fs) (front : List ℕ)
    → InitPrefixed fs v
    → Valid fs v t
    → decode fs R k (front ++ encode fs t) (length front) ≡ ok (apply fs R k t)
unfolding encode
decode-encode nil v R k t front l p = unfold decode in refl
decode-encode (field c nil) v R k t front l p =
    decode_step c v.0 nil R k front [] t.0 _ l p.0
      (rw append-nil (l.try_from_bytes-to_bytes t.0 p.0)) (unfold decode in refl)
decode-encode (field c (field d fs)) v R k t front l p =
    decode_step c v.0 (field d fs) R k front (encode (field d fs) t.1) t.0 _ l.0.lawful p.0
      (l.0.overfull t.0 (encode (field d fs) t.1) p.0)
      (decode-encode (field d fs) v.1 R (k t.0) t.1 (front ++ c.to_bytes t.0) l.1 p.1)

pub AllPrefixed-AllLawful : (fs : Fields) (v : Validity fs) → AllPrefixed fs v → AllLawful fs v
AllPrefixed-AllLawful nil v l = tt
AllPrefixed-AllLawful (field c fs) v l = (l.0.lawful, AllPrefixed-AllLawful fs v.1 l.1)

pub AllPrefixed-InitPrefixed :
    (fs : Fields) (v : Validity fs) → AllPrefixed fs v → InitPrefixed fs v
AllPrefixed-InitPrefixed nil v l = tt
AllPrefixed-InitPrefixed (field c nil) v l = l.0.lawful
AllPrefixed-InitPrefixed (field c (field d fs)) v l =
    (l.0, AllPrefixed-InitPrefixed (field d fs) v.1 l.1)

pub InitPrefixed-AllLawful : (fs : Fields) (v : Validity fs) → InitPrefixed fs v → AllLawful fs v
InitPrefixed-AllLawful nil v l = tt
InitPrefixed-AllLawful (field c nil) v l = (l, tt)
InitPrefixed-AllLawful (field c (field d fs)) v l =
    (l.0.lawful, InitPrefixed-AllLawful (field d fs) v.1 l.1)

-- What is written has the fields' sizes, and is bytes.
pub length-encode :
    (fs : Fields) (v : Validity fs) (t : Tuple fs)
    → AllLawful fs v
    → Valid fs v t
    → length (encode fs t) ≡ size fs t
unfolding encode size
length-encode nil v t l p = refl
length-encode (field c fs) v t l p = omega (
  arith,
  length-append (c.to_bytes t.0) (encode fs t.1),
  l.0.length-to_bytes t.0 p.0,
  length-encode fs v.1 t.1 l.1 p.1,
)

pub encode-IsByte :
    (fs : Fields) (v : Validity fs) (t : Tuple fs)
    → AllLawful fs v
    → Valid fs v t
    → All IsByte (encode fs t)
unfolding encode
encode-IsByte nil v t l p = tt
encode-IsByte (field c fs) v t l p =
    All-append IsByte (c.to_bytes t.0) (encode fs t.1) (l.0.to_bytes-IsByte t.0 p.0)
      (encode-IsByte fs v.1 t.1 l.1 p.1)
