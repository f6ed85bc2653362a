-- ===== src/Operand/Fields.antt =====
-- What `derive(Operand)` and `derive(MessageEnum)` generate for named fields
-- (linux-cec-macros/src/lib.rs): the fields are written in order, and read each from the slice
-- at an offset that the one before has advanced by its `len`.
pub mod RoundTrip
pub mod Decoded
use linux_cec.Prelude.{ℕ, ◌+◌, List, [], ◌++◌}
use linux_cec.Core.Error.{Result, ok, ◌>>=◌, map_err, add_offset}
use linux_cec.Core.Slice.{slice_from}
use linux_cec.Operand.Encodable.{OperandEncodable, Lawful, Prefixed}

pub data Fields : Type 1 where
  nil : Fields
  field : {A : Type 0} → OperandEncodable A → Fields → Fields

-- A constructor that takes the fields one by one, and their values together.
abbrev pub Curried : Fields → Type 0 → Type 0
Curried nil R = R
Curried (field {A} c fs) R = A → Curried fs R

abbrev pub Tuple : Fields → Type 0
Tuple nil = Unit {0}
Tuple (field {A} c fs) = A × Tuple fs

abbrev pub apply : (fs : Fields) (R : Type 0) → Curried fs R → Tuple fs → R
apply nil R k t = k
apply (field c fs) R k t = apply fs R (k t.0) t.1

-- The `to_bytes` of the fields.
unfoldable pub encode : (fs : Fields) → Tuple fs → List ℕ
encode nil t = []
encode (field c fs) t = c.to_bytes t.0 ++ encode fs t.1

-- The sum of the fields' sizes.
unfoldable pub size : (fs : Fields) → Tuple fs → ℕ
size nil t = 0
size (field c fs) t = c.len t.0 + size fs t.1

-- `from_params`: the fields are read from `offset` on, and errors about bytes are moved by it.
unfoldable pub decode : (fs : Fields) (R : Type 0) → Curried fs R → List ℕ → ℕ → Result R
decode nil R k bytes offset = ok k
decode (field c fs) R k bytes offset = do
  rest ← slice_from bytes offset
  a ← map_err (add_offset offset) (c.try_from_bytes rest)
  decode fs R (k a) bytes (offset + c.len a)

-- A predicate for each field, and the fields that satisfy theirs.
abbrev pub Validity : Fields → Type 1
Validity nil = Unit {1}
Validity (field {A} c fs) = (A → Type 0) × Validity fs

abbrev pub Valid : (fs : Fields) → Validity fs → Tuple fs → Type 0
Valid nil v t = Unit {0}
Valid (field c fs) v t = v.0 t.0 × Valid fs v.1 t.1

-- All fields are lawful; all know where they end; all but the last do.
abbrev pub AllLawful : (fs : Fields) → Validity fs → Type 0
AllLawful nil v = Unit {0}
AllLawful (field c fs) v = Lawful c v.0 × AllLawful fs v.1

abbrev pub AllPrefixed : (fs : Fields) → Validity fs → Type 0
AllPrefixed nil v = Unit {0}
AllPrefixed (field c fs) v = Prefixed c v.0 × AllPrefixed fs v.1

abbrev pub InitPrefixed : (fs : Fields) → Validity fs → Type 0
InitPrefixed nil v = Unit {0}
InitPrefixed (field c nil) v = Lawful c v.0
InitPrefixed (field c (field d fs)) v = Prefixed c v.0 × InitPrefixed (field d fs) v.1
