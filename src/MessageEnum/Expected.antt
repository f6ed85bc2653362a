-- ===== src/MessageEnum/Expected.antt =====
-- The lengths that the generated decoders expect (linux-cec-macros/src/lib.rs): the fold over the
-- fields' own expected lengths ends, and what the fields write has a length that it admits.
use linux_cec.Core.Range.{add, at_least, admits, Range}
use linux_cec.Operand.Encodable.{OperandEncodable}
use linux_cec.Operand.Fields.{Valid, nil, Tuple, field, Validity, size, Fields}
use linux_cec.MessageEnum.{
  unit, named, unnamed, fields_of, expected_len, Variant, fold_step, fold_lens,
}
use linux_cec.Core.Error.{ok}
use native.Mathlib.Nat.{add_assoc}
use linux_cec.Prelude.{le→leb, refl, true, ◌+◌, arith, ◌≤◌, ◌≡◌, ℕ}

-- The fold does not reach a `todo!`, and admits all messages with these fields, of which `k` bytes
-- stand before them.
abbrev pub Admits : Range ℕ → (fs : Fields) → Validity fs → ℕ → Type 0
Admits r fs v k = (t : Tuple fs) → Valid fs v t → admits r (k + size fs t) ≡ true

-- A field whose values are at least as long as it says.
abbrev pub Longer : {A : Type 0} → OperandEncodable A → (A → Type 0) → Type 0
Longer {A} c P = (y : ℕ) × (c.expected_len ≡ at_least y) × ((a : A) → P a → y ≤ c.len a)

abbrev pub AllLonger : (fs : Fields) → Validity fs → Type 0
AllLonger nil v = Unit {0}
AllLonger (field c fs) v = Longer c v.0 × AllLonger fs v.1

-- If every field says a least length that its values keep, the fold over the expected lengths
-- reaches no `todo!`, and the range that it ends with admits every message with valid fields behind
-- a prefix of at least the starting length.
fold_lens-AllLonger :
    (fs : Fields) (v : Validity fs) (x : ℕ)
    → AllLonger fs v
    → (r : Range ℕ) × (fold_lens (at_least x) fs ≡ ok r) × ((k : ℕ) → x ≤ k → Admits r fs v k)
unfolding fold_lens size admits fold_step
fold_lens-AllLonger nil v x l = (at_least x, refl, λ k h t p. le→leb x (k + 0) (omega arith))
fold_lens-AllLonger (field c fs) v x l =
    let (y, starts, longer) = l.0 in
    let (r, folds, fits) = fold_lens-AllLonger fs v.1 (x + y) l.1 in
    (
      r,
      rw starts folds,
      λ k h t p. rw add_assoc at (fits (k + c.len t.0) (omega (arith, longer t.0 p.0)) t.1 p.1),
    )

abbrev pub ExpectsVariant : (variant : Variant) → Validity (fields_of variant) → Type 0
ExpectsVariant variant v =
    (r : Range ℕ) × (expected_len variant ≡ ok r) × Admits r (fields_of variant) v 1

pub expected_len-AllLonger :
    (variant : Variant) (v : Validity (fields_of variant))
    → AllLonger (fields_of variant) v
    → ExpectsVariant variant v
unfolding expected_len admits size add
expected_len-AllLonger unit v l = (at_least 1, refl, λ t p. refl)
expected_len-AllLonger (unnamed c) v l =
    let (y, starts, longer) = l.0 in
    (
      at_least (y + 1),
      rw starts refl,
      λ t p. le→leb (y + 1) (1 + (c.len t.0 + 0)) (omega (arith, longer t.0 p.0)),
    )
expected_len-AllLonger (named fs) v l =
    let (r, folds, fits) = fold_lens-AllLonger fs v 1 l in (r, folds, fits 1 (omega arith))
