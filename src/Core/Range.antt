-- ===== src/Core/Range.antt =====
-- `Range`, the lengths and values that a check admits (linux-cec/src/lib.rs).
-- A `usize` is a number without bound: ranges are made of message lengths and byte values.
use linux_cec.Prelude.{
  ℕ, ◌+◌, ◌≤◌, ◌≡◌, refl, ◌⊎◌, ◌↔◌, Bool, true, false, ◌&&◌, ◌||◌, List, [], ◌∷◌, map, arith, leb,
  ◌==◌,
}

pub data Range {ℓ} (A : Type ℓ) : Type ℓ where
  at_most at_least exact : A → Range A
  only : List A → Range A
  interval : A → A → Range A

-- `list.contains(&val)`
pub contains : List ℕ → ℕ → Bool
contains [] val = false
contains (x ∷ list) val = x == val || contains list val

-- The guards of the match in `check`: whether the value is let through.
unfoldable pub admits : Range ℕ → ℕ → Bool
unfolding contains
admits (at_most max) val = leb val max
admits (at_least min) val = leb min val
admits (exact x) val = val == x
admits (only list) val = contains list val
admits (interval min max) val = leb min val && leb val max

-- `Add<T> for Range<T>`
unfoldable pub add : Range ℕ → ℕ → Range ℕ
add (at_most max) rhs = at_most (max + rhs)
add (at_least min) rhs = at_least (min + rhs)
add (exact x) rhs = exact (x + rhs)
add (only list) rhs = only (map (λ val. val + rhs) list)
add (interval min max) rhs = interval (min + rhs) (max + rhs)

-- What a range means, as a set of numbers.
abbrev pub OneOf : List ℕ → ℕ → Type 0
OneOf [] val = ⊥
OneOf (x ∷ list) val = (x ≡ val) ⊎ OneOf list val

abbrev pub Within : Range ℕ → ℕ → Type 0
Within (at_most max) val = val ≤ max
Within (at_least min) val = min ≤ val
Within (exact x) val = val ≡ x
Within (only list) val = OneOf list val
Within (interval min max) val = (min ≤ val) × (val ≤ max)

contains-OneOf : (list : List ℕ) (val : ℕ) → (contains list val ≡ true) ↔ OneOf list val
unfolding contains
contains-OneOf [] val = (λ h. cc, λ h. absurd h)
contains-OneOf (x ∷ list) val = ground (arith, contains-OneOf list val)

-- A range admits exactly the numbers that lie within it.
pub admits-Within : (r : Range ℕ) (val : ℕ) → (admits r val ≡ true) ↔ Within r val
unfolding admits
admits-Within (at_most max) val = ground arith
admits-Within (at_least min) val = ground arith
admits-Within (exact x) val = ground arith
admits-Within (only list) val = contains-OneOf list val
admits-Within (interval min max) val = ground arith

contains-map :
    (list : List ℕ) (val k : ℕ) → contains (map (λ x. x + k) list) (val + k) ≡ contains list val
unfolding contains
contains-map [] val k = refl
contains-map (x ∷ list) val k = ground (arith, contains-map list val k)

-- A range with an offset added admits a number moved by that offset exactly if the range admits the
-- number.
pub admits-add : (r : Range ℕ) (val k : ℕ) → admits (add r k) (val + k) ≡ admits r val
unfolding admits add
admits-add (only list) val k = contains-map list val k
admits-add (at_most max) val k = ground arith
admits-add _ val k = ground arith
