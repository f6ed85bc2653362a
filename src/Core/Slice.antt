-- ===== src/Core/Slice.antt =====
-- Rust's slices of bytes: indexing and slicing panic out of bounds.
use linux_cec.Prelude.{
  length-drop, length-take, ◌≢◌, ◌-◌, ◌&&◌, refl, ℕ, zero, suc, ◌≤◌, ◌<◌, ◌≡◌, List, [], ◌∷◌, ◌++◌,
  arith, length, take, drop, leb, if◌then◌else◌, String, length-append, drop-append,
}
use linux_cec.Core.Range.{at_least, admits}
use linux_cec.Core.Error.{Result, ok, err, panicked, out_of_range, check}

abbrev pub IsByte : ℕ → Type 0
IsByte b = b < 256

-- `bytes[i]`
unfoldable pub index : List ℕ → ℕ → Result ℕ
index [] i = panicked
index (b ∷ bytes) zero = ok b
index (b ∷ bytes) (suc i) = index bytes i

-- `&bytes[offset..]`
unfoldable pub slice_from : List ℕ → ℕ → Result (List ℕ)
slice_from bytes offset = if leb offset (length bytes) then ok (drop offset bytes) else panicked

-- A slice that starts behind `front` is what follows it.
pub slice_from-append :
    (front bytes : List ℕ) → slice_from (front ++ bytes) (length front) ≡ ok bytes
unfolding slice_from
slice_from-append front bytes = ground (arith, length-append front bytes, drop-append front bytes)

-- A slice that starts within the bytes is what is left of them.
pub slice_from_lem :
    (bytes : List ℕ) (offset : ℕ)
    → offset ≤ length bytes
    → slice_from bytes offset ≡ ok (drop offset bytes)
unfolding slice_from
slice_from_lem bytes offset h = ground arith

-- A length check passes if there are enough bytes, and otherwise reports them.
pub check_at_least :
    (n val : ℕ) (quantity : String) → n ≤ val → check (at_least n) val quantity ≡ ok tt
unfolding check admits
check_at_least n val quantity h = ground arith

pub check_at_least_short :
    (n val : ℕ) (quantity : String)
    → val < n
    → check (at_least n) val quantity ≡ err (out_of_range (at_least n) val quantity)
unfolding check admits
check_at_least_short n val quantity h = ground arith

-- `&bytes[first..last]`
unfoldable pub slice : List ℕ → ℕ → ℕ → Result (List ℕ)
slice bytes first last =
    if leb first last && leb last (length bytes)
    then ok (take (last - first) (drop first bytes))
    else panicked

-- An index within the bytes is read, and a slice that ends within them.
pub index_lt : (bytes : List ℕ) (i : ℕ) → i < length bytes → (b : ℕ) × (index bytes i ≡ ok b)
unfolding index
index_lt [] i h = absurd (omega arith)
index_lt (b ∷ bytes) zero h = (b, refl)
index_lt (b ∷ bytes) (suc i) h = index_lt bytes i (omega arith)

pub slice_lem :
    (bytes : List ℕ) (first last : ℕ)
    → first ≤ last
    → last ≤ length bytes
    → slice bytes first last ≡ ok (take (last - first) (drop first bytes))
unfolding slice
slice_lem bytes first last h k = ground arith

pub index-ne-panicked : (bytes : List ℕ) (i : ℕ) → i < length bytes → index bytes i ≢ panicked
index-ne-panicked bytes i h e = cc (index_lt bytes i h).1

pub slice-ne-panicked :
    (bytes : List ℕ) (first last : ℕ)
    → first ≤ last
    → last ≤ length bytes
    → slice bytes first last ≢ panicked
slice-ne-panicked bytes first last h k e = cc (slice_lem bytes first last h k)

pub length-slice :
    (bytes : List ℕ) (first last : ℕ) (part : List ℕ)
    → slice bytes first last ≡ ok part
    → length part ≡ last - first
unfolding slice
length-slice bytes first last part h =
    ground (arith, length-take (last - first) (drop first bytes), length-drop first bytes)

-- `&bytes[..n]`
unfoldable pub slice_to : List ℕ → ℕ → Result (List ℕ)
slice_to bytes n = if leb n (length bytes) then ok (take n bytes) else panicked

pub slice_to_lem :
    (bytes : List ℕ) (n : ℕ) → n ≤ length bytes → slice_to bytes n ≡ ok (take n bytes)
unfolding slice_to
slice_to_lem bytes n h = ground arith
