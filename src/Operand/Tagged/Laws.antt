-- ===== src/Operand/Tagged/Laws.antt =====
-- The codec of a `TaggedLengthBuffer` is lawful.
use linux_cec.Prelude.{
  true, false, if◌then◌else◌, ◌==◌, inr, inl, append-nil, le→leb, ℕ, ◌+◌, ◌≤◌, ◌<◌, ◌≡◌, ◌≢◌, refl,
  ap, List, [], ◌∷◌, ◌++◌, arith, length, All, bit_and,
}
use linux_cec.Core.Error.{>>=-eq-panicked, Result, ok, panicked, ◌>>=◌, >>=-eq-ok}
use linux_cec.Core.Slice.{IsByte}
use linux_cec.Operand.Encodable.{Prefixed}
use linux_cec.Operand.Tagged.{
  TaggedLengthBuffer, tagged, tagged_to_bytes, tagged_try_from_bytes, read_extra, write_extra,
}
use linux_cec.Operand.Tagged.Extra.{
  IsSeven, low_seven, top_bit, set_top_bit, read_extra-write_extra, write_extra-IsByte,
  length-write_extra, read_extra-IsSeven, length-read_extra,
}

-- What an implementation of the trait owes.
pub record IsTagged {U T : Type 0} (t : TaggedLengthBuffer U T) (P : U → Type 0) : Type 0 where
  pub head_seven : (u : U) → P u → t.into (t.fixed_param u) < 128
  pub extra_seven : (u : U) → P u → All IsSeven (t.extra_params u)
  pub try_from-into : (u : U) → P u → t.try_from (t.into (t.fixed_param u)) ≡ ok (t.fixed_param u)
  pub try_new-parts : (u : U) → P u → t.try_new (t.fixed_param u) (t.extra_params u) ≡ ok u
  pub try_new_valid :
      (b : ℕ) (first : T) (xs : List ℕ) (u : U)
      → b < 128
      → t.try_from b ≡ ok first
      → All IsSeven xs
      → t.try_new first xs ≡ ok u
      → P u
  pub try_new_len :
      (first : T) (xs : List ℕ) (u : U)
      → t.try_new first xs ≡ ok u
      → length (t.extra_params u) ≤ length xs
  pub try_from-ne-panicked : (b : ℕ) → t.try_from b ≢ panicked
  pub try_new-ne-panicked : (first : T) (xs : List ℕ) → t.try_new first xs ≢ panicked

module _ {U T : Type 0} (t : TaggedLengthBuffer U T) (P : U → Type 0) (l : IsTagged t P) where
  abbrev read_with : ℕ → List ℕ → Result U
  read_with b xs = do first ← t.try_from b; t.try_new first xs

  -- A first byte with no mark, and one with the mark that more bytes follow.
  plain_head :
      (b : ℕ) (rest : List ℕ) → b < 128 → tagged_try_from_bytes t (b ∷ rest) ≡ read_with b []
  unfolding tagged_try_from_bytes
  plain_head b rest h = rw (le→leb 1 (length (b ∷ rest)) (omega arith), low, unmarked)
    where
      low : bit_and b 0x7f ≡ b
      low = omega (arith, low_seven b)

      unmarked : (bit_and b 0x80 == 0x80) ≡ false
      unmarked = ground (arith, top_bit b)

  marked_head :
      (b : ℕ) (rest : List ℕ)
      → b < 128
      → tagged_try_from_bytes t ((b + 128) ∷ rest) ≡ read_with b (read_extra rest)
  unfolding tagged_try_from_bytes
  marked_head b rest h = rw (le→leb 1 (length ((b + 128) ∷ rest)) (omega arith), low, marked)
    where
      low : bit_and (b + 128) 0x7f ≡ b
      low = omega (arith, low_seven (b + 128))

      marked : (bit_and (b + 128) 0x80 == 0x80) ≡ true
      marked = ground (arith, top_bit (b + 128))

  written_plain :
      (u : U) → P u → t.extra_params u ≡ [] → tagged_to_bytes t u ≡ t.into (t.fixed_param u) ∷ []
  unfolding tagged_to_bytes
  written_plain u p e =
      rw (e, tagged_to_bytes)
        (ap (λ (t : ℕ). t ∷ [])
          (omega (arith, low_seven (t.into (t.fixed_param u)), l.head_seven u p)))

  written_marked :
      (u : U) (b : ℕ) (xs : List ℕ)
      → P u
      → t.extra_params u ≡ b ∷ xs
      → tagged_to_bytes t u ≡ (t.into (t.fixed_param u) + 128) ∷ write_extra (b ∷ xs)
  unfolding tagged_to_bytes
  written_marked u b xs p e =
      rw (e, tagged_to_bytes)
        (ap (λ (t : ℕ). t ∷ write_extra (b ∷ xs))
          (omega (arith, set_top_bit (t.into (t.fixed_param u)), l.head_seven u p)))

  overfull :
      (u : U) (rest : List ℕ) → P u → tagged_try_from_bytes t (tagged_to_bytes t u ++ rest) ≡ ok u
  overfull u rest p = go (t.extra_params u) refl
    where
      head : ℕ
      head = t.into (t.fixed_param u)

      go :
          (xs : List ℕ)
          → t.extra_params u ≡ xs
          → tagged_try_from_bytes t (tagged_to_bytes t u ++ rest) ≡ ok u
      go [] e =
          rw (written_plain u p e, plain_head head rest (l.head_seven u p), l.try_from-into u p)
            (rw e at (l.try_new-parts u p))
      go (b ∷ xs) e =
          rw
            (
              written_marked u b xs p e,
              marked_head head (write_extra (b ∷ xs) ++ rest) (l.head_seven u p),
              read_extra-write_extra (b ∷ xs) rest (rw e at (l.extra_seven u p)) (λ h. cc),
              l.try_from-into u p,
            )
            (rw e at (l.try_new-parts u p))

  abbrev extra_of : ℕ → List ℕ → List ℕ
  extra_of head rest = if bit_and head 0x80 == 0x80 then read_extra rest else []

  extra_of_shape :
      (head : ℕ) (rest : List ℕ)
      → All IsSeven (extra_of head rest) × (length (extra_of head rest) ≤ length rest)
  extra_of_shape head rest = ground (arith, read_extra-IsSeven rest, length-read_extra rest)

  -- What is read comes from a head and seven-bit bytes, no more than stand behind it.
  abbrev Read : List ℕ → U → Type 0
  Read bytes u =
      (b : ℕ) × (first : T) × (xs : List ℕ) × (b < 128)
      × (t.try_from b ≡ ok first)
      × (t.try_new first xs ≡ ok u)
      × All IsSeven xs
      × (1 + length xs ≤ length bytes)

  some-Read : (bytes : List ℕ) (u : U) → tagged_try_from_bytes t bytes ≡ ok u → Read bytes u
  unfolding tagged_try_from_bytes
  some-Read [] u e = cc
  some-Read (h ∷ rest) u e =
      let (first, tried, made) =
        >>=-eq-ok (t.try_from (bit_and h 0x7f)) (λ first. t.try_new first (extra_of h rest))
          (rw (le→leb 1 (length (h ∷ rest)) (omega arith)) at e) in
      let (seven, short) = extra_of_shape h rest in
      (
        bit_and h 0x7f,
        first,
        extra_of h rest,
        omega (arith, low_seven h),
        tried,
        made,
        seven,
        omega arith,
      )

  no_panic : (bytes : List ℕ) → tagged_try_from_bytes t bytes ≢ panicked
  unfolding tagged_try_from_bytes
  no_panic [] e = cc
  no_panic (h ∷ rest) e =
      elim (>>=-eq-panicked (t.try_from (bit_and h 0x7f))
        (λ first. t.try_new first (extra_of h rest))
        (rw (le→leb 1 (length (h ∷ rest)) (omega arith)) at e)) [
          | inl p ↦ l.try_from-ne-panicked (bit_and h 0x7f) p
          | inr (first, _, p) ↦ l.try_new-ne-panicked first (extra_of h rest) p
        ]

  shape :
      (u : U)
      → P u
      → All IsByte (tagged_to_bytes t u)
        × (length (tagged_to_bytes t u) ≡ 1 + length (t.extra_params u))
  shape u p = go (t.extra_params u) refl
    where
      go :
          (xs : List ℕ)
          → t.extra_params u ≡ xs
          → All IsByte (tagged_to_bytes t u)
            × (length (tagged_to_bytes t u) ≡ 1 + length (t.extra_params u))
      go [] e = rw (written_plain u p e, e) ((omega (arith, l.head_seven u p), tt), omega arith)
      go (b ∷ xs) e =
          rw (written_marked u b xs p e, e)
            (
              (
                omega (arith, l.head_seven u p),
                write_extra-IsByte (b ∷ xs) (rw e at (l.extra_seven u p)),
              ),
              omega (arith, length-write_extra (b ∷ xs)),
            )

  -- The codec of every `TaggedLengthBuffer` that keeps the trait's laws: its values that satisfy
  -- the predicate are written as bytes, `len` of them, and read back, also with any bytes behind;
  -- what is read from bytes satisfies the predicate and is not longer than the bytes; and no bytes
  -- make the decoder panic.
  pub tagged-Prefixed : Prefixed (tagged t) P
  tagged-Prefixed = record {
    lawful = record {
      to_bytes-IsByte = λ u p. (shape u p).0;
      length-to_bytes = λ u p. (shape u p).1;
      try_from_bytes-to_bytes = λ u p. rw append-nil at (overfull u [] p);
      decoded_valid = λ bytes u h e.
          let (b, first, xs, small, tried, made, seven, _) = some-Read bytes u e in
          l.try_new_valid b first xs u small tried seven made;
      len_le = λ bytes u e.
          let (b, first, xs, small, tried, made, seven, short) = some-Read bytes u e in
          omega (arith, l.try_new_len first xs u made);
      never_panics = no_panic;
    };
    overfull = overfull;
  }
