-- ===== src/Operand/Headed/Laws.antt =====
-- The codec of an operand whose first byte says which fields follow is lawful.
use linux_cec.Operand.Fields.Decoded.{decode-never_panics, decode-Valid}
use linux_cec.Core.Slice.{check_at_least_short, IsByte}
use linux_cec.Core.Error.{>>=-eq-panicked, >>=-eq-ok, ◌>>=◌, out_of_range, err, panicked, ok}
use linux_cec.Operand.Fields.RoundTrip.{
  decode-encode, InitPrefixed-AllLawful, length-encode, decode-encode_overfull, encode-IsByte,
}
use linux_cec.Core.Range.{at_least, admits}
use linux_cec.Operand.Encodable.{Lawful, Prefixed}
use linux_cec.Operand.Fields.{
  InitPrefixed, Tuple, Valid, apply, decode, AllPrefixed, size, encode, AllLawful, Validity,
}
use linux_cec.Operand.Headed.{headed, headed_try_from_bytes, Headed}
use linux_cec.Prelude.{
  ap, inr, ◌∙◌, refl, le→leb, inl, length-append, le_or_lt, [], ◌∷◌, arith, All, ◌+◌, ◌++◌, ◌≤◌,
  ◌≢◌, ◌≡◌, List, length, ◌<◌, ℕ,
}

pub record IsHeaded {A H : Type 0} (s : Headed A H) (P : A → Type 0)
    (validity : (h : H) → Validity (s.fields h)) : Type 1 where
  pub into-IsByte : (a : A) → P a → s.into (s.head a) < 256
  pub try_from-into : (a : A) → P a → s.try_from (s.into (s.head a)) ≡ ok (s.head a)
  pub try_from-ne-panicked : (b : ℕ) → s.try_from b ≢ panicked
  pub lawful : (h : H) → InitPrefixed (s.fields h) (validity h)
  pub build-parts : (a : A) → apply (s.fields (s.head a)) A (s.build (s.head a)) (s.parts a) ≡ a
  pub parts_valid : (a : A) → P a → Valid (s.fields (s.head a)) (validity (s.head a)) (s.parts a)
  pub build_valid :
      (b : ℕ) (h : H) (t : Tuple (s.fields h))
      → s.try_from b ≡ ok h
      → Valid (s.fields h) (validity h) t
      → P (apply (s.fields h) A (s.build h) t)
  pub len_build :
      (b : ℕ) (h : H) (t : Tuple (s.fields h))
      → s.try_from b ≡ ok h
      → (headed s).len (apply (s.fields h) A (s.build h) t) ≡ 1 + size (s.fields h) t
  pub least_pos : 1 ≤ s.least
  pub long : (a : A) → P a → s.least ≤ 1 + size (s.fields (s.head a)) (s.parts a)

module _ {A H : Type 0} (s : Headed A H) (P : A → Type 0)
    (validity : (h : H) → Validity (s.fields h)) (l : IsHeaded s P validity) where
  all_lawful : (h : H) → AllLawful (s.fields h) (validity h)
  all_lawful h = InitPrefixed-AllLawful (s.fields h) (validity h) (l.lawful h)

  abbrev payload : A → List ℕ
  payload a = encode (s.fields (s.head a)) (s.parts a)

  length-payload : (a : A) → P a → length (payload a) ≡ size (s.fields (s.head a)) (s.parts a)
  length-payload a p =
      length-encode (s.fields (s.head a)) (validity (s.head a)) (s.parts a) (all_lawful (s.head a))
        (l.parts_valid a p)

  -- A first byte that is long enough is converted, and the fields are read behind it.
  read_head :
      (b : ℕ) (rest : List ℕ)
      → s.least ≤ 1 + length rest
      → headed_try_from_bytes s (b ∷ rest)
        ≡ (do head ← s.try_from b; decode (s.fields head) A (s.build head) (b ∷ rest) 1)
  unfolding headed_try_from_bytes admits
  read_head b rest h = rw (le→leb s.least (length (b ∷ rest)) (omega arith)) refl

  too_short :
      (bytes : List ℕ)
      → length bytes < s.least
      → headed_try_from_bytes s bytes ≡ err (out_of_range (at_least s.least) (length bytes) "bytes")
  unfolding headed_try_from_bytes
  too_short bytes h = rw (check_at_least_short s.least (length bytes) "bytes" h) refl

  round_trip : (a : A) → P a → headed_try_from_bytes s ((headed s).to_bytes a) ≡ ok a
  round_trip a p =
      let read =
        decode-encode (s.fields (s.head a)) (validity (s.head a)) A (s.build (s.head a)) (s.parts a)
          (s.into (s.head a) ∷ []) (l.lawful (s.head a)) (l.parts_valid a p) in
      read_head (s.into (s.head a)) (payload a) (omega (arith, length-payload a p, l.long a p))
      ∙ rw (l.try_from-into a p) (read ∙ ap ok (l.build-parts a))

  abbrev Read : List ℕ → A → Type 0
  Read bytes a = ((headed s).len a ≤ length bytes) × (All IsByte bytes → P a)

  decoded :
      (b : ℕ) (bytes : List ℕ) (h : H) (a : A)
      → s.try_from b ≡ ok h
      → 1 ≤ length bytes
      → decode (s.fields h) A (s.build h) bytes 1 ≡ ok a
      → Read bytes a
  decoded b bytes h a tried long e =
      let (t, built, short, valid) =
        decode-Valid (s.fields h) (validity h) A (s.build h) bytes 1 a (all_lawful h) long e in
      rw built (omega (arith, l.len_build b h t tried), λ q. l.build_valid b h t tried (valid q))

  some-Read : (bytes : List ℕ) (a : A) → headed_try_from_bytes s bytes ≡ ok a → Read bytes a
  some-Read [] a e = cc (e, too_short [] (omega (arith, l.least_pos)))
  some-Read (b ∷ rest) a e = elim (le_or_lt s.least (1 + length rest)) [
    | inl h ↦
        let (head, tried, read) =
          >>=-eq-ok (s.try_from b) (λ head. decode (s.fields head) A (s.build head) (b ∷ rest) 1)
            (rw (read_head b rest h) at e) in
        decoded b (b ∷ rest) head a tried (omega arith) read
    | inr h ↦ cc (e, too_short (b ∷ rest) (omega (arith, h)))
  ]

  no_panic : (bytes : List ℕ) → headed_try_from_bytes s bytes ≢ panicked
  no_panic [] e = cc (e, too_short [] (omega (arith, l.least_pos)))
  no_panic (b ∷ rest) e = elim (le_or_lt s.least (1 + length rest)) [
    | inl h ↦
        elim (>>=-eq-panicked (s.try_from b)
          (λ head. decode (s.fields head) A (s.build head) (b ∷ rest) 1)
          (rw (read_head b rest h) at e)) [
            | inl p ↦ l.try_from-ne-panicked b p
            | inr (head, _, p) ↦
                decode-never_panics (s.fields head) (validity head) A (s.build head) (b ∷ rest) 1
                  (all_lawful head) (omega arith) p
          ]
    | inr h ↦ cc (e, too_short (b ∷ rest) (omega (arith, h)))
  ]

  pub headed-Lawful : Lawful (headed s) P
  headed-Lawful = record {
    to_bytes-IsByte = λ a p. (
      l.into-IsByte a p,
      encode-IsByte (s.fields (s.head a)) (validity (s.head a)) (s.parts a) (all_lawful (s.head a))
          (l.parts_valid a p),
    );
    length-to_bytes = λ a p. omega (arith, length-payload a p);
    try_from_bytes-to_bytes = round_trip;
    decoded_valid = λ bytes a h e. (some-Read bytes a e).1 h;
    len_le = λ bytes a e. (some-Read bytes a e).0;
    never_panics = no_panic;
  }

  module _ (prefixed : (h : H) → AllPrefixed (s.fields h) (validity h)) where
    overfull :
        (a : A) (rest : List ℕ)
        → P a
        → headed_try_from_bytes s ((headed s).to_bytes a ++ rest) ≡ ok a
    overfull a rest p =
        let read =
          decode-encode_overfull (s.fields (s.head a)) (validity (s.head a)) A (s.build (s.head a))
            (s.parts a) (s.into (s.head a) ∷ []) rest (prefixed (s.head a)) (l.parts_valid a p) in
        read_head (s.into (s.head a)) (payload a ++ rest)
          (omega (arith, length-append (payload a) rest, length-payload a p, l.long a p))
        ∙ rw (l.try_from-into a p) (read ∙ ap ok (l.build-parts a))

    pub headed-Prefixed : Prefixed (headed s) P
    headed-Prefixed = record { lawful = headed-Lawful; overfull = overfull }
