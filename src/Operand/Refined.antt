-- ===== src/Operand/Refined.antt =====
-- Operands that are read as another one, of which not all values are accepted
-- (linux-cec/src/operand.rs): `AtscData` and `ChannelId`.
pub mod Channel
pub mod Atsc
use linux_cec.Core.Error.{>>=-eq-panicked, panicked, ok, >>=-eq-ok, ◌>>=◌, Result}
use linux_cec.Operand.Encodable.{Prefixed, OperandEncodable}
use linux_cec.Prelude.{inr, inl, ◌++◌, ◌≤◌, arith, ◌≢◌, List, ◌≡◌, ℕ}

abbrev pub refined :
    {R A : Type 0} → OperandEncodable R → (A → R) → (R → Result A) → OperandEncodable A
refined c into try_from = record {
  to_bytes = λ a. c.to_bytes (into a);
  try_from_bytes = λ bytes. (do r ← c.try_from_bytes bytes; try_from r);
  len = λ a. c.len (into a);
  expected_len = c.expected_len;
}

-- What the two conversions owe.
pub record Refines {R A : Type 0} (c : OperandEncodable R) (P : R → Type 0) (Q : A → Type 0)
    (into : A → R) (try_from : R → Result A) : Type 0 where
  pub into_valid : (a : A) → Q a → P (into a)
  pub try_from-into : (a : A) → Q a → try_from (into a) ≡ ok a
  pub try_from_valid : (r : R) (a : A) → P r → try_from r ≡ ok a → Q a
  pub len-into : (r : R) (a : A) → try_from r ≡ ok a → c.len (into a) ≤ c.len r
  pub try_from-ne-panicked : (r : R) → try_from r ≢ panicked

module _ {R A : Type 0} (c : OperandEncodable R) (P : R → Type 0) (Q : A → Type 0) (into : A → R)
    (try_from : R → Result A) (p : Prefixed c P) (f : Refines c P Q into try_from) where
  accepted :
      (bytes : List ℕ) (a : A)
      → Q a
      → c.try_from_bytes bytes ≡ ok (into a)
      → (refined c into try_from).try_from_bytes bytes ≡ ok a
  accepted bytes a q read = rw read (f.try_from-into a q)

  no_panic : (bytes : List ℕ) → (refined c into try_from).try_from_bytes bytes ≢ panicked
  no_panic bytes h = elim (>>=-eq-panicked (c.try_from_bytes bytes) try_from h) [
    | inl e ↦ p.lawful.never_panics bytes e
    | inr (r, _, e) ↦ f.try_from-ne-panicked r e
  ]

  pub refined-Prefixed : Prefixed (refined c into try_from) Q
  refined-Prefixed = record {
    lawful = record {
      to_bytes-IsByte = λ a q. p.lawful.to_bytes-IsByte (into a) (f.into_valid a q);
      length-to_bytes = λ a q. p.lawful.length-to_bytes (into a) (f.into_valid a q);
      try_from_bytes-to_bytes = λ a q.
          accepted (c.to_bytes (into a)) a q
            (p.lawful.try_from_bytes-to_bytes (into a) (f.into_valid a q));
      decoded_valid = λ bytes a h e.
          let (r, read, made) = >>=-eq-ok (c.try_from_bytes bytes) try_from e in
          f.try_from_valid r a (p.lawful.decoded_valid bytes r h read) made;
      len_le = λ bytes a e.
          let (r, read, made) = >>=-eq-ok (c.try_from_bytes bytes) try_from e in
          omega (arith, p.lawful.len_le bytes r read, f.len-into r a made);
      never_panics = no_panic;
    };
    overfull = λ a rest q.
        accepted (c.to_bytes (into a) ++ rest) a q (p.overfull (into a) rest (f.into_valid a q));
  }
