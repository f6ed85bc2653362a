-- ===== src/Operand/Newtype.antt =====
-- Operands that wrap another one: `PhysicalAddress` over `u16`, `VendorId` over `[u8; 3]`.
use linux_cec.Prelude.{arith, ℕ, ◌≡◌, ◌≢◌, refl, ap, ◌∙◌, List, ◌++◌}
use linux_cec.Core.Error.{ok, panicked, ◌>>=◌, >>=-eq-ok}
use linux_cec.Core.PhysicalAddress.{PhysicalAddress, IsU16}
use linux_cec.Operand.Encodable.{OperandEncodable, Prefixed}
use linux_cec.Operand.Scalars.{u16, u16-Prefixed, array, array-Prefixed, IsArray}

abbrev pub wrapped : {A B : Type 0} → (A → B) → (B → A) → OperandEncodable A → OperandEncodable B
wrapped wrap unwrap c = record {
  to_bytes = λ b. c.to_bytes (unwrap b);
  try_from_bytes = λ bytes. (do a ← c.try_from_bytes bytes; ok (wrap a));
  len = λ b. c.len (unwrap b);
  expected_len = c.expected_len;
}

module _ {A B : Type 0} (wrap : A → B) (unwrap : B → A) (c : OperandEncodable A) (P : A → Type 0)
    (unwrap-wrap : (a : A) → unwrap (wrap a) ≡ a) (wrap-unwrap : (b : B) → wrap (unwrap b) ≡ b)
    (p : Prefixed c P) where
  read_wrapped :
      (bytes : List ℕ) (b : B)
      → c.try_from_bytes bytes ≡ ok (unwrap b)
      → (wrapped wrap unwrap c).try_from_bytes bytes ≡ ok b
  read_wrapped bytes b e = rw e (ap ok (wrap-unwrap b))

  unwrap_read :
      (bytes : List ℕ) (b : B)
      → (wrapped wrap unwrap c).try_from_bytes bytes ≡ ok b
      → c.try_from_bytes bytes ≡ ok (unwrap b)
  unwrap_read bytes b e =
      let (a, read, same) = >>=-eq-ok (c.try_from_bytes bytes) (λ a. ok (wrap a)) e in
      read ∙ ap ok (cc (unwrap-wrap a))

  no_panic : (bytes : List ℕ) → (wrapped wrap unwrap c).try_from_bytes bytes ≢ panicked
  no_panic bytes e = ground (arith, p.lawful.never_panics bytes)

  pub wrapped-Prefixed : Prefixed (wrapped wrap unwrap c) (λ b. P (unwrap b))
  wrapped-Prefixed = record {
    lawful = record {
      to_bytes-IsByte = λ b h. p.lawful.to_bytes-IsByte (unwrap b) h;
      length-to_bytes = λ b h. p.lawful.length-to_bytes (unwrap b) h;
      try_from_bytes-to_bytes = λ b h.
          read_wrapped (c.to_bytes (unwrap b)) b (p.lawful.try_from_bytes-to_bytes (unwrap b) h);
      decoded_valid =
          λ bytes b h e. p.lawful.decoded_valid bytes (unwrap b) h (unwrap_read bytes b e);
      len_le = λ bytes b e. p.lawful.len_le bytes (unwrap b) (unwrap_read bytes b e);
      never_panics = no_panic;
    };
    overfull =
        λ b rest h. read_wrapped (c.to_bytes (unwrap b) ++ rest) b (p.overfull (unwrap b) rest h);
  }

-- `OperandEncodable for PhysicalAddress`
abbrev pub physical_address : OperandEncodable PhysicalAddress
physical_address = wrapped (λ v. record { value = v }) (λ a. a.value) u16

abbrev pub IsAddress : PhysicalAddress → Type 0
IsAddress a = IsU16 a.value

pub physical_address-Prefixed : Prefixed physical_address IsAddress
physical_address-Prefixed =
    wrapped-Prefixed (λ v. record { value = v }) (λ a. a.value) u16 IsU16 (λ v. refl) (λ a. refl)
      u16-Prefixed

-- `VendorId`, with the codec that `derive(Operand)` generates for an array in a newtype.
pub record VendorId : Type 0 where
  pub octets : List ℕ

abbrev pub vendor_id : OperandEncodable VendorId
vendor_id = wrapped (λ xs. record { octets = xs }) (λ v. v.octets) (array 3)

abbrev pub IsVendorId : VendorId → Type 0
IsVendorId v = IsArray 3 v.octets

pub vendor_id-Prefixed : Prefixed vendor_id IsVendorId
vendor_id-Prefixed =
    wrapped-Prefixed (λ xs. record { octets = xs }) (λ v. v.octets) (array 3) (IsArray 3)
      (λ xs. refl) (λ v. refl) (array-Prefixed 3)
