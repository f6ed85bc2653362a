-- ===== src/Device/Adapter/Laws.antt =====
-- What holds of the logical addresses of a device when they are set (linux-cec/src/device.rs).
use linux_cec.Core.Range.{at_most, admits}
use linux_cec.Prelude.{
  append_assoc, drop, length-append, ◌++◌, map, ltb, sym, inr, ap, ◌&&◌, inl, ◌∙◌, leb, false,
  Bool-cases, Bool, refl, true, [], ◌∷◌, ◌==◌, arith, if◌then◌else◌, ◌≤◌, ◌+◌, ◌≢◌, ◌<◌, length,
  ◌≡◌, ℕ, List,
}
use linux_cec.Device.Adapter.{
  not, answered, if_cleared, with_types, clear_logical_addresses, assign_addresses,
  device_type_code, first_address, LogAddrs, Adapter, Kernel, store, write_types,
  set_logical_addresses,
}
use linux_cec.Core.Error.{out_of_range, Result, err, panicked, ok, check}
use linux_cec.Core.LogicalAddress.{
  LogicalAddress, type_primary_device_type, logical_address_type_discriminant, LogicalAddressType,
}

-- Writing at the end of a prefix.
store-append :
    (front rest : List ℕ) (b x : ℕ)
    → store (front ++ (b ∷ rest)) (length front) x ≡ ok (front ++ (x ∷ rest))
unfolding store
store-append [] rest b x = refl
store-append (c ∷ front) rest b x = rw (store-append front rest b x) refl

abbrev primary_code : LogicalAddressType → ℕ
primary_code t = device_type_code (type_primary_device_type t)

-- An array with the codes of the types in front, and its other elements behind.
abbrev pub overwritten : (LogicalAddressType → ℕ) → List LogicalAddressType → List ℕ → List ℕ
overwritten code types array = map code types ++ drop (length types) array

-- What the kernel is asked for: the codes of the types, in order.
abbrev pub requested : List LogicalAddressType → LogAddrs → LogAddrs
requested types addrs = record addrs {
  log_addr_types = overwritten logical_address_type_discriminant types addrs.log_addr_types;
  primary_device_types =
      overwritten (λ t. device_type_code (type_primary_device_type t)) types
        addrs.primary_device_types;
}

abbrev with_arrays : LogAddrs → List ℕ → List ℕ → LogAddrs
with_arrays addrs types primaries = record addrs {
  log_addr_types = types;
  primary_device_types = primaries;
}

-- The loop, behind the elements that it has written.
write_types-append :
    (types : List LogicalAddressType) (addrs : LogAddrs) (f g xs ys : List ℕ)
    → length f ≡ length g
    → length types ≤ length xs
    → length types ≤ length ys
    → write_types types (length f) (with_arrays addrs (f ++ xs) (g ++ ys))
      ≡ ok (
          with_arrays addrs
            (f ++ overwritten logical_address_type_discriminant types xs)
            (g ++ overwritten primary_code types ys))
unfolding write_types
write_types-append [] addrs f g xs ys same fx fy = refl
write_types-append (t ∷ types) addrs f g [] ys same fx fy = absurd (omega arith)
write_types-append (t ∷ types) addrs f g (x ∷ xs) [] same fx fy = absurd (omega arith)
write_types-append (t ∷ types) addrs f g (x ∷ xs) (y ∷ ys) same fx fy =
    let code = logical_address_type_discriminant t in
    let primary = primary_code t in
    let ih =
      write_types-append types addrs (f ++ (code ∷ [])) (g ++ (primary ∷ [])) xs ys
        (omega (arith, length-append {0} f (code ∷ []), length-append {0} g (primary ∷ []), same))
        (omega arith) (omega arith) in
    let counted : length (f ++ (code ∷ [])) ≡ length f + 1 =
      omega (arith, length-append {0} f (code ∷ [])) in
    let second : store (g ++ (y ∷ ys)) (length f) primary ≡ ok (g ++ (primary ∷ ys)) =
      rw same (store-append g ys y primary) in
    rw (store-append f xs x code) (
      rw second (
        rw
          (
            counted,
            append_assoc f (code ∷ []) xs,
            append_assoc g (primary ∷ []) ys,
            append_assoc f (code ∷ []) (overwritten logical_address_type_discriminant types xs),
            append_assoc g (primary ∷ []) (overwritten primary_code types ys),
          )
          at ih))

-- A predicate on what a branch ends with.
chosen :
    {A : Type 0} (T : A → Type 0) (c : Bool) (m n : A)
    → (c ≡ true → T m)
    → (c ≡ false → T n)
    → T (if c then m else n)
chosen T true m n h k = h refl
chosen T false m n h k = k refl

abbrev IsSafe : Result (Unit {0}) × Adapter → Type 0
IsSafe m = m.0 ≢ panicked

answered-IsSafe :
    (after : LogAddrs → Adapter) (a : Adapter) (r : Result LogAddrs)
    → r ≢ panicked
    → IsSafe (answered after a r)
answered-IsSafe after a (ok addrs) h e = cc
answered-IsSafe after a (err x) h e = cc
answered-IsSafe after a panicked h e = h refl

module _ (kernel : Kernel)
    (answers : (addrs : LogAddrs) → kernel.set_log_addrs addrs ≢ panicked) where
  assign_addresses-IsSafe : (n : ℕ) (a : Adapter) → IsSafe (assign_addresses kernel n a)
  unfolding assign_addresses
  assign_addresses-IsSafe n a = answered-IsSafe _ _ _ (answers _)

  clear_logical_addresses-IsSafe : (a : Adapter) → IsSafe (clear_logical_addresses kernel a)
  unfolding clear_logical_addresses
  clear_logical_addresses-IsSafe a = answered-IsSafe _ _ _ (answers _)

  if_cleared-IsSafe :
      (n : ℕ) (r : Result (Unit {0})) (a : Adapter)
      → r ≢ panicked
      → IsSafe (if_cleared (assign_addresses kernel n) (r, a))
  if_cleared-IsSafe n (ok u) a h = assign_addresses-IsSafe n a
  if_cleared-IsSafe n (err x) a h = λ e. cc
  if_cleared-IsSafe n panicked a h = λ e. h refl

  with_types-IsSafe :
      (n : ℕ) (a : Adapter) (r : Result LogAddrs) → r ≢ panicked → IsSafe (with_types kernel n a r)
  with_types-IsSafe n a (ok addrs) h =
      let b = record a { internal_log_addrs = addrs } in
      chosen IsSafe (not (n == 0) && ltb 0 addrs.num_log_addrs)
        (if_cleared (assign_addresses kernel n) (clear_logical_addresses kernel b))
        (assign_addresses kernel n b)
        (λ c.
          if_cleared-IsSafe n (clear_logical_addresses kernel b).0
            (clear_logical_addresses kernel b).1 (clear_logical_addresses-IsSafe b))
        (λ c. assign_addresses-IsSafe n b)
  with_types-IsSafe n a (err x) h = λ e. cc
  with_types-IsSafe n a panicked h = λ e. h refl

  -- If the kernel's two arrays of types have four elements and the kernel never makes a request
  -- panic: a list of more than four types is refused with its length, and the device is as before;
  -- one of at most four is written in order in front of both arrays, whose other elements stay,
  -- before the addresses are cleared and set; and no list makes the code panic.
  pub set_logical_addresses_lem :
      (types : List LogicalAddressType) (a : Adapter)
      → length a.internal_log_addrs.log_addr_types ≡ 4
      → length a.internal_log_addrs.primary_device_types ≡ 4
      → (4 < length types
          → set_logical_addresses kernel types a
            ≡ (err (out_of_range (at_most 4) (length types) "logical addresses"), a))
        × (length types ≤ 4
            → set_logical_addresses kernel types a
              ≡ with_types kernel (length types) a (ok (requested types a.internal_log_addrs)))
        × ((set_logical_addresses kernel types a).0 ≢ panicked)
  unfolding set_logical_addresses check admits
  set_logical_addresses_lem types a t p =
      let addrs = a.internal_log_addrs in
      let written : length types ≤ 4 → write_types types 0 addrs ≡ ok (requested types addrs) =
        λ few.
          write_types-append types addrs [] [] addrs.log_addr_types addrs.primary_device_types refl
            (omega arith) (omega arith) in
      elim (Bool-cases (leb (length types) 4)) [
        | inl few ↦
            let le : length types ≤ 4 = ground (arith, few) in
            (
              λ many. absurd (omega arith),
              λ h. rw few (rw (written le) refl),
              rw few (
                  rw (written le)
                    (with_types-IsSafe (length types) a (ok (requested types addrs)) (λ e. cc))),
            )
        | inr many ↦ (λ h. rw many refl, λ h. absurd (ground (arith, many)), rw many (λ e. cc))
      ]

module _ (kernel : Kernel) (n : ℕ) where
  -- If all went well, the initiator is the first address, or the old one if none was set.
  abbrev Tracks : LogicalAddress → Result (Unit {0}) × Adapter → Type 0
  Tracks old m =
      m.0 ≡ ok tt
      → m.1.tx_logical_address ≡ (if n == 0 then old else first_address m.1.internal_log_addrs)

  answered-Tracks :
      (a b : Adapter) (r : Result LogAddrs)
      → Tracks a.tx_logical_address (
          answered
            (λ new. record {
              tx_logical_address = if n == 0 then a.tx_logical_address else first_address new;
              internal_log_addrs = new;
            })
            b
            r)
  answered-Tracks a b (ok new) h = refl
  answered-Tracks a b (err e) h = cc
  answered-Tracks a b panicked h = cc

  assign_addresses-Tracks :
      (a : Adapter) → Tracks a.tx_logical_address (assign_addresses kernel n a)
  unfolding assign_addresses
  assign_addresses-Tracks a = answered-Tracks a _ _

  if_cleared-Tracks :
      (old : LogicalAddress) (r : Result (Unit {0})) (a : Adapter)
      → (n == 0) ≡ false
      → Tracks old (if_cleared (assign_addresses kernel n) (r, a))
  if_cleared-Tracks old (ok u) a some_set h =
      let e = assign_addresses-Tracks a h in
      e
      ∙ ap
          (λ (b : Bool).
            if b
            then a.tx_logical_address
            else first_address (assign_addresses kernel n a).1.internal_log_addrs)
          some_set
      ∙ sym (
          ap
            (λ (b : Bool).
              if b then old else first_address (assign_addresses kernel n a).1.internal_log_addrs)
            some_set)
  if_cleared-Tracks old (err e) a some_set h = cc
  if_cleared-Tracks old panicked a some_set h = cc

  with_types-Tracks :
      (a : Adapter) (r : Result LogAddrs) → Tracks a.tx_logical_address (with_types kernel n a r)
  with_types-Tracks a (ok addrs) =
      let b = record a { internal_log_addrs = addrs } in
      chosen (Tracks a.tx_logical_address) (not (n == 0) && ltb 0 addrs.num_log_addrs)
        (if_cleared (assign_addresses kernel n) (clear_logical_addresses kernel b))
        (assign_addresses kernel n b)
        (λ c.
          if_cleared-Tracks a.tx_logical_address (clear_logical_addresses kernel b).0
            (clear_logical_addresses kernel b).1 (ground arith))
        (λ c. assign_addresses-Tracks b)
  with_types-Tracks a (err e) = λ h. cc
  with_types-Tracks a panicked = λ h. cc

-- After logical addresses are set, the device sends from the first that the kernel has assigned, or
-- as unregistered if that is no address, whether old ones were cleared before or not; after setting
-- none it sends from the same address as before.
pub set_logical_addresses_tracks :
    (kernel : Kernel) (types : List LogicalAddressType) (a : Adapter)
    → (set_logical_addresses kernel types a).0 ≡ ok tt
    → let b = (set_logical_addresses kernel types a).1 in
      b.tx_logical_address
      ≡ (if length types == 0 then a.tx_logical_address else first_address b.internal_log_addrs)
unfolding set_logical_addresses
set_logical_addresses_tracks kernel types a = with_types-Tracks kernel (length types) a _
