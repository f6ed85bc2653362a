-- ===== src/Cecd/Edid/Complete/Blocks.antt =====
-- The data blocks of an EDID, as they are written, and the scan that passes them (cecd/src/device.rs).
use linux_cec.Prelude.Bits.{or_shifted, and_mask}
use linux_cec.Core.Error.{ok}
use linux_cec.Cecd.Edid.Sound.{tag_mask}
use linux_cec.Cecd.Edid.Sound.Bytes.{bytes_eq_sound, drop-add}
use linux_cec.Core.Slice.{slice, IsByte, index}
use linux_cec.Prelude.{
  sym, append_assoc, some, All, true, ◌&&◌, ◌==◌, bit_and, le→leb, ◌-◌, length-append, ltb, inr,
  refl, inl, drop-append, zero, ◌*◌, Bool-cases, ◌∙◌, arith, false, ◌/◌, ap, suc, ◌≡◌, [], take,
  ◌⊎◌, ◌<◌, ◌∷◌, drop, ◌+◌, ◌≤◌, ◌++◌, length, ◌≢◌, ℕ, ◌%◌, List,
}
use linux_cec.Cecd.Edid.{
  scan, not, hdmi_oui, advance, found, read_address, bytes_eq, vendor_round, header_round, round,
}

-- A data block of an extension block, and the bytes of several.
pub record DataBlock : Type 0 where
  pub header : ℕ
  pub payload : List ℕ

abbrev pub write_blocks : List DataBlock → List ℕ
write_blocks [] = []
write_blocks (b ∷ blocks) = (b.header ∷ b.payload) ++ write_blocks blocks

-- Its header counts the payload.
abbrev pub IsDataBlock : DataBlock → Type 0
IsDataBlock b = IsByte b.header × (length b.payload ≡ b.header % 32)

-- It is too short for an address, not of a vendor, or of another vendor.
abbrev pub IsOther : DataBlock → Type 0
IsOther b =
    IsDataBlock b × ((b.header % 32 < 5) ⊎ (b.header / 32 ≢ 3) ⊎ (take 3 b.payload ≢ hdmi_oui))

-- It is one of HDMI, with the address.
abbrev pub IsHdmi : DataBlock → ℕ → ℕ → List ℕ → Type 0
IsHdmi b high low more =
    IsDataBlock b
    × (b.header / 32 ≡ 3)
    × (b.payload ≡ 0x03 ∷ 0x0c ∷ 0x00 ∷ high ∷ low ∷ more)
    × (low < 256)

pub index-append :
    (front rest : List ℕ) (i : ℕ) → index (front ++ rest) (length front + i) ≡ index rest i
unfolding index
index-append [] rest i = ap (index rest) (omega arith)
index-append (x ∷ front) rest i =
    let e : suc (length front) + i ≡ suc (length front + i) = omega arith in
    rw e (index-append front rest i)

pub drop_past :
    (front rest : List ℕ) (i : ℕ) → drop (length front + i) (front ++ rest) ≡ drop i rest
drop_past front rest i =
    drop-add (length front) i (front ++ rest) ∙ ap (drop i) (drop-append front rest)

pub take_within : (n : ℕ) (xs ys : List ℕ) → n ≤ length xs → take n (xs ++ ys) ≡ take n xs
take_within zero xs ys h = refl
take_within (suc n) [] ys h = absurd (omega arith)
take_within (suc n) (x ∷ xs) ys h = ap (λ t. x ∷ t) (take_within n xs ys (omega arith))

pub bytes_ne : (xs ys : List ℕ) → xs ≢ ys → bytes_eq xs ys ≡ false
bytes_ne xs ys h = elim (Bool-cases (bytes_eq xs ys)) [
  | inl same ↦ absurd (h (bytes_eq_sound xs ys same))
  | inr differ ↦ differ
]

pub other_ne :
    (b : DataBlock)
    → IsOther b
    → 5 ≤ b.header % 32
    → b.header / 32 ≡ 3
    → take 3 b.payload ≢ hdmi_oui
other_ne b (d, inl short) long tag = absurd (omega arith)
other_ne b (d, inr (inl other)) long tag = absurd (other tag)
other_ne b (d, inr (inr differ)) long tag = differ

-- Bytes that hold a data block behind `front`.
module _ (front : List ℕ) (b : DataBlock) (rest edid : List ℕ)
    (placed : edid ≡ front ++ (b.header ∷ (b.payload ++ rest))) where
  index-placed : (i : ℕ) → index edid (length front + i) ≡ index (b.header ∷ (b.payload ++ rest)) i
  index-placed i = rw placed (index-append front (b.header ∷ (b.payload ++ rest)) i)

  length-placed : length edid ≡ length front + 1 + length b.payload + length rest
  length-placed = rw placed (
      omega (
        arith,
        length-append {0} front (b.header ∷ (b.payload ++ rest)),
        length-append {0} b.payload rest,
      ))

  index_header : index edid (length front) ≡ ok b.header
  unfolding index
  index_header = ap (index edid) (omega arith) ∙ index-placed 0

  inside_test :
      (last : ℕ)
      → length front < last
      → last < length edid
      → (ltb (length front + 1) (length edid) && ltb (length front) last) ≡ true
  inside_test last h inside = ground arith

  -- The slice that a round compares with the identifier.
  slice_payload :
      3 ≤ length b.payload
      → slice edid (length front + 1) (length front + 4) ≡ ok (take 3 b.payload)
  unfolding slice
  slice_payload h =
      let three : length front + 4 - (length front + 1) ≡ 3 = omega arith in
      rw (le→leb (length front + 1) (length front + 4) (omega arith)) (
        rw (le→leb (length front + 4) (length edid) (omega (arith, length-placed))) (
          rw three (
            rw placed (
              rw (drop_past front (b.header ∷ (b.payload ++ rest)) 1)
                (ap ok (take_within 3 b.payload rest h))))))

  header_round-other :
      (last : ℕ)
      → IsOther b
      → length front + (b.header % 32 + 1) ≤ last
      → header_round edid last (length front) b.header (b.header % 32 + 1)
        ≡ ok (advance (b.header % 32 + 1))
  unfolding header_round vendor_round
  header_round-other last ((byte, counts), o) fits = elim (Bool-cases (ltb (b.header % 32 + 1) 6)) [
    | inl short ↦ rw short refl
    | inr long ↦
        let within : ltb last (length front + (b.header % 32 + 1)) ≡ false = ground arith in
        let enough : 5 ≤ b.header % 32 = ground arith in
        rw long (
          rw within (elim (Bool-cases (not (bit_and b.header 0xe0 == 0x60))) [
            | inl other ↦ rw other refl
            | inr vendor ↦
                let tag : b.header / 32 ≡ 3 = ground (arith, tag_mask b.header byte) in
                rw vendor (
                  rw (slice_payload (omega arith)) (
                    rw
                      (bytes_ne (take 3 b.payload) hdmi_oui
                        (other_ne b ((byte, counts), o) enough tag))
                      refl))
          ]))
  ]

  round-other :
      (last : ℕ)
      → IsOther b
      → length front + (b.header % 32 + 1) ≤ last
      → last < length edid
      → round edid last (length front) ≡ ok (advance (b.header % 32 + 1))
  unfolding round
  round-other last o fits inside =
      rw (inside_test last (omega arith) inside)
        (rw index_header (rw (and_mask 5 b.header) (header_round-other last o fits)))

  address_at :
      (high low : ℕ) (more : List ℕ)
      → b.payload ≡ 0x03 ∷ 0x0c ∷ 0x00 ∷ high ∷ low ∷ more
      → (index edid (length front + 4) ≡ ok high) × (index edid (length front + 5) ≡ ok low)
  unfolding index
  address_at high low more is = (
    index-placed 4 ∙ ap (λ (t : List ℕ). index (b.header ∷ (t ++ rest)) 4) is,
    index-placed 5 ∙ ap (λ (t : List ℕ). index (b.header ∷ (t ++ rest)) 5) is,
  )

  round-hdmi :
      (last high low : ℕ) (more : List ℕ)
      → IsHdmi b high low more
      → length front + (b.header % 32 + 1) ≤ last
      → last < length edid
      → round edid last (length front) ≡ ok (found (record { value = high * 256 + low }))
  unfolding round header_round vendor_round read_address bytes_eq
  round-hdmi last high low more ((byte, counts), tag, is, small) fits inside =
      let enough : length b.payload ≡ length more + 5 = omega (arith, ap (length {A = ℕ}) is) in
      let oui : take 3 b.payload ≡ hdmi_oui = ap (λ (t : List ℕ). take 3 t) is in
      let vendor : bit_and b.header 0xe0 ≡ 0x60 = omega (arith, tag_mask b.header byte) in
      let (high_at, low_at) = address_at high low more is in
      let long : ltb (b.header % 32 + 1) 6 ≡ false = ground arith in
      let within : ltb last (length front + (b.header % 32 + 1)) ≡ false = ground arith in
      rw (inside_test last (omega arith) inside) (
        rw index_header (
          rw (and_mask 5 b.header) (
            rw long (
              rw within (
                rw vendor (
                  rw (slice_payload (omega arith)) (
                    rw oui (
                      rw high_at (
                        rw low_at (
                          ap (λ (v : ℕ). ok (found (record { value = v })))
                            (or_shifted 8 high low small)))))))))))

-- The rounds go over the other blocks to the first of HDMI.
pub scan_first :
    (fuel : ℕ) (blocks : List DataBlock) (front rest edid : List ℕ) (b : DataBlock)
    (last high low : ℕ) (more : List ℕ)
    → All IsOther blocks
    → IsHdmi b high low more
    → edid ≡ front ++ (write_blocks blocks ++ (b.header ∷ (b.payload ++ rest)))
    → length front + length (write_blocks blocks) + (b.header % 32 + 1) ≤ last
    → last < length edid
    → length (write_blocks blocks) < fuel
    → scan fuel edid last (length front) ≡ ok (some (record { value = high * 256 + low }))
unfolding scan
scan_first zero blocks front rest edid b last high low more others is placed fits inside enough =
    absurd (omega arith)
scan_first (suc fuel) [] front rest edid b last high low more others is placed fits inside enough =
    rw (round-hdmi front b rest edid placed last high low more is (omega arith) inside) refl
scan_first (suc fuel) (x ∷ blocks) front rest edid b last high low more others is placed fits inside
      enough =
    let after = b.header ∷ (b.payload ++ rest) in
    let tail = write_blocks blocks ++ after in
    let counted = others.0.0.1 in
    let total = length-append {0} x.payload (write_blocks blocks) in
    let here : edid ≡ front ++ (x.header ∷ (x.payload ++ tail)) =
      placed
      ∙ ap (λ (t : List ℕ). front ++ (x.header ∷ t))
          (append_assoc x.payload (write_blocks blocks) after) in
    let next : edid ≡ (front ++ (x.header ∷ x.payload)) ++ tail =
      here ∙ sym (append_assoc front (x.header ∷ x.payload) tail) in
    let moved : length front + (x.header % 32 + 1) ≡ length (front ++ (x.header ∷ x.payload)) =
      omega (arith, counted, length-append {0} front (x.header ∷ x.payload)) in
    rw (round-other front x tail edid here last others.0 (omega arith) inside) (
      rw moved (
        scan_first fuel blocks (front ++ (x.header ∷ x.payload)) rest edid b last high low more
          others.1 is next (omega arith) inside (omega arith)))
