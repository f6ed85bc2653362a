-- ===== src/Cecd/Edid/Sound.antt =====
-- What an address that is found in an EDID says of its bytes (cecd/src/device.rs).
pub mod Bytes
use linux_cec.Cecd.Edid.Sound.Bytes.{six_bytes, index-IsByte, bytes_eq_sound}
use linux_cec.Prelude.Bits.{or_shifted, and_mask, byte_table, agree}
use linux_cec.Core.Error.{panicked, err, Result, ◌>>=◌, >>=-eq-ok, ok-injective, ok}
use linux_cec.Core.PhysicalAddress.{PhysicalAddress}
use linux_cec.Prelude.{
  none, ◌⊎◌, Option, some, ◌<◌, bit_and, ltb, inl, inr, length, ◌&&◌, sym, leb, Bool-cases, ◌∙◌,
  ◌-◌, ◌^◌, ◌%◌, ◌*◌, refl, zero, ◌≤◌, ==_iff, bit_or, [], ◌/◌, ap, suc, arith, ◌∷◌, ◌+◌, true, All,
  ◌≡◌, take, drop, ℕ, List,
}
use linux_cec.Core.Slice.{slice, IsByte, index}
use linux_cec.Cecd.Edid.{
  stop, advance, or_rest, Round, scan_block, after_round, block_end, find, parse_hdmi_edid_pa, scan,
  header_round, hdmi_oui, found, read_address, vendor_round, bytes_eq, round,
}

-- A vendor block of HDMI behind the header of an extension block, with the address.
abbrev pub HasHdmiBlock : List ℕ → PhysicalAddress → Type 0
HasHdmiBlock edid address =
    (offset : ℕ) × (header : ℕ) × (high : ℕ) × (low : ℕ) × (rest : List ℕ) × (drop offset edid
      ≡ header ∷ 0x03 ∷ 0x0c ∷ 0x00 ∷ high ∷ low ∷ rest)
    × (header / 32 ≡ 3)
    × (5 ≤ header % 32)
    × (132 ≤ offset)
    × (address.value ≡ high * 256 + low)

abbrev ReadAt : List ℕ → ℕ → PhysicalAddress → Type 0
ReadAt edid offset address =
    (high : ℕ) × (low : ℕ) × (index edid (offset + 4) ≡ ok high)
    × (index edid (offset + 5) ≡ ok low)
    × (address.value ≡ bit_or (high * 2 ^ 8) low)

read_address-found :
    (edid : List ℕ) (offset : ℕ) (address : PhysicalAddress)
    → read_address edid offset ≡ ok (found address)
    → ReadAt edid offset address
unfolding read_address
read_address-found edid offset address h =
    let (high, eh, h1) =
      >>=-eq-ok (index edid (offset + 4))
        (λ high. index edid (offset + 5) >>= λ low.
          ok (found (record { value = bit_or (high * 2 ^ 8) low })))
        h in
    let (low, el, h2) =
      >>=-eq-ok (index edid (offset + 5))
        (λ low. ok (found (record { value = bit_or (high * 2 ^ 8) low }))) h1 in
    (high, low, eh, el, ground arith)

vendor_round-found :
    (edid : List ℕ) (offset size : ℕ) (address : PhysicalAddress)
    → vendor_round edid offset size ≡ ok (found address)
    → ReadAt edid offset address
      × (take (offset + 4 - (offset + 1)) (drop (offset + 1) edid) ≡ hdmi_oui)
unfolding vendor_round slice
vendor_round-found edid offset size address h =
    elim (Bool-cases (leb (offset + 1) (offset + 4) && leb (offset + 4) (length edid))) [
      | inr out ↦ absurd (ground arith)
      | inl inside ↦
          let oui = take (offset + 4 - (offset + 1)) (drop (offset + 1) edid) in
          elim (Bool-cases (bytes_eq oui hdmi_oui)) [
            | inr other ↦ absurd (ground arith)
            | inl same ↦ (
              read_address-found edid offset address (rw same at (rw inside at h)),
              bytes_eq_sound oui hdmi_oui same,
            )
          ]
    ]

-- The two masks of a header, as its top three bits and the five below.
pub tag_mask : (header : ℕ) → header < 256 → bit_and header 0xe0 ≡ header / 32 * 32
unfolding agree
tag_mask header h = byte_table (λ x. bit_and x 0xe0) (λ x. x / 32 * 32) refl header h

header_round-found :
    (edid : List ℕ) (last offset header size : ℕ) (address : PhysicalAddress)
    → header_round edid last offset header size ≡ ok (found address)
    → (vendor_round edid offset size ≡ ok (found address))
      × (6 ≤ size)
      × (bit_and header 0xe0 ≡ 0x60)
unfolding header_round
header_round-found edid last offset header size address h =
    ground (arith, ==_iff (bit_and header 0xe0) 0x60)

header_bits :
    (header : ℕ)
    → header < 256
    → 6 ≤ bit_and header 0x1f + 1
    → bit_and header 0xe0 ≡ 0x60
    → (header / 32 ≡ 3) × (5 ≤ header % 32)
header_bits header h size tag = (omega (arith, tag_mask header h), omega (arith, and_mask 5 header))

round-found :
    (edid : List ℕ) (last offset : ℕ) (address : PhysicalAddress)
    → All IsByte edid
    → 132 ≤ offset
    → round edid last offset ≡ ok (found address)
    → HasHdmiBlock edid address
unfolding round
round-found edid last offset address all pos h =
    elim (Bool-cases (ltb (offset + 1) (length edid) && ltb offset last)) [
      | inr outside ↦ absurd (ground arith)
      | inl inside ↦
          let (header, eh, h1) =
            >>=-eq-ok (index edid offset)
              (λ header. header_round edid last offset header (bit_and header 0x1f + 1))
              (rw inside at h) in
          let (h2, long, tag) =
            header_round-found edid last offset header (bit_and header 0x1f + 1) address h1 in
          let ((high, low, e4, e5, value), oui) =
            vendor_round-found edid offset (bit_and header 0x1f + 1) address h2 in
          let (three, five) =
            header_bits header (index-IsByte edid offset header all eh) long tag in
          (
            offset,
            header,
            high,
            low,
            drop (offset + 6) edid,
            six_bytes edid offset header high low eh oui e4 e5,
            three,
            five,
            pos,
            value ∙ or_shifted 8 high low (index-IsByte edid (offset + 5) low all e5),
          )
    ]

-- Where an address that is found comes from.
after_round-found :
    (next : ℕ → Result (Option PhysicalAddress)) (r : Result Round) (address : PhysicalAddress)
    → (r >>= after_round next) ≡ ok (some address)
    → (r ≡ ok (found address)) ⊎ ((size : ℕ) × (next size ≡ ok (some address)))
after_round-found next panicked address h = cc
after_round-found next (err x) address h = cc
after_round-found next (ok stop) address h = cc
after_round-found next (ok (found a)) address h = inl (cc)
after_round-found next (ok (advance size)) address h = inr (size, h)

or_rest-found :
    (rest r : Result (Option PhysicalAddress)) (address : PhysicalAddress)
    → (r >>= or_rest rest) ≡ ok (some address)
    → (r ≡ ok (some address)) ⊎ (rest ≡ ok (some address))
or_rest-found rest panicked address h = cc
or_rest-found rest (err x) address h = cc
or_rest-found rest (ok none) address h = inr h
or_rest-found rest (ok (some a)) address h = inl h

scan-found :
    (fuel : ℕ) (edid : List ℕ) (last offset : ℕ) (address : PhysicalAddress)
    → All IsByte edid
    → 132 ≤ offset
    → scan fuel edid last offset ≡ ok (some address)
    → HasHdmiBlock edid address
unfolding scan
scan-found zero edid last offset address all pos h = cc
scan-found (suc fuel) edid last offset address all pos h =
    elim (after_round-found (λ size. scan fuel edid last (offset + size)) (round edid last offset)
      address h) [
        | inl here ↦ round-found edid last offset address all pos here
        | inr (size, h1) ↦ scan-found fuel edid last (offset + size) address all (omega arith) h1
      ]

scan_block-found :
    (edid : List ℕ) (block : ℕ) (rest : Result (Option PhysicalAddress)) (e : Option ℕ)
    (address : PhysicalAddress)
    → All IsByte edid
    → 128 ≤ block
    → scan_block edid block rest e ≡ ok (some address)
    → HasHdmiBlock edid address ⊎ (rest ≡ ok (some address))
scan_block-found edid block rest none address all pos h = inr h
scan_block-found edid block rest (some last) address all pos h =
    elim (or_rest-found rest (scan (length edid + 1) edid last (block + 4)) address h) [
      | inl here ↦
          inl (scan-found (length edid + 1) edid last (block + 4) address all (omega arith) here)
      | inr there ↦ inr there
    ]

find-found :
    (fuel : ℕ) (edid : List ℕ) (block : ℕ) (address : PhysicalAddress)
    → All IsByte edid
    → 128 ≤ block
    → find fuel edid block ≡ ok (some address)
    → HasHdmiBlock edid address
unfolding find
find-found zero edid block address all pos h = cc
find-found (suc fuel) edid block address all pos h =
    elim (Bool-cases (leb (block + 128) (length edid))) [
      | inr outside ↦ absurd (ground arith)
      | inl inside ↦
          let rest = find fuel edid (block + 128) in
          let (e, eb, h1) =
            >>=-eq-ok (block_end edid block) (scan_block edid block rest) (rw inside at h) in
          elim (scan_block-found edid block rest e address all pos h1) [
            | inl here ↦ here
            | inr there ↦ find-found fuel edid (block + 128) address all (omega arith) there
          ]
    ]

-- An address that is found in an EDID of bytes stands in it, high byte first, behind the three
-- bytes of HDMI and the header of a vendor block that is long enough for it, at byte 132 or later.
pub parse_sound :
    (edid : List ℕ) (address : PhysicalAddress)
    → All IsByte edid
    → parse_hdmi_edid_pa edid ≡ ok (some address)
    → HasHdmiBlock edid address
unfolding parse_hdmi_edid_pa
parse_sound edid address all h = find-found (length edid + 1) edid 128 address all (omega arith) h
