-- ===== src/Cecd/Edid/Complete.antt =====
-- Which address is found in an EDID: that of the first vendor block of HDMI (cecd/src/device.rs).
pub mod Blocks
use linux_cec.Cecd.Edid.Complete.Blocks.{
  scan_first, index-append, write_blocks, IsHdmi, IsOther, DataBlock,
}
use linux_cec.Core.PhysicalAddress.{PhysicalAddress}
use linux_cec.Prelude.Bits.{or_shifted, and_mask}
use linux_cec.Core.Error.{ok}
use linux_cec.Core.Slice.{slice, IsByte, index}
use linux_cec.Prelude.{
  sym, append_assoc, some, All, leb, if◌then◌else◌, true, ◌&&◌, ◌==◌, bit_and, le→leb, ◌-◌,
  length-append, ltb, inr, refl, inl, drop-append, zero, ◌*◌, Bool-cases, ◌∙◌, arith, false, ◌/◌,
  ap, suc, ◌≡◌, [], take, ◌⊎◌, ◌<◌, ◌∷◌, drop, ◌+◌, ◌≤◌, ◌++◌, length, ◌≢◌, ℕ, ◌%◌, List,
}
use linux_cec.Cecd.Edid.{
  block_end, find, min, scan, parse_hdmi_edid_pa, not, hdmi_oui, advance, found, read_address,
  bytes_eq, vendor_round, header_round, round,
}

abbrev pub data_end : ℕ → ℕ
data_end length_byte = if leb 4 length_byte then min length_byte 127 else 127

data_end_le : (length_byte : ℕ) → data_end length_byte ≤ 127
data_end_le length_byte = ground arith

find_block :
    (fuel : ℕ) (edid : List ℕ) (revision length_byte : ℕ) (address : PhysicalAddress)
    → 256 ≤ length edid
    → index edid 128 ≡ ok 2
    → index edid 129 ≡ ok revision
    → index edid 130 ≡ ok length_byte
    → scan (length edid + 1) edid (128 + data_end length_byte) 132 ≡ ok (some address)
    → find (suc fuel) edid 128 ≡ ok (some address)
unfolding find block_end
find_block fuel edid revision length_byte address long e0 e1 e2 scanned =
    rw (le→leb 256 (length edid) long) (rw e0 (rw e1 (rw e2 (rw scanned refl))))

-- In an EDID whose first extension block is of CTA, a vendor block of HDMI that lies within the end
-- of the data blocks is found, and its address returned, if all data blocks before it are too short
-- for an address, not of a vendor, or of another vendor.
pub parse_first :
    (base : List ℕ) (revision length_byte flags : ℕ) (blocks : List DataBlock) (b : DataBlock)
    (high low : ℕ) (more rest : List ℕ)
    → length base ≡ 128
    → All IsOther blocks
    → IsHdmi b high low more
    → 4 + length (write_blocks blocks) + (b.header % 32 + 1) ≤ data_end length_byte
    → 252 ≤ length base + length (write_blocks blocks) + 1 + length b.payload + length rest
    → parse_hdmi_edid_pa (
        base
        ++ (2
            ∷ revision
            ∷ length_byte
            ∷ flags
            ∷ (write_blocks blocks ++ (b.header ∷ (b.payload ++ rest)))))
      ≡ ok (some (record { value = high * 256 + low }))
unfolding parse_hdmi_edid_pa index
parse_first base revision length_byte flags blocks b high low more rest h others is fits long =
    let after = b.header ∷ (b.payload ++ rest) in
    let body = write_blocks blocks ++ after in
    let head = 2 ∷ revision ∷ length_byte ∷ flags ∷ [] in
    let edid = base ++ (2 ∷ revision ∷ length_byte ∷ flags ∷ body) in
    let placed : edid ≡ (base ++ head) ++ body = sym (append_assoc base head body) in
    let front : length (base ++ head) ≡ 132 = omega (arith, h, length-append {0} base head) in
    let total : 256 ≤ length edid = omega (
      arith,
      length-append {0} base (2 ∷ revision ∷ length_byte ∷ flags ∷ body),
      length-append {0} (write_blocks blocks) after,
      length-append {0} b.payload rest,
    ) in
    let at = index-append base (2 ∷ revision ∷ length_byte ∷ flags ∷ body) in
    let one : length edid + 1 ≡ suc (length edid) = omega arith in
    rw one (
      find_block (length edid) edid revision length_byte (record { value = high * 256 + low }) total
        (ap (λ (n : ℕ). index edid n) (omega arith) ∙ at 0)
        (ap (λ (n : ℕ). index edid n) (omega arith) ∙ at 1)
        (ap (λ (n : ℕ). index edid n) (omega arith) ∙ at 2)
        (rw front at (
          scan_first (length edid + 1) blocks (base ++ head) rest edid b
            (128 + data_end length_byte) high low more others is placed (omega arith)
            (omega (arith, data_end_le length_byte)) (omega (arith, data_end_le length_byte)))))
