-- ===== src/Cecd/Edid/Total.antt =====
-- The search of an EDID ends, and without a panic (cecd/src/device.rs).
use linux_cec.Core.PhysicalAddress.{PhysicalAddress}
use linux_cec.Core.Slice.{index_lt, slice}
use linux_cec.Prelude.{
  leb→le, leb, none, some, Option, ◌==◌, drop, ◌-◌, refl, zero, bit_and, take, inr, suc, ◌&&◌, inl,
  le→leb, ltb, arith, Bool-cases, ◌≢◌, ◌+◌, length, ◌≤◌, ◌<◌, ◌≡◌, ℕ, List,
}
use linux_cec.Core.Error.{>>=-eq-panicked, ◌>>=◌, panicked, ok, err, Result}
use linux_cec.Cecd.Edid.{
  or_rest, scan_block, after_round, end_of_blocks, parse_hdmi_edid_pa, block_end, find, hdmi_oui,
  not, stop, bytes_eq, found, advance, read_address, Round, header_round, scan, vendor_round, round,
}

-- What a round may do behind which the loop goes on: it never panics, and it moves forward.
abbrev pub Moves : Result Round → Type 0
Moves panicked = ⊥
Moves (err e) = Unit
Moves (ok stop) = Unit
Moves (ok (found address)) = Unit
Moves (ok (advance size)) = 0 < size

vendor_round-Moves :
    (edid : List ℕ) (offset size : ℕ)
    → 6 ≤ size
    → offset + size ≤ length edid
    → Moves (vendor_round edid offset size)
unfolding vendor_round read_address slice
vendor_round-Moves edid offset size h fits =
    let (high, eh) = index_lt edid (offset + 4) (omega arith) in
    let (low, el) = index_lt edid (offset + 5) (omega arith) in
    rw (le→leb (offset + 1) (offset + 4) (omega arith)) (
      rw (le→leb (offset + 4) (length edid) (omega arith))
        (elim (Bool-cases
          (bytes_eq (take (offset + 4 - (offset + 1)) (drop (offset + 1) edid)) hdmi_oui)) [
            | inl same ↦ rw same (rw eh (rw el tt))
            | inr differ ↦ rw differ (omega arith)
          ]))

header_round-Moves :
    (edid : List ℕ) (last offset header size : ℕ)
    → last ≤ length edid
    → 0 < size
    → Moves (header_round edid last offset header size)
unfolding header_round
header_round-Moves edid last offset header size h pos = elim (Bool-cases (ltb size 6)) [
  | inl short ↦ rw short pos
  | inr long ↦ rw long (elim (Bool-cases (ltb last (offset + size))) [
    | inl over ↦ rw over tt
    | inr within ↦ rw within (elim (Bool-cases (not (bit_and header 0xe0 == 0x60))) [
      | inl other ↦ rw other pos
      | inr vendor ↦ rw vendor (vendor_round-Moves edid offset size (ground arith) (ground arith))
    ])
  ])
]

pub round-Moves :
    (edid : List ℕ) (last offset : ℕ) → last ≤ length edid → Moves (round edid last offset)
unfolding round
round-Moves edid last offset h =
    elim (Bool-cases (ltb (offset + 1) (length edid) && ltb offset last)) [
      | inl inside ↦
          let (header, eh) = index_lt edid offset (ground arith) in
          rw inside (
            rw eh (
              header_round-Moves edid last offset header (bit_and header 0x1f + 1) h (omega arith)))
      | inr outside ↦ rw outside tt
    ]

-- A round that moves forward has not reached the end.
advance-lt :
    (edid : List ℕ) (last offset size : ℕ)
    → round edid last offset ≡ ok (advance size)
    → offset < last
unfolding round
advance-lt edid last offset size h = ground arith

after_round-ne-panicked :
    (next : ℕ → Result (Option PhysicalAddress)) (r : Result Round)
    → Moves r
    → ((size : ℕ) → r ≡ ok (advance size) → 0 < size → next size ≢ panicked)
    → (r >>= after_round next) ≢ panicked
after_round-ne-panicked next panicked m step e = absurd m
after_round-ne-panicked next (err x) m step e = cc
after_round-ne-panicked next (ok stop) m step e = cc
after_round-ne-panicked next (ok (found address)) m step e = cc
after_round-ne-panicked next (ok (advance size)) m step e = step size refl m e

pub scan-ne-panicked :
    (fuel : ℕ) (edid : List ℕ) (last offset : ℕ)
    → last ≤ length edid
    → 0 < fuel
    → last < offset + fuel
    → scan fuel edid last offset ≢ panicked
unfolding scan
scan-ne-panicked zero edid last offset h pos enough e = omega arith
scan-ne-panicked (suc fuel) edid last offset h pos enough e =
    after_round-ne-panicked (λ size. scan fuel edid last (offset + size)) (round edid last offset)
      (round-Moves edid last offset h)
      (λ size er moves.
        let inside = advance-lt edid last offset size er in
        scan-ne-panicked fuel edid last (offset + size) h (omega arith) (omega arith))
      e

-- Where the data blocks end is within the extension block.
abbrev pub Within : ℕ → Option ℕ → Type 0
Within block none = Unit
Within block (some last) = last ≤ block + 127

end_of_blocks-Within :
    (block tag revision length_byte : ℕ)
    → Within block (end_of_blocks block tag revision length_byte)
end_of_blocks-Within block tag revision length_byte =
    elim (Bool-cases (not (tag == 2) && ltb revision 3)) [
      | inl skipped ↦ rw skipped tt
      | inr scanned ↦ rw scanned (ground arith)
    ]

pub block_end-Within :
    (edid : List ℕ) (block : ℕ)
    → block + 128 ≤ length edid
    → (e : Option ℕ) × (block_end edid block ≡ ok e) × Within block e
unfolding block_end
block_end-Within edid block h =
    let (tag, et) = index_lt edid block (omega arith) in
    let (revision, er) = index_lt edid (block + 1) (omega arith) in
    let (length_byte, el) = index_lt edid (block + 2) (omega arith) in
    (
      end_of_blocks block tag revision length_byte,
      rw et (rw er (rw el refl)),
      end_of_blocks-Within block tag revision length_byte,
    )

scan_block-ne-panicked :
    (edid : List ℕ) (block : ℕ) (rest : Result (Option PhysicalAddress)) (e : Option ℕ)
    → block + 128 ≤ length edid
    → Within block e
    → rest ≢ panicked
    → scan_block edid block rest e ≢ panicked
scan_block-ne-panicked edid block rest none h w r e = r e
scan_block-ne-panicked edid block rest (some last) h w r e =
    elim (>>=-eq-panicked (scan (length edid + 1) edid last (block + 4)) (or_rest rest) e) [
      | inl scanned ↦
          scan-ne-panicked (length edid + 1) edid last (block + 4) (omega arith) (omega arith)
            (omega arith) scanned
      | inr (none, es, e') ↦ r e'
      | inr (some address, es, e') ↦ cc
    ]

find-ne-panicked :
    (fuel : ℕ) (edid : List ℕ) (block : ℕ)
    → 0 < fuel
    → length edid < block + fuel
    → find fuel edid block ≢ panicked
unfolding find
find-ne-panicked zero edid block pos enough e = omega arith
find-ne-panicked (suc fuel) edid block pos enough e =
    elim (Bool-cases (leb (block + 128) (length edid))) [
      | inl inside ↦
          let within = leb→le (block + 128) (length edid) inside in
          let (last, eb, w) = block_end-Within edid block within in
          scan_block-ne-panicked edid block (find fuel edid (block + 128)) last within w
            (find-ne-panicked fuel edid (block + 128) (omega arith) (omega arith))
            (rw inside at (rw eb at e))
      | inr outside ↦ ground arith
    ]

-- For every EDID, cut off or not, the search for the physical address ends within its fuel, and no
-- index or slice is out of bounds.
pub parse-ne-panicked : (edid : List ℕ) → parse_hdmi_edid_pa edid ≢ panicked
unfolding parse_hdmi_edid_pa
parse-ne-panicked edid = find-ne-panicked (length edid + 1) edid 128 (omega arith) (omega arith)
