-- ===== src/Cecd/Edid.antt =====
-- `DrmConnector::parse_hdmi_edid_pa` (cecd/src/device.rs): the physical address in the EDID of a
-- display. Indices and slices out of bounds panic, and so does a loop that is out of fuel.
pub mod Total
pub mod Sound
pub mod Complete
use linux_cec.Prelude.{
  ◌^◌, ℕ, zero, suc, ◌+◌, ◌-◌, ◌*◌, ◌&&◌, Bool, true, false, List, [], ◌∷◌, Option, none, some,
  length, ltb, leb, ◌==◌, if◌then◌else◌, bit_and, bit_or, take, drop,
}
use linux_cec.Core.Error.{Result, ok, panicked, ◌>>=◌}
use linux_cec.Core.Slice.{slice, index}
use linux_cec.Core.PhysicalAddress.{PhysicalAddress}
use mathlib.Core.Bool.{not}
use Prim.Native.Nat.{min}

unfoldable pub bytes_eq : List ℕ → List ℕ → Bool
bytes_eq [] [] = true
bytes_eq [] (y ∷ ys) = false
bytes_eq (x ∷ xs) [] = false
bytes_eq (x ∷ xs) (y ∷ ys) = x == y && bytes_eq xs ys

abbrev pub hdmi_oui : List ℕ
hdmi_oui = 0x03 ∷ 0x0c ∷ 0x00 ∷ []

-- What one round of the inner loop does with the data block at `offset`.
pub data Round : Type 0 where
  advance : ℕ → Round
  stop : Round
  found : PhysicalAddress → Round

unfoldable pub read_address : List ℕ → ℕ → Result Round
read_address edid offset = do
  high ← index edid (offset + 4)
  low ← index edid (offset + 5)
  ok (found (record { value = bit_or (high * 2 ^ 8) low }))

-- The block is one of the vendor: its identifier, and then the address.
unfoldable pub vendor_round : List ℕ → ℕ → ℕ → Result Round
unfolding read_address
vendor_round edid offset size = do
  oui ← slice edid (offset + 1) (offset + 4)
  if not (bytes_eq oui hdmi_oui) then ok (advance size) else read_address edid offset

unfoldable pub header_round : List ℕ → ℕ → ℕ → ℕ → ℕ → Result Round
unfolding vendor_round
header_round edid last offset header size =
    if ltb size 6
    then ok (advance size)
    else if ltb last (offset + size)
    then ok stop
    else if not (bit_and header 0xe0 == 0x60)
    then ok (advance size)
    else vendor_round edid offset size

unfoldable pub round : List ℕ → ℕ → ℕ → Result Round
unfolding header_round
round edid last offset =
    if ltb (offset + 1) (length edid) && ltb offset last
    then (index edid offset >>= λ header.
        header_round edid last offset header (bit_and header 0x1f + 1))
    else ok stop

abbrev pub after_round :
    (ℕ → Result (Option PhysicalAddress)) → Round → Result (Option PhysicalAddress)
after_round next (advance size) = next size
after_round next stop = ok none
after_round next (found address) = ok (some address)

-- `while offset + 1 < edid.len() && offset < end`
unfoldable pub scan : ℕ → List ℕ → ℕ → ℕ → Result (Option PhysicalAddress)
unfolding round
scan zero edid last offset = panicked
scan (suc fuel) edid last offset =
    round edid last offset >>= after_round (λ size. scan fuel edid last (offset + size))

abbrev pub end_of_blocks : ℕ → ℕ → ℕ → ℕ → Option ℕ
end_of_blocks block tag revision length_byte =
    if not (tag == 2) && ltb revision 3
    then none
    else some (block + (if leb 4 length_byte then min length_byte 127 else 127))

-- `edid[block + 1]` is read only behind the test of the tag, and is there if `edid[block + 2]` is.
unfoldable pub block_end : List ℕ → ℕ → Result (Option ℕ)
block_end edid block = do
  tag ← index edid block
  revision ← index edid (block + 1)
  length_byte ← index edid (block + 2)
  ok (end_of_blocks block tag revision length_byte)

abbrev pub or_rest :
    Result (Option PhysicalAddress) → Option PhysicalAddress → Result (Option PhysicalAddress)
or_rest rest none = rest
or_rest rest (some address) = ok (some address)

abbrev pub scan_block :
    List ℕ → ℕ → Result (Option PhysicalAddress) → Option ℕ → Result (Option PhysicalAddress)
scan_block edid block rest none = rest
scan_block edid block rest (some last) =
    scan (length edid + 1) edid last (block + 4) >>= or_rest rest

-- `while block + 128 <= edid.len()`
unfoldable pub find : ℕ → List ℕ → ℕ → Result (Option PhysicalAddress)
unfolding block_end scan
find zero edid block = panicked
find (suc fuel) edid block =
    let rest = find fuel edid (block + 128) in
    if leb (block + 128) (length edid)
    then (block_end edid block >>= scan_block edid block rest)
    else ok none

unfoldable pub parse_hdmi_edid_pa : List ℕ → Result (Option PhysicalAddress)
unfolding find
parse_hdmi_edid_pa edid = find (length edid + 1) edid 128
