-- ===== src/Cecd/Edid/Sound/Bytes.antt =====
-- What is read at an index stands behind what is dropped, for the bytes of an EDID.
use linux_cec.Core.Error.{ok-injective, ok}
use linux_cec.Prelude.{
  sym, ◌∙◌, ◌-◌, refl, zero, ==_iff, [], ap, suc, arith, ◌∷◌, ◌+◌, true, All, ◌≡◌, take, drop, ℕ,
  List,
}
use linux_cec.Core.Slice.{IsByte, index}
use linux_cec.Cecd.Edid.{hdmi_oui, bytes_eq}

pub drop-index :
    (bytes : List ℕ) (i b : ℕ) → index bytes i ≡ ok b → drop i bytes ≡ b ∷ drop (suc i) bytes
unfolding index
drop-index [] i b h = cc
drop-index (x ∷ bytes) zero b h = ap (λ t. t ∷ bytes) (ok-injective h)
drop-index (x ∷ bytes) (suc i) b h = drop-index bytes i b h

pub index-IsByte : (bytes : List ℕ) (i b : ℕ) → All IsByte bytes → index bytes i ≡ ok b → IsByte b
unfolding index
index-IsByte [] i b all h = cc
index-IsByte (x ∷ bytes) zero b all h = omega (arith, ok-injective h, all.0)
index-IsByte (x ∷ bytes) (suc i) b all h = index-IsByte bytes i b all.1 h

pub bytes_eq_sound : (xs ys : List ℕ) → bytes_eq xs ys ≡ true → xs ≡ ys
unfolding bytes_eq
bytes_eq_sound [] [] h = refl
bytes_eq_sound [] (y ∷ ys) h = cc
bytes_eq_sound (x ∷ xs) [] h = cc
bytes_eq_sound (x ∷ xs) (y ∷ ys) h = ground (arith, bytes_eq_sound xs ys, ==_iff x y)

drop-nil : (n : ℕ) → drop {A = ℕ} n [] ≡ []
drop-nil zero = refl
drop-nil (suc n) = refl

pub drop-add : (m n : ℕ) (xs : List ℕ) → drop (m + n) xs ≡ drop n (drop m xs)
drop-add zero n xs = ap (λ t. drop t xs) (omega arith)
drop-add (suc m) n [] = drop-nil (suc m + n) ∙ sym (drop-nil n)
drop-add (suc m) n (x ∷ xs) =
    let e : suc m + n ≡ suc (m + n) = omega arith in rw e (drop-add m n xs)

three_taken : (xs : List ℕ) (a b c : ℕ) → take 3 xs ≡ a ∷ b ∷ c ∷ [] → xs ≡ a ∷ b ∷ c ∷ drop 3 xs
three_taken [] a b c h = cc
three_taken (x ∷ []) a b c h = cc
three_taken (x ∷ y ∷ []) a b c h = cc
three_taken (x ∷ y ∷ z ∷ xs) a b c h = cc

-- The rest of the bytes behind an index, by the next index.
pub drop_next :
    (bytes : List ℕ) (i j b : ℕ)
    → j ≡ i + 1
    → index bytes i ≡ ok b
    → drop i bytes ≡ b ∷ drop j bytes
drop_next bytes i j b e h =
    let next : suc i ≡ j = omega arith in
    drop-index bytes i b h ∙ ap (λ (t : ℕ). b ∷ drop t bytes) next

pub oui_dropped :
    (edid : List ℕ) (offset : ℕ)
    → take (offset + 4 - (offset + 1)) (drop (offset + 1) edid) ≡ hdmi_oui
    → drop (offset + 1) edid ≡ 0x03 ∷ 0x0c ∷ 0x00 ∷ drop (offset + 4) edid
oui_dropped edid offset h =
    let n : offset + 4 - (offset + 1) ≡ 3 = omega arith in
    let m : offset + 1 + 3 ≡ offset + 4 = omega arith in
    three_taken (drop (offset + 1) edid) 0x03 0x0c 0x00 (rw n at h)
    ∙ ap (λ t. 0x03 ∷ 0x0c ∷ 0x00 ∷ t)
        (sym (drop-add (offset + 1) 3 edid) ∙ ap (λ (t : ℕ). drop t edid) m)

pub six_bytes :
    (edid : List ℕ) (offset header high low : ℕ)
    → index edid offset ≡ ok header
    → take (offset + 4 - (offset + 1)) (drop (offset + 1) edid) ≡ hdmi_oui
    → index edid (offset + 4) ≡ ok high
    → index edid (offset + 5) ≡ ok low
    → drop offset edid ≡ header ∷ 0x03 ∷ 0x0c ∷ 0x00 ∷ high ∷ low ∷ drop (offset + 6) edid
six_bytes edid offset header high low h0 h1 h4 h5 =
    rw (drop_next edid offset (offset + 1) header refl h0) (
      rw (oui_dropped edid offset h1) (
        rw (drop_next edid (offset + 4) (offset + 5) high (omega arith) h4)
          (rw (drop_next edid (offset + 5) (offset + 6) low (omega arith) h5) refl)))
