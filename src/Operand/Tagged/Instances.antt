-- ===== src/Operand/Tagged/Instances.antt =====
-- `DeviceFeatures` and `RcProfile` (linux-cec/src/operand.rs), which hold a first byte and a
-- buffer of at most 14 more.
use linux_cec.Operand.Tagged.Extra.{seven_bytes, IsSeven}
use linux_cec.Core.Slice.{IsByte}
use linux_cec.Operand.Buffer.Bytes.{
  contents-concat_bytes, u8_element-IsElement, contents-All, contents, length-contents, u8_element,
  bytes_operand,
}
use linux_cec.Operand.Tagged.Laws.{IsTagged}
use linux_cec.Operand.Encodable.{Lawful}
use linux_cec.Operand.Buffer.Laws.{bounded_buffer-Lawful, IsBuffer}
use linux_cec.Operand.Tagged.{TaggedLengthBuffer}
use linux_cec.Core.Error.{◌>>=◌, ok-injective, >>=-eq-ok, panicked, ok, Result}
use linux_cec.Operand.Buffer.{bounded_buffer, BoundedBuffer}
use linux_cec.Prelude.{arith, All, ap, List, ◌≢◌, ◌<◌, ◌≡◌, ℕ}

-- `try_new`, `fixed_param` and `extra_params`, as both types write them.
abbrev pub with_buffer :
    {U T : Type 0}
    → (T → BoundedBuffer ℕ → U)
    → (U → T)
    → (U → BoundedBuffer ℕ)
    → (T → ℕ)
    → (ℕ → Result T)
    → TaggedLengthBuffer U T
with_buffer make first buffer into try_from = record {
  try_new = λ t xs. (do n ← (bytes_operand 14).try_from_bytes xs; ok (make t n));
  fixed_param = first;
  extra_params = λ u. contents (buffer u);
  into = into;
  try_from = try_from;
}

module _ {U T : Type 0} (make : T → BoundedBuffer ℕ → U) (first : U → T)
    (buffer : U → BoundedBuffer ℕ) (into : T → ℕ) (try_from : ℕ → Result T) (Q : T → Type 0)
    (make-parts : (u : U) → make (first u) (buffer u) ≡ u)
    (first-make : (t : T) (n : BoundedBuffer ℕ) → first (make t n) ≡ t)
    (buffer-make : (t : T) (n : BoundedBuffer ℕ) → buffer (make t n) ≡ n)
    (into_seven : (t : T) → Q t → into t < 128)
    (try_from-into : (t : T) → Q t → try_from (into t) ≡ ok t)
    (try_from_valid : (b : ℕ) (t : T) → b < 128 → try_from b ≡ ok t → Q t)
    (try_from-ne-panicked : (b : ℕ) → try_from b ≢ panicked) where
  abbrev pub Buffered : U → Type 0
  Buffered u =
      Q (first u) × (IsBuffer u8_element IsByte 14 (buffer u) × All IsSeven (contents (buffer u)))

  abbrev t : TaggedLengthBuffer U T
  t = with_buffer make first buffer into try_from

  bytes_lawful : Lawful (bytes_operand 14) (IsBuffer u8_element IsByte 14)
  bytes_lawful = bounded_buffer-Lawful u8_element IsByte u8_element-IsElement 14

  contents_read :
      (b : BoundedBuffer ℕ)
      → IsBuffer u8_element IsByte 14 b
      → (bytes_operand 14).try_from_bytes (contents b) ≡ ok b
  contents_read b h =
      rw (← contents-concat_bytes (contents b))
        (unfold bounded_buffer in (bytes_lawful.try_from_bytes-to_bytes b h))

  abbrev Made : T → List ℕ → U → Type 0
  Made first xs u =
      (n : BoundedBuffer ℕ) × ((bytes_operand 14).try_from_bytes xs ≡ ok n) × (make first n ≡ u)

  made : (f : T) (xs : List ℕ) (u : U) → t.try_new f xs ≡ ok u → Made f xs u
  made f xs u e =
      let (n, read, same) =
        >>=-eq-ok ((bytes_operand 14).try_from_bytes xs) (λ n. ok (make f n)) e in
      (n, read, ok-injective same)

  valid :
      (b : ℕ) (f : T) (xs : List ℕ) (u : U)
      → b < 128
      → try_from b ≡ ok f
      → All IsSeven xs
      → t.try_new f xs ≡ ok u
      → Buffered u
  valid b f xs u small tried seven e =
      let (n, read, same) = made f xs u e in
      rw (← same, first-make f n, buffer-make f n)
        (
          try_from_valid b f small tried,
          (
            bytes_lawful.decoded_valid xs n (seven_bytes xs seven) read,
            contents-All 14 xs n read IsSeven seven,
          ),
        )

  pub with_buffer-IsTagged : IsTagged t Buffered
  with_buffer-IsTagged = record {
    head_seven = λ u h. into_seven (first u) h.0;
    extra_seven = λ u h. h.1.1;
    try_from-into = λ u h. try_from-into (first u) h.0;
    try_new-parts = λ u h. rw (contents_read (buffer u) h.1.0) (ap ok (make-parts u));
    try_new_valid = valid;
    try_new_len = λ f xs u e.
        let (n, read, same) = made f xs u e in
        rw (← same, buffer-make f n) (length-contents 14 xs n read);
    try_from-ne-panicked = try_from-ne-panicked;
    try_new-ne-panicked = λ f xs e. ground (arith, bytes_lawful.never_panics xs);
  }
