-- ===== src/Core/Error.antt =====
-- `Error` and `Result` (linux-cec/src/lib.rs), the checks that make errors, and the conversions
-- into `Error`. A third outcome, `panicked`, stands for an index out of bounds, an `unwrap` of
-- nothing, or a `todo!`.
use text.Mathlib.Text.{◌==◌ as str_eq}
use linux_cec.Prelude.{
  ◌≢◌, inl, inr, ◌⊎◌, ℕ, ◌+◌, ◌≡◌, refl, Bool, String, if◌then◌else◌, bit_and, ◌==◌,
}
use linux_cec.Core.Range.{Range, admits, add}

-- The codes of `Errno` that are told apart; `other` carries the rest.
pub data Errno : Type 0 where
  einval etimedout enodev enonet enotty : Errno
  other : ℕ → Errno

pub data TxError : Type 0 where
  arb_lost nack low_drive unknown_error max_retries aborted timeout : TxError

pub data RxError : Type 0 where
  timeout feature_abort aborted : RxError

-- The text in `invalid_value_for_type` and `unknown_error` is the decimal or debug print of a
-- number, which stands for it here.
pub data Error : Type 0 where
  out_of_range : Range ℕ → ℕ → String → Error
  invalid_value_for_type : String → ℕ → Error
  invalid_data timeout abort no_logical_address disconnected unsupported : Error
  system_error : Errno → Error
  tx_error : TxError → Error
  rx_error : RxError → Error
  unknown_error : ℕ → Error

pub data Result {ℓ} (A : Type ℓ) : Type ℓ where
  ok : A → Result A
  err : Error → Result A
  panicked : Result A

-- `?`: an error is returned at once, and a panic ends the run.
infixl 5 ◌>>=◌
abbrev pub ◌>>=◌ {κ ℓ} : {A : Type κ} {R : Type ℓ} → Result A → (A → Result R) → Result R
panicked >>= next = panicked
err error >>= next = err error
ok value >>= next = next value

infixl 5 ◌>>◌
abbrev pub ◌>>◌ {ℓ} : {R : Type ℓ} → Result (Unit {0}) → Result R → Result R
first >> second = first >>= λ _. second

-- `map_err`
abbrev pub map_err {ℓ} : {A : Type ℓ} → (Error → Error) → Result A → Result A
map_err f (ok a) = ok a
map_err f (err e) = err (f e)
map_err f panicked = panicked

-- `Range::check`
unfoldable pub check : Range ℕ → ℕ → String → Result (Unit {0})
check r val quantity = if admits r val then ok tt else err (out_of_range r val quantity)

-- `Error::add_offset`
unfoldable pub add_offset : ℕ → Error → Error
unfolding add
add_offset offset (out_of_range expected got quantity) =
    if str_eq quantity "bytes"
    then out_of_range (add expected offset) (got + offset) quantity
    else out_of_range expected got quantity
add_offset offset e = e

-- `From<Errno> for Error`
unfoldable pub from_errno : Errno → Error
from_errno einval = invalid_data
from_errno etimedout = timeout
from_errno enodev = disconnected
from_errno enonet = no_logical_address
from_errno enotty = unsupported
from_errno (other x) = system_error (other x)

-- `tx_status.contains(flag)`, for a flag of one bit.
abbrev pub has_flag : ℕ → ℕ → Bool
has_flag status flag = bit_and status flag == flag

-- `From<CEC_TX_STATUS> for Error`: the flags are tested in this order.
unfoldable pub from_tx_status : ℕ → Error
from_tx_status status =
    if has_flag status 0x80
    then timeout
    else if has_flag status 0x40
    then abort
    else if has_flag status 0x02
    then tx_error arb_lost
    else if has_flag status 0x04
    then tx_error nack
    else if has_flag status 0x08
    then tx_error low_drive
    else if has_flag status 0x20
    then tx_error max_retries
    else unknown_error status

-- A run that returns has returned from its first part, and a run that panics panicked in either.
pub >>=-eq-ok {κ ℓ} :
    {A : Type κ} {R : Type ℓ} (first : Result A) (next : A → Result R) {r : R}
    → (first >>= next) ≡ ok r
    → (value : A) × (first ≡ ok value) × (next value ≡ ok r)
>>=-eq-ok panicked next h = cc
>>=-eq-ok (err error) next h = cc
>>=-eq-ok (ok value) next h = (value, refl, h)

pub >>=-eq-panicked {ℓ κ} :
    {A : Type ℓ} {B : Type κ} (m : Result A) (f : A → Result B)
    → (m >>= f) ≡ panicked
    → (m ≡ panicked) ⊎ ((a : A) × (m ≡ ok a) × (f a ≡ panicked))
>>=-eq-panicked (ok a) f h = inr (a, refl, h)
>>=-eq-panicked (err e) f h = cc
>>=-eq-panicked panicked f h = inl refl

-- A run panics in no part.
pub >>=-ne-panicked {ℓ κ} :
    {A : Type ℓ} {B : Type κ} (m : Result A) (f : A → Result B)
    → m ≢ panicked
    → ((a : A) → m ≡ ok a → f a ≢ panicked)
    → (m >>= f) ≢ panicked
>>=-ne-panicked (ok a) f h k e = k a refl e
>>=-ne-panicked (err x) f h k e = cc
>>=-ne-panicked panicked f h k e = h refl

pub ok-injective {ℓ} : {A : Type ℓ} {a b : A} → ok a ≡ ok b → a ≡ b
ok-injective h = cc
