-- ===== src/Operand/UiCommand/Laws.antt =====
-- The codec of `UiCommand` (linux-cec/src/operand.rs) is lawful.
use linux_cec.Core.Range.{at_least, admits}
use linux_cec.Core.Slice.{IsByte}
use linux_cec.Operand.Primitive.{try_from_primitive-ne-panicked}
use linux_cec.Operand.UiCommand.Simple.{ui_simple, ui_select}
use linux_cec.Operand.UiCommand.Payload.{parameter-Lawful, ParameterValid}
use linux_cec.Core.Error.{
  out_of_range, err, ok-injective, >>=-eq-ok, >>=-eq-panicked, ◌>>=◌, ok, panicked, Result,
}
use linux_cec.Operand.Encodable.{Lawful}
use linux_cec.Operand.UiCommand.{
  code_audio_input, code_av_input, code_media, code_tune, code_play, code_sound, simple,
  code_broadcast, parameter_of, code_simple, code_of, parameter, ui_command, command_of,
  ui_code_into, Parameter, ui_code_try_from, UiCode, ui_try_from_bytes, UiCommand,
}
use linux_cec.Prelude.{
  [], inr, ap, inl, All, length, sym, refl, ◌∙◌, ◌≤◌, ◌+◌, arith, le→leb, ◌<◌, ◌∷◌, ◌≡◌, ◌≢◌, List,
  ℕ,
}

abbrev pub IsUiCommand : UiCommand → Type 0
IsUiCommand u = ParameterValid (code_of u) (parameter_of u)

code_round_trip : (c : UiCode) → (ui_code_into c < 256) × (ui_code_try_from (ui_code_into c) ≡ ok c)
unfolding ui_code_try_from
code_round_trip (code_simple s) =
    elim s
      as (λ s.
        (ui_code_into (code_simple s) < 256)
        × (ui_code_try_from (ui_code_into (code_simple s)) ≡ ok (code_simple s))) [
          | ui_select ↦ (omega arith, refl)
          | _ ↦ (omega arith, refl)
        ]
code_round_trip code_broadcast = (omega arith, refl)
code_round_trip code_sound = (omega arith, refl)
code_round_trip code_play = (omega arith, refl)
code_round_trip code_tune = (omega arith, refl)
code_round_trip code_media = (omega arith, refl)
code_round_trip code_av_input = (omega arith, refl)
code_round_trip code_audio_input = (omega arith, refl)

code_no_panic : (b : ℕ) → ui_code_try_from b ≢ panicked
unfolding ui_code_try_from
code_no_panic b e = ground (arith, try_from_primitive-ne-panicked ui_simple b)

abbrev read_parameter : List ℕ → UiCode → Result UiCommand
read_parameter rest code = do x ← (parameter code).try_from_bytes rest; ok (command_of code x)

no_code : ui_try_from_bytes [] ≡ err (out_of_range (at_least 1) 0 "bytes")
unfolding ui_try_from_bytes admits
no_code = refl

read_code :
    (b : ℕ) (rest : List ℕ)
    → ui_try_from_bytes (b ∷ rest) ≡ (do code ← ui_code_try_from b; read_parameter rest code)
unfolding ui_try_from_bytes admits
read_code b rest = rw (le→leb 1 (length (b ∷ rest)) (omega arith)) refl

command-parameter : (u : UiCommand) → command_of (code_of u) (parameter_of u) ≡ u
command-parameter = elim [ simple s ↦ refl | _ ↦ refl ]

command_valid : (c : UiCode) (x : Parameter c) → ParameterValid c x → IsUiCommand (command_of c x)
command_valid = elim [ code_simple s ↦ λ x h. h | _ ↦ λ x h. h ]

command_len :
    (c : UiCode) (x : Parameter c) → ui_command.len (command_of c x) ≡ (parameter c).len x + 1
command_len = elim [ code_simple s ↦ λ x. refl | _ ↦ λ x. refl ]

round_trip : (u : UiCommand) → IsUiCommand u → ui_try_from_bytes (ui_command.to_bytes u) ≡ ok u
round_trip u h =
    read_code (ui_code_into (code_of u)) ((parameter (code_of u)).to_bytes (parameter_of u))
    ∙ rw
        (
          (code_round_trip (code_of u)).1,
          (parameter-Lawful (code_of u)).try_from_bytes-to_bytes (parameter_of u) h,
        )
        (ap ok (command-parameter u))

decoded :
    (bytes : List ℕ) (u : UiCommand)
    → ui_try_from_bytes bytes ≡ ok u
    → (ui_command.len u ≤ length bytes) × (All IsByte bytes → IsUiCommand u)
decoded [] u e = cc (e, no_code)
decoded (b ∷ rest) u e =
    let (code, _, f) =
      >>=-eq-ok (ui_code_try_from b) (read_parameter rest) (sym (read_code b rest) ∙ e) in
    let (x, read, made) =
      >>=-eq-ok ((parameter code).try_from_bytes rest) (λ x. ok (command_of code x)) f in
    rw (← ok-injective made) (
      omega (arith, command_len code x, (parameter-Lawful code).len_le rest x read),
      λ h. command_valid code x ((parameter-Lawful code).decoded_valid rest x h.1 read),
    )

no_panic : (bytes : List ℕ) → ui_try_from_bytes bytes ≢ panicked
no_panic [] e = cc (e, no_code)
no_panic (b ∷ rest) e =
    elim (>>=-eq-panicked (ui_code_try_from b) (read_parameter rest) (sym (read_code b rest) ∙ e)) [
      | inl p ↦ code_no_panic b p
      | inr (code, _, f) ↦
          elim (>>=-eq-panicked ((parameter code).try_from_bytes rest) (λ x. ok (command_of code x))
            f) [ inl p ↦ (parameter-Lawful code).never_panics rest p | inr (x, _, p) ↦ cc ]
    ]

-- A command of the remote control whose parameter, if it has one, is valid is written as bytes,
-- `len` of them, and read back from them; what is read from bytes is such a command, not longer
-- than the bytes; and no bytes make the decoder panic.
pub ui_command-Lawful : Lawful ui_command IsUiCommand
ui_command-Lawful = record {
  to_bytes-IsByte = λ u h. (
    (code_round_trip (code_of u)).0,
    (parameter-Lawful (code_of u)).to_bytes-IsByte (parameter_of u) h,
  );
  length-to_bytes =
      λ u h. omega (arith, (parameter-Lawful (code_of u)).length-to_bytes (parameter_of u) h);
  try_from_bytes-to_bytes = round_trip;
  decoded_valid = λ bytes u h e. (decoded bytes u e).1 h;
  len_le = λ bytes u e. (decoded bytes u e).0;
  never_panics = no_panic;
}
