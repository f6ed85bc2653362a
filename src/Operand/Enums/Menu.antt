-- ===== src/Operand/Enums/Menu.antt =====
-- The enums of menus and the display (linux-cec/src/operand.rs), with their discriminants from
-- linux-cec-sys/src/constants.rs.
use linux_cec.Prelude.{ℕ, refl, [], ◌∷◌, arith}
use linux_cec.Operand.Primitive.{Primitive, IsEnum, try_from_primitive}

pub data DisplayControl : Type 0 where
  default until_cleared clear : DisplayControl

abbrev pub display_control_discriminant : DisplayControl → ℕ
display_control_discriminant default = 0x00
display_control_discriminant until_cleared = 0x40
display_control_discriminant clear = 0x80

abbrev pub display_control : Primitive DisplayControl
display_control = record {
  name = "DisplayControl";
  variants = default ∷ until_cleared ∷ clear ∷ [];
  discriminant = display_control_discriminant;
}

pub display_control-IsEnum : IsEnum display_control
unfolding try_from_primitive
display_control-IsEnum = record {
  discriminant-lt = elim [ default ↦ omega arith | _ ↦ omega arith ];
  try_from-discriminant = elim [ default ↦ refl | _ ↦ refl ];
}

pub data MenuRequestType : Type 0 where
  activate deactivate query : MenuRequestType

abbrev pub menu_request_type_discriminant : MenuRequestType → ℕ
menu_request_type_discriminant activate = 0x00
menu_request_type_discriminant deactivate = 0x01
menu_request_type_discriminant query = 0x02

abbrev pub menu_request_type : Primitive MenuRequestType
menu_request_type = record {
  name = "MenuRequestType";
  variants = activate ∷ deactivate ∷ query ∷ [];
  discriminant = menu_request_type_discriminant;
}

pub menu_request_type-IsEnum : IsEnum menu_request_type
unfolding try_from_primitive
menu_request_type-IsEnum = record {
  discriminant-lt = elim [ activate ↦ omega arith | _ ↦ omega arith ];
  try_from-discriminant = elim [ activate ↦ refl | _ ↦ refl ];
}

pub data MenuState : Type 0 where
  activated deactivated : MenuState

abbrev pub menu_state_discriminant : MenuState → ℕ
menu_state_discriminant activated = 0x00
menu_state_discriminant deactivated = 0x01

abbrev pub menu_state : Primitive MenuState
menu_state = record {
  name = "MenuState";
  variants = activated ∷ deactivated ∷ [];
  discriminant = menu_state_discriminant;
}

pub menu_state-IsEnum : IsEnum menu_state
unfolding try_from_primitive
menu_state-IsEnum = record {
  discriminant-lt = elim [ activated ↦ omega arith | _ ↦ omega arith ];
  try_from-discriminant = elim [ activated ↦ refl | _ ↦ refl ];
}
