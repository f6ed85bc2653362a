-- ===== src/Operand/Enums/Deck.antt =====
-- The enums of decks and players (linux-cec/src/operand.rs), with their discriminants from
-- linux-cec-sys/src/constants.rs.
use linux_cec.Prelude.{ℕ, refl, [], ◌∷◌, arith}
use linux_cec.Operand.Primitive.{Primitive, IsEnum, try_from_primitive}

pub data DeckControlMode : Type 0 where
  skip_forward skip_reverse stop eject : DeckControlMode

abbrev pub deck_control_mode_discriminant : DeckControlMode → ℕ
deck_control_mode_discriminant skip_forward = 0x01
deck_control_mode_discriminant skip_reverse = 0x02
deck_control_mode_discriminant stop = 0x03
deck_control_mode_discriminant eject = 0x04

abbrev pub deck_control_mode : Primitive DeckControlMode
deck_control_mode = record {
  name = "DeckControlMode";
  variants = skip_forward ∷ skip_reverse ∷ stop ∷ eject ∷ [];
  discriminant = deck_control_mode_discriminant;
}

pub deck_control_mode-IsEnum : IsEnum deck_control_mode
unfolding try_from_primitive
deck_control_mode-IsEnum = record {
  discriminant-lt = elim [ skip_forward ↦ omega arith | _ ↦ omega arith ];
  try_from-discriminant = elim [ skip_forward ↦ refl | _ ↦ refl ];
}

pub data DeckInfo : Type 0 where
  play record_ play_reverse still slow slow_reverse fast_forward fast_reverse : DeckInfo
  no_media stop skip_forward skip_reverse index_search_forward index_search_reverse : DeckInfo
  other : DeckInfo

abbrev pub deck_info_discriminant : DeckInfo → ℕ
deck_info_discriminant play = 0x11
deck_info_discriminant record_ = 0x12
deck_info_discriminant play_reverse = 0x13
deck_info_discriminant still = 0x14
deck_info_discriminant slow = 0x15
deck_info_discriminant slow_reverse = 0x16
deck_info_discriminant fast_forward = 0x17
deck_info_discriminant fast_reverse = 0x18
deck_info_discriminant no_media = 0x19
deck_info_discriminant stop = 0x1a
deck_info_discriminant skip_forward = 0x1b
deck_info_discriminant skip_reverse = 0x1c
deck_info_discriminant index_search_forward = 0x1d
deck_info_discriminant index_search_reverse = 0x1e
deck_info_discriminant other = 0x1f

abbrev pub deck_info : Primitive DeckInfo
deck_info = record {
  name = "DeckInfo";
  variants =
      play ∷ record_ ∷ play_reverse ∷ still ∷ slow ∷ slow_reverse ∷ fast_forward ∷ fast_reverse
      ∷ no_media ∷ stop ∷ skip_forward ∷ skip_reverse ∷ index_search_forward ∷ index_search_reverse
      ∷ other ∷ [];
  discriminant = deck_info_discriminant;
}

pub deck_info-IsEnum : IsEnum deck_info
unfolding try_from_primitive
deck_info-IsEnum = record {
  discriminant-lt = elim [ play ↦ omega arith | _ ↦ omega arith ];
  try_from-discriminant = elim [ play ↦ refl | _ ↦ refl ];
}

pub data PlayMode : Type 0 where
  forward reverse still fast_forward_minimum fast_forward_medium : PlayMode
  fast_forward_maximum fast_reverse_minimum fast_reverse_medium fast_reverse_maximum : PlayMode
  slow_forward_minimum slow_forward_medium slow_forward_maximum slow_reverse_minimum : PlayMode
  slow_reverse_medium slow_reverse_maximum : PlayMode

abbrev pub play_mode_discriminant : PlayMode → ℕ
play_mode_discriminant forward = 0x24
play_mode_discriminant reverse = 0x20
play_mode_discriminant still = 0x25
play_mode_discriminant fast_forward_minimum = 0x05
play_mode_discriminant fast_forward_medium = 0x06
play_mode_discriminant fast_forward_maximum = 0x07
play_mode_discriminant fast_reverse_minimum = 0x09
play_mode_discriminant fast_reverse_medium = 0x0a
play_mode_discriminant fast_reverse_maximum = 0x0b
play_mode_discriminant slow_forward_minimum = 0x15
play_mode_discriminant slow_forward_medium = 0x16
play_mode_discriminant slow_forward_maximum = 0x17
play_mode_discriminant slow_reverse_minimum = 0x19
play_mode_discriminant slow_reverse_medium = 0x1a
play_mode_discriminant slow_reverse_maximum = 0x1b

abbrev pub play_mode : Primitive PlayMode
play_mode = record {
  name = "PlayMode";
  variants =
      forward ∷ reverse ∷ still ∷ fast_forward_minimum ∷ fast_forward_medium ∷ fast_forward_maximum
      ∷ fast_reverse_minimum ∷ fast_reverse_medium ∷ fast_reverse_maximum ∷ slow_forward_minimum
      ∷ slow_forward_medium ∷ slow_forward_maximum ∷ slow_reverse_minimum ∷ slow_reverse_medium
      ∷ slow_reverse_maximum ∷ [];
  discriminant = play_mode_discriminant;
}

pub play_mode-IsEnum : IsEnum play_mode
unfolding try_from_primitive
play_mode-IsEnum = record {
  discriminant-lt = elim [ forward ↦ omega arith | _ ↦ omega arith ];
  try_from-discriminant = elim [ forward ↦ refl | _ ↦ refl ];
}

pub data StatusRequest : Type 0 where
  on off once : StatusRequest

abbrev pub status_request_discriminant : StatusRequest → ℕ
status_request_discriminant on = 0x01
status_request_discriminant off = 0x02
status_request_discriminant once = 0x03

abbrev pub status_request : Primitive StatusRequest
status_request = record {
  name = "StatusRequest";
  variants = on ∷ off ∷ once ∷ [];
  discriminant = status_request_discriminant;
}

pub status_request-IsEnum : IsEnum status_request
unfolding try_from_primitive
status_request-IsEnum = record {
  discriminant-lt = elim [ on ↦ omega arith | _ ↦ omega arith ];
  try_from-discriminant = elim [ on ↦ refl | _ ↦ refl ];
}
