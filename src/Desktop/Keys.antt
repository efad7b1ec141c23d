-- ===== src/Desktop/Keys.antt =====
-- integrations/lan-remote-access/rustdesk-web-build/classic-ui.js: the remote name of a key. A key's code is one
-- of the browser's, so no code names a property that `keyNames` inherits.
pub mod Physical
use scweb_vpn.Common.{
  ℕ, Bool, true, false, ◌&&◌, Option, none, some, List, [], ◌∷◌, ◌++◌, leb, ◌==◌, if◌then◌else◌,
}
use scweb_vpn.Common.Texts.{Text, lit, text_eq, has}

abbrev pub key_names : List (Text × Text)
key_names =
    (lit "Enter", lit "VK_RETURN")
    ∷ (lit "NumpadEnter", lit "VK_ENTER")
    ∷ (lit "Backspace", lit "VK_BACK")
    ∷ (lit "Tab", lit "VK_TAB")
    ∷ (lit "Escape", lit "VK_ESCAPE")
    ∷ (lit "Space", lit "VK_SPACE")
    ∷ (lit "PageUp", lit "VK_PRIOR")
    ∷ (lit "PageDown", lit "VK_NEXT")
    ∷ (lit "End", lit "VK_END")
    ∷ (lit "Home", lit "VK_HOME")
    ∷ (lit "ArrowLeft", lit "VK_LEFT")
    ∷ (lit "ArrowUp", lit "VK_UP")
    ∷ (lit "ArrowRight", lit "VK_RIGHT")
    ∷ (lit "ArrowDown", lit "VK_DOWN")
    ∷ (lit "Insert", lit "VK_INSERT")
    ∷ (lit "Delete", lit "VK_DELETE")
    ∷ (lit "ShiftLeft", lit "VK_SHIFT")
    ∷ (lit "ShiftRight", lit "RShift")
    ∷ (lit "ControlLeft", lit "VK_CONTROL")
    ∷ (lit "ControlRight", lit "RControl")
    ∷ (lit "AltLeft", lit "VK_MENU")
    ∷ (lit "AltRight", lit "RAlt")
    ∷ (lit "MetaLeft", lit "Meta")
    ∷ (lit "MetaRight", lit "RWin")
    ∷ (lit "Comma", lit "VK_COMMA")
    ∷ (lit "Slash", lit "VK_SLASH")
    ∷ (lit "Semicolon", lit "VK_SEMICOLON")
    ∷ (lit "Quote", lit "VK_QUOTE")
    ∷ (lit "BracketLeft", lit "VK_LBRACKET")
    ∷ (lit "BracketRight", lit "VK_RBRACKET")
    ∷ (lit "Backslash", lit "VK_BACKSLASH")
    ∷ (lit "Minus", lit "VK_MINUS")
    ∷ (lit "Equal", lit "VK_PLUS")
    ∷ []

unfoldable pub named_key : List (Text × Text) → Text → Option Text
named_key [] code = none
named_key (k ∷ ks) code = if text_eq k.0 code then some k.1 else named_key ks code

abbrev pub is_upper : ℕ → Bool
is_upper c = leb b'A' c && leb c b'Z'

abbrev pub is_figure : ℕ → Bool
is_figure c = leb b'0' c && leb c b'9'

-- The one unit that a text has after a prefix, if it passes the test.
abbrev one_unit : (ℕ → Bool) → Text → Option ℕ
one_unit test (c ∷ []) = if test c then some c else none
one_unit test s = none

unfoldable pub unit_after : Text → (ℕ → Bool) → Text → Option ℕ
unit_after [] test s = one_unit test s
unit_after (p ∷ ps) test [] = none
unit_after (p ∷ ps) test (c ∷ s) = if p == c then unit_after ps test s else none

abbrev pub with_unit : Text → Option ℕ → Option Text
with_unit front none = none
with_unit front (some c) = some (front ++ c ∷ [])

abbrev pub or_key : Option Text → Option Text → Option Text
or_key none later = later
or_key (some k) later = some k

-- `/^F(?:[1-9]|1[0-2])$/`.
abbrev pub function_codes : List Text
function_codes =
    lit "F1"
    ∷ lit "F2"
    ∷ lit "F3"
    ∷ lit "F4"
    ∷ lit "F5"
    ∷ lit "F6"
    ∷ lit "F7"
    ∷ lit "F8"
    ∷ lit "F9"
    ∷ lit "F10"
    ∷ lit "F11"
    ∷ lit "F12"
    ∷ []

abbrev pub function_key : Text → Option Text
function_key code = if has function_codes code then some (lit "VK_" ++ code) else none

-- `remoteKey(event)` of `event.code`.
unfoldable pub remote_key : Text → Option Text
unfolding unit_after named_key
remote_key code = or_key (with_unit (lit "VK_") (unit_after (lit "Key") is_upper code)) (
    or_key (with_unit (lit "VK_") (unit_after (lit "Digit") is_figure code)) (
      or_key (function_key code) (
        or_key (with_unit (lit "VK_NUMPAD") (unit_after (lit "Numpad") is_figure code))
          (named_key key_names code))))
