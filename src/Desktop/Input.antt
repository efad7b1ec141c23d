-- ===== src/Desktop/Input.antt =====
-- integrations/lan-remote-access/rustdesk-web-build/classic-ui.js: what the listeners of the canvas and the toolbar
-- send to the remote computer. The rounding of a coordinate is a parameter.
pub mod Canvas
use scweb_vpn.Common.{
  ℕ, zero, suc, ◌-◌, ◌*◌, min, bit_or, Bool, true, false, Option, none, some, List, [], ◌∷◌, ◌++◌,
  ◌==◌, if◌then◌else◌,
}
use scweb_vpn.Common.Texts.{Text}
use scweb_vpn.Desktop.Keys.{remote_key}

-- `Math.round` of a coordinate, which the sizes of the page may make infinite or not a number.
pub data Rounded : Type 0 where
  whole : ℕ → Rounded
  negative : ℕ → Rounded
  infinite negative_infinite not_a_number : Rounded

-- `Math.max(0, Math.min(size - 1, r))`; none is not a number. Where the size is 0 both bounds are met by 0.
unfoldable pub clamp : ℕ → Rounded → Option ℕ
clamp size (whole n) = some (min (size - 1) n)
clamp size (negative n) = some 0
clamp size infinite = some (size - 1)
clamp size negative_infinite = some 0
clamp size not_a_number = none

-- A pointer event: its position on the page in whatever units, its button, and the modifier keys.
pub record PointerInput (P : Type 0) : Type 0 where
  pub position : P
  pub button : ℕ
  pub modifiers : List Bool

-- The calls of the connection's methods.
pub data RemoteCall : Type 0 where
  input_mouse : (mask : ℕ) → (x y : Option ℕ) → (modifiers : List Bool) → RemoteCall
  input_wheel : (x y : Rounded) → (modifiers : List Bool) → RemoteCall
  input_key : (name : Text) → (down repeat : Bool) → (modifiers : List Bool) → RemoteCall
  login : Text → RemoteCall
  ctrl_alt_del : RemoteCall
  input_string : Text → RemoteCall

-- `buttonBits(button)`.
unfoldable pub button_bits : ℕ → ℕ
button_bits zero = 1
button_bits (suc zero) = 4
button_bits (suc (suc zero)) = 2
button_bits (suc (suc (suc n))) = 0

-- `type | (buttonBits(event.button) << 3)`.
unfoldable pub pointer_mask : ℕ → ℕ → ℕ
unfolding button_bits
pointer_mask type button = bit_or type (button_bits button * 8)

module _ {P : Type 0} (rounded_x rounded_y : P → Rounded) where
  -- `remotePoint(event)` on a canvas of that size.
  unfoldable pub remote_point : ℕ → ℕ → P → Option ℕ × Option ℕ
  unfolding clamp
  remote_point width height p = (clamp width (rounded_x p), clamp height (rounded_y p))

  abbrev mouse_call : ℕ → ℕ → ℕ → PointerInput P → RemoteCall
  mouse_call mask width height e =
      let (x, y) = remote_point width height e.position in input_mouse mask x y e.modifiers

  -- `sendPointer(type, event)`: nothing before there is a connection and a canvas.
  unfoldable pub send_pointer :
      (connected : Bool) → (width height type : ℕ) → PointerInput P → List RemoteCall
  unfolding remote_point pointer_mask
  send_pointer false width height type e = []
  send_pointer true zero height type e = []
  send_pointer true (suc w) height type e =
      mouse_call (pointer_mask type e.button) (suc w) height e ∷ []

  -- The frame callback of a move, for the move that is pending.
  unfoldable pub send_current :
      (connected : Bool) → (width height : ℕ) → Option (PointerInput P) → List RemoteCall
  unfolding remote_point
  send_current false width height current = []
  send_current true width height none = []
  send_current true width height (some e) = mouse_call 0 width height e ∷ []

-- The `wheel` listener.
unfoldable pub send_wheel : (connected : Bool) → (x y : Rounded) → List Bool → List RemoteCall
send_wheel connected x y modifiers = if connected then input_wheel x y modifiers ∷ [] else []

-- `sendKey(event, down)`.
abbrev key_call : Option Text → (down repeat : Bool) → List Bool → List RemoteCall
key_call none down repeat modifiers = []
key_call (some name) down repeat modifiers = input_key name down repeat modifiers ∷ []

unfoldable pub send_key :
    (connected : Bool) → (code : Text) → (down repeat : Bool) → List Bool → List RemoteCall
unfolding remote_key
send_key connected code down repeat modifiers =
    if connected then key_call (remote_key code) down repeat modifiers else []

-- The call that the password form and the text prompt make, of a text that is not empty.
abbrev if_text : Text → RemoteCall → List RemoteCall
if_text [] call = []
if_text (c ∷ text) call = call ∷ []

unfoldable pub send_password : (connected : Bool) → Text → List RemoteCall
send_password connected password = if connected then if_text password (login password) else []

unfoldable pub send_text : (connected : Bool) → Text → List RemoteCall
send_text connected text = if connected then if_text text (input_string text) else []

unfoldable pub send_ctrl_alt_del : (connected : Bool) → List RemoteCall
send_ctrl_alt_del connected = if connected then ctrl_alt_del ∷ [] else []
