-- ===== src/Desktop/Input/Canvas.antt =====
-- The mask and the point of a pointer event.
use scweb_vpn.Common.{
  arith, ℕ, zero, suc, ◌/◌, ◌%◌, ◌<◌, ◌≡◌, ◌⊎◌, inl, inr, refl, sym, subst, ◌==◌, Bool, true, false,
  Option, none, some, All,
}
use scweb_vpn.Desktop.Input.{
  Rounded, whole, negative, infinite, negative_infinite, not_a_number, clamp, PointerInput,
  RemoteCall, input_mouse, button_bits, pointer_mask, remote_point, send_pointer,
}

-- A coordinate that is a number lies within the size.
abbrev pub IsWithin : ℕ → Option ℕ → Type 0
IsWithin size none = Unit {0}
IsWithin size (some n) = n < size

clamp-IsWithin : (size : ℕ) (r : Rounded) → 0 < size → IsWithin size (clamp size r)
unfolding clamp
clamp-IsWithin size (whole n) h = omega arith
clamp-IsWithin size (negative n) h = h
clamp-IsWithin size infinite h = omega arith
clamp-IsWithin size negative_infinite h = h
clamp-IsWithin size not_a_number h = tt

-- The low three bits of the mask are the type. Bit 3 is set for the left button, which the browser numbers 0,
-- bit 4 for the right one, numbered 2, and bit 5 for the middle one, numbered 1; no other bit is.
abbrev pub tells : (bit : ℕ) → (mask : ℕ) → Bool
tells bit mask = mask / bit % 2 == 1

abbrev pub IsMask : ℕ → ℕ → ℕ → Type 0
IsMask type button mask =
    (mask % 8 ≡ type)
    × (tells 8 mask ≡ (button == 0))
    × (tells 16 mask ≡ (button == 2))
    × (tells 32 mask ≡ (button == 1))
    × (mask < 64)

abbrev pub IsOnCanvas : (width height type button : ℕ) → RemoteCall → Type 0
IsOnCanvas width height type button (input_mouse mask x y modifiers) =
    IsWithin width x × IsWithin height y × IsMask type button mask
IsOnCanvas width height type button other = ⊥

-- The types that the listeners give: a button goes down or up.
abbrev pub IsButtonType : ℕ → Type 0
IsButtonType type = (type ≡ 1) ⊎ (type ≡ 2)

pointer_mask-IsMask-of_down : (button : ℕ) → IsMask 1 button (pointer_mask 1 button)
unfolding pointer_mask button_bits
pointer_mask-IsMask-of_down zero = (refl, refl, refl, refl, omega arith)
pointer_mask-IsMask-of_down (suc zero) = (refl, refl, refl, refl, omega arith)
pointer_mask-IsMask-of_down (suc (suc zero)) = (refl, refl, refl, refl, omega arith)
pointer_mask-IsMask-of_down (suc (suc (suc n))) =
    (refl, ground arith, ground arith, ground arith, omega arith)

pointer_mask-IsMask-of_up : (button : ℕ) → IsMask 2 button (pointer_mask 2 button)
unfolding pointer_mask button_bits
pointer_mask-IsMask-of_up zero = (refl, refl, refl, refl, omega arith)
pointer_mask-IsMask-of_up (suc zero) = (refl, refl, refl, refl, omega arith)
pointer_mask-IsMask-of_up (suc (suc zero)) = (refl, refl, refl, refl, omega arith)
pointer_mask-IsMask-of_up (suc (suc (suc n))) =
    (refl, ground arith, ground arith, ground arith, omega arith)

pointer_mask-IsMask :
    (type button : ℕ) → IsButtonType type → IsMask type button (pointer_mask type button)
pointer_mask-IsMask type button (inl down) =
    subst (λ t. IsMask t button (pointer_mask t button)) (sym down)
      (pointer_mask-IsMask-of_down button)
pointer_mask-IsMask type button (inr up) =
    subst (λ t. IsMask t button (pointer_mask t button)) (sym up) (pointer_mask-IsMask-of_up button)

-- If the canvas has a height, each coordinate of a click that is sent lies on the canvas or is not a number,
-- wherever on the page the click was made; its mask tells whether the button went down or up, and whether it
-- was the left, the right or the middle one, with none of the three bits set for another button.
pub send_pointer-IsOnCanvas :
    {P : Type 0} (rounded_x rounded_y : P → Rounded) (connected : Bool) (width height type : ℕ)
    (e : PointerInput P)
    → IsButtonType type
    → 0 < height
    → All
        (IsOnCanvas width height type e.button)
        (send_pointer rounded_x rounded_y connected width height type e)
unfolding send_pointer remote_point
send_pointer-IsOnCanvas rounded_x rounded_y false width height type e t h = tt
send_pointer-IsOnCanvas rounded_x rounded_y true zero height type e t h = tt
send_pointer-IsOnCanvas rounded_x rounded_y true (suc w) height type e t h = (
  (
    clamp-IsWithin (suc w) (rounded_x e.position) (omega arith),
    clamp-IsWithin height (rounded_y e.position) h,
    pointer_mask-IsMask type e.button t,
  ),
  tt,
)
