-- ===== src/Virtual/Label.antt =====
-- The label as a numeral: its digits in base 32 are those of the bytes' number, scaled to fill the
-- last digit.
use native.Mathlib.Nat.{div-div-eq-div-mul, pow-suc, div-add-mod}
use scweb_vpn.Common.{
  append-nil, ℕ, zero, suc, ◌+◌, ◌-◌, ◌*◌, ◌/◌, ◌%◌, ◌^◌, ◌<◌, ◌≡◌, refl, List, [], ◌∷◌, ◌++◌,
  arith, All, ap, append_assoc, length, bit_and, bit_or, All-append, length-append,
}
use scweb_vpn.Common.Texts.{Text}
use scweb_vpn.Common.Bits.{bit_and_mask, bit_or_fields}
use scweb_vpn.Virtual.Digits.{IsByte, IsDigit, number, number-snoc, spell, spell-snoc}
use scweb_vpn.Virtual.{emit, encode_loop, flush, base32_label, five+, shl, shr}

pow_five : (b : ℕ) → 2 ^ suc (suc (suc (suc (suc b)))) ≡ 2 ^ b * 32
pow_five b = omega (
  arith,
  pow-suc 2 b,
  pow-suc 2 (suc b),
  pow-suc 2 (suc (suc b)),
  pow-suc 2 (suc (suc (suc b))),
  pow-suc 2 (suc (suc (suc (suc b)))),
)

mod_split : (m v : ℕ) → v % (m * 32) ≡ v / m % 32 * m + v % m
mod_split m v = omega (
  arith,
  div-add-mod v (m * 32),
  ap (λ (t : ℕ). m * 32 * t) (div-div-eq-div-mul v m 32),
  ap (λ (t : ℕ). m * t) (div-add-mod (v / m) 32),
  div-add-mod v m,
)

-- The state of the loops: the digits that are out, and the bits that wait in `value`, make up the
-- number of the bytes that are in.
record Spelled (bytes : List ℕ) (bits value : ℕ) (label : Text) : Type 0 where
  digits : List ℕ
  spelled : label ≡ spell digits
  below : All IsDigit digits
  total : 5 * length digits + bits ≡ 8 * length bytes
  amount : number 32 digits 0 * 2 ^ bits + value % 2 ^ bits ≡ number 256 bytes 0

low_digit : (a : ℕ) → bit_and a 31 ≡ a % 32
low_digit a = bit_and_mask 5 a

round_amount :
    (n rest value total : ℕ)
    → n * 2 ^ five+ rest + value % 2 ^ five+ rest ≡ total
    → (n * 32 + bit_and (shr value rest) 31) * 2 ^ rest + value % 2 ^ rest ≡ total
round_amount n rest value total h =
    rw low_digit (omega (arith, rw pow_five at h, mod_split (2 ^ rest) value))

emit-Spelled :
    (bytes : List ℕ) (bits value : ℕ) (label : Text)
    → Spelled bytes bits value label
    → Spelled bytes (emit bits value label).0 value (emit bits value label).1
      × ((emit bits value label).0 < 5)
unfolding emit
emit-Spelled bytes (five+ rest) value label s =
    let d = bit_and (shr value rest) 31 in
    emit-Spelled bytes rest value _ (record {
      digits = s.digits ++ d ∷ [];
      spelled = rw (spell-snoc s.digits d, ← s.spelled) refl;
      below = All-append _ s.digits _ s.below (omega (arith, low_digit (shr value rest)), tt);
      total = omega (arith, length-append s.digits (d ∷ []), s.total);
      amount = rw (number-snoc 32 s.digits d 0) (round_amount _ rest value _ s.amount);
    })
emit-Spelled bytes zero value label s = (s, omega arith)
emit-Spelled bytes (suc zero) value label s = (s, omega arith)
emit-Spelled bytes (suc (suc zero)) value label s = (s, omega arith)
emit-Spelled bytes (suc (suc (suc zero))) value label s = (s, omega arith)
emit-Spelled bytes (suc (suc (suc (suc zero)))) value label s = (s, omega arith)

or_byte : (value byte : ℕ) → byte < 256 → bit_or (shl value 8) byte ≡ value % 2 ^ 24 * 256 + byte
or_byte value byte h =
    let whole : shl value 8 ≡ value % 2 ^ 24 * 2 ^ 8 = omega arith in
    rw whole (bit_or_fields 8 (value % 2 ^ 24) byte h)

-- At most four bits wait when a byte arrives, so nothing that counts leaves the 32-bit word.
push_amount :
    (n bits value byte total : ℕ)
    → bits < 5
    → byte < 256
    → n * 2 ^ bits + value % 2 ^ bits ≡ total
    → n * 2 ^ (bits + 8) + bit_or (shl value 8) byte % 2 ^ (bits + 8) ≡ total * 256 + byte
push_amount n zero value byte total b h e = rw (or_byte value byte h) (omega arith)
push_amount n (suc zero) value byte total b h e = rw (or_byte value byte h) (omega arith)
push_amount n (suc (suc zero)) value byte total b h e = rw (or_byte value byte h) (omega arith)
push_amount n (suc (suc (suc zero))) value byte total b h e =
    rw (or_byte value byte h) (omega arith)
push_amount n (suc (suc (suc (suc zero)))) value byte total b h e =
    rw (or_byte value byte h) (omega arith)
push_amount n (suc (suc (suc (suc (suc bits))))) value byte total b h e = absurd (omega arith)

push-Spelled :
    (bytes : List ℕ) (bits value : ℕ) (label : Text) (byte : ℕ)
    → bits < 5
    → byte < 256
    → Spelled bytes bits value label
    → Spelled (bytes ++ byte ∷ []) (bits + 8) (bit_or (shl value 8) byte) label
push-Spelled bytes bits value label byte b h s = record {
  digits = s.digits;
  spelled = s.spelled;
  below = s.below;
  total = omega (arith, length-append bytes (byte ∷ []), s.total);
  amount = rw (number-snoc 256 bytes byte 0) (push_amount _ bits value byte _ b h s.amount);
}

encode_loop-Spelled :
    (done bytes : List ℕ) (bits value : ℕ) (label : Text)
    → bits < 5
    → All IsByte bytes
    → Spelled done bits value label
    → let r = encode_loop bytes bits value label in Spelled (done ++ bytes) r.0 r.1 r.2 × (r.0 < 5)
unfolding encode_loop
encode_loop-Spelled done [] bits value label b hs s = rw append-nil (s, b)
encode_loop-Spelled done (byte ∷ bytes) bits value label b (h, hs) s =
    let (s', b') =
      emit-Spelled (done ++ byte ∷ []) (bits + 8) (bit_or (shl value 8) byte) label
        (push-Spelled done bits value label byte b h s) in
    rw (← append_assoc done (byte ∷ []) bytes)
      (encode_loop-Spelled (done ++ byte ∷ []) bytes _ _ _ b' hs s')

-- The text is the base 32 numeral of the bytes' number, shifted left by `pad` bits so that the
-- digits come out whole.
pub record IsLabel (bytes : List ℕ) (label : Text) : Type 0 where
  pub digits : List ℕ
  pub pad : ℕ
  pub spelled : label ≡ spell digits
  pub below : All IsDigit digits
  pub pad_small : pad < 5
  pub total : 5 * length digits ≡ 8 * length bytes + pad
  pub amount : number 32 digits 0 ≡ number 256 bytes 0 * 2 ^ pad

flush_amount :
    (n k value total : ℕ)
    → suc k < 5
    → n * 2 ^ suc k + value % 2 ^ suc k ≡ total
    → n * 32 + bit_and (shl value (5 - suc k)) 31 ≡ total * 2 ^ (5 - suc k)
flush_amount n zero value total b e = rw low_digit (omega arith)
flush_amount n (suc zero) value total b e = rw low_digit (omega arith)
flush_amount n (suc (suc zero)) value total b e = rw low_digit (omega arith)
flush_amount n (suc (suc (suc zero))) value total b e = rw low_digit (omega arith)
flush_amount n (suc (suc (suc (suc k)))) value total b e = absurd (omega arith)

flush-IsLabel :
    (bytes : List ℕ) (bits value : ℕ) (label : Text)
    → bits < 5
    → Spelled bytes bits value label
    → IsLabel bytes (flush bits value label)
unfolding flush
flush-IsLabel bytes zero value label b s = record {
  digits = s.digits;
  pad = 0;
  spelled = s.spelled;
  below = s.below;
  pad_small = omega arith;
  total = omega (arith, s.total);
  amount = omega (arith, s.amount);
}
flush-IsLabel bytes (suc k) value label b s =
    let d = bit_and (shl value (5 - suc k)) 31 in
    record {
      digits = s.digits ++ d ∷ [];
      pad = 5 - suc k;
      spelled = rw (spell-snoc s.digits d, ← s.spelled) refl;
      below =
          All-append _ s.digits _ s.below (omega (arith, low_digit (shl value (5 - suc k))), tt);
      pad_small = omega arith;
      total = omega (arith, s.total, length-append s.digits (d ∷ []));
      amount = rw (number-snoc 32 s.digits d 0) (flush_amount _ k value _ b s.amount);
    }

-- The loops of `virtualHostname` write the bytes' number in base 32.
pub base32_label-IsLabel : (bytes : List ℕ) → All IsByte bytes → IsLabel bytes (base32_label bytes)
unfolding base32_label number
base32_label-IsLabel bytes h =
    let (s, b) =
      encode_loop-Spelled [] bytes 0 0 [] (omega arith) h
        (record { digits = []; spelled = refl; below = tt; total = refl; amount = refl }) in
    flush-IsLabel bytes _ _ _ b s
