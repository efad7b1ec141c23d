-- ===== src/Virtual.antt =====
-- web/src/virtual.ts: the virtual host name of a service. `value` is a 32-bit integer, kept as its
-- bit pattern; every shift count is below 32.
pub mod Digits
pub mod Label
pub mod Hostname
pub mod Example
mod Tests
use scweb_vpn.Common.{
  ℕ, zero, suc, ◌+◌, ◌-◌, ◌*◌, ◌/◌, ◌%◌, ◌^◌, bit_and, bit_or, Option, none, some, List, [], ◌∷◌,
  ◌++◌, map, length, get_elem?, ◌==◌, if◌then◌else◌, Result, ok, err, message, not,
}
use scweb_vpn.Common.Texts.{Text, lit, to_lower}
use scweb_vpn.Platform.Base64.{atob}

abbrev pub u32_mod : ℕ
u32_mod = 2 ^ 32

-- `a << k` and `a >>> k` on the bit pattern.
abbrev pub shl : ℕ → ℕ → ℕ
shl a k = a * 2 ^ k % u32_mod

abbrev pub shr : ℕ → ℕ → ℕ
shr a k = a / 2 ^ k

abbrev pub alphabet : Text
alphabet = lit "ABCDEFGHIJKLMNOPQRSTUVWXYZ234567"

-- `alphabet[i]`, which is appended as "undefined" out of range.
abbrev pub symbol : Option ℕ → Text
symbol none = lit "undefined"
symbol (some c) = c ∷ []

abbrev pub alphabet_at : ℕ → Text
alphabet_at i = symbol (get_elem? alphabet i)

pattern abbrev five+ : ℕ → ℕ
five+ n = suc (suc (suc (suc (suc n))))

-- `while (bits >= 5)`: five bits go out in each round.
emit : ℕ → ℕ → Text → ℕ × Text
emit (five+ rest) value label = emit rest value (label ++ alphabet_at (bit_and (shr value rest) 31))
emit bits value label = (bits, label)

-- `for (const byte of bytes)`.
encode_loop : List ℕ → ℕ → ℕ → Text → ℕ × ℕ × Text
encode_loop [] bits value label = (bits, value, label)
encode_loop (byte ∷ bytes) bits value label =
    let value' = bit_or (shl value 8) byte in
    let (bits', label') = emit (bits + 8) value' label in encode_loop bytes bits' value' label'

-- `if (bits) label += …`.
flush : ℕ → ℕ → Text → Text
flush zero value label = label
flush (suc b) value label = label ++ alphabet_at (bit_and (shl value (5 - suc b)) 31)

pub base32_label : List ℕ → Text
unfolding encode_loop emit flush
base32_label bytes = let (bits, value, label) = encode_loop bytes 0 0 [] in flush bits value label

-- `id.replace(/-/g, '+').replace(/_/g, '/') + '=='`.
abbrev pub from_url_safe : ℕ → ℕ
from_url_safe c = if c == b'-' then b'+' else if c == b'_' then b'/' else c

pub id_bytes : Text → Option (List ℕ)
id_bytes id = atob (map from_url_safe id ++ lit "==")

hostname_of : Option (List ℕ) → Result Text
hostname_of none = err (message "InvalidCharacterError")
hostname_of (some bytes) =
    if length bytes == 16
    then ok (lit "s-" ++ to_lower (base32_label bytes) ++ lit ".webvpn.invalid")
    else err (message "服务标识不是 128 位值")

unfoldable pub virtual_hostname : Text → Result Text
unfolding hostname_of id_bytes base32_label
virtual_hostname id = hostname_of (id_bytes id)
