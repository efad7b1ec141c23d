-- ===== src/Platform/Base64.antt =====
-- `atob` (forgiving base64 decode) and `btoa` of the HTML standard. Byte strings are texts whose
-- code units are below 256; `none` is the InvalidCharacterError that both throw.
pub mod Laws
pub mod Roundtrip
use scweb_vpn.Common.{
  ℕ, zero, suc, ◌+◌, ◌-◌, ◌*◌, ◌/◌, ◌%◌, Bool, true, false, ◌&&◌, ◌||◌, not, Option, none, some,
  List, [], ◌∷◌, reverse, ltb, leb, ◌==◌, if◌then◌else◌, length, filter, all,
}
use scweb_vpn.Common.Texts.{Text}

-- ASCII white space, which `atob` removes.
abbrev is_ascii_space : ℕ → Bool
is_ascii_space c = c == 9 || c == 10 || c == 12 || c == 13 || c == 32

-- The value of a character of the base64 alphabet.
unfoldable pub sextet : ℕ → Option ℕ
sextet c =
    if leb b'A' c && leb c b'Z'
    then some (c - 65)
    else if leb b'a' c && leb c b'z'
    then some (c - 71)
    else if leb b'0' c && leb c b'9'
    then some (c + 4)
    else if c == b'+'
    then some 62
    else if c == b'/'
    then some 63
    else none

abbrev pub cons_some : Option ℕ → Option (List ℕ) → Option (List ℕ)
cons_some none ds = none
cons_some (some d) none = none
cons_some (some d) (some ds) = some (d ∷ ds)

unfoldable pub sextets : Text → Option (List ℕ)
unfolding sextet
sextets [] = some []
sextets (c ∷ s) = cons_some (sextet c) (sextets s)

-- At most `n` leading `=` of the reversed text go.
unfoldable pub drop_pads : ℕ → Text → Text
drop_pads zero s = s
drop_pads (suc n) [] = []
drop_pads (suc n) (c ∷ s) = let rest = drop_pads n s in if c == b'=' then rest else c ∷ s

-- Four sextets are three bytes; the bits that are left over at the end are discarded.
unfoldable pub bytes_of_sextets : List ℕ → List ℕ
bytes_of_sextets (a ∷ b ∷ c ∷ d ∷ rest) =
    (a * 4 + b / 16) ∷ (b % 16 * 16 + c / 4) ∷ (c % 4 * 64 + d) ∷ bytes_of_sextets rest
bytes_of_sextets (a ∷ b ∷ c ∷ []) = (a * 4 + b / 16) ∷ (b % 16 * 16 + c / 4) ∷ []
bytes_of_sextets (a ∷ b ∷ []) = (a * 4 + b / 16) ∷ []
bytes_of_sextets (a ∷ []) = []
bytes_of_sextets [] = []

abbrev pub option_map : (List ℕ → List ℕ) → Option (List ℕ) → Option (List ℕ)
option_map f none = none
option_map f (some a) = some (f a)

-- Up to two `=` at the end go, if the length is a multiple of four.
unpadded : Text → Text
unfolding drop_pads
unpadded s = if length s % 4 == 0 then reverse (drop_pads 2 (reverse s)) else s

decode : Text → Option Text
unfolding sextets bytes_of_sextets
decode body = if length body % 4 == 1 then none else option_map bytes_of_sextets (sextets body)

unfoldable pub atob : Text → Option Text
unfolding unpadded decode
atob s = decode (unpadded (filter (λ c. not (is_ascii_space c)) s))

-- The character of a value below 64.
unfoldable pub sextet_char : ℕ → ℕ
sextet_char d =
    if ltb d 26
    then d + 65
    else if ltb d 52
    then d + 71
    else if ltb d 62
    then d - 4
    else if d == 62
    then b'+'
    else b'/'

unfoldable pub encode_bytes : List ℕ → Text
unfolding sextet_char
encode_bytes (a ∷ b ∷ c ∷ rest) =
    sextet_char (a / 4)
    ∷ sextet_char (a % 4 * 16 + b / 16)
    ∷ sextet_char (b % 16 * 4 + c / 64)
    ∷ sextet_char (c % 64)
    ∷ encode_bytes rest
encode_bytes (a ∷ b ∷ []) =
    sextet_char (a / 4) ∷ sextet_char (a % 4 * 16 + b / 16) ∷ sextet_char (b % 16 * 4) ∷ b'=' ∷ []
encode_bytes (a ∷ []) = sextet_char (a / 4) ∷ sextet_char (a % 4 * 16) ∷ b'=' ∷ b'=' ∷ []
encode_bytes [] = []

unfoldable pub btoa : Text → Option Text
unfolding encode_bytes
btoa s = if all (λ c. ltb c 256) s then some (encode_bytes s) else none
