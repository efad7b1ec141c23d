-- ===== src/Connection/Requests/Ids.antt =====
-- The form of the identifiers of requests.
use scweb_vpn.Common.{
  arith, ℕ, ◌≡◌, refl, ap, ◌∙◌, true, ◌&&◌, ◌||◌, some, List, [], ◌∷◌, map, all, reverse, All, ltb,
  leb, ◌==◌,
}
use mathlib.Core.List.{reverse-reverse}
use scweb_vpn.Common.Texts.{Text}
use scweb_vpn.Platform.Base64.{atob, sextet_char, encode_bytes, btoa}
use scweb_vpn.Platform.Base64.Roundtrip.{
  IsByte, IsSextet, NotPad, values, IsTriples, encode-values, values-IsSextet, reverse-All,
  atob-values,
}
use scweb_vpn.Virtual.{from_url_safe}
use scweb_vpn.Connection.Requests.{url_safe, drop_leading_pads, random_control_id}

-- A character of an identifier: a letter, a figure, `-` or `_`.
abbrev pub IsUrlSafe : ℕ → Type 0
IsUrlSafe c =
    ((leb b'A' c && leb c b'Z')
      || (leb b'a' c && leb c b'z')
      || (leb b'0' c && leb c b'9')
      || c == b'-'
      || c == b'_')
    ≡ true

-- A character, made safe for URLs and back.
abbrev back : ℕ → ℕ
back d = from_url_safe (url_safe (sextet_char d))

back_lem : (d : ℕ) → IsSextet d → back d ≡ sextet_char d
unfolding sextet_char
back_lem d h = ground arith

url_safe-NotPad : (d : ℕ) → IsSextet d → NotPad (url_safe (sextet_char d))
unfolding sextet_char
url_safe-NotPad d h = ground arith

url_safe-IsUrlSafe : (d : ℕ) → IsSextet d → IsUrlSafe (url_safe (sextet_char d))
unfolding sextet_char
url_safe-IsUrlSafe d h = ground arith

btoa-encode : (bytes : List ℕ) → All IsByte bytes → btoa bytes ≡ some (encode_bytes bytes)
unfolding btoa
btoa-encode bytes h = rw (all_bytes bytes h)
  where
    all_bytes : (bs : List ℕ) → All IsByte bs → all (λ c. ltb c 256) bs ≡ true
    all_bytes [] h = refl
    all_bytes (b ∷ bs) (hb, hs) = ground (arith, all_bytes bs hs)

drop_leading_pads-plain : (s : Text) → All NotPad s → drop_leading_pads s ≡ s
unfolding drop_leading_pads
drop_leading_pads-plain [] h = refl
drop_leading_pads-plain (c ∷ s) (hc, hs) = rw hc

-- The identifier, as the safe form of its values.
id_values :
    (bytes : List ℕ)
    → IsTriples bytes
    → All IsByte bytes
    → random_control_id bytes ≡ map url_safe (map sextet_char (values bytes))
unfolding random_control_id
id_values bytes t h = rw (btoa-encode bytes h) (
    rw (encode-values bytes t)
      (ap reverse (drop_leading_pads-plain _ (reverse-All NotPad _ no_pads)) ∙ reverse-reverse _))
  where
    safe_pads : (ds : List ℕ) → All IsSextet ds → All NotPad (map url_safe (map sextet_char ds))
    safe_pads [] hs = tt
    safe_pads (d ∷ ds) (hd, hs) = (url_safe-NotPad d hd, safe_pads ds hs)

    no_pads : All NotPad (map url_safe (map sextet_char (values bytes)))
    no_pads = safe_pads (values bytes) (values-IsSextet bytes h)

back-map :
    (ds : List ℕ)
    → All IsSextet ds
    → map from_url_safe (map url_safe (map sextet_char ds)) ≡ map sextet_char ds
back-map [] h = refl
back-map (d ∷ ds) (hd, hs) =
    rw (back-map ds hs) (ap (λ (c : ℕ). c ∷ map sextet_char ds) (back_lem d hd))

safe_characters :
    (ds : List ℕ) → All IsSextet ds → All IsUrlSafe (map url_safe (map sextet_char ds))
safe_characters [] h = tt
safe_characters (d ∷ ds) (hd, hs) = (url_safe-IsUrlSafe d hd, safe_characters ds hs)

-- The identifier made of random bytes, in whole groups of three as the code draws them, consists of
-- letters, figures, `-` and `_`, and decoding it gives the bytes back: other bytes have another
-- identifier.
pub atob-random_control_id :
    (bytes : List ℕ)
    → IsTriples bytes
    → All IsByte bytes
    → (atob (map from_url_safe (random_control_id bytes)) ≡ some bytes)
      × All IsUrlSafe (random_control_id bytes)
atob-random_control_id bytes t h =
    let vs = values-IsSextet bytes h in
    rw (id_values bytes t h) (
      ap atob (back-map (values bytes) vs) ∙ atob-values bytes t h,
      safe_characters (values bytes) vs,
    )
