-- ===== src/Platform/Base64/Roundtrip.antt =====
-- `btoa` and then `atob` on whole groups of three bytes.
use scweb_vpn.Common.{
  arith, ℕ, zero, suc, ◌+◌, ◌*◌, ◌/◌, ◌%◌, ◌<◌, ◌≡◌, refl, sym, ap, ◌∙◌, false, not, some, List, [],
  ◌∷◌, map, filter, reverse, All, All-append, length, ◌==◌, Bool-cases, inl, inr, subst,
}
use mathlib.Core.List.{reverse-append, reverse-reverse}
use scweb_vpn.Common.Texts.{Text}
use scweb_vpn.Platform.Base64.{
  sextet, sextets, drop_pads, bytes_of_sextets, unpadded, decode, atob, is_ascii_space, sextet_char,
  encode_bytes,
}

abbrev pub IsByte : ℕ → Type 0
IsByte b = b < 256

abbrev pub IsSextet : ℕ → Type 0
IsSextet d = d < 64

abbrev pub NotPad : ℕ → Type 0
NotPad c = (c == b'=') ≡ false

-- The values of the characters, three bytes at a time.
abbrev pub values : List ℕ → List ℕ
values (a ∷ b ∷ c ∷ rest) =
    (a / 4) ∷ (a % 4 * 16 + b / 16) ∷ (b % 16 * 4 + c / 64) ∷ (c % 64) ∷ values rest
values bytes = []

-- Whole groups of three.
abbrev pub IsTriples : List ℕ → Type 0
IsTriples [] = Unit {0}
IsTriples (a ∷ []) = ⊥
IsTriples (a ∷ b ∷ []) = ⊥
IsTriples (a ∷ b ∷ c ∷ rest) = IsTriples rest

pub encode-values :
    (bytes : List ℕ) → IsTriples bytes → encode_bytes bytes ≡ map sextet_char (values bytes)
unfolding encode_bytes
encode-values [] h = refl
encode-values (a ∷ []) h = elim h [ ]
encode-values (a ∷ b ∷ []) h = elim h [ ]
encode-values (a ∷ b ∷ c ∷ rest) h = rw (encode-values rest h)

pub values-IsSextet : (bytes : List ℕ) → All IsByte bytes → All IsSextet (values bytes)
values-IsSextet [] h = tt
values-IsSextet (a ∷ []) h = tt
values-IsSextet (a ∷ b ∷ []) h = tt
values-IsSextet (a ∷ b ∷ c ∷ rest) (ha, (hb, (hc, hs))) =
    (omega arith, (omega arith, (omega arith, (omega arith, values-IsSextet rest hs))))

bytes_of_values :
    (bytes : List ℕ) → IsTriples bytes → All IsByte bytes → bytes_of_sextets (values bytes) ≡ bytes
unfolding bytes_of_sextets
bytes_of_values [] t h = refl
bytes_of_values (a ∷ []) t h = elim t [ ]
bytes_of_values (a ∷ b ∷ []) t h = elim t [ ]
bytes_of_values (a ∷ b ∷ c ∷ rest) t (ha, (hb, (hc, hs))) =
    let first : a / 4 * 4 + (a % 4 * 16 + b / 16) / 16 ≡ a = omega arith in
    let second : (a % 4 * 16 + b / 16) % 16 * 16 + (b % 16 * 4 + c / 64) / 4 ≡ b = omega arith in
    let third : (b % 16 * 4 + c / 64) % 4 * 64 + c % 64 ≡ c = omega arith in
    cc (bytes_of_values rest t hs)

sextet-sextet_char : (d : ℕ) → IsSextet d → sextet (sextet_char d) ≡ some d
unfolding sextet sextet_char
sextet-sextet_char d h = ground arith

sextet_char-no_space : (d : ℕ) → IsSextet d → is_ascii_space (sextet_char d) ≡ false
unfolding sextet_char
sextet_char-no_space d h = ground arith

pub sextet_char-NotPad : (d : ℕ) → IsSextet d → NotPad (sextet_char d)
unfolding sextet_char
sextet_char-NotPad d h = ground arith

pub map-All :
    (P Q : ℕ → Type 0) (f : ℕ → ℕ) (ds : List ℕ)
    → ((d : ℕ) → P d → Q (f d))
    → All P ds
    → All Q (map f ds)
map-All P Q f [] h a = tt
map-All P Q f (d ∷ ds) h (hd, hs) = (h d hd, map-All P Q f ds h hs)

pub reverse-All : (P : ℕ → Type 0) (s : List ℕ) → All P s → All P (reverse s)
reverse-All P [] h = tt
reverse-All P (c ∷ s) (hc, hs) =
    subst (All P) (sym (reverse-append (c ∷ []) s))
      (All-append P (reverse s) (c ∷ []) (reverse-All P s hs) (hc, tt))

drop_pads-plain : (n : ℕ) (s : Text) → All NotPad s → drop_pads n s ≡ s
unfolding drop_pads
drop_pads-plain zero s h = refl
drop_pads-plain (suc n) [] h = refl
drop_pads-plain (suc n) (c ∷ s) (hc, hs) = rw hc

unpadded-plain : (s : Text) → All NotPad s → unpadded s ≡ s
unfolding unpadded
unpadded-plain s h = elim (Bool-cases (length s % 4 == 0)) [
  | inl four ↦
      rw four
        (ap reverse (drop_pads-plain 2 (reverse s) (reverse-All NotPad s h)) ∙ reverse-reverse s)
  | inr other ↦ rw other
]

sextets-map : (ds : List ℕ) → All IsSextet ds → sextets (map sextet_char ds) ≡ some ds
unfolding sextets
sextets-map [] h = refl
sextets-map (d ∷ ds) (hd, hs) = rw (sextet-sextet_char d hd) (rw (sextets-map ds hs))

filter-no_space :
    (ds : List ℕ)
    → All IsSextet ds
    → filter (λ c. not (is_ascii_space c)) (map sextet_char ds) ≡ map sextet_char ds
filter-no_space [] h = refl
filter-no_space (d ∷ ds) (hd, hs) = rw (sextet_char-no_space d hd) (rw (filter-no_space ds hs))

length-values : (bytes : List ℕ) → IsTriples bytes → length (map sextet_char (values bytes)) % 4 ≡ 0
length-values [] t = refl
length-values (a ∷ []) t = elim t [ ]
length-values (a ∷ b ∷ []) t = elim t [ ]
length-values (a ∷ b ∷ c ∷ rest) t = omega (arith, length-values rest t)

not_one : (n : ℕ) → n % 4 ≡ 0 → (n % 4 == 1) ≡ false
not_one n h = rw h

pub atob-values :
    (bytes : List ℕ)
    → IsTriples bytes
    → All IsByte bytes
    → atob (map sextet_char (values bytes)) ≡ some bytes
unfolding atob decode
atob-values bytes t h =
    let vs = values-IsSextet bytes h in
    rw (filter-no_space (values bytes) vs) (
      rw
        (unpadded-plain (map sextet_char (values bytes))
          (map-All IsSextet NotPad sextet_char (values bytes) sextet_char-NotPad vs))
        (rw (not_one (length (map sextet_char (values bytes))) (length-values bytes t))
          (rw (sextets-map (values bytes) vs) (ap some (bytes_of_values bytes t h)))))
