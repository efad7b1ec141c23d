-- ===== src/Platform/Base64/Laws.antt =====
-- The values of `atob`.
use scweb_vpn.Common.{
  filter, not, ℕ, ◌%◌, ◌<◌, ◌≡◌, Option, none, some, refl, subst, List, [], ◌∷◌, arith, All, length,
  ◌==◌, Bool-cases, inl, inr,
}
use scweb_vpn.Common.Texts.{Text}
use scweb_vpn.Platform.Base64.{
  sextet, sextets, bytes_of_sextets, decode, unpadded, is_ascii_space, atob, option_map, cons_some,
}

abbrev IsSextet : ℕ → Type 0
IsSextet d = d < 64

sextet-IsSextet : (c d : ℕ) → sextet c ≡ some d → IsSextet d
unfolding sextet
sextet-IsSextet c d h = ground arith

cons_some-eq-some :
    (d : Option ℕ) (ds : Option (List ℕ)) {es : List ℕ}
    → cons_some d ds ≡ some es
    → (e : ℕ) × (rest : List ℕ) × (d ≡ some e) × (ds ≡ some rest) × (e ∷ rest ≡ es)
cons_some-eq-some none ds h = cc
cons_some-eq-some (some e) none h = cc
cons_some-eq-some (some e) (some rest) h = (e, rest, refl, refl, cc)

sextets-IsSextet : (s : Text) (ds : List ℕ) → sextets s ≡ some ds → All IsSextet ds
unfolding sextets
sextets-IsSextet [] ds h = let same : [] ≡ ds = cc in subst (All IsSextet) same tt
sextets-IsSextet (c ∷ s) ds h =
    let (e, rest, he, hs, same) = cons_some-eq-some (sextet c) (sextets s) h in
    subst (All IsSextet) same (sextet-IsSextet c e he, sextets-IsSextet s rest hs)

abbrev IsByteValue : ℕ → Type 0
IsByteValue b = b < 256

bytes_of_sextets-All : (ds : List ℕ) → All IsSextet ds → All IsByteValue (bytes_of_sextets ds)
unfolding bytes_of_sextets
bytes_of_sextets-All [] h = tt
bytes_of_sextets-All (a ∷ []) h = tt
bytes_of_sextets-All (a ∷ b ∷ []) (ha, (hb, _)) = (omega arith, tt)
bytes_of_sextets-All (a ∷ b ∷ c ∷ []) (ha, (hb, (hc, _))) = (omega arith, (omega arith, tt))
bytes_of_sextets-All (a ∷ b ∷ c ∷ d ∷ rest) (ha, (hb, (hc, (hd, hs)))) =
    (omega arith, (omega arith, (omega arith, bytes_of_sextets-All rest hs)))

option_map-All :
    (ds : Option (List ℕ)) (bs : List ℕ)
    → ((es : List ℕ) → ds ≡ some es → All IsSextet es)
    → option_map bytes_of_sextets ds ≡ some bs
    → All IsByteValue bs
option_map-All none bs h e = cc
option_map-All (some es) bs h e =
    let same : bytes_of_sextets es ≡ bs = cc in
    subst (All IsByteValue) same (bytes_of_sextets-All es (h es refl))

decode-All : (s : Text) (bs : List ℕ) → decode s ≡ some bs → All IsByteValue bs
unfolding decode
decode-All s bs h = elim (Bool-cases (length s % 4 == 1)) [
  | inl short ↦ absurd (cc (rw short at h))
  | inr long ↦ option_map-All (sextets s) bs (sextets-IsSextet s) (rw long at h)
]

-- `atob` returns code units below 256.
pub atob-All : (s : Text) (bs : List ℕ) → atob s ≡ some bs → All (λ b. b < 256) bs
unfolding atob
atob-All s bs h = decode-All (unpadded (filter (λ c. not (is_ascii_space c)) s)) bs h
