-- ===== src/Desktop/Keys/Physical.antt =====
-- The key that a remote name stands for.
use scweb_vpn.Common.{
  arith, ℕ, ◌≡◌, refl, sym, ap, inl, inr, ◌⊎◌, subst, Bool, true, false, Option, none, some, List,
  [], ◌∷◌, ◌++◌, All, drop, ◌&&◌, Bool-cases, Option-cases, ==_iff, ◌==◌, if◌then◌else◌,
}
use scweb_vpn.Common.Texts.{Text, lit, text_eq, text_eq_iff, has, starts_with}
use scweb_vpn.Desktop.Keys.{
  key_names, named_key, is_upper, is_figure, one_unit, unit_after, with_unit, or_key,
  function_codes, function_key, remote_key,
}

abbrev code_named : List (Text × Text) → Text → Option Text
code_named [] name = none
code_named (k ∷ ks) name = if text_eq k.1 name then some k.0 else code_named ks name

abbrev function_code : Text → Option Text
function_code name =
    if starts_with (lit "VK_") name && has function_codes (drop 3 name)
    then some (drop 3 name)
    else none

-- The code of the key with a remote name.
pub physical_key : Text → Option Text
unfolding unit_after
physical_key name = or_key (with_unit (lit "Key") (unit_after (lit "VK_") is_upper name)) (
    or_key (with_unit (lit "Digit") (unit_after (lit "VK_") is_figure name)) (
      or_key (with_unit (lit "Numpad") (unit_after (lit "VK_NUMPAD") is_figure name))
        (or_key (function_code name) (code_named key_names name))))

one_unit_sound :
    (test : ℕ → Bool) (s : Text) (c : ℕ) → one_unit test s ≡ some c → (s ≡ c ∷ []) × (test c ≡ true)
one_unit_sound test [] c h = absurd (cc h)
one_unit_sound test (d ∷ e ∷ s) c h = absurd (cc h)
one_unit_sound test (d ∷ []) c h = elim (Bool-cases (test d)) [
  | inl holds ↦
      let given : some d ≡ some c = rw holds at h in
      let same : d ≡ c = cc in (ap (λ u. u ∷ []) same, subst (λ u. test u ≡ true) same holds)
  | inr misses ↦ let given : none ≡ some c = rw misses at h in absurd (cc given)
]

unit_after_sound :
    (front : Text) (test : ℕ → Bool) (s : Text) (c : ℕ)
    → unit_after front test s ≡ some c
    → (s ≡ front ++ c ∷ []) × (test c ≡ true)
unfolding unit_after
unit_after_sound [] test s c h = one_unit_sound test s c h
unit_after_sound (p ∷ ps) test [] c h = absurd (cc h)
unit_after_sound (p ∷ ps) test (d ∷ s) c h = elim (Bool-cases (p == d)) [
  | inl same ↦
      let (e, holds) = unit_after_sound ps test s c (rw same at h) in
      let head : p ≡ d = (==_iff p d).0 same in (cc, holds)
  | inr other ↦ let given : none ≡ some c = rw other at h in absurd (cc given)
]

-- What holds of all elements of a list holds of each text that is in it.
has-All : (P : Text → Type 0) (ts : List Text) (t : Text) → has ts t ≡ true → All P ts → P t
has-All P [] t h a = absurd (cc h)
has-All P (s ∷ ts) t h (a, rest) = elim (Bool-cases (text_eq s t)) [
  | inl same ↦ subst P ((text_eq_iff s t).0 same) a
  | inr other ↦ has-All P ts t (rw other at h) rest
]

named_key-All :
    (P : Text → Text → Type 0) (ks : List (Text × Text)) (code name : Text)
    → named_key ks code ≡ some name
    → All (λ k. P k.0 k.1) ks
    → P code name
unfolding named_key
named_key-All P [] code name h a = absurd (cc h)
named_key-All P (k ∷ ks) code name h (a, rest) = elim (Bool-cases (text_eq k.0 code)) [
  | inl same ↦
      let given : some k.1 ≡ some name = rw same at h in
      let value : k.1 ≡ name = cc in
      subst (λ n. P code n) value (subst (λ c. P c k.1) ((text_eq_iff k.0 code).0 same) a)
  | inr other ↦ named_key-All P ks code name (rw other at h) rest
]

abbrev IsPhysical : Text → Text → Type 0
IsPhysical code name = physical_key name ≡ some code

letter-IsPhysical :
    (c : ℕ) → is_upper c ≡ true → IsPhysical (lit "Key" ++ c ∷ []) (lit "VK_" ++ c ∷ [])
unfolding physical_key unit_after
letter-IsPhysical c h = rw h refl

figure-IsPhysical :
    (c : ℕ) → is_figure c ≡ true → IsPhysical (lit "Digit" ++ c ∷ []) (lit "VK_" ++ c ∷ [])
unfolding physical_key unit_after
figure-IsPhysical c h = let no_letter : is_upper c ≡ false = ground arith in rw (no_letter, h) refl

numpad-IsPhysical :
    (c : ℕ) → is_figure c ≡ true → IsPhysical (lit "Numpad" ++ c ∷ []) (lit "VK_NUMPAD" ++ c ∷ [])
unfolding physical_key unit_after
numpad-IsPhysical c h = rw h refl

function_codes-IsPhysical : All (λ code. IsPhysical code (lit "VK_" ++ code)) function_codes
unfolding physical_key unit_after
function_codes-IsPhysical = (
  refl,
  (refl, (refl, (refl, (refl, (refl, (refl, (refl, (refl, (refl, (refl, (refl, tt))))))))))),
)

key_names-IsPhysical : All (λ k. IsPhysical k.0 k.1) key_names
unfolding physical_key unit_after
key_names-IsPhysical = (
  refl,
  (
    refl,
    (
      refl,
      (
        refl,
        (
          refl,
          (
            refl,
            (
              refl,
              (
                refl,
                (
                  refl,
                  (
                    refl,
                    (
                      refl,
                      (
                        refl,
                        (
                          refl,
                          (
                            refl,
                            (
                              refl,
                              (
                                refl,
                                (
                                  refl,
                                  (
                                    refl,
                                    (
                                      refl,
                                      (
                                        refl,
                                        (
                                          refl,
                                          (
                                            refl,
                                            (
                                              refl,
                                              (
                                                refl,
                                                (
                                                  refl,
                                                  (
                                                    refl,
                                                    (
                                                      refl,
                                                      (
                                                        refl,
                                                        (refl, (refl, (refl, (refl, (refl, tt))))),
                                                      ),
                                                    ),
                                                  ),
                                                ),
                                              ),
                                            ),
                                          ),
                                        ),
                                      ),
                                    ),
                                  ),
                                ),
                              ),
                            ),
                          ),
                        ),
                      ),
                    ),
                  ),
                ),
              ),
            ),
          ),
        ),
      ),
    ),
  ),
)

function_key-IsPhysical : (code name : Text) → function_key code ≡ some name → IsPhysical code name
function_key-IsPhysical code name h = elim (Bool-cases (has function_codes code)) [
  | inl there ↦
      let given : some (lit "VK_" ++ code) ≡ some name = rw there at h in
      let value : lit "VK_" ++ code ≡ name = cc in
      subst (λ n. IsPhysical code n) value
        (has-All (λ c. IsPhysical c (lit "VK_" ++ c)) function_codes code there
          function_codes-IsPhysical)
  | inr missing ↦ let given : none ≡ some name = rw missing at h in absurd (cc given)
]

-- A name made of one unit of a code.
unit-IsPhysical :
    (front back : Text) (test : ℕ → Bool) (code name : Text)
    → ((c : ℕ) → test c ≡ true → IsPhysical (front ++ c ∷ []) (back ++ c ∷ []))
    → with_unit back (unit_after front test code) ≡ some name
    → IsPhysical code name
unit-IsPhysical front back test code name p h = elim (Option-cases (unit_after front test code)) [
  | inl missing ↦ let given : none ≡ some name = rw missing at h in absurd (cc given)
  | inr (c, there) ↦
      let (spelt, holds) = unit_after_sound front test code c there in
      let given : some (back ++ c ∷ []) ≡ some name = rw there at h in
      let value : back ++ c ∷ [] ≡ name = cc in
      subst (λ n. IsPhysical code n) value
        (subst (λ s. IsPhysical s (back ++ c ∷ [])) (sym spelt) (p c holds))
]

or_key-cases :
    (k later : Option Text) (name : Text)
    → or_key k later ≡ some name
    → (k ≡ some name) ⊎ (later ≡ some name)
or_key-cases none later name h = inr h
or_key-cases (some n) later name h = inl h

-- The remote name of a key tells which key it is: two keys with one remote name have the same code.
pub physical_key-remote_key :
    (code name : Text) → remote_key code ≡ some name → physical_key name ≡ some code
unfolding remote_key
physical_key-remote_key code name h = elim (or_key-cases _ _ name h) [
  | inl letter ↦ unit-IsPhysical (lit "Key") (lit "VK_") is_upper code name letter-IsPhysical letter
  | inr a ↦ elim (or_key-cases _ _ name a) [
    | inl figure ↦
        unit-IsPhysical (lit "Digit") (lit "VK_") is_figure code name figure-IsPhysical figure
    | inr b ↦ elim (or_key-cases _ _ name b) [
      | inl function ↦ function_key-IsPhysical code name function
      | inr c ↦ elim (or_key-cases _ _ name c) [
        | inl numpad ↦
            unit-IsPhysical (lit "Numpad") (lit "VK_NUMPAD") is_figure code name numpad-IsPhysical
              numpad
        | inr named ↦ named_key-All IsPhysical key_names code name named key_names-IsPhysical
      ]
    ]
  ]
]
