-- ===== src/Virtual/Digits.antt =====
-- Numerals as lists of digits, and their spelling in the alphabet of `virtualHostname`.
use scweb_vpn.Common.{
  ℕ, zero, suc, ◌+◌, ◌*◌, ◌<◌, ◌≡◌, refl, sym, ap, Bool, true, ◌&&◌, List, [], ◌∷◌, ◌++◌, map,
  append_assoc, append-nil, arith, All, length, ltb, if◌then◌else◌,
}
use scweb_vpn.Common.Texts.{Text, to_lower, text_eq, text_eq_iff}
use scweb_vpn.Virtual.{alphabet_at}

-- A numeral of digits in base 32, read from the left.
unfoldable pub number : ℕ → List ℕ → ℕ → ℕ
number base [] acc = acc
number base (d ∷ ds) acc = number base ds (acc * base + d)

pub number-snoc :
    (base : ℕ) (ds : List ℕ) (d acc : ℕ)
    → number base (ds ++ d ∷ []) acc ≡ number base ds acc * base + d
unfolding number
number-snoc base [] d acc = refl
number-snoc base (e ∷ ds) d acc = number-snoc base ds d (acc * base + e)

abbrev pub spell : List ℕ → Text
spell [] = []
spell (d ∷ ds) = alphabet_at d ++ spell ds

spell-append : (ds es : List ℕ) → spell (ds ++ es) ≡ spell ds ++ spell es
spell-append [] es = refl
spell-append (d ∷ ds) es =
    rw (spell-append ds es) (sym (append_assoc (alphabet_at d) (spell ds) (spell es)))

pub spell-snoc : (ds : List ℕ) (d : ℕ) → spell (ds ++ d ∷ []) ≡ spell ds ++ alphabet_at d
spell-snoc ds d =
    rw (spell-append ds (d ∷ [])) (ap (λ t. spell ds ++ t) (append-nil (alphabet_at d)))

abbrev pub IsByte : ℕ → Type 0
IsByte b = b < 256

abbrev pub IsDigit : ℕ → Type 0
IsDigit d = d < 32

-- Byte strings of one length are told apart by their numbers.
pub number_injective :
    (xs ys : List ℕ) (a b : ℕ)
    → length xs ≡ length ys
    → All IsByte xs
    → All IsByte ys
    → number 256 xs a ≡ number 256 ys b
    → (a ≡ b) × (xs ≡ ys)
unfolding number
number_injective [] [] a b l hx hy e = (e, refl)
number_injective [] (y ∷ ys) a b l hx hy e = absurd (omega arith)
number_injective (x ∷ xs) [] a b l hx hy e = absurd (omega arith)
number_injective (x ∷ xs) (y ∷ ys) a b l (hx, hxs) (hy, hys) e =
    let (heads, tails) =
      number_injective xs ys (a * 256 + x) (b * 256 + y) (omega arith) hxs hys e in
    (omega arith, let same : x ≡ y = omega arith in cc)

-- The lower-case letter or figure of a digit.
abbrev pub letter : ℕ → ℕ
letter d = if ltb d 26 then d + 97 else d + 24

-- A test of every number below a limit.
test_below : (ℕ → Bool) → ℕ → Bool
test_below test zero = true
test_below test (suc limit) = test_below test limit && test limit

of_test_below :
    (test : ℕ → Bool) (limit d : ℕ) → d < limit → test_below test limit ≡ true → test d ≡ true
unfolding test_below
of_test_below test zero d less holds = absurd (omega arith)
of_test_below test (suc limit) d less holds = ground (of_test_below test limit d, arith)

letter_table : test_below (λ d. text_eq (to_lower (alphabet_at d)) (letter d ∷ [])) 32 ≡ true
unfolding test_below
letter_table = refl

to_lower-alphabet_at : (d : ℕ) → IsDigit d → to_lower (alphabet_at d) ≡ letter d ∷ []
to_lower-alphabet_at d h =
    (text_eq_iff _ _).0
      (of_test_below (λ x. text_eq (to_lower (alphabet_at x)) (letter x ∷ [])) 32 d h letter_table)

to_lower-append : (s t : Text) → to_lower (s ++ t) ≡ to_lower s ++ to_lower t
to_lower-append [] t = refl
to_lower-append (c ∷ s) t = rw (to_lower-append s t)

pub to_lower-spell : (ds : List ℕ) → All IsDigit ds → to_lower (spell ds) ≡ map letter ds
to_lower-spell [] h = refl
to_lower-spell (d ∷ ds) (h, hs) =
    rw (to_lower-append (alphabet_at d) (spell ds), to_lower-alphabet_at d h, to_lower-spell ds hs)

pub map-letter_injective :
    (ds es : List ℕ) → All IsDigit ds → All IsDigit es → map letter ds ≡ map letter es → ds ≡ es
map-letter_injective [] [] hd he e = refl
map-letter_injective [] (y ∷ es) hd he e = cc
map-letter_injective (x ∷ ds) [] hd he e = cc
map-letter_injective (x ∷ ds) (y ∷ es) (hx, hd) (hy, he) e =
    ground (arith, map-letter_injective ds es hd he)

pub length-map-letter : (ds : List ℕ) → length (map letter ds) ≡ length ds
length-map-letter [] = refl
length-map-letter (d ∷ ds) = ap suc (length-map-letter ds)
