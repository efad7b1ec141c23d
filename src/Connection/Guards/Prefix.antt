-- ===== src/Connection/Guards/Prefix.antt =====
-- What the helpers of the patterns compute: a prefix without case, and leading white space.
use scweb_vpn.Common.{
  ◌≡◌, refl, ap, Bool, true, false, some, [], ◌∷◌, ◌++◌, All, ◌==◌, ==_iff, inl, inr, Bool-cases,
}
use scweb_vpn.Common.Texts.{Text, to_lower, lower_unit, is_space, trim_start}
use scweb_vpn.Connection.Guards.{strip_prefix}

abbrev pub AllSpace : Text → Type 0
AllSpace s = All (λ c. is_space c ≡ true) s

pub strip_prefix-split :
    (p s r : Text) → strip_prefix p s ≡ some r → (q : Text) × (s ≡ q ++ r) × (to_lower q ≡ p)
unfolding strip_prefix
strip_prefix-split [] s r h = ([], cc, refl)
strip_prefix-split (c ∷ p) [] r h = cc
strip_prefix-split (c ∷ p) (d ∷ s) r h = elim (Bool-cases (lower_unit d == c)) [
  | inl same ↦
      let (q, split, lower) = strip_prefix-split p s r (rw same at h) in
      (d ∷ q, ap (λ t. d ∷ t) split, cc ((==_iff (lower_unit d) c).0 same, lower))
  | inr other ↦ absurd (cc (rw other at h))
]

pub strip_prefix-append : (p q r : Text) → to_lower q ≡ p → strip_prefix p (q ++ r) ≡ some r
unfolding strip_prefix
strip_prefix-append [] [] r h = refl
strip_prefix-append [] (d ∷ q) r h = cc
strip_prefix-append (c ∷ p) [] r h = cc
strip_prefix-append (c ∷ p) (d ∷ q) r h =
    rw ((==_iff (lower_unit d) c).1 (cc)) (strip_prefix-append p q r (cc))

pub trim_start-split : (s : Text) → (q : Text) × (s ≡ q ++ trim_start s) × AllSpace q
trim_start-split [] = ([], refl, tt)
trim_start-split (c ∷ s) = elim (Bool-cases (is_space c)) [
  | inl space ↦
      let (q, split, spaces) = trim_start-split s in
      (c ∷ q, rw space (ap (λ t. c ∷ t) split), (space, spaces))
  | inr solid ↦ ([], rw solid, tt)
]

abbrev pub begins_space : Text → Bool
begins_space [] = false
begins_space (c ∷ s) = is_space c

pub trim_start-append : (q r : Text) → AllSpace q → begins_space r ≡ false → trim_start (q ++ r) ≡ r
trim_start-append [] [] h solid = refl
trim_start-append [] (c ∷ r) h solid = rw solid
trim_start-append (c ∷ q) r (space, h) solid = rw space (trim_start-append q r h solid)
