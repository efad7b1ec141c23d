-- ===== src/App/Address/Slugs.antt =====
-- The slug that the page's host name asks for, against the host names of services.
use scweb_vpn.Common.{
  arith, ◌-◌, ◌≡◌, ◌≢◌, ◌↔◌, refl, sym, ap, ◌∙◌, inl, inr, Bool, true, false, ◌||◌, none, some, [],
  ◌∷◌, ◌++◌, any, length, take, length-append, Bool-cases, subst,
}
use scweb_vpn.Common.Texts.{Text, text_eq, text_eq_iff, text_eq_refl, to_lower}
use scweb_vpn.App.Address.{ends_with, slug_suffix, is_dot, plain_prefix, slug_of, requested_slug}

take-length_append : (front back : Text) → take (length front) (front ++ back) ≡ front
take-length_append [] back = refl
take-length_append (c ∷ front) back = ap (λ t. c ∷ t) (take-length_append front back)

pub take_front :
    (front back : Text) → take (length (front ++ back) - length back) (front ++ back) ≡ front
take_front front back =
    ap (λ n. take n (front ++ back)) (omega (arith, length-append front back))
    ∙ take-length_append front back

or_true : (b : Bool) → (b || true) ≡ true
or_true true = refl
or_true false = refl

pub ends_with-append : (front suffix : Text) → ends_with suffix (front ++ suffix) ≡ true
unfolding ends_with
ends_with-append [] [] = refl
ends_with-append [] (c ∷ s) = rw (text_eq_refl (c ∷ s)) refl
ends_with-append (c ∷ front) suffix = rw (ends_with-append front suffix) (or_true _)

pub ends_with_split :
    (suffix s : Text) → ends_with suffix s ≡ true → (front : Text) × (s ≡ front ++ suffix)
unfolding ends_with
ends_with_split suffix [] h = ([], sym ((text_eq_iff suffix []).0 h))
ends_with_split suffix (c ∷ s) h = elim (Bool-cases (text_eq suffix (c ∷ s))) [
  | inl same ↦ ([], sym ((text_eq_iff suffix (c ∷ s)).0 same))
  | inr other ↦
      let (front, e) = ends_with_split suffix s (rw other at h) in (c ∷ front, ap (λ t. c ∷ t) e)
]

-- `p` is one label.
abbrev pub IsLabel : Text → Type 0
IsLabel p = (p ≢ []) × (any is_dot p ≡ false)

plain_prefix-eq-some : (q p : Text) → plain_prefix q ≡ some p → (q ≡ p) × IsLabel p
plain_prefix-eq-some [] p h = absurd (cc h)
plain_prefix-eq-some (c ∷ q) p h = elim (Bool-cases (any is_dot (c ∷ q))) [
  | inl dotted ↦ let given : none ≡ some p = rw dotted at h in absurd (cc given)
  | inr plain ↦
      let given : some (c ∷ q) ≡ some p = rw plain at h in
      let same : c ∷ q ≡ p = cc in (same, subst IsLabel same ((λ e. cc), plain))
]

plain_prefix-IsLabel : (p : Text) → IsLabel p → plain_prefix p ≡ some p
plain_prefix-IsLabel [] h = absurd (h.0 refl)
plain_prefix-IsLabel (c ∷ p) h = rw h.1 refl

slug_of_suffixed : (host p : Text) → slug_of host ≡ some p → (host ≡ p ++ slug_suffix) × IsLabel p
slug_of_suffixed host p h = elim (Bool-cases (ends_with slug_suffix host)) [
  | inr other ↦ let given : none ≡ some p = rw other at h in absurd (cc given)
  | inl ends ↦
      let (front, e) = ends_with_split slug_suffix host ends in
      let found = plain_prefix-eq-some front p (
        ap plain_prefix (sym (take_front front slug_suffix))
        ∙ ap (λ s. plain_prefix (take (length s - length slug_suffix) s)) (sym e)
        ∙ (rw ends at h)) in
      (e ∙ ap (λ f. f ++ slug_suffix) found.0, found.1)
]

slug_of-label : (p : Text) → IsLabel p → slug_of (p ++ slug_suffix) ≡ some p
slug_of-label p h =
    rw (ends_with-append p slug_suffix)
      (ap plain_prefix (take_front p slug_suffix) ∙ plain_prefix-IsLabel p h)

-- The page asks for the service `p` exactly if its host name, in lower case, is `p` and then the portal's
-- suffix, and `p` is one label: it is not empty and has no dot.
pub requested_slug_iff :
    (hostname p : Text)
    → (requested_slug hostname ≡ some p) ↔ ((to_lower hostname ≡ p ++ slug_suffix) × IsLabel p)
unfolding requested_slug
requested_slug_iff hostname p =
    (slug_of_suffixed (to_lower hostname) p, λ h. ap slug_of h.0 ∙ slug_of-label p h.1)
