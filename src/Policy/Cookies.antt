-- ===== src/Policy/Cookies.antt =====
-- `Set-Cookie`: the `replace` of `sanitizeUpstreamHeaders` against a reading of the value as the pieces between
-- its semicolons.
use scweb_vpn.Common.{
  ℕ, ◌≡◌, ◌≢◌, refl, Bool, true, false, not, ◌&&◌, Option, none, some, List, [], ◌∷◌, ◌++◌, filter,
  arith, ◌==◌, ==_iff, if◌then◌else◌, Bool-cases, inl, inr,
}
use scweb_vpn.Common.Texts.{
  Text, lit, text_eq, starts_with, to_lower, lower_unit, trim_start, is_space, split_on,
}
use scweb_vpn.Policy.{domain_follows, strip_from, strip_domain}

abbrev cons_name : ℕ → Option Text → Option Text
cons_name c none = none
cons_name c (some n) = some (c ∷ n)

-- The text before the first `=`, if there is one.
abbrev name_of : Text → Option Text
name_of [] = none
name_of (c ∷ s) = let rest = name_of s in if c == b'=' then some [] else cons_name c rest

abbrev is_named : Text → Option Text → Bool
is_named name none = false
is_named name (some n) = text_eq name (to_lower n)

-- A piece is a `Domain` attribute if what stands before its first `=` is `domain`, in any case, after white
-- space.
abbrev pub is_domain : Text → Bool
is_domain piece = is_named (lit "domain") (name_of (trim_start piece))

abbrev pub not_domain : Text → Bool
not_domain piece = not (is_domain piece)

-- The pieces put together again, each but the first after a `;`.
abbrev attributes : List Text → Text
attributes [] = []
attributes (p ∷ ps) = b';' ∷ p ++ attributes ps

-- The first piece names the cookie; of the others those stay that are no `Domain` attributes.
abbrev without_domain_of : List Text → Text
without_domain_of [] = []
without_domain_of (p ∷ ps) = p ++ attributes (filter not_domain ps)

abbrev pub without_domain : Text → Text
without_domain value = without_domain_of (split_on b';' value)

-- The test of the pattern.
is_named-cons :
    (d c : ℕ) (p : Text) (n : Option Text)
    → is_named (d ∷ p) (cons_name c n) ≡ (d == lower_unit c && is_named p n)
is_named-cons d c p none = ground arith
is_named-cons d c p (some n) = refl

is_named-cons_nil : (c : ℕ) (n : Option Text) → is_named [] (cons_name c n) ≡ false
is_named-cons_nil c none = refl
is_named-cons_nil c (some n) = refl

abbrev HasNoEquals : Text → Type 0
HasNoEquals [] = Unit
HasNoEquals (c ∷ p) = (c ≢ b'=') × HasNoEquals p

starts_with-named :
    (p s : Text) → HasNoEquals p → starts_with (p ++ lit "=") (to_lower s) ≡ is_named p (name_of s)
starts_with-named [] [] h = refl
starts_with-named [] (c ∷ s) h = ground (arith, is_named-cons_nil c (name_of s))
starts_with-named (d ∷ p) [] h = refl
starts_with-named (d ∷ p) (c ∷ s) (hd, hp) =
    ground (arith, starts_with-named p s hp, is_named-cons d c p (name_of s))

domain_follows-is_domain : (s : Text) → domain_follows s ≡ is_domain s
unfolding domain_follows
domain_follows-is_domain s = starts_with-named (lit "domain") (trim_start s) (omega arith)

-- The text up to the first `;`.
until_semicolon : Text → Text
until_semicolon [] = []
until_semicolon (c ∷ s) = if c == b';' then [] else c ∷ until_semicolon s

abbrev HasNoSemicolon : Text → Type 0
HasNoSemicolon [] = Unit
HasNoSemicolon (c ∷ p) = (c ≢ b';') × HasNoSemicolon p

lower_unit-semicolon : (c : ℕ) → lower_unit c ≡ b';' → c ≡ b';'
lower_unit-semicolon c h = ground arith

starts_with-until :
    (p s : Text)
    → HasNoSemicolon p
    → starts_with p (to_lower (until_semicolon s)) ≡ starts_with p (to_lower s)
unfolding until_semicolon
starts_with-until [] s h = refl
starts_with-until (c ∷ p) [] h = refl
starts_with-until (c ∷ p) (d ∷ s) (hc, hp) =
    ground (arith, starts_with-until p s hp, lower_unit-semicolon d)

trim_start-until : (s : Text) → trim_start (until_semicolon s) ≡ until_semicolon (trim_start s)
unfolding until_semicolon is_space
trim_start-until [] = refl
trim_start-until (c ∷ s) = ground (arith, trim_start-until s)

domain_follows-until : (s : Text) → domain_follows (until_semicolon s) ≡ domain_follows s
unfolding domain_follows
domain_follows-until s =
    rw trim_start-until (starts_with-until (lit "domain=") (trim_start s) (omega arith))

-- A text in its pieces, the first of which goes up to the first `;`, and what the loop makes of it.
record Parts (s : Text) : Type 0 where
  others : List Text
  pieces : split_on b';' s ≡ until_semicolon s ∷ others
  kept : strip_from false s ≡ until_semicolon s ++ attributes (filter not_domain others)
  skipped : strip_from true s ≡ attributes (filter not_domain others)

not_domain-until : (s : Text) → not_domain (until_semicolon s) ≡ not (domain_follows s)
not_domain-until s =
    rw (← domain_follows-is_domain (until_semicolon s), domain_follows-until s) refl

-- At a `;`, after which a `Domain` attribute stands or not.
strip_from-separator :
    (c : ℕ) (s : Text) (v : Parts s) (follows : Bool)
    → c ≡ b';'
    → not_domain (until_semicolon s) ≡ not follows
    → (if follows then strip_from follows s else c ∷ strip_from follows s)
      ≡ attributes (filter not_domain (until_semicolon s ∷ v.others))
strip_from-separator c s v true h n = rw n v.skipped
strip_from-separator c s v false h n = rw (n, h, v.kept) refl

Parts-cons : (c : ℕ) (s : Text) → Parts s → Parts (c ∷ s)
unfolding until_semicolon strip_from
Parts-cons c s v = elim (Bool-cases (c == b';')) [
  | inl is ↦
      let same =
        strip_from-separator c s v (domain_follows s) ((==_iff c b';').0 is) (not_domain-until s) in
      record {
        others = until_semicolon s ∷ v.others;
        pieces = rw (is, v.pieces) refl;
        kept = rw is same;
        skipped = rw is same;
      }
  | inr other ↦ record {
    others = v.others;
    pieces = rw (other, v.pieces) refl;
    kept = rw (other, v.kept) refl;
    skipped = rw (other, v.skipped) refl;
  }
]

to_Parts : (s : Text) → Parts s
unfolding until_semicolon strip_from
to_Parts [] = record { others = []; pieces = refl; kept = refl; skipped = refl }
to_Parts (c ∷ s) = Parts-cons c s (to_Parts s)

-- The `replace` takes out the `Domain` attributes, and leaves every other piece as it is.
pub strip_domain-without_domain : (value : Text) → strip_domain value ≡ without_domain value
unfolding strip_domain
strip_domain-without_domain value = let v = to_Parts value in rw v.pieces v.kept
