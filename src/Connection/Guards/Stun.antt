-- ===== src/Connection/Guards/Stun.antt =====
-- `validateSTUN`: what a list of ICE servers must be.
use scweb_vpn.Common.{
  ℕ, ◌≡◌, ◌≢◌, ◌↔◌, refl, true, false, not, ◌||◌, List, [], ◌∷◌, ◌++◌, arith, All, all, any, ◌==◌,
  Option-cases, inl, inr, ok, message, throw_if,
}
use scweb_vpn.Common.Texts.{Text, lit, to_lower, is_space}
use scweb_vpn.Connection.Guards.Prefix.{strip_prefix-split, strip_prefix-append}
use scweb_vpn.Connection.Guards.{strip_prefix, is_authority, is_stun, validate_stun}

-- No credentials and no white space.
abbrev pub IsAuthority : Text → Type 0
IsAuthority s = All (λ c. (c ≢ b'@') × (is_space c ≡ false)) s

-- A `stun:` address, which has no user part.
pub record IsStun (value : Text) : Type 0 where
  pub scheme : Text
  pub first : ℕ
  pub authority : Text
  pub whole : value ≡ scheme ++ (first ∷ authority)
  pub named : to_lower scheme ≡ lit "stun:"
  pub clean : IsAuthority (first ∷ authority)

all-clean : (s : Text) → all (λ d. not (d == b'@' || is_space d)) s ≡ true → IsAuthority s
all-clean [] h = tt
all-clean (c ∷ s) h = (ground arith, all-clean s (ground arith))

clean-all : (s : Text) → IsAuthority s → all (λ d. not (d == b'@' || is_space d)) s ≡ true
clean-all [] h = refl
clean-all (c ∷ s) ((at, space), h) = rw (clean-all s h) (ground arith)

is_stun_sound : (value : Text) → is_stun value ≡ true → IsStun value
unfolding is_stun
is_stun_sound value h = elim (Option-cases (strip_prefix (lit "stun:") value)) [
  | inl missed ↦ absurd (cc (rw missed at h))
  | inr (rest, found) ↦
      let (scheme, split, lower) = strip_prefix-split (lit "stun:") value rest found in
      of_rest scheme rest split lower (rw found at h)
]
  where
    of_rest :
        (scheme rest : Text)
        → value ≡ scheme ++ rest
        → to_lower scheme ≡ lit "stun:"
        → is_authority rest ≡ true
        → IsStun value
    of_rest scheme [] split lower clean = cc
    of_rest scheme (c ∷ s) split lower clean = record {
      scheme = scheme;
      first = c;
      authority = s;
      whole = split;
      named = lower;
      clean = all-clean (c ∷ s) clean;
    }

is_stun_complete : (value : Text) → IsStun value → is_stun value ≡ true
unfolding is_stun
is_stun_complete value r = rw r.whole (
    rw (strip_prefix-append (lit "stun:") r.scheme (r.first ∷ r.authority) r.named)
      (clean-all (r.first ∷ r.authority) r.clean))

any-not_sound : (values : List Text) → any (λ v. not (is_stun v)) values ≡ false → All IsStun values
any-not_sound [] h = tt
any-not_sound (v ∷ vs) h = (is_stun_sound v (ground arith), any-not_sound vs (ground arith))

any-not_complete :
    (values : List Text) → All IsStun values → any (λ v. not (is_stun v)) values ≡ false
any-not_complete [] h = refl
any-not_complete (v ∷ vs) (h, hs) = rw (is_stun_complete v h) (any-not_complete vs hs)

-- A configuration is accepted exactly when it has a server and each server is a `stun:` address
-- with no `@`, hence no credentials, and no white space: no `turn:` server is ever used.
pub validate_stun_iff :
    (values : List Text) → (validate_stun values ≡ ok tt) ↔ ((values ≢ []) × All IsStun values)
unfolding validate_stun
validate_stun_iff [] = ((λ h. cc), (λ h. absurd (h.0 refl)))
validate_stun_iff (v ∷ vs) = (there, back)
  where
    there :
        throw_if (any (λ v. not (is_stun v)) (v ∷ vs)) (message "浏览器 ICE 配置只允许无凭据 stun: 地址") ≡ ok tt
        → ((v ∷ vs) ≢ []) × All IsStun (v ∷ vs)
    there h = ((λ e. cc), any-not_sound (v ∷ vs) (ground arith))

    back :
        ((v ∷ vs) ≢ []) × All IsStun (v ∷ vs)
        → throw_if (any (λ v. not (is_stun v)) (v ∷ vs)) (message "浏览器 ICE 配置只允许无凭据 stun: 地址")
          ≡ ok tt
    back h = rw (any-not_complete (v ∷ vs) h.1) refl
