-- ===== src/Connection/Guards/Relay.antt =====
-- The pattern `/\btyp\s+relay\b/i` as a statement about the text, and the scan that decides it.
use scweb_vpn.Common.{
  ℕ, ◌≡◌, ◌↔◌, refl, ap, ◌∙◌, Bool, true, false, not, some, [], ◌∷◌, ◌++◌, arith, inl, inr,
  Bool-cases, Option-cases, &&-eq-true, err, throw_if, message,
}
use scweb_vpn.Common.Texts.{Text, lit, to_lower, lower_unit, is_space, trim_start}
use scweb_vpn.Connection.Guards.Prefix.{
  strip_prefix-split, strip_prefix-append, trim_start-split, trim_start-append, begins_space,
  AllSpace,
}
use scweb_vpn.Connection.Guards.{
  strip_prefix, is_word, begins_word, relay_word, spaced_relay, relay_here, has_relay, reject_relay,
}

-- Does a word character stand before what follows the text?
abbrev pub ends_word : Bool → Text → Bool
ends_word inside [] = inside
ends_word inside (c ∷ s) = ends_word (is_word c) s

-- `typ`, white space and `relay` stand in the text as words of their own.
pub record RelayIn (inside : Bool) (sdp : Text) : Type 0 where
  pub before : Text
  pub typ : Text
  pub gap : ℕ
  pub spaces : Text
  pub relay : Text
  pub after : Text
  pub whole : sdp ≡ before ++ (typ ++ (gap ∷ (spaces ++ (relay ++ after))))
  pub typ_word : to_lower typ ≡ lit "typ"
  pub gap_space : is_space gap ≡ true
  pub all_space : AllSpace spaces
  pub relay_text : to_lower relay ≡ lit "relay"
  pub starts : ends_word inside before ≡ false
  pub ends : begins_word after ≡ false

relay-solid :
    (relay after : Text) → to_lower relay ≡ lit "relay" → begins_space (relay ++ after) ≡ false
unfolding is_space
relay-solid [] after h = cc
relay-solid (c ∷ s) after h = let first : lower_unit c ≡ 114 = cc in ground arith

relay_word-split :
    (s : Text)
    → relay_word (strip_prefix (lit "relay") s) ≡ true
    → (relay : Text) × (after : Text) × (s ≡ relay ++ after)
      × (to_lower relay ≡ lit "relay")
      × (begins_word after ≡ false)
unfolding relay_word
relay_word-split s h = elim (Option-cases (strip_prefix (lit "relay") s)) [
  | inl missed ↦ absurd (cc (rw missed at h))
  | inr (after, found) ↦
      let (relay, split, lower) = strip_prefix-split (lit "relay") s after found in
      let free : not (begins_word after) ≡ true = rw found at h in
      (relay, after, split, lower, ground arith)
]

spaced_relay-split :
    (inside : Bool) (typ s : Text)
    → to_lower typ ≡ lit "typ"
    → inside ≡ false
    → spaced_relay (some s) ≡ true
    → RelayIn inside (typ ++ s)
unfolding spaced_relay
spaced_relay-split inside typ [] t i h = cc
spaced_relay-split inside typ (c ∷ s) t i h =
    let (space, word) = &&-eq-true (is_space c) _ h in
    let (relay, after, split, lower, free) = relay_word-split (trim_start s) word in
    let (spaces, trimmed, all) = trim_start-split s in
    record {
      before = [];
      typ = typ;
      gap = c;
      spaces = spaces;
      relay = relay;
      after = after;
      whole = ap (λ r. typ ++ (c ∷ r)) (trimmed ∙ ap (λ r. spaces ++ r) split);
      typ_word = t;
      gap_space = space;
      all_space = all;
      relay_text = lower;
      starts = i;
      ends = free;
    }

relay_here-RelayIn : (inside : Bool) (s : Text) → relay_here inside s ≡ true → RelayIn inside s
unfolding relay_here
relay_here-RelayIn inside s h =
    let (free, spaced) = &&-eq-true (not inside) _ h in
    elim (Option-cases (strip_prefix (lit "typ") s)) [
      | inl missed ↦ absurd (unfold spaced_relay in cc (rw missed at spaced))
      | inr (rest, found) ↦
          let (typ, split, lower) = strip_prefix-split (lit "typ") s rest found in
          rw split (spaced_relay-split inside typ rest lower (ground arith) (rw found at spaced))
    ]

RelayIn-cons : (inside : Bool) (c : ℕ) (s : Text) → RelayIn (is_word c) s → RelayIn inside (c ∷ s)
RelayIn-cons inside c s r = record {
  before = c ∷ r.before;
  typ = r.typ;
  gap = r.gap;
  spaces = r.spaces;
  relay = r.relay;
  after = r.after;
  whole = ap (λ t. c ∷ t) r.whole;
  typ_word = r.typ_word;
  gap_space = r.gap_space;
  all_space = r.all_space;
  relay_text = r.relay_text;
  starts = r.starts;
  ends = r.ends;
}

has_relay_sound : (inside : Bool) (s : Text) → has_relay inside s ≡ true → RelayIn inside s
unfolding has_relay
has_relay_sound inside [] h = cc
has_relay_sound inside (c ∷ s) h = elim (Bool-cases (relay_here inside (c ∷ s))) [
  | inl here ↦ relay_here-RelayIn inside (c ∷ s) here
  | inr later ↦ RelayIn-cons inside c s (has_relay_sound (is_word c) s (rw later at h))
]

relay_here_complete :
    (typ spaces relay after : Text) (gap : ℕ)
    → to_lower typ ≡ lit "typ"
    → is_space gap ≡ true
    → AllSpace spaces
    → to_lower relay ≡ lit "relay"
    → begins_word after ≡ false
    → relay_here false (typ ++ (gap ∷ (spaces ++ (relay ++ after)))) ≡ true
unfolding relay_here spaced_relay relay_word
relay_here_complete typ spaces relay after gap t g sp r e =
    rw (strip_prefix-append (lit "typ") typ (gap ∷ (spaces ++ (relay ++ after))) t) (
      rw (g, trim_start-append spaces (relay ++ after) sp (relay-solid relay after r))
        (rw (strip_prefix-append (lit "relay") relay after r) (rw e refl)))

has_relay_of_here :
    (inside : Bool) (s : Text) → relay_here inside s ≡ true → has_relay inside s ≡ true
unfolding has_relay
has_relay_of_here inside [] h = absurd (unfold relay_here strip_prefix spaced_relay in ground arith)
has_relay_of_here inside (c ∷ s) h = rw h refl

has_relay-skip :
    (inside : Bool) (before s : Text)
    → has_relay (ends_word inside before) s ≡ true
    → has_relay inside (before ++ s) ≡ true
unfolding has_relay
has_relay-skip inside [] s h = h
has_relay-skip inside (c ∷ before) s h =
    let later = has_relay-skip (is_word c) before s h in ground arith

has_relay_complete : (inside : Bool) (s : Text) → RelayIn inside s → has_relay inside s ≡ true
has_relay_complete inside s r =
    let tail = r.typ ++ (r.gap ∷ (r.spaces ++ (r.relay ++ r.after))) in
    rw r.whole (
      has_relay-skip inside r.before tail (
        rw r.starts (
          has_relay_of_here false tail (
            relay_here_complete r.typ r.spaces r.relay r.after r.gap r.typ_word r.gap_space
              r.all_space r.relay_text r.ends))))

-- A connection description is refused exactly when the words `typ` and `relay`, in any case, stand
-- in it with nothing but white space between them.
pub reject_relay_iff :
    (sdp : Text)
    → (reject_relay sdp ≡ err (message "连接描述包含被禁止的 relay candidate")) ↔ RelayIn false sdp
unfolding reject_relay
reject_relay_iff sdp = (there, back)
  where
    there :
        throw_if (has_relay false sdp) (message "连接描述包含被禁止的 relay candidate")
          ≡ err (message "连接描述包含被禁止的 relay candidate")
        → RelayIn false sdp
    there h = has_relay_sound false sdp (ground arith)

    back :
        RelayIn false sdp
        → throw_if (has_relay false sdp) (message "连接描述包含被禁止的 relay candidate")
          ≡ err (message "连接描述包含被禁止的 relay candidate")
    back r = rw (has_relay_complete false sdp r) refl
