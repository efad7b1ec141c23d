-- ===== src/Binding/Codes.antt =====
-- Which replies `parseBindingCode` takes.
use scweb_vpn.Common.{
  ok-eq, arith, ℕ, ◌≤◌, ◌<◌, ◌≡◌, ◌≢◌, ◌↔◌, All, [], ◌∷◌, refl, true, false, Option, none, some,
  any, length, leb, ap, ◌∙◌, err, Bool-cases, inl, inr, Result, ok,
}
use scweb_vpn.Common.Texts.{Text, trim, text_eq_iff}
use scweb_vpn.Platform.Json.{Json, null, bool, num, arr, obj, str, property}
use scweb_vpn.Binding.{
  BindingCode, is_break, is_code, checked_code, expiry, live_until, with_code, parse_binding_code,
}

-- A unit that is not CR, LF or NUL.
abbrev pub IsPlain : ℕ → Type 0
IsPlain c = (c ≢ 13) × (c ≢ 10) × (c ≢ 0)

All-IsPlain : (code : Text) → any is_break code ≡ false → All IsPlain code
All-IsPlain [] h = tt
All-IsPlain (c ∷ code) h = (ground arith, All-IsPlain code (ground arith))

any-is_break : (code : Text) → All IsPlain code → any is_break code ≡ false
any-is_break [] h = refl
any-is_break (c ∷ code) (h, hs) = ground (arith, any-is_break code hs)

-- A reply with an unexpired code of 16 to 256 units, without outer white space, CR, LF or NUL.
pub record IsBinding (date_parse : Text → Option ℕ) (value : Json) (now : ℕ) (b : BindingCode)
    : Type 0 where
  pub text : Text
  pub code_is : property value "code" ≡ some (str b.code)
  pub long_enough : 16 ≤ length b.code
  pub short_enough : length b.code ≤ 256
  pub trimmed : trim b.code ≡ b.code
  pub no_break : All IsPlain b.code
  pub date_is : property value "expires_at" ≡ some (str text)
  pub parses : date_parse text ≡ some b.expires_at
  pub unexpired : now < b.expires_at

record IsCode (code : Text) : Type 0 where
  least : 16 ≤ length code
  most : length code ≤ 256
  same : trim code ≡ code
  plain : All IsPlain code

is_code-IsCode : (code : Text) → is_code code ≡ true → IsCode code
unfolding is_code
is_code-IsCode code h = record {
  least = ground arith;
  most = ground arith;
  same = (text_eq_iff _ _).0 (ground arith);
  plain = All-IsPlain code (ground arith);
}

IsCode-is_code : (code : Text) → IsCode code → is_code code ≡ true
unfolding is_code
IsCode-is_code code v =
    let same = (text_eq_iff (trim code) code).1 v.same in
    let least = v.least in
    let most = v.most in let plain = any-is_break code v.plain in ground arith

module _ (date_parse : Text → Option ℕ) (value : Json) (now : ℕ) (b : BindingCode) where
  of_live :
      (code : Text) (at : Option ℕ)
      → live_until date_parse now code at ≡ ok b
      → (at ≡ some b.expires_at) × (now < b.expires_at) × (code ≡ b.code)
  unfolding live_until
  of_live code none h = cc
  of_live code (some at) h = elim (Bool-cases (leb at now)) [
    | inl late ↦ absurd (refused late)
    | inr early ↦ accepted early
  ]
    where
      refused : leb at now ≡ true → ⊥
      refused late = let h' = rw late at h in cc

      accepted :
          leb at now ≡ false
          → (some at ≡ some b.expires_at) × (now < b.expires_at) × (code ≡ b.code)
      accepted early =
          let same : record { code = code; expires_at = at } ≡ b = ok-eq (rw early at h) in
          let at_same : at ≡ b.expires_at = ap (λ (x : BindingCode). x.expires_at) same in
          (ap some at_same, ground arith, ap (λ (x : BindingCode). x.code) same)

  of_expiry :
      (e : Option Json) (at : ℕ)
      → expiry date_parse e ≡ some at
      → (text : Text) × (e ≡ some (str text)) × (date_parse text ≡ some at)
  unfolding expiry
  of_expiry (some (str t)) at h = (t, refl, h)
  of_expiry none at h = cc
  of_expiry (some null) at h = cc
  of_expiry (some (bool x)) at h = cc
  of_expiry (some (num n)) at h = cc
  of_expiry (some (arr items)) at h = cc
  of_expiry (some (obj fs)) at h = cc

of_checked :
    (e : Option Json) (code : Text)
    → checked_code e ≡ ok code
    → (e ≡ some (str code)) × (is_code code ≡ true)
unfolding checked_code
of_checked (some (str t)) code h = elim (Bool-cases (is_code t)) [
  | inl fine ↦
      let same : t ≡ code = ok-eq (rw fine at h) in
      (ap (λ (x : Text). some (str x)) same, rw (← same) fine)
  | inr bad ↦ absurd (refused bad)
]
  where
    refused : is_code t ≡ false → ⊥
    refused bad = let h' = rw bad at h in cc
of_checked none code h = cc
of_checked (some null) code h = cc
of_checked (some (bool x)) code h = cc
of_checked (some (num n)) code h = cc
of_checked (some (arr items)) code h = cc
of_checked (some (obj fs)) code h = cc

module _ (date_parse : Text → Option ℕ) where
  of_code :
      (value : Json) (now : ℕ) (b : BindingCode) (r : Result Text)
      → checked_code (property value "code") ≡ r
      → with_code date_parse value now r ≡ ok b
      → IsBinding date_parse value now b
  unfolding with_code
  of_code value now b (err e) c h = cc
  of_code value now b (ok code) c h =
      let (parsed, unexpired, same) =
        of_live date_parse value now b code (expiry date_parse (property value "expires_at")) h in
      let (text, date_is, parses) =
        of_expiry date_parse value now b (property value "expires_at") b.expires_at parsed in
      let (code_is, fine) = of_checked (property value "code") code c in
      let v = is_code-IsCode b.code (rw (← same) fine) in
      record {
        text = text;
        code_is = code_is ∙ ap (λ (x : Text). some (str x)) same;
        long_enough = v.least;
        short_enough = v.most;
        trimmed = v.same;
        no_break = v.plain;
        date_is = date_is;
        parses = parses;
        unexpired = unexpired;
      }

  parse_binding_code_sound :
      (value : Json) (now : ℕ) (b : BindingCode)
      → parse_binding_code date_parse value now ≡ ok b
      → IsBinding date_parse value now b
  unfolding parse_binding_code
  parse_binding_code_sound (obj fs) now b h = of_code (obj fs) now b _ refl h
  parse_binding_code_sound (arr items) now b h = of_code (arr items) now b _ refl h
  parse_binding_code_sound null now b h = cc
  parse_binding_code_sound (bool x) now b h = cc
  parse_binding_code_sound (num n) now b h = cc
  parse_binding_code_sound (str t) now b h = cc

  to_code :
      (value : Json) (now : ℕ) (b : BindingCode)
      → IsBinding date_parse value now b
      → with_code date_parse value now (checked_code (property value "code")) ≡ ok b
  unfolding with_code checked_code expiry live_until
  to_code value now b v =
      let fine = IsCode-is_code b.code (record {
        least = v.long_enough;
        most = v.short_enough;
        same = v.trimmed;
        plain = v.no_break;
      }) in
      let early : leb b.expires_at now ≡ false = (let u = v.unexpired in ground arith) in
      rw v.code_is (rw fine (rw v.date_is (rw v.parses (rw early refl))))

  parse_binding_code_complete :
      (value : Json) (now : ℕ) (b : BindingCode)
      → IsBinding date_parse value now b
      → parse_binding_code date_parse value now ≡ ok b
  unfolding parse_binding_code property
  parse_binding_code_complete (obj fs) now b v = to_code (obj fs) now b v
  parse_binding_code_complete (arr items) now b v = to_code (arr items) now b v
  parse_binding_code_complete null now b v = let c = v.code_is in cc
  parse_binding_code_complete (bool x) now b v = let c = v.code_is in cc
  parse_binding_code_complete (num n) now b v = let c = v.code_is in cc
  parse_binding_code_complete (str t) now b v = let c = v.code_is in cc

  -- A reply is taken exactly when it has an unexpired code of 16 to 256 units, without white space
  -- at its ends and without CR, LF and NUL; the code and the expiry are those of the reply.
  pub parse_binding_code_iff :
      (value : Json) (now : ℕ) (b : BindingCode)
      → (parse_binding_code date_parse value now ≡ ok b) ↔ IsBinding date_parse value now b
  parse_binding_code_iff value now b =
      (parse_binding_code_sound value now b, parse_binding_code_complete value now b)
