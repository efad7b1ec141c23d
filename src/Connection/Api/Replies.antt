-- ===== src/Connection/Api/Replies.antt =====
-- Which replies of the control plane are taken.
use scweb_vpn.Common.{
  ℕ, ◌≡◌, ◌≢◌, ◌↔◌, refl, ap, subst, Bool, true, false, Option, none, some, List, [], ◌∷◌, All,
  Bool-cases, inl, inr, if◌then◌else◌, Result, ok, err, Failure, >>=-eq-ok,
}
use scweb_vpn.Common.Texts.{Text, lit}
use scweb_vpn.Platform.Json.{Json, null, bool, num, str, arr, obj, property, is_falsy}
use scweb_vpn.Connection.Guards.{validate_stun}
use scweb_vpn.Connection.Guards.Stun.{IsStun, validate_stun_iff}
use scweb_vpn.Binding.{BindingCode}
use scweb_vpn.Binding.Codes.{IsBinding, parse_binding_code_iff}
use scweb_vpn.Connection.Api.{
  Method, get, post, Request, Response, body_of, is_ok, member, request_of, api, texts_of,
  validate_any, browser_config, create_binding_code,
}

module _ (fetch : Request → Result Response) (to_text : Json → Text) where
  -- The reply to a request, with a status between 200 and 299.
  pub record Replied (path : Text) (method : Method) (body : Option Text) (v : Json) : Type 0 where
    pub response : Response
    pub fetched : fetch (request_of path method body) ≡ ok response
    pub accepted : is_ok response.status ≡ true
    pub value : body_of response ≡ v

  api-Replied :
      (path : Text) (method : Method) (body : Option Text) (v : Json)
      → api fetch to_text path method body ≡ ok v
      → Replied path method body v
  unfolding api
  api-Replied path method body v h =
      let (r, fetched, taken) = >>=-eq-ok (fetch (request_of path method body)) _ h in
      let (accepted, value) = of_status (is_ok r.status) (body_of r) _ v taken in
      record { response = r; fetched = fetched; accepted = accepted; value = value }
    where
      of_status :
          (b : Bool) (w : Json) (e : Failure) (v : Json)
          → (if b then ok w else err e) ≡ ok v
          → (b ≡ true) × (w ≡ v)
      of_status true w e v h = (refl, cc)
      of_status false w e v h = cc

  Replied-api :
      (path : Text) (method : Method) (body : Option Text) (v : Json)
      → Replied path method body v
      → api fetch to_text path method body ≡ ok v
  unfolding api
  Replied-api path method body v p = rw p.fetched (rw p.accepted (ap ok p.value))

  validate_any-IsStun :
      (v : Option Json) (urls : List Text)
      → validate_any fetch to_text v ≡ ok urls
      → (urls ≢ []) × All IsStun urls
  unfolding validate_any
  validate_any-IsStun none urls h = cc
  validate_any-IsStun (some null) urls h = cc
  validate_any-IsStun (some (bool b)) urls h = cc
  validate_any-IsStun (some (num n)) urls h = cc
  validate_any-IsStun (some (str [])) urls h = cc
  validate_any-IsStun (some (str (c ∷ s))) urls h = cc
  validate_any-IsStun (some (arr xs)) urls h =
      let (done, valid, same) = >>=-eq-ok (validate_stun (texts_of fetch to_text xs)) _ h in
      let same' : texts_of fetch to_text xs ≡ urls = cc in
      subst (λ us. (us ≢ []) × All IsStun us) same'
        ((validate_stun_iff (texts_of fetch to_text xs)).0 valid)
  validate_any-IsStun (some (obj fs)) urls h =
      elim (Bool-cases (is_falsy (property (obj fs) "length"))) [
        | inl t ↦ absurd (let h' = rw t at h in cc)
        | inr f ↦ absurd (let h' = rw f at h in cc)
      ]

  -- A call of the control plane returns a value exactly if the fetch settles with a status of 200 to
  -- 299, and then the reply's JSON, `null` for status 204 and an empty object if it is malformed.
  pub api_iff :
      (path : Text) (method : Method) (body : Option Text) (v : Json)
      → (api fetch to_text path method body ≡ ok v) ↔ Replied path method body v
  api_iff path method body v = (api-Replied path method body v, Replied-api path method body v)

  -- A browser configuration that is returned has at least one address, and each is a `stun:` address
  -- without credentials.
  pub browser_config-IsStun :
      (urls : List Text) → browser_config fetch to_text ≡ ok urls → (urls ≢ []) × All IsStun urls
  unfolding browser_config
  browser_config-IsStun urls h =
      let (value, replied, h₁) =
        >>=-eq-ok (api fetch to_text (lit "/api/v1/browser/config") get none) _ h in
      let (found, m, h₂) = >>=-eq-ok (member value "stun_urls") _ h₁ in
      validate_any-IsStun found urls h₂

  -- A binding code that is returned is that of a successful reply to a POST, and unexpired.
  pub create_binding_code-IsBinding :
      (date_parse : Text → Option ℕ) (now : ℕ) (b : BindingCode)
      → create_binding_code fetch to_text date_parse now ≡ ok b
      → (v : Json) × Replied (lit "/api/v1/browser/binding-codes") post (some (lit "{}")) v
        × IsBinding date_parse v now b
  unfolding create_binding_code
  create_binding_code-IsBinding date_parse now b h =
      let (value, replied, h₁) =
        >>=-eq-ok (api fetch to_text (lit "/api/v1/browser/binding-codes") post (some (lit "{}"))) _
          h in
      (value, api-Replied _ _ _ value replied, (parse_binding_code_iff date_parse value now b).0 h₁)
