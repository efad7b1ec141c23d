-- ===== src/Worker/Local.antt =====
-- The data URLs that the service worker decodes itself.
use scweb_vpn.Common.{
  arith, ℕ, ◌≤◌, ◌≡◌, ◌≢◌, inl, inr, refl, ap, ◌∙◌, subst, Bool, true, false, ◌||◌, Option, none,
  some, [], ◌∷◌, ◌++◌, all, length, ltb, Bool-cases, if◌then◌else◌, String,
}
use scweb_vpn.Common.Texts.{Text}
use scweb_vpn.Platform.Base64.{atob}
use scweb_vpn.Worker.{
  local_binary_data_max_length, after_prefix, then_try, checked_url, is_payload, is_base64_unit,
  octet_prefix, wasm_prefix, is_local_data, matched_data, local_binary_data_url, bytes, text,
  Response, decoded_response, local_binary_data_response,
}

after_prefix-append : (p s r : Text) → after_prefix p s ≡ some r → s ≡ p ++ r
unfolding after_prefix
after_prefix-append [] s r h = cc
after_prefix-append (p ∷ ps) [] r h = cc
after_prefix-append (p ∷ ps) (c ∷ s) r h = ground (arith, after_prefix-append ps s r)

abbrev prefix_of : Bool → Text
prefix_of true = wasm_prefix
prefix_of false = octet_prefix

abbrev type_of : Bool → String
type_of true = "application/wasm"
type_of false = "application/octet-stream"

-- The response for a payload that `atob` reads, and for another.
abbrev pub answer_of : String → Option Text → Response
answer_of mime none = record {
  body = text "Invalid embedded binary data.";
  status = 400;
  cache_control = "no-store";
  content_type = "text/plain; charset=utf-8";
}
answer_of mime (some decoded) = record {
  body = bytes decoded;
  status = 200;
  cache_control = "no-store";
  content_type = mime;
}

-- `url` is a short base64 data URL of one of the two types, and the response has its bytes.
pub record IsEmbedded (url : Text) : Type 0 where
  pub is_wasm : Bool
  pub payload : Text
  pub whole : url ≡ prefix_of is_wasm ++ payload
  pub nonempty : payload ≢ []
  pub base64 : all is_base64_unit payload ≡ true
  pub short : length url ≤ local_binary_data_max_length
  pub answer : local_binary_data_response url ≡ answer_of (type_of is_wasm) (atob payload)

answer_of_prefix :
    (is_wasm : Bool) (payload : Text)
    → local_binary_data_response (prefix_of is_wasm ++ payload)
      ≡ answer_of (type_of is_wasm) (atob payload)
unfolding local_binary_data_response
answer_of_prefix true payload = by_decoded (atob payload)
  where
    by_decoded :
        (d : Option Text)
        → decoded_response (wasm_prefix ++ payload) d ≡ answer_of "application/wasm" d
    by_decoded none = refl
    by_decoded (some d) = refl
answer_of_prefix false payload = by_decoded (atob payload)
  where
    by_decoded :
        (d : Option Text)
        → decoded_response (octet_prefix ++ payload) d ≡ answer_of "application/octet-stream" d
    by_decoded none = refl
    by_decoded (some d) = refl

IsEmbedded-of_prefix :
    (is_wasm : Bool) (url : Text) (rest : Option Text)
    → after_prefix (prefix_of is_wasm) url ≡ rest
    → is_payload rest ≡ true
    → length url ≤ local_binary_data_max_length
    → IsEmbedded url
IsEmbedded-of_prefix is_wasm url none e p l = cc
IsEmbedded-of_prefix is_wasm url (some []) e p l = cc
IsEmbedded-of_prefix is_wasm url (some (c ∷ s)) e p l =
    let whole = after_prefix-append (prefix_of is_wasm) url (c ∷ s) e in
    record {
      is_wasm = is_wasm;
      payload = c ∷ s;
      whole = whole;
      nonempty = λ f. cc;
      base64 = p;
      short = l;
      answer = ap local_binary_data_response whole ∙ answer_of_prefix is_wasm (c ∷ s);
    }

-- What passed two tests.
of_tests :
    (b c : Bool) (d url : Text)
    → (if b then none else if c then some d else none) ≡ some url
    → (b ≡ false) × (c ≡ true) × (d ≡ url)
of_tests true c d url h = cc
of_tests false true d url h = (refl, refl, cc)
of_tests false false d url h = cc

not_longer : (m n : ℕ) → ltb m n ≡ false → n ≤ m
not_longer m n h = ground arith

or_second : (b c : Bool) → b ≡ false → (b || c) ≡ true → c ≡ true
or_second b c f h = ground arith

checked_url-IsEmbedded : (decoded url : Text) → checked_url decoded ≡ some url → IsEmbedded url
checked_url-IsEmbedded decoded url h =
    let (short, local, same) =
      of_tests (ltb local_binary_data_max_length (length decoded)) (is_local_data decoded) decoded
        url h in
    subst IsEmbedded same
      (embedded (not_longer local_binary_data_max_length _ short) (unfold is_local_data in local))
  where
    embedded :
        length decoded ≤ local_binary_data_max_length
        → (is_payload (after_prefix octet_prefix decoded)
            || is_payload (after_prefix wasm_prefix decoded))
          ≡ true
        → IsEmbedded decoded
    embedded short local = elim (Bool-cases (is_payload (after_prefix octet_prefix decoded))) [
      | inl octet ↦ IsEmbedded-of_prefix false decoded _ refl octet short
      | inr wasm ↦ IsEmbedded-of_prefix true decoded _ refl (or_second _ _ wasm local) short
    ]

-- The worker decodes a URL itself only if it is a base64 data URL of WebAssembly or plain binary data
-- with at most 2^20 units; the response has status 200 with the payload's bytes and that type, or
-- status 400 if the payload is not well-formed base64.
pub local_binary_data_url-IsEmbedded :
    (decode_uri : Text → Option Text) (pathname url : Text)
    → local_binary_data_url decode_uri pathname ≡ some url
    → IsEmbedded url
unfolding local_binary_data_url
local_binary_data_url-IsEmbedded decode_uri pathname url h = of_match (matched_data pathname) h
  where
    of_decoded : (d : Option Text) → then_try d checked_url ≡ some url → IsEmbedded url
    of_decoded none h = cc
    of_decoded (some decoded) h = checked_url-IsEmbedded decoded url h

    of_match :
        (m : Option Text)
        → then_try m (λ t. then_try (decode_uri t) checked_url) ≡ some url
        → IsEmbedded url
    of_match none h = cc
    of_match (some t) h = of_decoded (decode_uri t) h
