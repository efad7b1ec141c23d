-- ===== src/App/Elements.antt =====
-- web/src/app.ts: the elements that the page must have, and `required`, which finds one. An element is known by
-- its id.
use scweb_vpn.Common.{
  ◌≡◌, refl, ap, Bool, true, false, List, [], ◌∷◌, ◌++◌, All, Result, ok, err, Failure, given,
  ◌>>=◌, if◌then◌else◌, String, str_eq, any, Bool-cases, inl, inr,
}
use scweb_vpn.Common.Texts.{lit}

-- `document.getElementById(id)`, in a document with those ids.
abbrev pub has_id : List String → String → Bool
has_id document id = any (λ other. str_eq other id) document

abbrev pub missing : String → Failure
missing id = given (lit "missing UI element: " ++ lit id)

-- `required(id)`.
unfoldable pub required : List String → String → Result String
required document id = if has_id document id then ok id else err (missing id)

-- The fields of `elements`, in order; the first `required` that throws ends the module.
unfoldable pub required_all : List String → List String → Result (List String)
unfolding required
required_all document [] = ok []
required_all document (id ∷ ids) = do
  element ← required document id
  rest ← required_all document ids
  ok (element ∷ rest)

abbrev pub element_ids : List String
element_ids =
    "services" ∷ "status" ∷ "details" ∷ "remote" ∷ "restart" ∷ "disconnect" ∷ "logout"
    ∷ "agent-binding" ∷ "binding-create" ∷ "binding-result" ∷ "binding-code" ∷ "binding-expiry"
    ∷ "dns-name" ∷ "dns-query" ∷ "ping-target" ∷ "diagnostic-result" ∷ "temporary-create"
    ∷ "temporary-agent" ∷ "temporary-kind" ∷ "temporary-create-button" ∷ "temporary-target"
    ∷ "temporary-url" ∷ "temporary-connect" ∷ []

unfoldable pub elements : List String → Result (List String)
unfolding required_all
elements document = required_all document element_ids

-- The ids that a failure stands behind.
pub record IsFirstMissing (document ids : List String) (e : Failure) : Type 0 where
  pub front : List String
  pub id : String
  pub back : List String
  pub whole : ids ≡ front ++ id ∷ back
  pub found : All (λ x. has_id document x ≡ true) front
  pub absent : has_id document id ≡ false
  pub named : e ≡ missing id

abbrev pub Outcome : (document ids : List String) → Result (List String) → Type 0
Outcome document ids (ok found) = (found ≡ ids) × All (λ id. has_id document id ≡ true) ids
Outcome document ids (err e) = IsFirstMissing document ids e

required_all-Outcome :
    (document ids : List String) → Outcome document ids (required_all document ids)
unfolding required_all required
required_all-Outcome document [] = (refl, tt)
required_all-Outcome document (id ∷ ids) = elim (Bool-cases (has_id document id)) [
  | inr absent ↦ rw absent (record {
    front = [];
    id = id;
    back = ids;
    whole = refl;
    found = tt;
    absent = absent;
    named = refl;
  })
  | inl there ↦
      rw there (more (required_all document ids) there (required_all-Outcome document ids))
]
  where
    more :
        (r : Result (List String))
        → has_id document id ≡ true
        → Outcome document ids r
        → Outcome document (id ∷ ids) (r >>= λ rest. ok (id ∷ rest))
    more (ok found) there (same, all) = (ap (λ l. id ∷ l) same, (there, all))
    more (err e) there m = record {
      front = id ∷ m.front;
      id = m.id;
      back = m.back;
      whole = ap (λ l. id ∷ l) m.whole;
      found = (there, m.found);
      absent = m.absent;
      named = m.named;
    }

-- The page has each of its elements, or its script throws at the first one that is missing.
pub elements-Outcome : (document : List String) → Outcome document element_ids (elements document)
unfolding elements
elements-Outcome document = required_all-Outcome document element_ids
