-- ===== src/Connection/Control/Answers.antt =====
-- Which answer a request is resolved with.
use scweb_vpn.Common.{
  subst, ◌∙◌, ℕ, ◌≤◌, ◌≡◌, ◌≢◌, refl, ap, true, Option, none, some, List, arith, ltb, ==_iff,
  Bool-cases, Option-cases, inl, inr, length,
}
use scweb_vpn.Common.Texts.{Text}
use scweb_vpn.Platform.Json.{Json, str, property, is_falsy}
use scweb_vpn.Connection.Control.{
  Client, Kind, Code, DiagnosticResult, Pending, resolved, map_get, map_delete, settle, finish,
  kind_of, code_of, receive, answer, find_pending, parsed, answer_pending, same_kind,
}

-- The message that resolves promise `n`: a text of at most 512 units that parses to an answer with
-- the identifier of the pending request, of the type that the request expects.
pub record Answered (parse : Text → Option Json) (c : Client) (value : Option Text) (n : ℕ)
    (result : DiagnosticResult) : Type 0 where
  pub text : Text
  pub arrived : value ≡ some text
  pub short : length text ≤ 512
  pub well_formed : parse text ≡ some result.answer
  pub code : code_of (property result.answer "code") ≡ some result.code
  pub id : Text
  pub identified : property result.answer "id" ≡ some (str id)
  pub entry : Pending
  pub pending : map_get c.pending id ≡ some entry
  pub promise : entry.promise ≡ n
  pub kind : kind_of (property result.answer "type") ≡ some entry.expected

-- The same without what `receive` itself tests.
record Matched (c : Client) (kind : Kind) (id_value : Option Json) (n : ℕ) : Type 0 where
  id : Text
  identified : id_value ≡ some (str id)
  entry : Pending
  pending : map_get c.pending id ≡ some entry
  promise : entry.promise ≡ n
  same : kind ≡ entry.expected

same_kind-eq : (a b : Kind) → same_kind a b ≡ true → a ≡ b
same_kind-eq a b h = ground arith

finish-resolved :
    (m n : ℕ) (result r : DiagnosticResult) (c : Client)
    → (finish m (resolved result) c).promises n ≡ resolved r
    → c.promises n ≢ resolved r
    → (m ≡ n) × (result ≡ r)
unfolding finish settle
finish-resolved m n result r c h old = ground (arith, ==_iff m n)

-- What `find_pending` found.
record Found (pending : List (Text × Pending)) (id_value : Option Json) (id : Text) (p : Pending)
    : Type 0 where
  identified : id_value ≡ some (str id)
  there : map_get pending id ≡ some p

find_pending-Found :
    (pending : List (Text × Pending)) (id_value : Option Json) (id : Text) (p : Pending)
    → find_pending pending id_value ≡ some (id, p)
    → Found pending id_value id p
unfolding find_pending
find_pending-Found pending id_value id p h = ground arith

module _ (c : Client) (n : ℕ) (r : DiagnosticResult) (old : c.promises n ≢ resolved r) where
  answer_pending-Matched :
      (kind : Kind) (result : DiagnosticResult) (id_value : Option Json)
      → (answer_pending kind result (find_pending c.pending id_value) c).promises n ≡ resolved r
      → Matched c kind id_value n × (result ≡ r)
  answer_pending-Matched kind result id_value h =
      elim (Option-cases (find_pending c.pending id_value)) [
        | inl missed ↦ absurd (old (rw missed at h))
        | inr ((id, p), found) ↦ of_entry id p found (rw found at h)
      ]
    where
      of_entry :
          (id : Text) (p : Pending)
          → find_pending c.pending id_value ≡ some (id, p)
          → (answer_pending kind result (some (id, p)) c).promises n ≡ resolved r
          → Matched c kind id_value n × (result ≡ r)
      of_entry id p found h = elim (Bool-cases (same_kind kind p.expected)) [
        | inl same ↦
            let f = find_pending-Found c.pending id_value id p found in
            let (e, same_result) =
              finish-resolved p.promise n result r (record c { pending = map_delete c.pending id })
                (rw same at h) old in
            (
              record {
                id = id;
                identified = f.identified;
                entry = p;
                pending = f.there;
                promise = e;
                same = same_kind-eq kind p.expected same;
              },
              same_result,
            )
        | inr other ↦ absurd (old (rw other at h))
      ]

  answer-Answered :
      (parse : Text → Option Json) (text : Text) (response : Json) (kind : Option Kind)
      (code : Option Code)
      → length text ≤ 512
      → parse text ≡ some response
      → kind_of (property response "type") ≡ kind
      → code_of (property response "code") ≡ code
      → (answer kind code response c).promises n ≡ resolved r
      → Answered parse c (some text) n r
  unfolding answer
  answer-Answered parse text response none code l p k d h = absurd (old h)
  answer-Answered parse text response (some kind) none l p k d h =
      elim (Bool-cases (is_falsy (property response "id"))) [
        | inl missing ↦ absurd (old (rw missing at h))
        | inr given ↦ absurd (old (rw given at h))
      ]
  answer-Answered parse text response (some kind) (some code) l p k d h =
      elim (Bool-cases (is_falsy (property response "id"))) [
        | inl missing ↦ absurd (old (rw missing at h))
        | inr given ↦
            let result : DiagnosticResult = record { code = code; answer = response } in
            let (m, same) =
              answer_pending-Matched kind result (property response "id") (rw given at h) in
            subst (Answered parse c (some text) n) same (record {
              text = text;
              arrived = refl;
              short = l;
              well_formed = p;
              code = d;
              id = m.id;
              identified = m.identified;
              entry = m.entry;
              pending = m.pending;
              promise = m.promise;
              kind = k ∙ ap some m.same;
            })
      ]

  parsed-Answered :
      (parse : Text → Option Json) (text : Text) (found : Option Json)
      → length text ≤ 512
      → parse text ≡ found
      → (parsed found c).promises n ≡ resolved r
      → Answered parse c (some text) n r
  parsed-Answered parse text none l p h = absurd (old h)
  parsed-Answered parse text (some response) l p h =
      answer-Answered parse text response _ _ l p refl refl h

-- A message resolves a request only if it is an answer to that request: at most 512 units long,
-- well formed, with the identifier of the pending request and the type that it expects.
pub receive-Answered :
    (parse : Text → Option Json) (value : Option Text) (c : Client) (n : ℕ) (r : DiagnosticResult)
    → c.promises n ≢ resolved r
    → (receive parse value c).promises n ≡ resolved r
    → Answered parse c value n r
unfolding receive
receive-Answered parse none c n r old h = absurd (old h)
receive-Answered parse (some text) c n r old h = elim (Bool-cases (ltb 512 (length text))) [
  | inl long ↦ absurd (old (rw long at h))
  | inr short ↦
      parsed-Answered c n r old parse text (parse text) (ground arith) refl (rw short at h)
]
