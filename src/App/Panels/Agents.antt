-- ===== src/App/Panels/Agents.antt =====
-- The list of Agents that a temporary service can be made on.
use scweb_vpn.Common.{
  arith, ℕ, suc, ◌≡◌, refl, ap, ◌∙◌, inl, inr, Bool, true, false, ◌||◌, List, [], ◌∷◌, ◌++◌, map,
  Bool-cases, subst,
}
use scweb_vpn.Common.Texts.{Text, text_eq, text_eq_iff, text_eq_refl, has}
use scweb_vpn.App.Address.{Service}
use scweb_vpn.App.Panels.{
  distinct, AgentName, numbered, agent_options, agent_of, no_agents, render_temporary_agents,
}

-- No text is twice in the list.
abbrev pub IsDistinct : List Text → Type 0
IsDistinct [] = Unit {0}
IsDistinct (t ∷ ts) = (has ts t ≡ false) × IsDistinct ts

abbrev pub values : List (Text × AgentName) → List Text
values [] = []
values (o ∷ os) = o.0 ∷ values os

has-append : (ss ts : List Text) (t : Text) → has (ss ++ ts) t ≡ (has ss t || has ts t)
has-append [] ts t = refl
has-append (s ∷ ss) ts t = ground (arith, has-append ss ts t)

append-IsDistinct :
    (seen : List Text) (t : Text)
    → IsDistinct seen
    → has seen t ≡ false
    → IsDistinct (seen ++ t ∷ [])
append-IsDistinct [] t d h = (refl, tt)
append-IsDistinct (s ∷ seen) t (fresh, d) h = (
  has-append seen (t ∷ []) s ∙ ground (arith, text_eq_iff s t, text_eq_iff t s),
  append-IsDistinct seen t d (ground arith),
)

distinct-IsDistinct : (seen ts : List Text) → IsDistinct seen → IsDistinct (distinct seen ts)
unfolding distinct
distinct-IsDistinct seen [] d = d
distinct-IsDistinct seen (t ∷ ts) d = elim (Bool-cases (has seen t)) [
  | inl old ↦ rw old (distinct-IsDistinct seen ts d)
  | inr fresh ↦
      rw fresh (distinct-IsDistinct (seen ++ t ∷ []) ts (append-IsDistinct seen t d fresh))
]

has-distinct :
    (seen ts : List Text) (t : Text) → has (distinct seen ts) t ≡ (has seen t || has ts t)
unfolding distinct
has-distinct seen [] t = ground arith
has-distinct seen (s ∷ ts) t = elim (Bool-cases (has seen s)) [
  | inl old ↦ rw old (
      (let later : text_eq s t ≡ true → has seen t ≡ true =
          λ h. subst (λ u. has seen u ≡ true) ((text_eq_iff s t).0 h) old in
        has-distinct seen ts t ∙ ground (arith, later)))
  | inr fresh ↦
      rw fresh (has-distinct (seen ++ s ∷ []) ts t ∙ ground (arith, has-append seen (s ∷ []) t))
]

values-numbered : (n : ℕ) (ts : List Text) → values (numbered n ts) ≡ ts
unfolding numbered
values-numbered n [] = refl
values-numbered n (t ∷ ts) = ap (λ l. t ∷ l) (values-numbered (suc n) ts)

values-agent_options : (ts : List Text) → values (agent_options ts) ≡ ts
values-agent_options [] = values-numbered 0 []
values-agent_options (t ∷ []) = refl
values-agent_options (t ∷ s ∷ ts) = values-numbered 0 (t ∷ s ∷ ts)

abbrev is_nil : List Service → Bool
is_nil [] = true
is_nil (s ∷ catalog) = false

-- The options are the Agents of the catalogue, each once; a temporary service cannot be made exactly
-- if the catalogue is empty.
pub record IsComplete (catalog : List Service) (shown : List (Text × AgentName) × Bool)
    : Type 0 where
  pub once : IsDistinct (values shown.0)
  pub all_agents : (agent : Text) → has (values shown.0) agent ≡ has (map agent_of catalog) agent
  pub disabled : shown.1 ≡ is_nil catalog

no_agents-has : (ts : List Text) (t : Text) → has ts t ≡ true → no_agents ts ≡ false
no_agents-has [] t h = absurd (cc h)
no_agents-has (s ∷ ts) t h = refl

no_agents-catalog :
    (catalog : List Service) → no_agents (distinct [] (map agent_of catalog)) ≡ is_nil catalog
unfolding distinct
no_agents-catalog [] = refl
no_agents-catalog (s ∷ catalog) = no_agents-has _ s.agent_id (
    has-distinct [] (s.agent_id ∷ map agent_of catalog) s.agent_id
    ∙ rw (text_eq_refl s.agent_id) refl)

-- Each Agent of the catalogue is one option, no other is, and the button that makes a temporary service is
-- disabled exactly if there is none.
pub render_temporary_agents-IsComplete :
    (catalog : List Service) → IsComplete catalog (render_temporary_agents catalog)
unfolding render_temporary_agents
render_temporary_agents-IsComplete catalog = record {
  once =
      rw (values-agent_options (distinct [] (map agent_of catalog)))
        (distinct-IsDistinct [] (map agent_of catalog) tt);
  all_agents = λ agent.
      ap (λ l. has l agent) (values-agent_options (distinct [] (map agent_of catalog)))
      ∙ has-distinct [] (map agent_of catalog) agent;
  disabled = no_agents-catalog catalog;
}
