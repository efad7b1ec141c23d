-- ===== src/App/Start/Asked.antt =====
-- Which service `initialize` calls `connect` for, or offers, by the page's host name.
use scweb_vpn.Common.{
  arith, ◌≡◌, refl, sym, ap, inl, inr, Bool, true, false, not, ◌||◌, Option, none, some, List, [],
  ◌∷◌, find, if◌then◌else◌, Bool-cases, Result, ok, err, subst,
}
use scweb_vpn.Common.Texts.{Text, text_eq, text_eq_iff}
use scweb_vpn.App.Address.{Service, requested_slug, is_temporary_slug}
use scweb_vpn.App.Start.{
  Portal, new_portal, Next, connects, asks_slug, start_temporary, selected_next, start_portal,
  initialize,
}

-- The temporary service that a page offers, if it shows its panel.
abbrev IsOffered : Option Text → Option Service → Bool → Type 0
IsOffered requested none hidden = hidden ≡ true
IsOffered requested (some s) hidden =
    (requested ≡ some s.slug) × (s.temporary ≡ true) × (hidden ≡ false)

abbrev IsCalled : Option Text → Next → Type 0
IsCalled requested (connects s urls) =
    (requested ≡ some s.slug) × (is_temporary_slug requested ≡ false)
IsCalled requested other = Unit {0}

-- The service of a call of `connect`, and that of the temporary panel, is the one asked for.
pub record IsAsked (requested : Option Text) (o : Portal × Next) : Type 0 where
  pub offered : IsOffered requested o.0.temporary_service o.0.temporary_target_hidden
  pub called : IsCalled requested o.1

asks_slug_sound :
    (slug : Text) (requested : Option Text)
    → asks_slug slug requested ≡ true
    → requested ≡ some slug
asks_slug_sound slug none h = absurd (cc h)
asks_slug_sound slug (some t) h = ap some (sym ((text_eq_iff slug t).0 h))

no_doubt : (t a : Bool) → (not t || not a) ≡ false → (t ≡ true) × (a ≡ true)
no_doubt t a h = ground arith

temporary-IsAsked :
    (requested : Option Text) (service : Service) (urls : List Text) (p : Portal)
    → (doubt : Bool) → (not service.temporary || not (asks_slug service.slug requested)) ≡ doubt
    → IsOffered requested p.temporary_service p.temporary_target_hidden
    → IsAsked requested (start_temporary requested (ok (urls, service)) p)
unfolding start_temporary
temporary-IsAsked requested service urls p true e v = rw e (record { offered = v; called = tt })
temporary-IsAsked requested service urls p false e v =
    let (t, a) = no_doubt service.temporary (asks_slug service.slug requested) e in
    rw e (record { offered = (asks_slug_sound service.slug requested a, t, refl); called = tt })

start_temporary-IsAsked :
    (requested : Option Text) (r : Result (List Text × Service)) (p : Portal)
    → IsOffered requested p.temporary_service p.temporary_target_hidden
    → IsAsked requested (start_temporary requested r p)
unfolding start_temporary
start_temporary-IsAsked requested (err e) p v = record { offered = v; called = tt }
start_temporary-IsAsked requested (ok (urls, service)) p v =
    temporary-IsAsked requested service urls p _ refl v

find-eq-some :
    (test : Service → Bool) (catalog : List Service) (s : Service)
    → find test catalog ≡ some s
    → test s ≡ true
find-eq-some test [] s h = absurd (cc h)
find-eq-some test (t ∷ catalog) s h = elim (Bool-cases (test t)) [
  | inl holds ↦
      let given : some t ≡ some s = rw holds at h in
      let same : t ≡ s = cc in subst (λ u. test u ≡ true) same holds
  | inr misses ↦ find-eq-some test catalog s (rw misses at h)
]

selected-IsCalled :
    (slug : Text) (urls : List Text) (catalog : List Service) (found : Option Service)
    → find (λ s. text_eq s.slug slug) catalog ≡ found
    → is_temporary_slug (some slug) ≡ false
    → IsCalled (some slug) (selected_next found urls)
selected-IsCalled slug urls catalog none e h = tt
selected-IsCalled slug urls catalog (some s) e h = (
  ap some (sym ((text_eq_iff s.slug slug).0 (find-eq-some (λ s. text_eq s.slug slug) catalog s e))),
  h,
)

start_portal-IsAsked :
    (requested : Option Text) (r : Result (List Text × List Service)) (p : Portal)
    → is_temporary_slug requested ≡ false
    → IsOffered requested p.temporary_service p.temporary_target_hidden
    → IsAsked requested (start_portal requested r p)
unfolding start_portal
start_portal-IsAsked requested (err e) p h v = record { offered = v; called = tt }
start_portal-IsAsked none (ok (urls, catalog)) p h v = record { offered = v; called = tt }
start_portal-IsAsked (some slug) (ok (urls, catalog)) p h v = record {
  offered = v;
  called = selected-IsCalled slug urls catalog _ refl h;
}

requested-IsAsked :
    (requested : Option Text) (t : Result (List Text × Service))
    (r : Result (List Text × List Service)) (p : Portal)
    → IsOffered requested p.temporary_service p.temporary_target_hidden
    → IsAsked requested (
        if is_temporary_slug requested
        then start_temporary requested t p
        else start_portal requested r p)
requested-IsAsked requested t r p v = elim (Bool-cases (is_temporary_slug requested)) [
  | inl temporary ↦ rw temporary (start_temporary-IsAsked requested t p v)
  | inr lasting ↦ rw lasting (start_portal-IsAsked requested r p lasting v)
]

-- Whatever the control plane answers, `initialize` calls `connect` only for the service whose slug the page's
-- host name asks for, and not on the host of a temporary service; it shows the panel for a target only
-- for a temporary service whose slug the host name asks for.
pub initialize-IsAsked :
    (supported : Bool) (hostname : Text) (temporary : Result (List Text × Service))
    (portal : Result (List Text × List Service))
    → IsAsked (requested_slug hostname) (initialize supported hostname temporary portal new_portal)
unfolding initialize
initialize-IsAsked false hostname temporary portal = record { offered = refl; called = tt }
initialize-IsAsked true hostname temporary portal =
    requested-IsAsked (requested_slug hostname) temporary portal _ refl
