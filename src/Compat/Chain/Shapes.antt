-- ===== src/Compat/Chain/Shapes.antt =====
-- The links of the promise chain of `fetchQueue`: which are over, under way and held back.
use scweb_vpn.Common.{
  ◌≡◌, refl, ap, Bool, true, false, Option, none, some, List, [], ◌∷◌, ◌++◌, ℕ, length, ◌==◌,
  Bool-cases, inl, inr,
}
use scweb_vpn.Compat.Chain.{
  awaits, fetches, over, Links, Turned, is_handled, is_released, pass_on, settle_link,
}

module _ {A : Type 0} where
  -- The requests whose fetch is under way, and those whose callback was not called, the oldest first.
  abbrev pub under_way : Links A → List A
  under_way [] = []
  under_way ((a, fetches) ∷ older) = under_way older ++ a ∷ []
  under_way ((a, awaits) ∷ older) = under_way older
  under_way ((a, over b) ∷ older) = under_way older

  abbrev pub held_back : Links A → List A
  held_back [] = []
  held_back ((a, awaits) ∷ older) = held_back older ++ a ∷ []
  held_back ((a, fetches) ∷ older) = held_back older
  held_back ((a, over b) ∷ older) = held_back older

  abbrev pub to_list : Option A → List A
  to_list none = []
  to_list (some a) = a ∷ []

  abbrev pub AllOver : Links A → Type 0
  AllOver [] = Unit {0}
  AllOver ((a, over b) ∷ older) = AllOver older
  AllOver ((a, awaits) ∷ older) = ⊥
  AllOver ((a, fetches) ∷ older) = ⊥

  -- The links of a chain: those that are over, one whose fetch is under way, and those that wait.
  pub data Shape : Option A → List A → Links A → Type 0 where
    resting : {links : Links A} → AllOver links → Shape none [] links
    fetching : {a : A} {older : Links A} → AllOver older → Shape (some a) [] ((a, fetches) ∷ older)
    holding :
        {s a : A} {waiting : List A} {older : Links A}
        → Shape (some s) waiting older
        → Shape (some s) (waiting ++ a ∷ []) ((a, awaits) ∷ older)

  AllOver-under_way : (l : Links A) → AllOver l → (under_way l ≡ []) × (held_back l ≡ [])
  AllOver-under_way [] h = (refl, refl)
  AllOver-under_way ((a, awaits) ∷ l) h = absurd h
  AllOver-under_way ((a, fetches) ∷ l) h = absurd h
  AllOver-under_way ((a, over b) ∷ l) h = AllOver-under_way l h

  pub Shape-shows :
      {r : Option A} {w : List A} {l : Links A}
      → Shape r w l
      → (under_way l ≡ to_list r) × (held_back l ≡ w)
  Shape-shows (resting {links = l} h) = AllOver-under_way l h
  Shape-shows (fetching {a = a} {older = l} h) =
      let (none_runs, none_waits) = AllOver-under_way l h in
      (ap (λ x. x ++ a ∷ []) none_runs, none_waits)
  Shape-shows (holding {a = a} v) =
      let (run, wait) = Shape-shows v in (run, ap (λ x. x ++ a ∷ []) wait)

  pub AllOver-is_released : (l : Links A) → AllOver l → is_released l ≡ true
  unfolding is_released is_handled
  AllOver-is_released [] h = refl
  AllOver-is_released ((a, awaits) ∷ l) h = absurd h
  AllOver-is_released ((a, fetches) ∷ l) h = absurd h
  AllOver-is_released ((a, over true) ∷ l) h = refl
  AllOver-is_released ((a, over false) ∷ l) h = refl

  pub Shape-is_released :
      {s : A} {w : List A} {l : Links A} → Shape (some s) w l → is_released l ≡ false
  unfolding is_released
  Shape-is_released (fetching h) = refl
  Shape-is_released (holding v) = refl

  -- What the settling of a fetch does to the links: nothing, or the next one begins.
  pub data Turn (b : Bool) (s : A) : List A → Turned A → Type 0 where
    unmoved : {w : List A} {l : Links A} → Shape (some s) w l → Turn b s w (l, [], [])
    ends_last : {l : Links A} → AllOver l → Turn b s [] (l, (s, b) ∷ [], [])
    next_begins :
        {n : A} {w : List A} {l : Links A}
        → Shape (some n) w l
        → Turn b s (n ∷ w) (l, (s, b) ∷ [], n ∷ [])

  pub settle-AllOver :
      (k : ℕ) (b : Bool) (l : Links A) → AllOver l → settle_link k b l ≡ (l, [], [])
  unfolding settle_link
  settle-AllOver k b [] h = refl
  settle-AllOver k b ((a, awaits) ∷ l) h = absurd h
  settle-AllOver k b ((a, fetches) ∷ l) h = absurd h
  settle-AllOver k b ((a, over c) ∷ l) h = elim (Bool-cases (k == length l)) [
    | inl here ↦ rw here refl
    | inr later ↦ rw (later, settle-AllOver k b l h) refl
  ]

  pass_on-Turn :
      (b : Bool) (s a : A) (w : List A) (t : Turned A)
      → Turn b s w t
      → Turn b s (w ++ a ∷ []) (pass_on (a, awaits) t)
  unfolding is_released
  pass_on-Turn b s a w t (unmoved v) = rw (Shape-is_released v) (unmoved (holding v))
  pass_on-Turn b s a w t (ends_last {l} h) = rw (AllOver-is_released l h) (next_begins (fetching h))
  pass_on-Turn b s a w t (next_begins v) = rw (Shape-is_released v) (next_begins (holding v))

  pub settle-Turn :
      (k : ℕ) (b : Bool) {s : A} {w : List A} {l : Links A}
      → Shape (some s) w l
      → Turn b s w (settle_link k b l)
  unfolding settle_link
  settle-Turn k b (fetching {a = s} {older = l} h) = elim (Bool-cases (k == length l)) [
    | inl here ↦ rw here (ends_last h)
    | inr later ↦ rw (later, settle-AllOver k b l h) (unmoved (fetching h))
  ]
  settle-Turn k b (holding {s = s} {a = a} {waiting = w} {older = l} v) =
      elim (Bool-cases (k == length l)) [
        | inl here ↦ rw here (unmoved (holding v))
        | inr later ↦ rw later (pass_on-Turn b s a w (settle_link k b l) (settle-Turn k b v))
      ]
