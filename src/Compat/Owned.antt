-- ===== src/Compat/Owned.antt =====
-- Which call each fetch in the queue belongs to, and which calls have a client.
use scweb_vpn.Common.{
  arith, ℕ, zero, suc, ◌<◌, ◌≡◌, refl, sym, ap, ◌∙◌, inl, inr, Bool, true, false, Option, none,
  some, List, [], ◌∷◌, ◌++◌, get_elem?, ◌==◌, ==_iff, subst, Bool-cases, if◌then◌else◌, append-nil,
}
use scweb_vpn.Platform.Url.{UrlApi}
use scweb_vpn.Common.Texts.{Text}
use scweb_vpn.Compat.{Fetch, Queue, submit_to, settle_running, start_next}
use scweb_vpn.Compat.Transport.{Ask, Stage, initializing, queued, concluded, set_elem, fetch_for}

-- The fetches in the queue, the running one first.
abbrev pub running_list : Option (ℕ × Fetch) → List (ℕ × Fetch)
running_list none = []
running_list (some r) = r ∷ []

abbrev pub in_queue : Queue (ℕ × Fetch) → List (ℕ × Fetch)
in_queue q = running_list q.running ++ q.waiting

-- Those of the call `n`.
abbrev pub fetches_of : ℕ → List (ℕ × Fetch) → List Fetch
fetches_of n [] = []
fetches_of n ((m, f) ∷ l) = let rest = fetches_of n l in if m == n then f ∷ rest else rest

fetches_of-append :
    (n : ℕ) (l m : List (ℕ × Fetch)) → fetches_of n (l ++ m) ≡ fetches_of n l ++ fetches_of n m
fetches_of-append n [] m = refl
fetches_of-append n ((k, f) ∷ l) m = elim (Bool-cases (k == n)) [
  | inl same ↦ rw same (ap (λ r. f ∷ r) (fetches_of-append n l m))
  | inr other ↦ rw other (fetches_of-append n l m)
]

get-set_same :
    (n : ℕ) (s r : Stage) (l : List Stage)
    → get_elem? l n ≡ some r
    → get_elem? (set_elem n s l) n ≡ some s
get-set_same n s r [] e = absurd (cc e)
get-set_same zero s r (x ∷ l) e = refl
get-set_same (suc n) s r (x ∷ l) e = get-set_same n s r l e

get-set_other :
    (n m : ℕ) (s : Stage) (l : List Stage)
    → (n == m) ≡ false
    → get_elem? (set_elem n s l) m ≡ get_elem? l m
get-set_other n m s [] e = refl
get-set_other zero zero s (x ∷ l) e = absurd (ground (arith, e))
get-set_other zero (suc m) s (x ∷ l) e = refl
get-set_other (suc n) zero s (x ∷ l) e = refl
get-set_other (suc n) (suc m) s (x ∷ l) e = get-set_other n m s l (ground (arith, e))

start_next-in_queue : (l : List (ℕ × Fetch)) (q : Queue (ℕ × Fetch)) → in_queue (start_next l q) ≡ l
start_next-in_queue [] q = refl
start_next-in_queue (r ∷ l) q = refl

pub submit-in_queue :
    (r : ℕ × Fetch) (running : Option (ℕ × Fetch)) (waiting started : List (ℕ × Fetch))
    (ended : List ((ℕ × Fetch) × Bool))
    → in_queue (
        submit_to running r
          (record { running = running; waiting = waiting; started = started; ended = ended }))
      ≡ running_list running ++ waiting ++ r ∷ []
unfolding submit_to
submit-in_queue r none waiting started ended = start_next-in_queue (waiting ++ r ∷ []) _
submit-in_queue r (some s) waiting started ended = refl

pub settle-in_queue :
    (r : ℕ × Fetch) (b : Bool) (q : Queue (ℕ × Fetch))
    → in_queue (settle_running (some r) b q) ≡ q.waiting
unfolding settle_running
settle-in_queue r b q = start_next-in_queue q.waiting _

module _ (api : UrlApi) where
  -- The fetches that a call waits for.
  abbrev pub expected : Option Stage → List Fetch
  expected (some (queued a body)) = fetch_for api a body ∷ []
  expected stage = []

  -- Each fetch in the queue is that of a call that waits for it, once, and every such call has its fetch
  -- there.
  abbrev pub Owns : List (ℕ × Fetch) → List Stage → Type 0
  Owns l calls = (n : ℕ) → fetches_of n l ≡ expected (get_elem? calls n)

  -- What a call stands at, if a fetch of it is or will be made with a client.
  abbrev pub HasClient : ℕ → Stage → Type 0
  HasClient clients (initializing true a) = Unit {0}
  HasClient clients (concluded r) = Unit {0}
  HasClient clients stage = 0 < clients

  -- A call of whose fetch none is in the queue moves to a stage that waits for none.
  pub moves-Owns :
      (n : ℕ) (s r : Stage) (l : List (ℕ × Fetch)) (calls : List Stage)
      → get_elem? calls n ≡ some r
      → expected (some s) ≡ []
      → fetches_of n l ≡ []
      → ((m : ℕ) → (n == m) ≡ false → fetches_of m l ≡ expected (get_elem? calls m))
      → Owns l (set_elem n s calls)
  moves-Owns n s r l calls e free gone others m = elim (Bool-cases (n == m)) [
    | inr other ↦ others m other ∙ ap expected (sym (get-set_other n m s calls other))
    | inl same ↦
        let e' : n ≡ m = (==_iff n m).0 same in
        subst (λ k. fetches_of k l ≡ expected (get_elem? (set_elem n s calls) k)) e'
          (gone ∙ sym free ∙ ap expected (sym (get-set_same n s r calls e)))
  ]

  -- A call that waits for no fetch moves to a stage that waits for none.
  pub pass-Owns :
      (n : ℕ) (s r : Stage) (l : List (ℕ × Fetch)) (calls : List Stage)
      → get_elem? calls n ≡ some r
      → expected (some r) ≡ []
      → expected (some s) ≡ []
      → Owns l calls
      → Owns l (set_elem n s calls)
  pass-Owns n s r l calls e none_before free v =
      moves-Owns n s r l calls e free (v n ∙ ap expected e ∙ none_before) (λ m other. v m)

  -- Its fetch joins the queue.
  pub submit-Owns :
      (n : ℕ) (a : Ask) (body : Option Text) (r : Stage) (l : List (ℕ × Fetch)) (calls : List Stage)
      → get_elem? calls n ≡ some r
      → expected (some r) ≡ []
      → Owns l calls
      → Owns (l ++ (n, fetch_for api a body) ∷ []) (set_elem n (queued a body) calls)
  submit-Owns n a body r l calls e none_before v m =
      fetches_of-append m l ((n, fetch_for api a body) ∷ []) ∙ (elim (Bool-cases (n == m)) [
        | inr other ↦ rw other (
            append-nil (fetches_of m l)
            ∙ v m
            ∙ ap expected (sym (get-set_other n m (queued a body) calls other)))
        | inl same ↦
            let e' : n ≡ m = (==_iff n m).0 same in
            rw same (
              ap (λ k. k ++ fetch_for api a body ∷ [])
                (ap (λ k. fetches_of k l) (sym e') ∙ v n ∙ ap expected e ∙ none_before)
              ∙ ap expected (sym (get-set_same n (queued a body) r calls e))
              ∙ ap (λ k. expected (get_elem? (set_elem n (queued a body) calls) k)) e')
      ])
