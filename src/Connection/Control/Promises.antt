-- ===== src/Connection/Control/Promises.antt =====
-- The bookkeeping of `ControlClient`: which promises wait, which timers are armed, and which requests
-- are pending.
use scweb_vpn.Common.{
  ℕ, ◌≤◌, ◌≡◌, ◌≢◌, refl, Bool, true, false, not, ◌&&◌, ◌||◌, Option, none, some, List, [], ◌∷◌,
  ◌++◌, arith, All, any, ◌==◌, if◌then◌else◌, Bool-cases, inl, inr,
}
use scweb_vpn.Common.Texts.{Text, text_eq, text_eq_iff}
use scweb_vpn.Connection.Control.{
  Client, Pending, Promise, unissued, waiting, map_get, map_set, map_delete, settle, clear_timer,
  finish,
}

-- A timer of this number is armed.
abbrev pub has_timer : ℕ → List (ℕ × Text) → Bool
has_timer n timers = any (λ t. t.0 == n) timers

-- A pending request holds the promise of this number.
abbrev pub holds : ℕ → List (Text × Pending) → Bool
holds n pending = any (λ e. e.1.promise == n) pending

-- The entry of the identifier holds the promise.
abbrev pub entry_holds : Option Pending → ℕ → Bool
entry_holds none n = false
entry_holds (some p) n = p.promise == n

-- No identifier is used twice.
abbrev pub IsMap : List (Text × Pending) → Type 0
IsMap [] = Unit
IsMap ((k, p) ∷ m) = (map_get m k ≡ none) × IsMap m

pub record Inv (c : Client) : Type 0 where
  pub is_map : IsMap c.pending
  pub fresh : (n : ℕ) → c.next ≤ n → c.promises n ≡ unissued
  pub timed : (n : ℕ) → c.promises n ≡ waiting → has_timer n c.timers ≡ true
  pub held : (n : ℕ) → c.promises n ≡ waiting → holds n c.pending ≡ true
  pub named : All (λ t. entry_holds (map_get c.pending t.1) t.0 ≡ true) c.timers

-- One identifier at a time.
pub map_get-delete :
    (m : List (Text × Pending)) (k j : Text)
    → map_get (map_delete m k) j ≡ (if text_eq k j then none else map_get m j)
unfolding map_get map_delete
map_get-delete [] k j = ground arith
map_get-delete ((i, p) ∷ m) k j =
    ground (arith, map_get-delete m k j, text_eq_iff i k, text_eq_iff i j, text_eq_iff k j)

pub map_get-set :
    (m : List (Text × Pending)) (k j : Text) (p : Pending)
    → map_get (map_set m k p) j ≡ (if text_eq k j then some p else map_get m j)
unfolding map_get map_set
map_get-set [] k j p = refl
map_get-set ((i, q) ∷ m) k j p =
    ground (arith, map_get-set m k j p, text_eq_iff i k, text_eq_iff i j, text_eq_iff k j)

map_delete-IsMap : (m : List (Text × Pending)) (k : Text) → IsMap m → IsMap (map_delete m k)
unfolding map_delete
map_delete-IsMap [] k h = tt
map_delete-IsMap ((i, p) ∷ m) k (h, hs) =
    ground (arith, map_delete-IsMap m k hs, map_get-delete m k i)

pub map_set-IsMap :
    (m : List (Text × Pending)) (k : Text) (p : Pending) → IsMap m → IsMap (map_set m k p)
unfolding map_set map_get
map_set-IsMap [] k p h = (refl, tt)
map_set-IsMap ((i, q) ∷ m) k p (h, hs) =
    ground (arith, map_set-IsMap m k p hs, map_get-set m k i p, text_eq_iff i k, text_eq_iff k i)

map_delete_absent : (m : List (Text × Pending)) (k : Text) → map_get m k ≡ none → map_delete m k ≡ m
unfolding map_get map_delete
map_delete_absent [] k h = refl
map_delete_absent ((i, q) ∷ m) k h = ground (arith, map_delete_absent m k)

-- Deleting the entry of `k` loses the promise that it holds, and no other.
holds-delete :
    (m : List (Text × Pending)) (k : Text) (p : Pending) (n : ℕ)
    → IsMap m
    → map_get m k ≡ some p
    → (p.promise == n) ≡ false
    → holds n m ≡ true
    → holds n (map_delete m k) ≡ true
unfolding map_get map_delete
holds-delete [] k p n d g ne h = cc
holds-delete ((i, q) ∷ m) k p n (d, ds) g ne h = elim (Bool-cases (text_eq i k)) [
  | inl same ↦
      let absent : map_get m k ≡ none = rw (← (text_eq_iff i k).0 same) d in
      rw same (rw (map_delete_absent m k absent) (ground arith))
  | inr other ↦
      let found : map_get m k ≡ some p = rw other at g in
      rw other (ground (arith, holds-delete m k p n ds found ne))
]

pub holds-set :
    (m : List (Text × Pending)) (k : Text) (p : Pending) (n : ℕ)
    → map_get m k ≡ none
    → holds n (map_set m k p) ≡ (holds n m || p.promise == n)
unfolding map_get map_set
holds-set [] k p n g = ground arith
holds-set ((i, q) ∷ m) k p n g = ground (arith, holds-set m k p n)

pub has_timer-clear :
    (n m : ℕ) (timers : List (ℕ × Text))
    → has_timer m (clear_timer n timers) ≡ (not (n == m) && has_timer m timers)
unfolding clear_timer
has_timer-clear n m [] = ground arith
has_timer-clear n m ((k, id) ∷ timers) = ground (arith, has_timer-clear n m timers)

pub has_timer-append :
    (m : ℕ) (xs ys : List (ℕ × Text)) → has_timer m (xs ++ ys) ≡ (has_timer m xs || has_timer m ys)
has_timer-append m [] ys = refl
has_timer-append m (x ∷ xs) ys = ground (arith, has_timer-append m xs ys)

-- What a timer was named stays so for the timers that remain.
named-clear :
    (P : ℕ × Text → Type 0) (n : ℕ) (timers : List (ℕ × Text))
    → All P timers
    → All (λ t. P t × ((t.0 == n) ≡ false)) (clear_timer n timers)
unfolding clear_timer
named-clear P n [] h = tt
named-clear P n (t ∷ timers) (h, hs) = elim (Bool-cases (t.0 == n)) [
  | inl same ↦ rw same (named-clear P n timers hs)
  | inr other ↦ rw other ((h, other), named-clear P n timers hs)
]

pub All-map {ℓ} :
    {A : Type ℓ} (P Q : A → Type 0) (xs : List A) → ((x : A) → P x → Q x) → All P xs → All Q xs
All-map P Q [] f h = tt
All-map P Q (x ∷ xs) f (h, hs) = (f x h, All-map P Q xs f hs)

pub settle-waiting :
    (n : ℕ) (outcome : Promise) (promises : ℕ → Promise) (m : ℕ)
    → outcome ≢ waiting
    → settle n outcome promises m ≡ waiting
    → ((n == m) ≡ false) × (promises m ≡ waiting)
unfolding settle
settle-waiting n outcome promises m f h = ground arith

pub settle-unissued :
    (n : ℕ) (outcome : Promise) (promises : ℕ → Promise) (m : ℕ)
    → promises m ≡ unissued
    → settle n outcome promises m ≡ unissued
unfolding settle
settle-unissued n outcome promises m h = ground arith

-- Settling a promise with the entry that holds it taken out keeps everything in step.
pub finish-delete-Inv :
    (c : Client) (id : Text) (p : Pending) (outcome : Promise)
    → Inv c
    → map_get c.pending id ≡ some p
    → outcome ≢ waiting
    → Inv (finish p.promise outcome (record c { pending = map_delete c.pending id }))
unfolding finish
finish-delete-Inv c id p outcome v g f = record {
  is_map = map_delete-IsMap c.pending id v.is_map;
  fresh = λ n h. settle-unissued p.promise outcome c.promises n (v.fresh n h);
  timed = λ n h.
      let (ne, w) = settle-waiting p.promise outcome c.promises n f h in
      ground (arith, has_timer-clear p.promise n c.timers, v.timed n w);
  held = λ n h.
      let (ne, w) = settle-waiting p.promise outcome c.promises n f h in
      holds-delete c.pending id p n v.is_map g ne (v.held n w);
  named =
      All-map _ _ (clear_timer p.promise c.timers) (λ t h. still t h.0 h.1)
        (named-clear _ p.promise c.timers v.named);
}
  where
    still :
        (t : ℕ × Text)
        → entry_holds (map_get c.pending t.1) t.0 ≡ true
        → (t.0 == p.promise) ≡ false
        → entry_holds (map_get (map_delete c.pending id) t.1) t.0 ≡ true
    still (n, j) h ne = ground (arith, map_get-delete c.pending id j, text_eq_iff id j)
