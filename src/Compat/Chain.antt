-- ===== src/Compat/Chain.antt =====
-- web/src/compat.ts: the promise `fetchQueue` and the calls of `then` on it, in `request`. A fetch of the
-- client settles at any time after it began; the ticks until the handlers have run are taken together with that.
pub mod Shapes
pub mod Fifo
use scweb_vpn.Common.{ℕ, Bool, true, false, List, [], ◌∷◌, ◌++◌, ◌==◌, if◌then◌else◌, length}

-- The promise `pending` of a request: its callback was not called yet, or the fetch that it made has not
-- settled, or it has, in whichever way.
pub data LinkState : Type 0 where
  awaits fetches : LinkState
  over : (fulfilled : Bool) → LinkState

-- The links, the newest first: the callback of each waits for the promise made of the next older link.
abbrev pub Links : Type 0 → Type 0
Links A = List (A × LinkState)

-- The links after a fetch has settled, the fetches that have, and those that begin.
abbrev pub Turned : Type 0 → Type 0
Turned A = Links A × List (A × Bool) × List A

-- `pending.then(() => undefined, () => undefined)`: both handlers fulfil it.
unfoldable pub is_handled : (fulfilled : Bool) → Bool
is_handled true = true
is_handled false = true

module _ {A : Type 0} where
  -- Whether `fetchQueue` is fulfilled: at first it is `Promise.resolve()`.
  unfoldable pub is_released : Links A → Bool
  unfolding is_handled
  is_released [] = true
  is_released ((a, over fulfilled) ∷ older) = is_handled fulfilled
  is_released ((a, awaits) ∷ older) = false
  is_released ((a, fetches) ∷ older) = false

  -- `this.fetchQueue.then(() => this.client!.fetch(…))`: the new links, and what is fetched at once.
  abbrev join_if : (released : Bool) → A → Links A → Links A × List A
  join_if true a links = ((a, fetches) ∷ links, a ∷ [])
  join_if false a links = ((a, awaits) ∷ links, [])

  unfoldable pub join_links : A → Links A → Links A × List A
  unfolding is_released
  join_links a links = join_if (is_released links) a links

  abbrev finish_link : Bool → A × LinkState → Links A → Turned A
  finish_link fulfilled (a, fetches) older = ((a, over fulfilled) ∷ older, (a, fulfilled) ∷ [], [])
  finish_link fulfilled (a, awaits) older = ((a, awaits) ∷ older, [], [])
  finish_link fulfilled (a, over b) older = ((a, over b) ∷ older, [], [])

  -- A callback that waits is called once the promise of the older links is fulfilled.
  abbrev call_if : (released : Bool) → A → Turned A → Turned A
  call_if true a (older, ended, begun) = ((a, fetches) ∷ older, ended, begun ++ a ∷ [])
  call_if false a (older, ended, begun) = ((a, awaits) ∷ older, ended, begun)

  abbrev pass_on : A × LinkState → Turned A → Turned A
  pass_on (a, awaits) (older, ended, begun) = call_if (is_released older) a (older, ended, begun)
  pass_on (a, fetches) (older, ended, begun) = ((a, fetches) ∷ older, ended, begun)
  pass_on (a, over b) (older, ended, begun) = ((a, over b) ∷ older, ended, begun)

  -- The fetch of the `k`-th request settles, if it is under way.
  unfoldable pub settle_link : (k : ℕ) → (fulfilled : Bool) → Links A → Turned A
  unfolding is_released
  settle_link k fulfilled [] = ([], [], [])
  settle_link k fulfilled (l ∷ older) =
      let rest = settle_link k fulfilled older in
      if k == length older then finish_link fulfilled l older else pass_on l rest

-- `fetchQueue`, the fetches in the order in which they began, and those that have settled.
pub record Chain (A : Type 0) : Type 0 where
  pub links : Links A
  pub begun : List A
  pub ended : List (A × Bool)

abbrev pub new_chain : {A : Type 0} → Chain A
new_chain = record { links = []; begun = []; ended = [] }

-- A request gets to its line `this.fetchQueue.then`, or the fetch of the `k`-th settles.
pub data ChainEvent (A : Type 0) : Type 0 where
  joins : A → ChainEvent A
  link_settles : (k : ℕ) → (fulfilled : Bool) → ChainEvent A

module _ {A : Type 0} where
  abbrev joined_chain : Links A × List A → Chain A → Chain A
  joined_chain (links, begun) c = record c { links = links; begun = c.begun ++ begun }

  abbrev turned_chain : Turned A → Chain A → Chain A
  turned_chain (links, ended, begun) c = record {
    links = links;
    begun = c.begun ++ begun;
    ended = c.ended ++ ended;
  }

  unfoldable pub chain_step : ChainEvent A → Chain A → Chain A
  unfolding join_links settle_link
  chain_step (joins a) c = joined_chain (join_links a c.links) c
  chain_step (link_settles k fulfilled) c = turned_chain (settle_link k fulfilled c.links) c

  unfoldable pub chain_run : List (ChainEvent A) → Chain A → Chain A
  unfolding chain_step
  chain_run [] c = c
  chain_run (e ∷ es) c = chain_run es (chain_step e c)
