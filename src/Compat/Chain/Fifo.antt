-- ===== src/Compat/Chain/Fifo.antt =====
-- The promise chain of `fetchQueue` against the queue of fetches.
use scweb_vpn.Common.{
  ◌≡◌, ◌⊎◌, refl, ap, ◌∙◌, subst, Bool, Option, none, some, List, [], ◌∷◌, ◌++◌, ℕ, append-nil, inl,
  inr,
}
use scweb_vpn.Compat.{
  Queue, new_queue, submit_to, settle_running, QueueEvent, submits, settles, queue_step, queue_run,
}
use scweb_vpn.Compat.Order.{IsFifo, submitted, queue_run-IsFifo}
use scweb_vpn.Compat.Chain.{
  Turned, is_released, join_if, join_links, settle_link, Chain, new_chain, ChainEvent, joins,
  link_settles, joined_chain, turned_chain, chain_step, chain_run,
}
use scweb_vpn.Compat.Chain.Shapes.{
  under_way, held_back, to_list, Shape, resting, fetching, holding, Turn, unmoved, ends_last,
  next_begins, Shape-shows, AllOver-is_released, Shape-is_released, settle-AllOver, settle-Turn,
}

module _ {A : Type 0} where
  -- The requests in the order in which they get to the chain.
  abbrev pub joined : List (ChainEvent A) → List A
  joined [] = []
  joined (joins a ∷ es) = a ∷ joined es
  joined (link_settles k fulfilled ∷ es) = joined es

  -- The chain is in the state of the queue.
  pub record Shows (c : Chain A) (q : Queue A) : Type 0 where
    pub running : under_way c.links ≡ to_list q.running
    pub waiting : held_back c.links ≡ q.waiting
    pub begun : c.begun ≡ q.started
    pub ended : c.ended ≡ q.ended

  -- The chain is in the state that some run of the queue ends in, with the fetches of these calls in order.
  pub record IsInTurn (calls : List A) (c : Chain A) : Type 0 where
    pub steps : List (QueueEvent A)
    pub shows : Shows c (queue_run steps new_queue)
    pub fifo : IsFifo calls (queue_run steps new_queue)

  abbrev queue : Option A → List A → List A → List (A × Bool) → Queue A
  queue running waiting started ended = record {
    running = running;
    waiting = waiting;
    started = started;
    ended = ended;
  }

  -- The two agree on the links and on the histories.
  record Agrees (c : Chain A) (q : Queue A) : Type 0 where
    shape : Shape q.running q.waiting c.links
    begun : c.begun ≡ q.started
    ended : c.ended ≡ q.ended

  Agrees-Shows : (c : Chain A) (q : Queue A) → Agrees c q → Shows c q
  Agrees-Shows c q v =
      let (run, wait) = Shape-shows v.shape in
      record { running = run; waiting = wait; begun = v.begun; ended = v.ended }

  join-Agrees :
      (a : A) (c : Chain A) (q : Queue A)
      → Agrees c q
      → Agrees (chain_step (joins a) c) (queue_step (submits a) q)
  unfolding chain_step queue_step join_links submit_to
  join-Agrees a c q v = by_shape q.running q.waiting v.shape
    where
      by_shape :
          (running : Option A) (waiting : List A)
          → Shape running waiting c.links
          → Agrees
              (joined_chain (join_if (is_released c.links) a c.links) c)
              (submit_to running a (queue running waiting q.started q.ended))
      by_shape none [] (resting h) =
          rw (AllOver-is_released c.links h)
            (record { shape = fetching h; begun = ap (λ l. l ++ a ∷ []) v.begun; ended = v.ended })
      by_shape none (x ∷ xs) w = elim w [ ]
      by_shape (some s) waiting w =
          rw (Shape-is_released w)
            (record { shape = holding w; begun = append-nil c.begun ∙ v.begun; ended = v.ended })

  -- The events of the queue that the chain's event comes to.
  turn-Agrees :
      (b : Bool) (s : A) (w : List A) (t : Turned A) (c : Chain A) (q : Queue A)
      → Turn b s w t
      → c.begun ≡ q.started
      → c.ended ≡ q.ended
      → (Agrees (turned_chain t c) (queue (some s) w q.started q.ended))
        ⊎ (Agrees (turned_chain t c) (queue_step (settles b) (queue (some s) w q.started q.ended)))
  unfolding queue_step settle_running
  turn-Agrees b s w t c q (unmoved v) begun ended =
      inl (record {
        shape = v;
        begun = append-nil c.begun ∙ begun;
        ended = append-nil c.ended ∙ ended;
      })
  turn-Agrees b s w t c q (ends_last h) begun ended = inr (record {
    shape = resting h;
    begun = append-nil c.begun ∙ begun;
    ended = ap (λ l. l ++ (s, b) ∷ []) ended;
  })
  turn-Agrees b s w t c q (next_begins {n = n} v) begun ended = inr (record {
    shape = v;
    begun = ap (λ l. l ++ n ∷ []) begun;
    ended = ap (λ l. l ++ (s, b) ∷ []) ended;
  })

  settle-Agrees :
      (k : ℕ) (b : Bool) (c : Chain A) (q : Queue A)
      → Agrees c q
      → Agrees (chain_step (link_settles k b) c) q
        ⊎ Agrees (chain_step (link_settles k b) c) (queue_step (settles b) q)
  unfolding chain_step
  settle-Agrees k b c q v = by_shape q.running q.waiting v.shape
    where
      by_shape :
          (running : Option A) (waiting : List A)
          → Shape running waiting c.links
          → Agrees
              (turned_chain (settle_link k b c.links) c)
              (queue running waiting q.started q.ended)
            ⊎ Agrees
                (turned_chain (settle_link k b c.links) c)
                (queue_step (settles b) (queue running waiting q.started q.ended))
      by_shape none [] (resting h) = inl (
          rw (settle-AllOver k b c.links h) (record {
            shape = resting h;
            begun = append-nil c.begun ∙ v.begun;
            ended = append-nil c.ended ∙ v.ended;
          }))
      by_shape none (x ∷ xs) w = elim w [ ]
      by_shape (some s) waiting w =
          turn-Agrees b s waiting (settle_link k b c.links) c q (settle-Turn k b w) v.begun v.ended

  -- A run of the queue that ends in the state of the chain.
  abbrev Simulated : Chain A → List A → Queue A → Type 0
  Simulated c calls q =
      (qs : List (QueueEvent A)) × (submitted qs ≡ calls) × Agrees c (queue_run qs q)

  run-Simulated :
      (es : List (ChainEvent A)) (c : Chain A) (q : Queue A)
      → Agrees c q
      → Simulated (chain_run es c) (joined es) q
  unfolding chain_run queue_run
  run-Simulated [] c q v = ([], refl, v)
  run-Simulated (joins a ∷ es) c q v =
      let (qs, same, w) = run-Simulated es _ _ (join-Agrees a c q v) in
      (submits a ∷ qs, ap (λ l. a ∷ l) same, w)
  run-Simulated (link_settles k b ∷ es) c q v = go (settle-Agrees k b c q v) (run-Simulated es _)
    where
      go :
          Agrees (chain_step (link_settles k b) c) q
            ⊎ Agrees (chain_step (link_settles k b) c) (queue_step (settles b) q)
          → ((p : Queue A)
              → Agrees (chain_step (link_settles k b) c) p
              → Simulated (chain_run es (chain_step (link_settles k b) c)) (joined es) p)
          → Simulated (chain_run es (chain_step (link_settles k b) c)) (joined es) q
      go (inl w) rest = rest q w
      go (inr w) rest =
          let (qs, same, u) = rest (queue_step (settles b) q) w in (settles b ∷ qs, same, u)

  -- However requests get to the chain of `fetchQueue` and fetches settle, in whatever way, some run of the
  -- queue with the same requests ends in the same state. So the fetches begin in the order in which the
  -- requests get to the chain, one at a time, each when the one before has settled, also when that
  -- failed; and none is held back while no fetch is under way.
  pub chain_run-IsFifo : (es : List (ChainEvent A)) → IsInTurn (joined es) (chain_run es new_chain)
  chain_run-IsFifo es =
      let start : Agrees new_chain new_queue = record {
        shape = resting tt;
        begun = refl;
        ended = refl;
      } in
      let (qs, same, v) = run-Simulated es new_chain new_queue start in
      record {
        steps = qs;
        shows = Agrees-Shows (chain_run es new_chain) (queue_run qs new_queue) v;
        fifo = subst (λ calls. IsFifo calls (queue_run qs new_queue)) same (queue_run-IsFifo qs);
      }
