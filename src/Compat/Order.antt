-- ===== src/Compat/Order.antt =====
-- The order of the fetches in `fetchQueue`.
use scweb_vpn.Common.{
  ◌≡◌, refl, sym, ap, ◌∙◌, Bool, Option, none, some, List, [], ◌∷◌, ◌++◌, map, map-append,
  append-nil, append_assoc,
}
use scweb_vpn.Compat.{
  Queue, new_queue, submit_to, settle_running, QueueEvent, submits, settles, queue_step, queue_run,
}

module _ {A : Type 0} where
  -- The requests in the order of their calls.
  abbrev pub submitted : List (QueueEvent A) → List A
  submitted [] = []
  submitted (submits r ∷ es) = r ∷ submitted es
  submitted (settles b ∷ es) = submitted es

  abbrev to_list : Option A → List A
  to_list none = []
  to_list (some r) = r ∷ []

  abbrev first_of : A × Bool → A
  first_of (r, b) = r

  abbrev IsIdle : Option A → List A → Type 0
  IsIdle none waiting = waiting ≡ []
  IsIdle (some r) waiting = Unit {0}

  -- The queue of the calls `calls`: what has ended and what runs are the first calls in their order, what
  -- waits are the others, and nothing waits while nothing runs.
  pub record IsFifo (calls : List A) (q : Queue A) : Type 0 where
    pub in_order : q.started ++ q.waiting ≡ calls
    pub one_runs : map first_of q.ended ++ to_list q.running ≡ q.started
    pub no_idle : IsIdle q.running q.waiting

  abbrev queue : Option A → List A → List A → List (A × Bool) → Queue A
  queue running waiting started ended = record {
    running = running;
    waiting = waiting;
    started = started;
    ended = ended;
  }

  submit-IsFifo :
      (r : A) (running : Option A) (waiting started : List A) (ended : List (A × Bool))
      (calls : List A)
      → IsFifo calls (queue running waiting started ended)
      → IsFifo (calls ++ r ∷ []) (submit_to running r (queue running waiting started ended))
  unfolding submit_to
  submit-IsFifo r (some s) waiting started ended calls v = record {
    in_order = sym (append_assoc started waiting (r ∷ [])) ∙ ap (λ l. l ++ r ∷ []) v.in_order;
    one_runs = v.one_runs;
    no_idle = tt;
  }
  submit-IsFifo r none (w ∷ ws) started ended calls v = let h = v.no_idle in cc
  submit-IsFifo r none [] started ended calls v = record {
    in_order = append-nil _ ∙ ap (λ l. l ++ r ∷ []) (sym (append-nil started) ∙ v.in_order);
    one_runs = ap (λ l. l ++ r ∷ []) (sym (append-nil _) ∙ v.one_runs);
    no_idle = tt;
  }

  settle-IsFifo :
      (b : Bool) (running : Option A) (waiting started : List A) (ended : List (A × Bool))
      (calls : List A)
      → IsFifo calls (queue running waiting started ended)
      → IsFifo calls (settle_running running b (queue running waiting started ended))
  unfolding settle_running
  settle-IsFifo b none waiting started ended calls v = v
  settle-IsFifo b (some s) [] started ended calls v = record {
    in_order = v.in_order;
    one_runs = append-nil _ ∙ map-append first_of ended ((s, b) ∷ []) ∙ v.one_runs;
    no_idle = refl;
  }
  settle-IsFifo b (some s) (w ∷ ws) started ended calls v = record {
    in_order = append_assoc started (w ∷ []) ws ∙ v.in_order;
    one_runs = ap (λ l. l ++ w ∷ []) (map-append first_of ended ((s, b) ∷ []) ∙ v.one_runs);
    no_idle = tt;
  }

  run-IsFifo :
      (es : List (QueueEvent A)) (calls : List A) (q : Queue A)
      → IsFifo calls q
      → IsFifo (calls ++ submitted es) (queue_run es q)
  unfolding queue_run queue_step
  run-IsFifo [] calls q v = rw (append-nil calls) v
  run-IsFifo (submits r ∷ es) calls q v = rw (← (append_assoc calls (r ∷ []) (submitted es))) (
      run-IsFifo es (calls ++ r ∷ []) _
        (submit-IsFifo r q.running q.waiting q.started q.ended calls v))
  run-IsFifo (settles b ∷ es) calls q v =
      run-IsFifo es calls _ (settle-IsFifo b q.running q.waiting q.started q.ended calls v)

  -- Of a run of the queue.
  pub queue_run-IsFifo : (es : List (QueueEvent A)) → IsFifo (submitted es) (queue_run es new_queue)
  queue_run-IsFifo es =
      run-IsFifo es [] new_queue (record { in_order = refl; one_runs = refl; no_idle = refl })
