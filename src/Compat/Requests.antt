-- ===== src/Compat/Requests.antt =====
-- `RTCEpoxyTransport` in use: the calls of `request` and their fetches.
use scweb_vpn.Common.{
  ℕ, zero, suc, ◌<◌, ◌≡◌, ◌≢◌, refl, sym, ap, ◌∙◌, Bool, true, false, not, Option, none, some, List,
  [], ◌∷◌, ◌++◌, get_elem?, ◌==◌, ==_refl, subst, All-append, Result, ok, err,
}
use scweb_vpn.Platform.Url.{UrlApi}
use scweb_vpn.Compat.{
  Fetch, Queue, queue_step, settles, BodyMode, buffered, streamed, Reply, reply_of,
}
use scweb_vpn.Compat.Transport.{
  Ask, Response, Stage, initializing, reading, queued, buffering, concluded, Transport,
  new_transport, set_elem, Event, asks, init_settles, blob_settles, fetch_settles, body_settles,
  is_fulfilled, mode_stage, reply_stage, response_stage, answer_call, on_fetch_settled,
  transport_step, transport_run,
}
use scweb_vpn.Compat.Owned.{fetches_of, settle-in_queue, expected, Owns, HasClient, moves-Owns}
use scweb_vpn.Compat.Served.{
  set_elem-All, get-All, ReadyFor, IsServed, on_init-IsServed, on_blob-IsServed, on_body-IsServed,
}

-- A transport by its fields.
abbrev transport :
    Bool
    → ℕ
    → List Stage
    → Option (ℕ × Fetch)
    → (waiting started : List (ℕ × Fetch)) → List ((ℕ × Fetch) × Bool)
    → Transport
transport ready clients calls running waiting started ended = record {
  ready = ready;
  clients = clients;
  calls = calls;
  queue = record { running = running; waiting = waiting; started = started; ended = ended };
}

module _ (api : UrlApi) where
  -- The queue goes on when its first fetch settles.
  next-Owns :
      (n : ℕ) (f : Fetch) (s r : Stage) (l : List (ℕ × Fetch)) (calls : List Stage)
      → get_elem? calls n ≡ some r
      → expected api (some s) ≡ []
      → fetches_of n l ≡ []
      → Owns api ((n, f) ∷ l) calls
      → Owns api l (set_elem n s calls)
  next-Owns n f s r l calls e free gone v =
      moves-Owns api n s r l calls e free gone (λ m other. first_other m other (v m))
    where
      first_other :
          (m : ℕ)
          → (n == m) ≡ false
          → fetches_of m ((n, f) ∷ l) ≡ expected api (get_elem? calls m)
          → fetches_of m l ≡ expected api (get_elem? calls m)
      first_other m other h = rw other at h

  response_stage-free :
      (a : Ask) (r : Result Response) → expected api (some (response_stage api a r)) ≡ []
  response_stage-free a (err e) = refl
  response_stage-free a (ok r) = of_reply (reply_of api a.remote r.status r.raw r.headers)
    where
      of_mode : (m : BodyMode) (reply : Reply) → expected api (some (mode_stage api m reply)) ≡ []
      of_mode buffered reply = refl
      of_mode streamed reply = refl

      of_reply : (reply : Result Reply) → expected api (some (reply_stage api reply)) ≡ []
      of_reply (ok reply) = of_mode reply.mode reply
      of_reply (err e) = refl

  response_stage-HasClient :
      (clients : ℕ) (a : Ask) (r : Result Response)
      → 0 < clients
      → HasClient api clients (response_stage api a r)
  response_stage-HasClient clients a (err e) c = tt
  response_stage-HasClient clients a (ok r) c =
      of_reply (reply_of api a.remote r.status r.raw r.headers)
    where
      of_mode : (m : BodyMode) (reply : Reply) → HasClient api clients (mode_stage api m reply)
      of_mode buffered reply = c
      of_mode streamed reply = tt

      of_reply : (reply : Result Reply) → HasClient api clients (reply_stage api reply)
      of_reply (ok reply) = of_mode reply.mode reply
      of_reply (err e) = tt

  -- The call of the first fetch waits for it.
  first-expected :
      (n : ℕ) (f : Fetch) (l : List (ℕ × Fetch)) (stage : Option Stage)
      → fetches_of n ((n, f) ∷ l) ≡ expected api stage
      → f ∷ fetches_of n l ≡ expected api stage
  first-expected n f l stage h = rw (==_refl n) at h

  never_first : (n : ℕ) (f : Fetch) (l : List (ℕ × Fetch)) → fetches_of n ((n, f) ∷ l) ≢ []
  never_first n f l h = let h' : f ∷ fetches_of n l ≡ [] = rw (==_refl n) at h in cc h'

  fetch-IsServed :
      (running : Option (ℕ × Fetch)) (ready : Bool) (clients : ℕ) (calls : List Stage)
      (waiting started : List (ℕ × Fetch)) (ended : List ((ℕ × Fetch) × Bool)) (r : Result Response)
      → IsServed api (transport ready clients calls running waiting started ended)
      → IsServed api (
          on_fetch_settled api running r
            (transport ready clients calls running waiting started ended))
  unfolding queue_step
  fetch-IsServed none ready clients calls waiting started ended r v = v
  fetch-IsServed (some (n, f)) ready clients calls waiting started ended r v =
      by_stage (get_elem? calls n) refl
    where
      before : Queue (ℕ × Fetch)
      before = record { running = some (n, f); waiting = waiting; started = started; ended = ended }

      after : Transport
      after = record (transport ready clients calls (some (n, f)) waiting started ended) {
        queue = queue_step (settles (is_fulfilled r)) before;
      }

      by_stage :
          (stage : Option Stage)
          → get_elem? calls n ≡ stage
          → IsServed api (answer_call api stage n r after)
      by_stage none e = absurd (never_first n f waiting (v.owned n ∙ ap (expected api) e))
      by_stage (some (initializing loads a)) e =
          absurd (never_first n f waiting (v.owned n ∙ ap (expected api) e))
      by_stage (some (reading a)) e =
          absurd (never_first n f waiting (v.owned n ∙ ap (expected api) e))
      by_stage (some (buffering reply)) e =
          absurd (never_first n f waiting (v.owned n ∙ ap (expected api) e))
      by_stage (some (concluded s)) e =
          absurd (never_first n f waiting (v.owned n ∙ ap (expected api) e))
      by_stage (some (queued a body)) e = record {
        owned =
            subst (λ l. Owns api l (set_elem n (response_stage api a r) calls))
              (sym (settle-in_queue (n, f) (is_fulfilled r) before))
              (next-Owns n f (response_stage api a r) (queued a body) waiting calls e
                (response_stage-free a r) gone v.owned);
        clients_made =
            set_elem-All (HasClient api clients) n (response_stage api a r) calls
              (response_stage-HasClient clients a r
                (get-All (HasClient api clients) n (queued a body) calls e v.clients_made))
              v.clients_made;
        made_ready = v.made_ready;
      }
        where
          gone : fetches_of n waiting ≡ []
          gone =
              let h =
                first-expected n f waiting (some (queued a body))
                  (v.owned n ∙ ap (expected api) e) in
              cc

  ask-expected :
      (loads : Bool) (a : Ask) (calls : List Stage) (m : ℕ)
      → expected api (get_elem? (calls ++ initializing loads a ∷ []) m)
        ≡ expected api (get_elem? calls m)
  ask-expected loads a [] zero = refl
  ask-expected loads a [] (suc m) = refl
  ask-expected loads a (s ∷ calls) zero = refl
  ask-expected loads a (s ∷ calls) (suc m) = ask-expected loads a calls m

  ask-HasClient :
      (ready : Bool) (clients : ℕ) (a : Ask)
      → ReadyFor api ready clients
      → HasClient api clients (initializing (not ready) a)
  ask-HasClient true clients a h = h
  ask-HasClient false clients a h = tt

  step-IsServed :
      (e : Event) (t : Transport) → IsServed api t → IsServed api (transport_step api e t)
  unfolding transport_step
  step-IsServed (asks a) t v = record {
    owned = λ m. v.owned m ∙ sym (ask-expected (not t.ready) a t.calls m);
    clients_made =
        All-append (HasClient api t.clients) t.calls (initializing (not t.ready) a ∷ [])
          v.clients_made (ask-HasClient t.ready t.clients a v.made_ready, tt);
    made_ready = v.made_ready;
  }
  step-IsServed (init_settles n r) t v = on_init-IsServed api (get_elem? t.calls n) n r t refl v
  step-IsServed (blob_settles n r) t v = on_blob-IsServed api (get_elem? t.calls n) n r t refl v
  step-IsServed (fetch_settles r) t v =
      fetch-IsServed t.queue.running t.ready t.clients t.calls t.queue.waiting t.queue.started
        t.queue.ended r v
  step-IsServed (body_settles n r) t v = on_body-IsServed api (get_elem? t.calls n) n r t refl v

  run-IsServed :
      (es : List Event) (t : Transport) → IsServed api t → IsServed api (transport_run api es t)
  unfolding transport_run
  run-IsServed [] t v = v
  run-IsServed (e ∷ es) t v = run-IsServed es (transport_step api e t) (step-IsServed e t v)

  -- However calls of `request` and what they await interleave, the fetches in the queue are those of the
  -- calls that wait for one, with the arguments of that call, each once and none missing; so the
  -- fetch that settles answers the call that made it. No call gets to its fetch before a client is made.
  pub transport_run-IsServed : (es : List Event) → IsServed api (transport_run api es new_transport)
  transport_run-IsServed es =
      run-IsServed es new_transport
        (record { owned = λ n. refl; clients_made = tt; made_ready = tt })
