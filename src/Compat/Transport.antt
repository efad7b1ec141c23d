-- ===== src/Compat/Transport.antt =====
-- web/src/compat.ts: the object `RTCEpoxyTransport` in use: calls of `request`, each with its own awaits, over
-- the one client and the one queue of fetches. A call is known by its number.
use scweb_vpn.Common.{
  ℕ, zero, suc, Bool, true, false, not, Option, none, some, List, [], ◌∷◌, ◌++◌, get_elem?, Result,
  ok, err,
}
use scweb_vpn.Common.Texts.{Text}
use scweb_vpn.Platform.Url.{Url, UrlApi}
use scweb_vpn.Policy.{Header}
use scweb_vpn.Compat.{
  Fetch, fetch_of, Queue, new_queue, submits, settles, queue_step, Raw, BodyMode, buffered,
  streamed, Reply, reply_of,
}

-- `body` of a request; a Blob is its bytes.
pub data RequestBody : Type 0 where
  no_body : RequestBody
  plain_body blob_body : Text → RequestBody

-- The arguments of `request`.
pub record Ask : Type 0 where
  pub remote : Url
  pub method : Text
  pub body : RequestBody
  pub headers : List Header

-- What the client's fetch is fulfilled with.
pub record Response : Type 0 where
  pub status : ℕ
  pub raw : Raw
  pub headers : List Header

-- What a call awaits: `init`, which loads the module unless `ready` was set, the bytes of a Blob, its fetch
-- with the body that it sends, or the body of its reply; or how it has concluded.
pub data Stage : Type 0 where
  initializing : (loads : Bool) → Ask → Stage
  reading : Ask → Stage
  queued : Ask → Option Text → Stage
  buffering : Reply → Stage
  concluded : Result Reply → Stage

-- `ready`, the number of clients made, the calls in order, and `fetchQueue`.
pub record Transport : Type 0 where
  pub ready : Bool
  pub clients : ℕ
  pub calls : List Stage
  pub queue : Queue (ℕ × Fetch)

abbrev pub new_transport : Transport
new_transport = record { ready = false; clients = 0; calls = []; queue = new_queue }

abbrev pub set_elem : ℕ → Stage → List Stage → List Stage
set_elem n s [] = []
set_elem zero s (x ∷ xs) = s ∷ xs
set_elem (suc n) s (x ∷ xs) = x ∷ set_elem n s xs

abbrev pub moves : ℕ → Stage → Transport → Transport
moves n s t = record t { calls = set_elem n s t.calls }

pub data Event : Type 0 where
  asks : Ask → Event
  init_settles : ℕ → Result (Unit {0}) → Event
  blob_settles : ℕ → Result Text → Event
  fetch_settles : Result Response → Event
  body_settles : ℕ → Result (Unit {0}) → Event

abbrev pub is_fulfilled : {A : Type 0} → Result A → Bool
is_fulfilled (ok a) = true
is_fulfilled (err e) = false

-- The end of `init`: a call that loaded the module makes a client.
abbrev pub make_client : Bool → Transport → Transport
make_client true t = record t { clients = suc t.clients; ready = true }
make_client false t = t

module _ (api : UrlApi) where
  abbrev pub fetch_for : Ask → Option Text → Fetch
  fetch_for a body = fetch_of api a.remote a.method body a.headers

  abbrev pub submit : ℕ → Ask → Option Text → Transport → Transport
  submit n a body t =
      moves n (queued a body)
        (record t { queue = queue_step (submits (n, fetch_for a body)) t.queue })

  -- `if (body instanceof Blob) body = await body.arrayBuffer()`.
  abbrev pub read_body : RequestBody → ℕ → Ask → Transport → Transport
  read_body no_body n a t = submit n a none t
  read_body (plain_body text) n a t = submit n a (some text) t
  read_body (blob_body bytes) n a t = moves n (reading a) t

  abbrev pub on_init : Option Stage → ℕ → Result (Unit {0}) → Transport → Transport
  on_init (some (initializing loads a)) n (ok done) t = read_body a.body n a (make_client loads t)
  on_init (some (initializing true a)) n (err e) t = moves n (concluded (err e)) t
  on_init stage n r t = t

  abbrev pub on_blob : Option Stage → ℕ → Result Text → Transport → Transport
  on_blob (some (reading a)) n (ok bytes) t = submit n a (some bytes) t
  on_blob (some (reading a)) n (err e) t = moves n (concluded (err e)) t
  on_blob stage n r t = t

  abbrev pub mode_stage : BodyMode → Reply → Stage
  mode_stage buffered reply = buffering reply
  mode_stage streamed reply = concluded (ok reply)

  abbrev pub reply_stage : Result Reply → Stage
  reply_stage (ok reply) = mode_stage reply.mode reply
  reply_stage (err e) = concluded (err e)

  abbrev pub response_stage : Ask → Result Response → Stage
  response_stage a (ok r) = reply_stage (reply_of api a.remote r.status r.raw r.headers)
  response_stage a (err e) = concluded (err e)

  abbrev pub answer_call : Option Stage → ℕ → Result Response → Transport → Transport
  answer_call (some (queued a body)) n r t = moves n (response_stage a r) t
  answer_call stage n r t = t

  -- The fetch that runs settles: its call goes on, and the next fetch starts.
  abbrev pub on_fetch_settled : Option (ℕ × Fetch) → Result Response → Transport → Transport
  on_fetch_settled none r t = t
  on_fetch_settled (some (n, f)) r t =
      answer_call (get_elem? t.calls n) n r
        (record t { queue = queue_step (settles (is_fulfilled r)) t.queue })

  abbrev pub on_body : Option Stage → ℕ → Result (Unit {0}) → Transport → Transport
  on_body (some (buffering reply)) n (ok done) t = moves n (concluded (ok reply)) t
  on_body (some (buffering reply)) n (err e) t = moves n (concluded (err e)) t
  on_body stage n r t = t

  unfoldable pub transport_step : Event → Transport → Transport
  unfolding queue_step fetch_of reply_of
  transport_step (asks a) t = record t { calls = t.calls ++ initializing (not t.ready) a ∷ [] }
  transport_step (init_settles n r) t = on_init (get_elem? t.calls n) n r t
  transport_step (blob_settles n r) t = on_blob (get_elem? t.calls n) n r t
  transport_step (fetch_settles r) t = on_fetch_settled t.queue.running r t
  transport_step (body_settles n r) t = on_body (get_elem? t.calls n) n r t

  unfoldable pub transport_run : List Event → Transport → Transport
  unfolding transport_step
  transport_run [] t = t
  transport_run (e ∷ es) t = transport_run es (transport_step e t)
