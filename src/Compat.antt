-- ===== src/Compat.antt =====
-- web/src/compat.ts: `RTCEpoxyTransport`, through which the compatibility layer fetches. The Epoxy client
-- is a third-party package: what its calls settle with is an event.
pub mod Order
pub mod Chain
pub mod Replies
pub mod Sockets
pub mod Transport
pub mod Owned
pub mod Served
pub mod Requests
mod Tests
use scweb_vpn.Common.{
  ℕ, zero, suc, ◌+◌, Bool, true, false, not, ◌&&◌, ◌||◌, Option, none, some, List, [], ◌∷◌, ◌++◌,
  find, ◌==◌, leb, if◌then◌else◌, Result, ok, err, Failure, message, ◌>>=◌, String,
}
use scweb_vpn.Common.Texts.{Text, lit, text_eq, starts_with, to_lower}
use scweb_vpn.Platform.Url.{Url, UrlApi}
use scweb_vpn.Policy.{Header, agent_transport_url, sanitize_upstream_headers}

-- `Object.fromEntries`: a key keeps its first place and has its last value.
pub set_entry : Header → List Header → List Header
set_entry h [] = h ∷ []
set_entry h (g ∷ gs) = if text_eq g.0 h.0 then h ∷ gs else g ∷ set_entry h gs

unfoldable pub from_entries : List Header → List Header → List Header
unfolding set_entry
from_entries done [] = done
from_entries done (h ∷ hs) = from_entries (set_entry h done) hs

-- What is handed to `client.fetch`.
pub record Fetch : Type 0 where
  pub href : Text
  pub method : Text
  pub body : Option Text
  pub headers : List Header
  pub redirect : String

-- The argument of `client.fetch` for a request; a Blob has been read into its bytes.
unfoldable pub fetch_of : UrlApi → Url → Text → Option Text → List Header → Fetch
unfolding from_entries
fetch_of api remote method body headers = record {
  href = api.href (agent_transport_url remote);
  method = method;
  body = body;
  headers = from_entries [] headers;
  redirect = "manual";
}

-- `fetchQueue`: the fetch that runs, those that wait, and the history.
pub record Queue (A : Type 0) : Type 0 where
  pub running : Option A
  pub waiting : List A
  pub started : List A
  pub ended : List (A × Bool)

abbrev pub new_queue : {A : Type 0} → Queue A
new_queue = record { running = none; waiting = []; started = []; ended = [] }

module _ {A : Type 0} where
  -- The next fetch starts when the last one has settled, in whatever way.
  abbrev pub start_next : List A → Queue A → Queue A
  start_next [] q = record q { running = none; waiting = [] }
  start_next (r ∷ rs) q = record q { running = some r; waiting = rs; started = q.started ++ r ∷ [] }

  pub submit_to : Option A → A → Queue A → Queue A
  submit_to none r q = start_next (q.waiting ++ r ∷ []) q
  submit_to (some s) r q = record q { waiting = q.waiting ++ r ∷ [] }

  pub settle_running : Option A → (succeeded : Bool) → Queue A → Queue A
  settle_running none succeeded q = q
  settle_running (some s) succeeded q =
      start_next q.waiting (record q { ended = q.ended ++ (s, succeeded) ∷ [] })

-- A call of `request` reaches the queue, or the running fetch settles.
pub data QueueEvent (A : Type 0) : Type 0 where
  submits : A → QueueEvent A
  settles : Bool → QueueEvent A

module _ {A : Type 0} where
  unfoldable pub queue_step : QueueEvent A → Queue A → Queue A
  unfolding submit_to settle_running
  queue_step (submits r) q = submit_to q.running r q
  queue_step (settles succeeded) q = settle_running q.running succeeded q

  unfoldable pub queue_run : List (QueueEvent A) → Queue A → Queue A
  unfolding queue_step
  queue_run [] q = q
  queue_run (e ∷ es) q = queue_run es (queue_step e q)

-- `rawHeaders` of a response: an array, whose items may be arrays, a Headers object, another object
-- with a value or several for each name (none: null or undefined), or something else.
pub data Raw : Type 0 where
  pairs : List (Option (List Text)) → Raw
  headers_object : List Header → Raw
  entries : List (Text × List (Option Text)) → Raw
  nothing : Raw

pub pair_values : List (Option (List Text)) → List Header
pair_values [] = []
pair_values (some (name ∷ value ∷ rest) ∷ items) = (name, value) ∷ pair_values items
pair_values (item ∷ items) = pair_values items

pub named_values : Text → List (Option Text) → List Header
named_values name [] = []
named_values name (some value ∷ values) = (name, value) ∷ named_values name values
named_values name (none ∷ values) = named_values name values

pub entry_values : List (Text × List (Option Text)) → List Header
unfolding named_values
entry_values [] = []
entry_values ((name, values) ∷ es) = named_values name values ++ entry_values es

unfoldable pub raw_values : Raw → List Header
unfolding pair_values entry_values
raw_values (pairs items) = pair_values items
raw_values (headers_object hs) = hs
raw_values (entries es) = entry_values es
raw_values nothing = []

abbrev or_headers : List Header → List Header → List Header
or_headers [] headers = headers
or_headers (v ∷ vs) headers = v ∷ vs

-- `responseHeaders(response, remote)`.
unfoldable pub response_headers : UrlApi → Url → Raw → List Header → Result (List Header)
unfolding raw_values
response_headers api remote raw headers =
    sanitize_upstream_headers api remote (or_headers (raw_values raw) headers)

abbrev is_content_type : Header → Bool
is_content_type h = text_eq (to_lower h.0) (lit "content-type")

abbrev value_or_empty : Option Header → Text
value_or_empty none = []
value_or_empty (some h) = h.1

abbrev pub content_type : List Header → Text
content_type hs = value_or_empty (find is_content_type hs)

-- `/^(?:text\/html|application\/xhtml\+xml)(?:;|$)/i`.
abbrev is_type : Text → Text → Bool
is_type mime value = text_eq value mime || starts_with (mime ++ lit ";") value

unfoldable pub is_page : Text → Bool
is_page value =
    is_type (lit "text/html") (to_lower value)
    || is_type (lit "application/xhtml+xml") (to_lower value)

-- The body is read whole, or handed on as a stream.
pub data BodyMode : Type 0 where
  buffered streamed : BodyMode

pub record Reply : Type 0 where
  pub mode : BodyMode
  pub headers : List Header
  pub status : ℕ

-- The part of `request` after the fetch.
unfoldable pub reply_of : UrlApi → Url → (status : ℕ) → Raw → List Header → Result Reply
unfolding response_headers is_page
reply_of api remote status raw headers = do
  hs ← response_headers api remote raw headers
  ok (record {
    mode = if is_page (content_type hs) then buffered else streamed;
    headers = hs;
    status = status;
  })
