-- ===== src/Compat/Tests.antt =====
-- Runs of the transport of the compatibility layer, and the theorems at them.
use scweb_vpn.Common.{ℕ, ◌≡◌, refl, true, false, none, some, List, [], ◌∷◌, ◌++◌, ok, err, message}
use scweb_vpn.Common.Texts.{lit, is_space}
use scweb_vpn.Compat.{
  QueueEvent, submits, settles, queue_run, new_queue, from_entries, is_page, Reply, reply_of,
  nothing,
}
use scweb_vpn.Compat.Chain.{fetches, over, new_chain, ChainEvent, joins, link_settles, chain_run}
use scweb_vpn.Compat.Chain.Fifo.{joined, IsInTurn, chain_run-IsFifo}
use scweb_vpn.Compat.Replies.{lookup}
use scweb_vpn.Compat.Transport.{
  no_body, Ask, queued, concluded, new_transport, Event, asks, init_settles, fetch_settles,
  transport_run,
}
use scweb_vpn.Compat.Served.{IsServed}
use scweb_vpn.Compat.Requests.{transport_run-IsServed}
use scweb_vpn.Compat.Sockets.{
  SendEvent, sends, socket_there, blob_read, plain, blob, send_run, new_socket, sent_texts,
  NoneHeld, contents, send_run-KeepsOrder,
}
use scweb_vpn.Policy.{Header, sanitize_upstream_headers, is_end_to_end, nominated, strip_domain}
use scweb_vpn.Platform.Url.{http, Url, UrlApi}
use scweb_vpn.Compat.{buffered}

abbrev two_calls : List (QueueEvent ℕ)
two_calls = submits 7 ∷ submits 8 ∷ settles false ∷ submits 9 ∷ settles true ∷ []

two_calls_run : queue_run two_calls new_queue ≡ record {
  running = some 9;
  waiting = [];
  started = 7 ∷ 8 ∷ 9 ∷ [];
  ended = (7, false) ∷ (8, true) ∷ [];
}
unfolding queue_run
two_calls_run = refl

-- The second request is held back until the first fetch has failed; the third comes while it runs.
abbrev three_requests : List (ChainEvent ℕ)
three_requests =
    joins 7
    ∷ joins 8
    ∷ link_settles 1 true
    ∷ link_settles 0 false
    ∷ joins 9
    ∷ link_settles 1 true
    ∷ []

three_requests_run : chain_run three_requests new_chain ≡ record {
  links = (9, fetches) ∷ (8, over true) ∷ (7, over false) ∷ [];
  begun = 7 ∷ 8 ∷ 9 ∷ [];
  ended = (7, false) ∷ (8, true) ∷ [];
}
unfolding chain_run
three_requests_run = refl

chain_run-IsFifo_example : IsInTurn (joined three_requests) (chain_run three_requests new_chain)
chain_run-IsFifo_example = chain_run-IsFifo three_requests

abbrev cookies : List Header
cookies = (lit "cookie", lit "a=1") ∷ (lit "accept", lit "*/*") ∷ (lit "cookie", lit "b=2") ∷ []

last_cookie : lookup (lit "cookie") (from_entries [] cookies) ≡ some (lit "b=2")
unfolding from_entries
last_cookie = refl

pages_are_read_whole : is_page (lit "Text/HTML; charset=utf-8") ≡ true
unfolding is_page
pages_are_read_whole = refl

-- A Blob and then a text: the text is given to the socket first.
blob_is_overtaken :
    (send_run
      (socket_there ∷ sends (blob (lit "1")) ∷ sends (plain (lit "2")) ∷ blob_read 0 ∷ [])
      new_socket).delivered
    ≡ lit "2" ∷ lit "1" ∷ []
unfolding send_run
blob_is_overtaken = refl

abbrev before_and_after : List SendEvent
before_and_after = sends (plain (lit "1")) ∷ socket_there ∷ sends (plain (lit "2")) ∷ []

send_run-KeepsOrder_example :
    ((send_run before_and_after new_socket).delivered
        ++ contents (send_run before_and_after new_socket).held
      ≡ sent_texts before_and_after)
    × NoneHeld
        (send_run before_and_after new_socket).is_there
        (send_run before_and_after new_socket).held
send_run-KeepsOrder_example = send_run-KeepsOrder before_and_after (tt, (tt, (tt, tt)))

abbrev site : Url
site = record {
  scheme = http;
  username = [];
  password = [];
  hostname = lit "site.example";
  port = none;
  pathname = lit "/";
  search = [];
  hash = [];
}

abbrev no_locations : UrlApi
no_locations = record { resolve = λ t base. none; href = λ u. u.hostname }

abbrev page_headers : List Header
page_headers =
    (lit "Connection", lit "X-Hop")
    ∷ (lit "X-Hop", lit "1")
    ∷ (lit "Content-Type", lit "text/html")
    ∷ (lit "Set-Cookie", lit "a=1; Domain=site.example")
    ∷ []

abbrev page_reply : Reply
page_reply = record {
  mode = buffered;
  headers = (lit "Content-Type", lit "text/html") ∷ (lit "Set-Cookie", lit "a=1") ∷ [];
  status = 200;
}

page_replied : reply_of no_locations site 200 nothing page_headers ≡ ok page_reply
unfolding reply_of sanitize_upstream_headers is_end_to_end nominated is_space strip_domain
page_replied = refl

abbrev page_ask : Ask
page_ask = record { remote = site; method = lit "GET"; body = no_body; headers = [] }

-- Two calls of `request` whose `init` both await the module make two clients.
init_twice :
    (transport_run no_locations
      (asks page_ask ∷ asks page_ask ∷ init_settles 0 (ok tt) ∷ init_settles 1 (ok tt) ∷ [])
      new_transport).clients
    ≡ 2
unfolding transport_run
init_twice = refl

-- A fetch that fails, and the next.
abbrev two_asks : List Event
two_asks =
    asks page_ask
    ∷ init_settles 0 (ok tt)
    ∷ asks page_ask
    ∷ init_settles 1 (ok tt)
    ∷ fetch_settles (err (message "refused"))
    ∷ []

transport_run-IsServed_example :
    IsServed no_locations (transport_run no_locations two_asks new_transport)
transport_run-IsServed_example = transport_run-IsServed no_locations two_asks

first_refused :
    (transport_run no_locations two_asks new_transport).calls
    ≡ concluded (err (message "refused")) ∷ queued page_ask none ∷ []
unfolding transport_run
first_refused = refl
