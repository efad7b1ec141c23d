-- ===== src/Wisp/Steps.antt =====
-- What the reads, the cancel, the close and the error of `RTCWispTransport` do to its deliveries.
use scweb_vpn.Common.{
  ◌≡◌, refl, sym, ◌∙◌, Bool, true, false, not, ◌&&◌, some, List, [], ◌∷◌, ◌++◌, append-nil,
  append_assoc, Failure,
}
use scweb_vpn.Wisp.{
  Packet, binary, view, other, StreamState, readable, closing, ended, cancelled, errored, Transport,
  throw, new_transport, closing_state, enqueue_to, close_of, error_of, enqueue, close_controller,
  close, error_controller, abort, take, drop, receive_open, receive, start_of, read_of,
  read_controller, cancel_of, cancel_controller, Event, message_event, start, read, cancel, step,
  run,
}

unfoldable pub wisp : Unit {0}
unfolding new_transport run step receive receive_open enqueue enqueue_to close close_controller
    close_of abort error_controller error_of start_of read_controller read_of cancel_controller
    cancel_of
wisp = tt

-- The packets that the far side sent in a sequence of events, up to the first event that ends the
-- stream: a text message, a close, an error or the reader's cancel.
abbrev pub sent_by : Event → List Packet
sent_by (message_event (binary p)) = p ∷ []
sent_by (message_event (view buffer offset size)) = take size (drop offset buffer) ∷ []
sent_by e = []

abbrev pub goes_on : Event → Bool
goes_on (message_event other) = false
goes_on (message_event m) = true
goes_on start = true
goes_on read = true
goes_on e = false

abbrev pub packets : Bool → List Event → List Packet
packets false es = []
packets true [] = []
packets true (e ∷ es) = sent_by e ++ packets (goes_on e) es

-- All of `sent` is read or queued; a stream that was cancelled or failed has given a first part.
abbrev pub Delivers : StreamState → List Packet → List Packet → List Packet → Type 0
Delivers cancelled taken queue sent = (rest : List Packet) × (taken ++ rest ≡ sent)
Delivers (errored error) taken queue sent = (rest : List Packet) × (taken ++ rest ≡ sent)
Delivers state taken queue sent = taken ++ queue ≡ sent

abbrev pub is_readable : StreamState → Bool
is_readable readable = true
is_readable state = false

abbrev pub made : Bool → StreamState → List Packet → List Packet → Transport → Transport
made closed state queue taken t = record t {
  closed = closed;
  controller = some (record { queue = queue; taken = taken; state = state });
}

-- `live` says that a packet would still be queued.
pub record Sending (t : Transport) (sent : List Packet) (live : Bool) : Type 0 where
  pub is_closed : Bool
  pub state : StreamState
  pub queue : List Packet
  pub taken : List Packet
  pub base : Transport
  pub form : t ≡ made is_closed state queue taken base
  pub delivers : Delivers state taken queue sent
  pub still : (not is_closed && is_readable state) ≡ live

-- The transport as `made` has it.
pub rests :
    (closed : Bool) (state : StreamState) (queue taken : List Packet) (t : Transport)
    (sent : List Packet)
    → Delivers state taken queue sent
    → Sending (made closed state queue taken t) sent (not closed && is_readable state)
rests closed state queue taken t sent h = record {
  is_closed = closed;
  state = state;
  queue = queue;
  taken = taken;
  base = t;
  form = refl;
  delivers = h;
  still = refl;
}

read-closing :
    (closed : Bool) (p : Packet) (queue taken : List Packet) (t : Transport) (sent : List Packet)
    → taken ++ p ∷ queue ≡ sent
    → Sending (made closed (closing_state queue) queue (taken ++ p ∷ []) t) sent false
read-closing true p [] taken t sent h =
    rests true ended [] (taken ++ p ∷ []) t sent (append-nil _ ∙ h)
read-closing false p [] taken t sent h =
    rests false ended [] (taken ++ p ∷ []) t sent (append-nil _ ∙ h)
read-closing true p (q ∷ queue) taken t sent h =
    rests true closing (q ∷ queue) (taken ++ p ∷ []) t sent (append_assoc taken (p ∷ []) _ ∙ h)
read-closing false p (q ∷ queue) taken t sent h =
    rests false closing (q ∷ queue) (taken ++ p ∷ []) t sent (append_assoc taken (p ∷ []) _ ∙ h)

and_false : (b : Bool) → (b && false) ≡ false
and_false true = refl
and_false false = refl

still_as :
    (t : Transport) (sent : List Packet) (b c : Bool) → b ≡ c → Sending t sent b → Sending t sent c
still_as t sent b c e v = record {
  is_closed = v.is_closed;
  state = v.state;
  queue = v.queue;
  taken = v.taken;
  base = v.base;
  form = v.form;
  delivers = v.delivers;
  still = v.still ∙ e;
}

pub read-Sending :
    (closed : Bool) (state : StreamState) (queue taken : List Packet) (t : Transport)
    (sent : List Packet)
    → Delivers state taken queue sent
    → Sending (step read (made closed state queue taken t)) sent (not closed && is_readable state)
unfolding wisp
read-Sending closed readable [] taken t sent h = rests closed readable [] taken t sent h
read-Sending closed readable (p ∷ queue) taken t sent h =
    rests closed readable queue (taken ++ p ∷ []) t sent (append_assoc taken (p ∷ []) queue ∙ h)
read-Sending closed closing [] taken t sent h = rests closed closing [] taken t sent h
read-Sending closed closing (p ∷ queue) taken t sent h =
    still_as _ sent false _ (sym (and_false (not closed)))
      (read-closing closed p queue taken t sent h)
read-Sending closed ended [] taken t sent h = rests closed ended [] taken t sent h
read-Sending closed ended (p ∷ queue) taken t sent h = rests closed ended (p ∷ queue) taken t sent h
read-Sending closed cancelled [] taken t sent h = rests closed cancelled [] taken t sent h
read-Sending closed cancelled (p ∷ queue) taken t sent h =
    rests closed cancelled (p ∷ queue) taken t sent h
read-Sending closed (errored e) [] taken t sent h = rests closed (errored e) [] taken t sent h
read-Sending closed (errored e) (p ∷ queue) taken t sent h =
    rests closed (errored e) (p ∷ queue) taken t sent h

pub cancel-Sending :
    (closed : Bool) (state : StreamState) (queue taken : List Packet) (t : Transport)
    (sent : List Packet)
    → Delivers state taken queue sent
    → Sending (step cancel (made closed state queue taken t)) sent false
unfolding wisp
cancel-Sending closed state queue taken t sent h =
    still_as _ sent _ false (and_false (not closed)) (by_state state h)
  where
    by_state :
        (state : StreamState)
        → Delivers state taken queue sent
        → Sending (step cancel (made closed state queue taken t)) sent (not closed && false)
    by_state readable h =
        rests closed cancelled [] taken (record t { channel_closed = true }) sent (queue, h)
    by_state closing h =
        rests closed cancelled [] taken (record t { channel_closed = true }) sent (queue, h)
    by_state ended h = rests closed ended queue taken t sent h
    by_state cancelled h = rests closed cancelled queue taken t sent h
    by_state (errored e) h = rests closed (errored e) queue taken t sent h

pub close-Sending :
    (closed : Bool) (state : StreamState) (queue taken : List Packet) (t : Transport)
    (sent : List Packet)
    → Delivers state taken queue sent
    → Sending (close (made closed state queue taken t)) sent false
unfolding wisp
close-Sending true state queue taken t sent h = rests true state queue taken t sent h
close-Sending false readable [] taken t sent h = rests true ended [] taken t sent h
close-Sending false readable (p ∷ queue) taken t sent h =
    rests true closing (p ∷ queue) taken t sent h
close-Sending false closing queue taken t sent h = rests true closing queue taken (throw t) sent h
close-Sending false ended queue taken t sent h = rests true ended queue taken (throw t) sent h
close-Sending false cancelled queue taken t sent h =
    rests true cancelled queue taken (throw t) sent h
close-Sending false (errored e) queue taken t sent h =
    rests true (errored e) queue taken (throw t) sent h

pub abort-Sending :
    (error : Failure) (closed : Bool) (state : StreamState) (queue taken : List Packet)
    (t : Transport) (sent : List Packet)
    → Delivers state taken queue sent
    → Sending (abort error (made closed state queue taken t)) sent false
unfolding wisp
abort-Sending error true state queue taken t sent h = rests true state queue taken t sent h
abort-Sending error false readable queue taken t sent h =
    rests true (errored error) [] taken t sent (queue, h)
abort-Sending error false closing queue taken t sent h =
    rests true (errored error) [] taken t sent (queue, h)
abort-Sending error false ended queue taken t sent h = rests true ended queue taken t sent h
abort-Sending error false cancelled queue taken t sent h = rests true cancelled queue taken t sent h
abort-Sending error false (errored e) queue taken t sent h =
    rests true (errored e) queue taken t sent h
