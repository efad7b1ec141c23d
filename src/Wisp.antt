-- ===== src/Wisp.antt =====
-- web/src/rtc-stream.ts: `RTCWispTransport`, the two streams over a data channel. A stream is what its
-- standard says of it, as far as the code uses it: its queue, what was read, and its state.
pub mod Steps
pub mod Order
pub mod Throws
pub mod Writer
pub mod Writes
pub mod Sent
pub mod Taken
pub mod Drained
mod Tests
use scweb_vpn.Common.{
  ℕ, zero, suc, ◌+◌, ◌*◌, ◌^◌, Bool, true, false, not, ◌&&◌, Option, none, some, List, [], ◌∷◌,
  ◌++◌, if◌then◌else◌, Failure, message, ltb, length,
}

abbrev pub Packet : Type 0
Packet = List ℕ

-- `event.data`: an ArrayBuffer, a view on one, or something else.
pub data Message : Type 0 where
  binary : Packet → Message
  view : (buffer : Packet) (offset size : ℕ) → Message
  other : Message

-- `cancelled` is closed by the reader, `ended` by the source with all its packets read.
pub data StreamState : Type 0 where
  readable closing ended cancelled : StreamState
  errored : Failure → StreamState

pub record Stream : Type 0 where
  pub queue : List Packet
  pub taken : List Packet
  pub state : StreamState

abbrev pub empty_stream : Stream
empty_stream = record { queue = []; taken = []; state = readable }

-- `thrown` has the exceptions that no one catches.
pub record Transport : Type 0 where
  pub controller : Option Stream
  pub pending : List Packet
  pub closed : Bool
  pub channel_closed : Bool
  pub thrown : List Failure

-- The fields as they are declared.
abbrev new_object : Transport
new_object = record {
  controller = none;
  pending = [];
  closed = false;
  channel_closed = false;
  thrown = [];
}

abbrev pub throw : Transport → Transport
throw t = record t { thrown = t.thrown ++ message "TypeError" ∷ [] }

-- `controller.enqueue`, `controller.close` and `controller.error`.
pub enqueue_to : StreamState → Packet → Stream → Transport → Transport
enqueue_to readable p s t = record t { controller = some (record s { queue = s.queue ++ p ∷ [] }) }
enqueue_to state p s t = throw t

abbrev pub closing_state : List Packet → StreamState
closing_state [] = ended
closing_state (p ∷ q) = closing

pub close_of : StreamState → Stream → Transport → Transport
close_of readable s t = record t { controller = some (record s { state = closing_state s.queue }) }
close_of state s t = throw t

abbrev pub failed_stream : Failure → Stream → Stream
failed_stream error s = record s { queue = []; state = errored error }

pub error_of : StreamState → Failure → Stream → Stream
error_of readable error s = failed_stream error s
error_of closing error s = failed_stream error s
error_of state error s = s

-- `enqueue(packet)`.
pub enqueue : Packet → Option Stream → Transport → Transport
unfolding enqueue_to
enqueue p none t = record t { pending = t.pending ++ p ∷ [] }
enqueue p (some s) t = enqueue_to s.state p s t

pub close_controller : Option Stream → Transport → Transport
unfolding close_of
close_controller none t = t
close_controller (some s) t = close_of s.state s t

-- `close()`, the listener of the channel's close.
unfoldable pub close : Transport → Transport
unfolding close_controller
close t = if t.closed then t else close_controller t.controller (record t { closed = true })

pub error_controller : Failure → Option Stream → Option Stream
unfolding error_of
error_controller error none = none
error_controller error (some s) = some (error_of s.state error s)

-- `abort(error)`.
unfoldable pub abort : Failure → Transport → Transport
unfolding error_controller
abort error t =
    if t.closed
    then t
    else record t { closed = true; controller = error_controller error t.controller }

abbrev pub take : ℕ → Packet → Packet
take zero p = []
take (suc n) [] = []
take (suc n) (b ∷ p) = b ∷ take n p

abbrev pub drop : ℕ → Packet → Packet
drop zero p = p
drop (suc n) [] = []
drop (suc n) (b ∷ p) = drop n p

pub receive_open : Message → Transport → Transport
unfolding enqueue abort
receive_open (binary p) t = enqueue p t.controller t
receive_open (view buffer offset size) t = enqueue (take size (drop offset buffer)) t.controller t
receive_open other t = abort (message "Wisp transport received a non-binary packet") t

-- `receive(value)`.
unfoldable pub receive : Message → Transport → Transport
unfolding receive_open
receive m t = if t.closed then t else receive_open m t

-- `start(controller)`, once: the pending packets go to the stream.
pub start_of : Option Stream → Transport → Transport
start_of none t = record t {
  controller = some (record empty_stream { queue = t.pending });
  pending = [];
}
start_of (some s) t = t

-- The constructor, in which the read stream calls `start`.
unfoldable pub new_transport : Transport
unfolding start_of
new_transport = start_of new_object.controller new_object

-- The reader takes a packet.
pub read_of : List Packet → StreamState → Stream → Stream
read_of (p ∷ q) readable s = record s { queue = q; taken = s.taken ++ p ∷ [] }
read_of (p ∷ q) closing s = record s {
  queue = q;
  taken = s.taken ++ p ∷ [];
  state = closing_state q;
}
read_of q state s = s

pub read_controller : Option Stream → Option Stream
unfolding read_of
read_controller none = none
read_controller (some s) = some (read_of s.queue s.state s)

-- The reader cancels an open stream, and `cancel` closes the channel.
abbrev pub cancelled_stream : Stream → Transport → Transport
cancelled_stream s t = record t {
  controller = some (record s { queue = []; state = cancelled });
  channel_closed = true;
}

pub cancel_of : StreamState → Stream → Transport → Transport
cancel_of readable s t = cancelled_stream s t
cancel_of closing s t = cancelled_stream s t
cancel_of state s t = t

pub cancel_controller : Option Stream → Transport → Transport
unfolding cancel_of
cancel_controller none t = t
cancel_controller (some s) t = cancel_of s.state s t

pub data Event : Type 0 where
  message_event : Message → Event
  close_event error_event start read cancel : Event

unfoldable pub step : Event → Transport → Transport
unfolding receive close abort start_of read_controller cancel_controller
step (message_event m) t = receive m t
step close_event t = close t
step error_event t = abort (message "RTCDataChannel failed") t
step start t = start_of t.controller t
step read t = record t { controller = read_controller t.controller }
step cancel t = cancel_controller t.controller t

unfoldable pub run : List Event → Transport → Transport
unfolding step
run [] t = t
run (e ∷ es) t = run es (step e t)
