-- ===== src/Wisp/Sent.antt =====
-- What the write stream has handed to the channel of all that it took.
use scweb_vpn.Common.{
  ◌≡◌, refl, sym, ap, ◌∙◌, ℕ, Bool, true, false, Option, none, some, List, [], ◌∷◌, ◌++◌, Failure,
  Bool-cases, inl, inr, append-nil, append_assoc, ltb,
}
use scweb_vpn.Wisp.{Packet}
use scweb_vpn.Wisp.Writer.{Writer, high_water_mark, attempt, turn, on_low, on_channel_close}
use scweb_vpn.Wisp.Writes.{
  Phase, running, erroring, closed, errored, Flight, idle, writing, WriteStream, new_stream, Ask,
  write_packet, close_stream, abort_stream, write_settles, drained, low, channel_shut, channel_gone,
  give_up, next_write, ask, asks,
}

abbrev pub held : Option Packet → List Packet
held none = []
held (some p) = p ∷ []

-- What was sent is a first part of what was taken.
abbrev pub IsFirstPart : List Packet → List Packet → Type 0
IsFirstPart sent taken = (rest : List Packet) × (sent ++ rest ≡ taken)

-- A write in flight: what was sent, what the sink holds and the queue are all that was taken, or the
-- write has failed.
pub data Flying : Option Packet → Option Failure → (sent queue taken : List Packet) → Type 0 where
  whole :
      {waiting : Option Packet} {sent queue taken : List Packet}
      → sent ++ (held waiting ++ queue) ≡ taken
      → Flying waiting none sent queue taken
  lost :
      {e : Failure} {sent queue taken : List Packet}
      → IsFirstPart sent taken
      → Flying none (some e) sent queue taken

pub data Kept
    : Phase
      → Flight
      → Option Packet
      → Option Failure
      → (sent queue taken : List Packet) → Type 0 where
  resting :
      {asked : Bool} {sent queue taken : List Packet}
      → sent ++ queue ≡ taken
      → Kept (running asked) idle none none sent queue taken
  sending :
      {asked : Bool} {waiting : Option Packet} {failed : Option Failure}
      {sent queue taken : List Packet}
      → Flying waiting failed sent queue taken
      → Kept (running asked) writing waiting failed sent queue taken
  ending :
      {waiting : Option Packet} {failed : Option Failure} {sent queue taken : List Packet}
      → Flying waiting failed sent queue taken
      → Kept erroring writing waiting failed sent queue taken
  stopped :
      {failed : Option Failure} {sent queue taken : List Packet}
      → IsFirstPart sent taken
      → Kept errored idle none failed sent queue taken
  finished :
      {failed : Option Failure} {sent queue taken : List Packet}
      → sent ≡ taken
      → Kept closed idle none failed sent queue taken

abbrev pub IsKept : WriteStream → Type 0
IsKept s = Kept s.phase s.flight s.sink.waiting s.sink.failed s.sink.sent s.queue s.taken

abbrev IsFlying : Writer → List Packet → List Packet → Type 0
IsFlying w queue taken = Flying w.waiting w.failed w.sent queue taken

attempt-IsFlying :
    (p : Packet) (w : Writer) (queue taken : List Packet)
    → w.failed ≡ none
    → w.sent ++ (p ∷ queue) ≡ taken
    → IsFlying (attempt p w) queue taken
unfolding attempt
attempt-IsFlying p w queue taken fresh e = elim (Bool-cases (ltb high_water_mark w.buffered)) [
  | inl full ↦ rw (full, fresh) (whole e)
  | inr room ↦ rw room (elim (Bool-cases w.is_open) [
    | inl opened ↦ rw (opened, fresh) (whole (append_assoc w.sent (p ∷ []) queue ∙ e))
    | inr shut ↦ rw shut (lost (p ∷ queue, e))
  ])
]

on_low-IsFlying :
    {waiting : Option Packet} {failed : Option Failure} {sent queue taken : List Packet}
    (buffered : ℕ) (is_open : Bool)
    → Flying waiting failed sent queue taken
    → IsFlying
        (on_low waiting (record {
          buffered = buffered;
          is_open = is_open;
          sent = sent;
          waiting = waiting;
          failed = failed;
        }))
        queue
        taken
unfolding on_low
on_low-IsFlying buffered is_open (whole {waiting = none} e) = whole e
on_low-IsFlying buffered is_open (whole {waiting = some p} {sent} {queue} {taken} e) =
    attempt-IsFlying p
      (record {
        buffered = buffered;
        is_open = is_open;
        sent = sent;
        waiting = some p;
        failed = none;
      })
      queue taken refl e
on_low-IsFlying buffered is_open (lost h) = lost h

on_channel_close-IsFlying :
    {waiting : Option Packet} {failed : Option Failure} {sent queue taken : List Packet}
    (buffered : ℕ) (is_open : Bool)
    → Flying waiting failed sent queue taken
    → IsFlying
        (on_channel_close waiting (record {
          buffered = buffered;
          is_open = is_open;
          sent = sent;
          waiting = waiting;
          failed = failed;
        }))
        queue
        taken
unfolding on_channel_close
on_channel_close-IsFlying buffered is_open (whole {waiting = none} e) = whole e
on_channel_close-IsFlying buffered is_open (whole {waiting = some p} {queue = q} e) =
    lost (p ∷ q, e)
on_channel_close-IsFlying buffered is_open (lost h) = lost h

-- A stream by its fields.
abbrev pub stream_of :
    Phase
    → Flight
    → Option Packet
    → Option Failure
    → (sent queue taken : List Packet) → ℕ
    → Bool
    → Bool
    → WriteStream
stream_of phase flight waiting failed sent queue taken buffered is_open aborting = record {
  sink = record {
    buffered = buffered;
    is_open = is_open;
    sent = sent;
    waiting = waiting;
    failed = failed;
  };
  queue = queue;
  phase = phase;
  flight = flight;
  aborting = aborting;
  taken = taken;
}

next_write-IsKept :
    (asked : Bool) (sent queue taken : List Packet) (buffered : ℕ) (is_open aborting : Bool)
    → sent ++ queue ≡ taken
    → IsKept (
        next_write
          (running asked)
          queue
          (stream_of (running asked) idle none none sent queue taken buffered is_open aborting))
next_write-IsKept asked sent (p ∷ q) taken buffered is_open aborting e =
    sending (attempt-IsFlying p _ q taken refl e)
next_write-IsKept true sent [] taken buffered is_open aborting e =
    finished (sym (append-nil sent) ∙ e)
next_write-IsKept false sent [] taken buffered is_open aborting e = resting e

give_up-IsKept :
    (phase : Phase) (flight : Flight) (failed : Option Failure) (sent queue taken : List Packet)
    (buffered : ℕ) (is_open aborting : Bool)
    → IsFirstPart sent taken
    → IsKept
        (give_up (stream_of phase flight none failed sent queue taken buffered is_open aborting))
give_up-IsKept phase flight failed sent queue taken buffered is_open true h = stopped h
give_up-IsKept phase flight failed sent queue taken buffered is_open false h = stopped h

-- One more packet at the end.
one_more :
    (sent queue taken : List Packet) (p : Packet)
    → sent ++ queue ≡ taken
    → sent ++ (queue ++ p ∷ []) ≡ taken ++ p ∷ []
one_more sent queue taken p e = sym (append_assoc sent queue (p ∷ [])) ∙ ap (λ l. l ++ p ∷ []) e

Flying-more :
    {waiting : Option Packet} {failed : Option Failure} {sent queue taken : List Packet}
    (p : Packet)
    → Flying waiting failed sent queue taken
    → Flying waiting failed sent (queue ++ p ∷ []) (taken ++ p ∷ [])
Flying-more p (whole {waiting} {sent} {queue} {taken} e) = whole (
    ap (λ l. sent ++ l) (sym (append_assoc (held waiting) queue (p ∷ [])))
    ∙ one_more sent (held waiting ++ queue) taken p e)
Flying-more p (lost {sent} {taken} (rest, e)) = lost (rest ++ p ∷ [], one_more sent rest taken p e)

ask-IsKept :
    (a : Ask) {phase : Phase} {flight : Flight} {waiting : Option Packet} {failed : Option Failure}
    {sent queue taken : List Packet} (buffered : ℕ) (is_open aborting : Bool)
    → Kept phase flight waiting failed sent queue taken
    → IsKept
        (ask a (stream_of phase flight waiting failed sent queue taken buffered is_open aborting))
unfolding ask turn
ask-IsKept (write_packet p) b o c (resting {asked = true} e) = resting e
ask-IsKept (write_packet p) b o c (resting {asked = false} {sent} {queue} {taken} e) =
    next_write-IsKept false sent (queue ++ p ∷ []) (taken ++ p ∷ []) b o c
      (one_more sent queue taken p e)
ask-IsKept (write_packet p) b o c (sending {asked = true} f) = sending f
ask-IsKept (write_packet p) b o c (sending {asked = false} f) = sending (Flying-more p f)
ask-IsKept (write_packet p) b o c (ending f) = ending f
ask-IsKept (write_packet p) b o c (stopped h) = stopped h
ask-IsKept (write_packet p) b o c (finished e) = finished e
ask-IsKept close_stream b o c (resting {asked = true} e) = resting e
ask-IsKept close_stream b o c (resting {asked = false} {sent} {queue} {taken} e) =
    next_write-IsKept true sent queue taken b o c e
ask-IsKept close_stream b o c (sending {asked = true} f) = sending f
ask-IsKept close_stream b o c (sending {asked = false} f) = sending f
ask-IsKept close_stream b o c (ending f) = ending f
ask-IsKept close_stream b o c (stopped h) = stopped h
ask-IsKept close_stream b o c (finished e) = finished e
ask-IsKept abort_stream b o c (resting {queue} e) = stopped (queue, e)
ask-IsKept abort_stream b o c (sending f) = ending f
ask-IsKept abort_stream b o c (ending f) = ending f
ask-IsKept abort_stream b o c (stopped h) = stopped h
ask-IsKept abort_stream b o c (finished e) = finished e
ask-IsKept write_settles b o c (resting e) = resting e
ask-IsKept write_settles b o c (sending {asked} (whole {waiting = none} {sent} {queue} {taken} e)) =
    next_write-IsKept asked sent queue taken b o c e
ask-IsKept write_settles b o c (sending (whole {waiting = some p} e)) = sending (whole e)
ask-IsKept write_settles b o c (sending {asked} (lost {e} {sent} {queue} {taken} h)) =
    give_up-IsKept (running asked) writing (some e) sent queue taken b o c h
ask-IsKept write_settles b o c (ending (whole {waiting = none} {sent} {queue} {taken} e)) =
    give_up-IsKept erroring idle none sent queue taken b o c (queue, e)
ask-IsKept write_settles b o c (ending (whole {waiting = some p} e)) = ending (whole e)
ask-IsKept write_settles b o c (ending (lost {e} {sent} {queue} {taken} h)) =
    give_up-IsKept erroring writing (some e) sent queue taken b o c h
ask-IsKept write_settles b o c (stopped h) = stopped h
ask-IsKept write_settles b o c (finished e) = finished e
ask-IsKept (drained n) b o c v = v
ask-IsKept low b o c (resting e) = resting e
ask-IsKept low b o c (sending f) = sending (on_low-IsFlying b o f)
ask-IsKept low b o c (ending f) = ending (on_low-IsFlying b o f)
ask-IsKept low b o c (stopped h) = stopped h
ask-IsKept low b o c (finished e) = finished e
ask-IsKept channel_shut b o c v = v
ask-IsKept channel_gone b o c (resting e) = resting e
ask-IsKept channel_gone b o c (sending f) = sending (on_channel_close-IsFlying b o f)
ask-IsKept channel_gone b o c (ending f) = ending (on_channel_close-IsFlying b o f)
ask-IsKept channel_gone b o c (stopped h) = stopped h
ask-IsKept channel_gone b o c (finished e) = finished e

pub asks-IsKept : (l : List Ask) (s : WriteStream) → IsKept s → IsKept (asks l s)
unfolding asks
asks-IsKept [] s v = v
asks-IsKept (a ∷ l) s v =
    asks-IsKept l (ask a s) (ask-IsKept a s.sink.buffered s.sink.is_open s.aborting v)

-- A closed stream has sent all; one that runs and has not failed has the rest, in order, in the sink
-- and the queue; any other has sent a first part.
abbrev pub HasSent : Phase → Option Failure → WriteStream → Type 0
HasSent closed failed s = s.sink.sent ≡ s.taken
HasSent (running asked) none s = s.sink.sent ++ (held s.sink.waiting ++ s.queue) ≡ s.taken
HasSent phase failed s = IsFirstPart s.sink.sent s.taken

Kept-HasSent :
    {phase : Phase} {flight : Flight} {waiting : Option Packet} {failed : Option Failure}
    {sent queue taken : List Packet} (buffered : ℕ) (is_open aborting : Bool)
    → Kept phase flight waiting failed sent queue taken
    → HasSent phase failed
        (stream_of phase flight waiting failed sent queue taken buffered is_open aborting)
Kept-HasSent b o c (resting e) = e
Kept-HasSent b o c (sending (whole e)) = e
Kept-HasSent b o c (sending (lost h)) = h
Kept-HasSent b o c (ending (whole {waiting} {queue} e)) = (held waiting ++ queue, e)
Kept-HasSent b o c (ending (lost h)) = h
Kept-HasSent b o c (stopped h) = h
Kept-HasSent b o c (finished e) = e

-- From the new stream.
pub asks-HasSent :
    (l : List Ask)
    → HasSent (asks l new_stream).phase (asks l new_stream).sink.failed (asks l new_stream)
asks-HasSent l =
    let s = asks l new_stream in
    Kept-HasSent s.sink.buffered s.sink.is_open s.aborting (asks-IsKept l new_stream (resting refl))
