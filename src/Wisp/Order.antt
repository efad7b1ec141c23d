-- ===== src/Wisp/Order.antt =====
-- What the read stream of `RTCWispTransport` gives, in every run of its listeners and its reader.
use scweb_vpn.Common.{
  ◌≡◌, refl, sym, ap, ◌∙◌, Bool, true, false, not, ◌&&◌, Option, none, some, List, [], ◌∷◌, ◌++◌,
  append-nil, append_assoc, subst, if◌then◌else◌,
}
use scweb_vpn.Wisp.{
  Packet, binary, view, other, StreamState, readable, closing, ended, cancelled, errored, Stream,
  Transport, throw, new_transport, enqueue, take, drop, receive, start_of, Event, message_event,
  close_event, error_event, start, read, cancel, step, run,
}
use scweb_vpn.Wisp.Steps.{
  wisp, sent_by, goes_on, packets, Delivers, is_readable, made, Sending, rests, read-Sending,
  cancel-Sending, close-Sending, abort-Sending,
}

enqueue-Sending :
    (p : Packet) (state : StreamState) (queue taken : List Packet) (t : Transport)
    (sent : List Packet)
    → Delivers state taken queue sent
    → Sending
        (enqueue p (made false state queue taken t).controller (made false state queue taken t))
        (sent ++ (if is_readable state then p ∷ [] else []))
        (is_readable state)
unfolding wisp
enqueue-Sending p readable queue taken t sent h =
    rests false readable (queue ++ p ∷ []) taken t (sent ++ p ∷ [])
      (sym (append_assoc taken queue (p ∷ [])) ∙ ap (λ l. l ++ p ∷ []) h)
enqueue-Sending p closing queue taken t sent h =
    rests false closing queue taken (throw t) (sent ++ []) (h ∙ sym (append-nil sent))
enqueue-Sending p ended queue taken t sent h =
    rests false ended queue taken (throw t) (sent ++ []) (h ∙ sym (append-nil sent))
enqueue-Sending p cancelled queue taken t sent (rest, h) =
    rests false cancelled queue taken (throw t) (sent ++ []) (rest, h ∙ sym (append-nil sent))
enqueue-Sending p (errored e) queue taken t sent (rest, h) =
    rests false (errored e) queue taken (throw t) (sent ++ []) (rest, h ∙ sym (append-nil sent))

-- What an event adds to the sent packets, and whether the stream is live after it.
abbrev more : Bool → Event → List Packet
more false e = []
more true e = sent_by e

abbrev on : Bool → Event → Bool
on false e = false
on true e = goes_on e

-- An event that ends the stream, and one that does not touch it, bring no packet.
ends :
    (e : Event) (b : Bool) (t : Transport) (sent : List Packet)
    → sent_by e ≡ []
    → goes_on e ≡ false
    → Sending t sent false
    → Sending t (sent ++ more b e) (on b e)
ends e false t sent f g v = subst (λ l. Sending t l false) (sym (append-nil sent)) v
ends e true t sent f g v = rw f (rw g (subst (λ l. Sending t l false) (sym (append-nil sent)) v))

passes :
    (e : Event) (b : Bool) (t : Transport) (sent : List Packet)
    → sent_by e ≡ []
    → goes_on e ≡ true
    → Sending t sent b
    → Sending t (sent ++ more b e) (on b e)
passes e false t sent f g v = subst (λ l. Sending t l false) (sym (append-nil sent)) v
passes e true t sent f g v = rw f (rw g (subst (λ l. Sending t l true) (sym (append-nil sent)) v))

if_live :
    (e : Event) (p : Packet) (b : Bool) (t : Transport) (sent : List Packet)
    → sent_by e ≡ p ∷ []
    → goes_on e ≡ true
    → Sending t (sent ++ (if b then p ∷ [] else [])) b
    → Sending t (sent ++ more b e) (on b e)
if_live e p true t sent f g v = rw f (rw g v)
if_live e p false t sent f g v = v

binary-Sending :
    (p : Packet) (closed : Bool) (state : StreamState) (queue taken : List Packet) (t : Transport)
    (sent : List Packet)
    → Delivers state taken queue sent
    → Sending
        (receive (binary p) (made closed state queue taken t))
        (sent ++ more (not closed && is_readable state) (message_event (binary p)))
        (on (not closed && is_readable state) (message_event (binary p)))
unfolding wisp
binary-Sending p true state queue taken t sent h =
    subst (λ l. Sending (made true state queue taken t) l false) (sym (append-nil sent))
      (rests true state queue taken t sent h)
binary-Sending p false state queue taken t sent h =
    if_live (message_event (binary p)) p (is_readable state) _ sent refl refl
      (enqueue-Sending p state queue taken t sent h)

step-made-Sending :
    (e : Event) (closed : Bool) (state : StreamState) (queue taken : List Packet) (t : Transport)
    (sent : List Packet)
    → Delivers state taken queue sent
    → Sending
        (step e (made closed state queue taken t))
        (sent ++ more (not closed && is_readable state) e)
        (on (not closed && is_readable state) e)
unfolding wisp
step-made-Sending (message_event (binary p)) closed state queue taken t sent h =
    binary-Sending p closed state queue taken t sent h
step-made-Sending (message_event (view buffer offset size)) closed state queue taken t sent h =
    by_closed closed
  where
    by_closed :
        (closed : Bool)
        → Sending
            (receive (view buffer offset size) (made closed state queue taken t))
            (sent
              ++ more (not closed && is_readable state) (message_event (view buffer offset size)))
            (on (not closed && is_readable state) (message_event (view buffer offset size)))
    by_closed true =
        subst (λ l. Sending (made true state queue taken t) l false) (sym (append-nil sent))
          (rests true state queue taken t sent h)
    by_closed false =
        if_live (message_event (view buffer offset size)) (take size (drop offset buffer))
          (is_readable state) _ sent refl refl
          (enqueue-Sending (take size (drop offset buffer)) state queue taken t sent h)
step-made-Sending (message_event other) closed state queue taken t sent h =
    ends (message_event other) _ _ sent refl refl (text-Sending closed)
  where
    text-Sending :
        (closed : Bool) → Sending (receive other (made closed state queue taken t)) sent false
    text-Sending true = rests true state queue taken t sent h
    text-Sending false = abort-Sending _ false state queue taken t sent h
step-made-Sending close_event closed state queue taken t sent h =
    ends close_event _ _ sent refl refl (close-Sending closed state queue taken t sent h)
step-made-Sending error_event closed state queue taken t sent h =
    ends error_event _ _ sent refl refl (abort-Sending _ closed state queue taken t sent h)
step-made-Sending start closed state queue taken t sent h =
    passes start _ _ sent refl refl (rests closed state queue taken t sent h)
step-made-Sending read closed state queue taken t sent h =
    passes read _ _ sent refl refl (read-Sending closed state queue taken t sent h)
step-made-Sending cancel closed state queue taken t sent h =
    ends cancel _ _ sent refl refl (cancel-Sending closed state queue taken t sent h)

step-Sending :
    (e : Event) (t : Transport) (sent : List Packet) (live : Bool)
    → Sending t sent live
    → Sending (step e t) (sent ++ more live e) (on live e)
step-Sending e t sent live v =
    subst (λ t'. Sending (step e t') (sent ++ more live e) (on live e)) (sym v.form)
      (subst
        (λ b.
          Sending (step e (made v.is_closed v.state v.queue v.taken v.base)) (sent ++ more b e)
            (on b e))
        v.still (step-made-Sending e v.is_closed v.state v.queue v.taken v.base sent v.delivers))

packets-more :
    (live : Bool) (e : Event) (es : List Event)
    → packets live (e ∷ es) ≡ more live e ++ packets (on live e) es
packets-more true e es = refl
packets-more false e es = refl

packets-nil : (live : Bool) → packets live [] ≡ []
packets-nil true = refl
packets-nil false = refl

run-Sending :
    (es : List Event) (t : Transport) (sent : List Packet) (live : Bool)
    → Sending t sent live
    → (live' : Bool) × Sending (run es t) (sent ++ packets live es) live'
unfolding run
run-Sending [] t sent live v =
    (live, rw (packets-nil live) (subst (λ l. Sending t l live) (sym (append-nil sent)) v))
run-Sending (e ∷ es) t sent live v =
    let (live', w) =
      run-Sending es (step e t) (sent ++ more live e) (on live e) (step-Sending e t sent live v) in
    (
      live',
      rw (packets-more live e es)
          (subst (λ l. Sending (run es (step e t)) l live') (append_assoc sent (more live e) _) w),
    )

-- The stream of a transport has delivered what was sent.
abbrev pub HasDelivered : Option Stream → List Packet → Type 0
HasDelivered none sent = ⊥
HasDelivered (some s) sent = Delivers s.state s.taken s.queue sent

Sending-HasDelivered :
    (t : Transport) (sent : List Packet) (live : Bool)
    → Sending t sent live
    → HasDelivered t.controller sent
Sending-HasDelivered t sent live v =
    subst (λ t'. HasDelivered t'.controller sent) (sym v.form) v.delivers

-- After any sequence of messages, channel events, reads and a cancel, what the reader took and the
-- queue are the binary packets that came before the stream's end, in their order, none lost or
-- repeated; if the reader cancelled or the stream failed, what it took is a first part of them.
pub run-HasDelivered :
    (es : List Event) → HasDelivered (run es new_transport).controller (packets true es)
unfolding new_transport start_of
run-HasDelivered es =
    let (live, v) =
      run-Sending es new_transport [] true (rests false readable [] [] new_transport [] refl) in
    Sending-HasDelivered _ _ live v
