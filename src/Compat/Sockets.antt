-- ===== src/Compat/Sockets.antt =====
-- web/src/compat.ts: `RTCEpoxyTransport.connect`, what it hands to the page's handlers and to the socket.
use scweb_vpn.Common.{
  ℕ, zero, suc, ◌≡◌, refl, sym, ap, ◌∙◌, Bool, true, false, Option, none, some, List, [], ◌∷◌, ◌++◌,
  append-nil, append_assoc, All, All-append, String, subst, false≢true,
}
use scweb_vpn.Common.Texts.{Text}

-- What the client reports of a socket, and the handler that is called for it.
pub data SocketEvent : Type 0 where
  opened remote_closed : SocketEvent
  failed : Text → SocketEvent
  received_text : Text → SocketEvent
  received_bytes : Text → SocketEvent

pub data HandlerCall : Type 0 where
  onopen : (protocol extensions : String) → HandlerCall
  onclose : (code : ℕ) (reason : String) → HandlerCall
  onerror : Text → HandlerCall
  onmessage_text : Text → HandlerCall
  onmessage_buffer : Text → HandlerCall

unfoldable pub handler_call : SocketEvent → HandlerCall
handler_call opened = onopen "" ""
handler_call remote_closed = onclose 1000 "Closed by remote"
handler_call (failed e) = onerror e
handler_call (received_text t) = onmessage_text t
handler_call (received_bytes b) = onmessage_buffer b

-- A text or bytes go to the socket as soon as it is there; a Blob is read into bytes first.
pub data Outgoing : Type 0 where
  plain : Text → Outgoing
  blob : Text → Outgoing

-- The calls that await the socket, the Blobs that are read, and what the socket was given.
pub record Socket : Type 0 where
  pub is_there : Bool
  pub held : List Outgoing
  pub reading : List Text
  pub delivered : List Text

abbrev pub new_socket : Socket
new_socket = record { is_there = false; held = []; reading = []; delivered = [] }

pub deliver : Outgoing → Socket → Socket
deliver (plain t) s = record s { delivered = s.delivered ++ t ∷ [] }
deliver (blob t) s = record s { reading = s.reading ++ t ∷ [] }

pub deliver_all : List Outgoing → Socket → Socket
unfolding deliver
deliver_all [] s = s
deliver_all (o ∷ os) s = deliver_all os (deliver o s)

-- The Blob at place `n` has been read.
pub read_blob : ℕ → List Text → List Text → Socket → Socket
read_blob n before [] s = s
read_blob zero before (t ∷ ts) s = record s {
  reading = before ++ ts;
  delivered = s.delivered ++ t ∷ [];
}
read_blob (suc n) before (t ∷ ts) s = read_blob n (before ++ t ∷ []) ts s

pub data SendEvent : Type 0 where
  sends : Outgoing → SendEvent
  socket_there : SendEvent
  blob_read : ℕ → SendEvent

pub on_send : Bool → Outgoing → Socket → Socket
unfolding deliver
on_send true o s = deliver o s
on_send false o s = record s { held = s.held ++ o ∷ [] }

unfoldable pub send_step : SendEvent → Socket → Socket
unfolding on_send deliver_all read_blob
send_step (sends o) s = on_send s.is_there o s
send_step socket_there s = deliver_all s.held (record s { is_there = true; held = [] })
send_step (blob_read n) s = read_blob n [] s.reading s

unfoldable pub send_run : List SendEvent → Socket → Socket
unfolding send_step
send_run [] s = s
send_run (e ∷ es) s = send_run es (send_step e s)

-- `close(code, reason)` with the reason that may be missing.
unfoldable pub close_reason : Option Text → Text
close_reason none = []
close_reason (some r) = r

abbrev pub content : Outgoing → Text
content (plain t) = t
content (blob t) = t

abbrev pub sent_texts : List SendEvent → List Text
sent_texts [] = []
sent_texts (sends o ∷ es) = content o ∷ sent_texts es
sent_texts (e ∷ es) = sent_texts es

abbrev pub NoBlob : SendEvent → Type 0
NoBlob (sends (blob t)) = ⊥
NoBlob e = Unit {0}

abbrev IsPlain : Outgoing → Type 0
IsPlain (plain t) = Unit {0}
IsPlain (blob t) = ⊥

abbrev pub contents : List Outgoing → List Text
contents [] = []
contents (o ∷ os) = content o ∷ contents os

contents-append : (os ps : List Outgoing) → contents (os ++ ps) ≡ contents os ++ contents ps
contents-append [] ps = refl
contents-append (o ∷ os) ps = rw (contents-append os ps)

-- A call awaits the socket only before it is there.
abbrev pub NoneHeld : Bool → List Outgoing → Type 0
NoneHeld true held = held ≡ []
NoneHeld false held = Unit {0}

NoneHeld-of : (there : Bool) (held : List Outgoing) → there ≡ true → NoneHeld there held → held ≡ []
NoneHeld-of true held is h = h
NoneHeld-of false held is h = absurd (false≢true is)

NoneHeld-before : (there : Bool) (held : List Outgoing) → there ≡ false → NoneHeld there held
NoneHeld-before true held is = absurd (false≢true (sym is))
NoneHeld-before false held is = tt

-- All that was sent is given or held, in its order; nothing is held once the socket is there.
record InOrder (calls : List Text) (s : Socket) : Type 0 where
  order : s.delivered ++ contents s.held ≡ calls
  all_plain : All IsPlain s.held
  none_read : s.reading ≡ []
  none_held : NoneHeld s.is_there s.held

deliver_all-plain :
    (os : List Outgoing) (there : Bool) (held : List Outgoing) (reading delivered : List Text)
    → All IsPlain os
    → deliver_all os
        (record { is_there = there; held = held; reading = reading; delivered = delivered })
      ≡ record {
        is_there = there;
        held = held;
        reading = reading;
        delivered = delivered ++ contents os;
      }
unfolding deliver_all
deliver_all-plain [] there held reading delivered h = rw (append-nil delivered)
deliver_all-plain (plain t ∷ os) there held reading delivered (_, h) =
    deliver_all-plain os there held reading (delivered ++ t ∷ []) h
    ∙ rw (append_assoc delivered (t ∷ []) (contents os))
deliver_all-plain (blob t ∷ os) there held reading delivered (b, h) = absurd b

sent_texts_cons :
    (e : SendEvent) (es : List SendEvent)
    → sent_texts (e ∷ []) ++ sent_texts es ≡ sent_texts (e ∷ es)
sent_texts_cons (sends o) es = refl
sent_texts_cons socket_there es = refl
sent_texts_cons (blob_read n) es = refl

step-InOrder :
    (e : SendEvent) (calls : List Text) (s : Socket)
    → NoBlob e
    → InOrder calls s
    → InOrder (calls ++ sent_texts (e ∷ [])) (send_step e s)
unfolding send_step
step-InOrder (sends (blob t)) calls s b v = absurd b
step-InOrder (sends (plain t)) calls s b v = by_there s.is_there refl
  where
    by_there :
        (there : Bool) → s.is_there ≡ there → InOrder (calls ++ t ∷ []) (on_send there (plain t) s)
    by_there true is = record {
      order =
          append_assoc s.delivered (t ∷ []) (contents s.held)
          ∙ ap (λ h. s.delivered ++ t ∷ contents h) (NoneHeld-of s.is_there s.held is v.none_held)
          ∙ ap (λ l. l ++ t ∷ [])
              (sym (append-nil s.delivered)
                ∙ ap (λ h. s.delivered ++ contents h)
                    (sym (NoneHeld-of s.is_there s.held is v.none_held))
                ∙ v.order);
      all_plain = v.all_plain;
      none_read = v.none_read;
      none_held = v.none_held;
    }
    by_there false is = record {
      order =
          ap (λ l. s.delivered ++ l) (contents-append s.held (plain t ∷ []))
          ∙ sym (append_assoc s.delivered (contents s.held) (t ∷ []))
          ∙ ap (λ l. l ++ t ∷ []) v.order;
      all_plain = All-append IsPlain s.held (plain t ∷ []) v.all_plain (tt, tt);
      none_read = v.none_read;
      none_held = NoneHeld-before s.is_there _ is;
    }
step-InOrder socket_there calls s b v =
    rw (deliver_all-plain s.held true [] s.reading s.delivered v.all_plain) (
      rw (append-nil calls) (record {
        order = append-nil _ ∙ v.order;
        all_plain = tt;
        none_read = v.none_read;
        none_held = refl;
      }))
step-InOrder (blob_read n) calls s b v =
    rw (append-nil calls) (subst (λ r. InOrder calls (read_blob n [] r s)) (sym v.none_read) v)

run-InOrder :
    (es : List SendEvent) (calls : List Text) (s : Socket)
    → All NoBlob es
    → InOrder calls s
    → InOrder (calls ++ sent_texts es) (send_run es s)
unfolding send_run
run-InOrder [] calls s h v = rw (append-nil calls) v
run-InOrder (e ∷ es) calls s (b, h) v =
    subst (λ l. InOrder l (send_run es (send_step e s)))
      (append_assoc calls (sent_texts (e ∷ [])) (sent_texts es)
        ∙ ap (λ l. calls ++ l) (sent_texts_cons e es))
      (run-InOrder es (calls ++ sent_texts (e ∷ [])) (send_step e s) h (step-InOrder e calls s b v))

-- If no Blob is sent, what the socket was given and then what awaits it are the data that the
-- page sent, in its order, whenever the socket comes; once it is there nothing awaits it.
pub send_run-KeepsOrder :
    (es : List SendEvent)
    → All NoBlob es
    → ((send_run es new_socket).delivered ++ contents (send_run es new_socket).held ≡ sent_texts es)
      × NoneHeld (send_run es new_socket).is_there (send_run es new_socket).held
send_run-KeepsOrder es h = (r.order, r.none_held)
  where
    r : InOrder (sent_texts es) (send_run es new_socket)
    r =
        run-InOrder es [] new_socket h
          (record { order = refl; all_plain = tt; none_read = refl; none_held = tt })
