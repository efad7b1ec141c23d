-- ===== src/Wisp/Throws.antt =====
-- When a listener of `RTCWispTransport` throws.
use scweb_vpn.Common.{◌≡◌, refl, sym, subst, Bool, true, false, not, ◌&&◌, List, [], ◌∷◌, ◌++◌, All}
use scweb_vpn.Wisp.{
  Packet, binary, view, other, StreamState, readable, closing, ended, cancelled, errored, Transport,
  new_transport, start_of, Event, message_event, close_event, error_event, start, read, cancel,
  step, run,
}
use scweb_vpn.Wisp.Steps.{wisp, is_readable, made}

abbrev pub is_cancel : Event → Bool
is_cancel cancel = true
is_cancel e = false

-- Nothing was thrown, and an open transport has a readable stream.
record IsQuiet (t : Transport) : Type 0 where
  is_closed : Bool
  state : StreamState
  queue : List Packet
  taken : List Packet
  base : Transport
  form : t ≡ made is_closed state queue taken base
  unthrown : base.thrown ≡ []
  fits : (not is_closed && not (is_readable state)) ≡ false

IsQuiet-closed :
    (state : StreamState) (queue taken : List Packet) (t : Transport)
    → t.thrown ≡ []
    → IsQuiet (made true state queue taken t)
IsQuiet-closed state queue taken t n = record {
  is_closed = true;
  state = state;
  queue = queue;
  taken = taken;
  base = t;
  form = refl;
  unthrown = n;
  fits = refl;
}

IsQuiet-open :
    (queue taken : List Packet) (t : Transport)
    → t.thrown ≡ []
    → IsQuiet (made false readable queue taken t)
IsQuiet-open queue taken t n = record {
  is_closed = false;
  state = readable;
  queue = queue;
  taken = taken;
  base = t;
  form = refl;
  unthrown = n;
  fits = refl;
}

read-IsQuiet :
    (state : StreamState) (queue taken : List Packet) (t : Transport)
    → t.thrown ≡ []
    → IsQuiet (step read (made true state queue taken t))
unfolding wisp
read-IsQuiet readable [] taken t n = IsQuiet-closed readable [] taken t n
read-IsQuiet readable (p ∷ queue) taken t n = IsQuiet-closed readable queue (taken ++ p ∷ []) t n
read-IsQuiet closing [] taken t n = IsQuiet-closed closing [] taken t n
read-IsQuiet closing (p ∷ []) taken t n = IsQuiet-closed ended [] (taken ++ p ∷ []) t n
read-IsQuiet closing (p ∷ q ∷ queue) taken t n =
    IsQuiet-closed closing (q ∷ queue) (taken ++ p ∷ []) t n
read-IsQuiet ended [] taken t n = IsQuiet-closed ended [] taken t n
read-IsQuiet ended (p ∷ queue) taken t n = IsQuiet-closed ended (p ∷ queue) taken t n
read-IsQuiet cancelled [] taken t n = IsQuiet-closed cancelled [] taken t n
read-IsQuiet cancelled (p ∷ queue) taken t n = IsQuiet-closed cancelled (p ∷ queue) taken t n
read-IsQuiet (errored e) [] taken t n = IsQuiet-closed (errored e) [] taken t n
read-IsQuiet (errored e) (p ∷ queue) taken t n = IsQuiet-closed (errored e) (p ∷ queue) taken t n

closed-IsQuiet :
    (e : Event) (state : StreamState) (queue taken : List Packet) (t : Transport)
    → is_cancel e ≡ false
    → t.thrown ≡ []
    → IsQuiet (step e (made true state queue taken t))
unfolding wisp
closed-IsQuiet (message_event m) state queue taken t c n = IsQuiet-closed state queue taken t n
closed-IsQuiet close_event state queue taken t c n = IsQuiet-closed state queue taken t n
closed-IsQuiet error_event state queue taken t c n = IsQuiet-closed state queue taken t n
closed-IsQuiet start state queue taken t c n = IsQuiet-closed state queue taken t n
closed-IsQuiet read state queue taken t c n = read-IsQuiet state queue taken t n
closed-IsQuiet cancel state queue taken t c n = cc

open-IsQuiet :
    (e : Event) (queue taken : List Packet) (t : Transport)
    → is_cancel e ≡ false
    → t.thrown ≡ []
    → IsQuiet (step e (made false readable queue taken t))
unfolding wisp
open-IsQuiet (message_event (binary p)) queue taken t c n = IsQuiet-open (queue ++ p ∷ []) taken t n
open-IsQuiet (message_event (view b o s)) queue taken t c n =
    IsQuiet-open (queue ++ _ ∷ []) taken t n
open-IsQuiet (message_event other) queue taken t c n = IsQuiet-closed _ [] taken t n
open-IsQuiet close_event [] taken t c n = IsQuiet-closed ended [] taken t n
open-IsQuiet close_event (p ∷ queue) taken t c n = IsQuiet-closed closing (p ∷ queue) taken t n
open-IsQuiet error_event queue taken t c n = IsQuiet-closed _ [] taken t n
open-IsQuiet start queue taken t c n = IsQuiet-open queue taken t n
open-IsQuiet read [] taken t c n = IsQuiet-open [] taken t n
open-IsQuiet read (p ∷ queue) taken t c n = IsQuiet-open queue (taken ++ p ∷ []) t n
open-IsQuiet cancel queue taken t c n = cc

step-made-IsQuiet :
    (e : Event) (closed : Bool) (state : StreamState) (queue taken : List Packet) (t : Transport)
    → is_cancel e ≡ false
    → t.thrown ≡ []
    → (not closed && not (is_readable state)) ≡ false
    → IsQuiet (step e (made closed state queue taken t))
step-made-IsQuiet e true state queue taken t c n f = closed-IsQuiet e state queue taken t c n
step-made-IsQuiet e false readable queue taken t c n f = open-IsQuiet e queue taken t c n
step-made-IsQuiet e false closing queue taken t c n f = cc
step-made-IsQuiet e false ended queue taken t c n f = cc
step-made-IsQuiet e false cancelled queue taken t c n f = cc
step-made-IsQuiet e false (errored x) queue taken t c n f = cc

run-IsQuiet :
    (es : List Event) (t : Transport)
    → All (λ e. is_cancel e ≡ false) es
    → IsQuiet t
    → IsQuiet (run es t)
unfolding run
run-IsQuiet [] t h v = v
run-IsQuiet (e ∷ es) t (c, h) v = run-IsQuiet es (step e t) h (
    subst (λ t'. IsQuiet (step e t')) (sym v.form)
      (step-made-IsQuiet e v.is_closed v.state v.queue v.taken v.base c v.unthrown v.fits))

-- As long as the reader does not cancel, no listener throws, whatever messages, closes and errors
-- the channel brings, in any order and number.
pub run_unthrown :
    (es : List Event) → All (λ e. is_cancel e ≡ false) es → (run es new_transport).thrown ≡ []
unfolding new_transport start_of
run_unthrown es h =
    let v = run-IsQuiet es new_transport h (IsQuiet-open [] [] new_transport refl) in
    subst (λ t. t.thrown ≡ []) (sym v.form) v.unthrown
