-- ===== src/Connection/Control/Steps.antt =====
-- The events of the control channel and the bookkeeping of `ControlClient`, one event at a time.
use scweb_vpn.Common.{
  ℕ, suc, ◌≡◌, refl, true, Option, none, some, List, [], ◌∷◌, arith, All, All-append, ltb, ==_iff,
  ==_refl, Bool-cases, Option-cases, inl, inr, length, message,
}
use scweb_vpn.Common.Texts.{Text, text_eq_iff, text_eq_refl}
use scweb_vpn.Platform.Json.{Json, property, is_falsy}
use scweb_vpn.Connection.Control.{
  Client, ReadyState, open_state, Kind, Code, DiagnosticResult, Pending, resolved, rejected,
  new_client, map_get, map_set, issue, write, request, timeout, timer_id, receive, answer,
  find_pending, parsed, on_timeout, answer_pending, same_kind,
}
use scweb_vpn.Connection.Control.Promises.{
  Inv, entry_holds, map_get-set, map_set-IsMap, holds-set, has_timer-append, All-map,
  finish-delete-Inv,
}

-- Only what concerns neither channel nor sent messages matters.
pub Inv-channel : (c : Client) (s : ReadyState) → Inv c → Inv (record c { channel = s })
Inv-channel c s v = record {
  is_map = v.is_map;
  fresh = v.fresh;
  timed = v.timed;
  held = v.held;
  named = v.named;
}

pub new_client-Inv : (s : ReadyState) → Inv (new_client s)
new_client-Inv s = record {
  is_map = tt;
  fresh = λ n h. refl;
  timed = λ n h. cc;
  held = λ n h. cc;
  named = tt;
}

refused-Inv :
    (c : Client)
    → Inv c
    → Inv (record c {
      promises = write c.next (rejected (message "诊断通道不可用")) c.promises;
      next = suc c.next;
    })
refused-Inv c v = record {
  is_map = v.is_map;
  fresh = λ n h. ground (arith, v.fresh n);
  timed = λ n h. ground (arith, v.timed n);
  held = λ n h. ground (arith, v.held n);
  named = v.named;
}

pub request-Inv :
    (id : Text) (value : Json) (expected : Kind) (c : Client)
    → Inv c
    → map_get c.pending id ≡ none
    → Inv (request id value expected c)
unfolding request
request-Inv id value expected c v g = of_channel c.channel
  where
    p : Pending
    p = record { promise = c.next; expected = expected }

    older :
        (t : ℕ × Text)
        → entry_holds (map_get c.pending t.1) t.0 ≡ true
        → entry_holds (map_get (map_set c.pending id p) t.1) t.0 ≡ true
    older (n, j) h = ground (arith, map_get-set c.pending id j p, text_eq_iff id j)

    newest : entry_holds (map_get (map_set c.pending id p) id) c.next ≡ true
    newest = rw (map_get-set c.pending id id p, text_eq_refl id) (==_refl c.next)

    of_channel : (s : ReadyState) → Inv (issue id value expected s c)
    of_channel open_state = record {
      is_map = map_set-IsMap c.pending id p v.is_map;
      fresh = λ n h. ground (arith, v.fresh n);
      timed = λ n h. ground (arith, v.timed n, has_timer-append n c.timers ((c.next, id) ∷ []));
      held = λ n h. ground (arith, v.held n, holds-set c.pending id p n g);
      named = All-append _ c.timers _ (All-map _ _ c.timers older v.named) (newest, tt);
    }
    of_channel s = refused-Inv c v

answer_pending-Inv :
    (kind : Kind) (result : DiagnosticResult) (found : Option (Text × Pending)) (c : Client)
    → ((id : Text) (p : Pending) → found ≡ some (id, p) → map_get c.pending id ≡ some p)
    → Inv c
    → Inv (answer_pending kind result found c)
answer_pending-Inv kind result none c f v = v
answer_pending-Inv kind result (some (id, p)) c f v =
    elim (Bool-cases (same_kind kind p.expected)) [
      | inl same ↦ rw same (finish-delete-Inv c id p (resolved result) v (f id p refl) (λ e. cc))
      | inr other ↦ rw other (Inv-channel c _ v)
    ]

find_pending-eq-some :
    (pending : List (Text × Pending)) (o : Option Json) (id : Text) (p : Pending)
    → find_pending pending o ≡ some (id, p)
    → map_get pending id ≡ some p
unfolding find_pending
find_pending-eq-some pending o id p h = ground arith

answer-Inv :
    (kind : Option Kind) (code : Option Code) (response : Json) (c : Client)
    → Inv c
    → Inv (answer kind code response c)
unfolding answer
answer-Inv none code response c v = Inv-channel c _ v
answer-Inv (some kind) none response c v = elim (Bool-cases (is_falsy (property response "id"))) [
  | inl missing ↦ rw missing (Inv-channel c _ v)
  | inr given ↦ rw given (Inv-channel c _ v)
]
answer-Inv (some kind) (some code) response c v =
    elim (Bool-cases (is_falsy (property response "id"))) [
      | inl missing ↦ rw missing (Inv-channel c _ v)
      | inr given ↦ rw given (
          answer_pending-Inv kind _ (find_pending c.pending (property response "id")) c
            (find_pending-eq-some c.pending (property response "id")) v)
    ]

pub receive-Inv :
    (parse : Text → Option Json) (value : Option Text) (c : Client)
    → Inv c
    → Inv (receive parse value c)
unfolding receive
receive-Inv parse none c v = Inv-channel c _ v
receive-Inv parse (some value) c v = elim (Bool-cases (ltb 512 (length value))) [
  | inl long ↦ rw long (Inv-channel c _ v)
  | inr short ↦ rw short (of_parse (parse value))
]
  where
    of_parse : (r : Option Json) → Inv (parsed r c)
    of_parse none = Inv-channel c _ v
    of_parse (some response) = answer-Inv _ _ response c v

timer_id-holds :
    (pending : List (Text × Pending)) (n : ℕ) (timers : List (ℕ × Text)) (id : Text)
    → All (λ t. entry_holds (map_get pending t.1) t.0 ≡ true) timers
    → timer_id n timers ≡ some id
    → entry_holds (map_get pending id) n ≡ true
unfolding timer_id
timer_id-holds pending n [] id h e = cc
timer_id-holds pending n ((m, j) ∷ timers) id (h, hs) e =
    ground (arith, timer_id-holds pending n timers id hs)

on_timeout-Inv :
    (c : Client) (n : ℕ) (id : Text) (found : Option Pending)
    → map_get c.pending id ≡ found
    → entry_holds found n ≡ true
    → Inv c
    → Inv (on_timeout (some id) n c)
on_timeout-Inv c n id none g h v = cc
on_timeout-Inv c n id (some p) g h v =
    let same : p.promise ≡ n = (==_iff p.promise n).0 h in
    rw (← same) (finish-delete-Inv c id p (rejected (message "诊断请求超时")) v g (λ e. cc))

pub timeout-Inv : (n : ℕ) (c : Client) → Inv c → Inv (timeout n c)
unfolding timeout
timeout-Inv n c v = elim (Option-cases (timer_id n c.timers)) [
  | inl missing ↦ rw missing v
  | inr (id, found) ↦ rw found (
      on_timeout-Inv c n id (map_get c.pending id) refl
        (timer_id-holds c.pending n c.timers id v.named found) v)
]
