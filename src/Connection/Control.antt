-- ===== src/Connection/Control.antt =====
-- web/src/connection.ts: `ControlClient`, the requests that wait for an answer on the control
-- channel. The promises are numbered in the order of their requests, and a request's timer has its
-- promise's number. `send` on an open channel is taken to succeed; `JSON.parse` is a parameter.
pub mod Promises
pub mod Steps
pub mod Settling
pub mod Runs
pub mod Answers
use scweb_vpn.Common.{
  ℕ, suc, ◌+◌, Bool, true, false, not, ◌&&◌, ◌||◌, Option, none, some, List, [], ◌∷◌, ◌++◌, filter,
  any, length, ltb, ◌==◌, if◌then◌else◌, Failure, message, String,
}
use scweb_vpn.Common.Texts.{Text, lit, text_eq}
use scweb_vpn.Platform.Json.{Json, str, property, is_falsy}

pub data ReadyState : Type 0 where
  connecting open_state closing closed : ReadyState

-- `expectedType`.
pub data Kind : Type 0 where
  diagnostic_result temporary_result : Kind

pub data Code : Type 0 where
  ok_code blocked unavailable busy invalid_request : Code

-- `DiagnosticResult`: its code, and the whole answer for its other fields.
pub record DiagnosticResult : Type 0 where
  pub code : Code
  pub answer : Json

pub data Promise : Type 0 where
  unissued waiting : Promise
  resolved : DiagnosticResult → Promise
  rejected : Failure → Promise

pub record Pending : Type 0 where
  pub promise : ℕ
  pub expected : Kind

-- `timers` pairs each armed timer with the identifier in its closure; `sent` is what was sent.
pub record Client : Type 0 where
  pub channel : ReadyState
  pub pending : List (Text × Pending)
  pub timers : List (ℕ × Text)
  pub promises : ℕ → Promise
  pub next : ℕ
  pub sent : List (Text × Json)

abbrev pub new_client : ReadyState → Client
new_client channel = record {
  channel = channel;
  pending = [];
  timers = [];
  promises = λ n. unissued;
  next = 0;
  sent = [];
}

-- `Map.get`, `Map.set` (in place, or at the end) and `Map.delete`.
unfoldable pub map_get : List (Text × Pending) → Text → Option Pending
map_get [] id = none
map_get ((k, p) ∷ m) id = if text_eq k id then some p else map_get m id

unfoldable pub map_set : List (Text × Pending) → Text → Pending → List (Text × Pending)
map_set [] id p = (id, p) ∷ []
map_set ((k, q) ∷ m) id p = if text_eq k id then (k, p) ∷ m else (k, q) ∷ map_set m id p

unfoldable pub map_delete : List (Text × Pending) → Text → List (Text × Pending)
map_delete [] id = []
map_delete ((k, p) ∷ m) id =
    let rest = map_delete m id in if text_eq k id then rest else (k, p) ∷ rest

-- A promise is settled once: a later call changes nothing.
abbrev settled : Promise → Promise → Promise
settled waiting outcome = outcome
settled p outcome = p

unfoldable pub settle : ℕ → Promise → (ℕ → Promise) → ℕ → Promise
settle n outcome promises m = if n == m then settled (promises m) outcome else promises m

abbrev write : ℕ → Promise → (ℕ → Promise) → ℕ → Promise
write n p promises m = if n == m then p else promises m

-- `window.clearTimeout`.
unfoldable pub clear_timer : ℕ → List (ℕ × Text) → List (ℕ × Text)
clear_timer n timers = filter (λ t. not (t.0 == n)) timers

-- `clearTimeout(pending.timer)` with `resolve` or `reject`.
unfoldable pub finish : ℕ → Promise → Client → Client
finish n outcome c = record c {
  timers = clear_timer n c.timers;
  promises = settle n outcome c.promises;
}

abbrev close_channel : Client → Client
close_channel c = record c { channel = elim c.channel [ closed ↦ closed | _ ↦ closing ] }

abbrev issue : Text → Json → Kind → ReadyState → Client → Client
issue id value expected open_state c = record c {
  pending = map_set c.pending id (record { promise = c.next; expected = expected });
  timers = c.timers ++ (c.next, id) ∷ [];
  promises = write c.next waiting c.promises;
  next = suc c.next;
  sent = c.sent ++ (id, value) ∷ [];
}
issue id value expected channel c = record c {
  promises = write c.next (rejected (message "诊断通道不可用")) c.promises;
  next = suc c.next;
}

-- `request(value, expectedType)` with the identifier that `randomControlID` draws.
unfoldable pub request : Text → Json → Kind → Client → Client
request id value expected c = issue id value expected c.channel c

-- The timer's callback.
abbrev on_timeout : Option Text → ℕ → Client → Client
on_timeout none n c = c
on_timeout (some id) n c =
    finish n (rejected (message "诊断请求超时")) (record c { pending = map_delete c.pending id })

timer_id : ℕ → List (ℕ × Text) → Option Text
timer_id n [] = none
timer_id n ((m, id) ∷ timers) = if m == n then some id else timer_id n timers

unfoldable pub timeout : ℕ → Client → Client
unfolding timer_id
timeout n c = on_timeout (timer_id n c.timers) n c

pub kind_of : Option Json → Option Kind
kind_of (some (str t)) =
    if text_eq t (lit "diagnostic_result")
    then some diagnostic_result
    else if text_eq t (lit "temporary_result")
    then some temporary_result
    else none
kind_of other = none

pub code_of : Option Json → Option Code
code_of (some (str t)) =
    if text_eq t (lit "ok")
    then some ok_code
    else if text_eq t (lit "blocked")
    then some blocked
    else if text_eq t (lit "unavailable")
    then some unavailable
    else if text_eq t (lit "busy")
    then some busy
    else if text_eq t (lit "invalid_request")
    then some invalid_request
    else none
code_of other = none

-- `this.pending.get(response.id)`: only a string is a key of the map.
find_pending : List (Text × Pending) → Option Json → Option (Text × Pending)
find_pending pending (some (str id)) = elim (map_get pending id) [
  | none ↦ none
  | some p ↦ some (id, p)
]
find_pending pending other = none

abbrev same_kind : Kind → Kind → Bool
same_kind diagnostic_result diagnostic_result = true
same_kind temporary_result temporary_result = true
same_kind _ _ = false

abbrev answer_pending : Kind → DiagnosticResult → Option (Text × Pending) → Client → Client
answer_pending kind result none c = c
answer_pending kind result (some (id, p)) c =
    if same_kind kind p.expected
    then finish p.promise (resolved result) (record c { pending = map_delete c.pending id })
    else close_channel c

answer : Option Kind → Option Code → Json → Client → Client
unfolding find_pending
answer none code response c = close_channel c
answer (some kind) code response c =
    if is_falsy (property response "id") then close_channel c else elim code [
      | none ↦ close_channel c
      | some code' ↦
          answer_pending kind (record { code = code'; answer = response })
            (find_pending c.pending (property response "id")) c
    ]

abbrev parsed : Option Json → Client → Client
parsed none c = close_channel c
parsed (some response) c =
    answer (kind_of (property response "type")) (code_of (property response "code")) response c

-- `receive(value)`; a value that is no string is none.
unfoldable pub receive : (Text → Option Json) → Option Text → Client → Client
unfolding answer kind_of code_of
receive parse none c = close_channel c
receive parse (some value) c =
    if ltb 512 (length value) then close_channel c else parsed (parse value) c

-- The loop of `failAll`.
reject_each : Failure → List (Text × Pending) → Client → Client
reject_each error [] c = c
reject_each error ((id, p) ∷ pending) c =
    reject_each error pending (finish p.promise (rejected error) c)

unfoldable pub fail_all : Failure → Client → Client
unfolding reject_each
fail_all error c = record (reject_each error c.pending c) { pending = [] }

-- The listeners of `close` and `error`.
unfoldable pub on_close : Client → Client
unfolding fail_all
on_close c = fail_all (message "诊断通道已关闭") (record c { channel = closed })

unfoldable pub on_error : Client → Client
unfolding fail_all
on_error c = fail_all (message "诊断通道发生错误") c
