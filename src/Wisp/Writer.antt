-- ===== src/Wisp/Writer.antt =====
-- web/src/rtc-stream.ts: the write stream of `RTCWispTransport`. Its stream calls `write` again only
-- when the last call has settled, and not after a failure.
use scweb_vpn.Common.{
  arith, ℕ, ◌+◌, ◌-◌, ◌*◌, ◌^◌, ◌≤◌, ◌≡◌, Bool, true, false, Option, none, some, List, [], ◌∷◌,
  ◌++◌, All, Bool-cases, inl, inr, if◌then◌else◌, Failure, message, ltb, length,
}
use scweb_vpn.Wisp.{Packet}

abbrev pub high_water_mark : ℕ
high_water_mark = 4 * 2 ^ 20

-- `bufferedAmount` and `readyState` of the channel, what was sent, the packet of a write that waits,
-- and the failure of a write.
pub record Writer : Type 0 where
  pub buffered : ℕ
  pub is_open : Bool
  pub sent : List Packet
  pub waiting : Option Packet
  pub failed : Option Failure

abbrev pub new_writer : Writer
new_writer = record { buffered = 0; is_open = true; sent = []; waiting = none; failed = none }

-- The loop's test and, when it lets the packet through, the rest of `write`.
unfoldable pub attempt : Packet → Writer → Writer
attempt p w =
    if ltb high_water_mark w.buffered
    then record w { waiting = some p }
    else if w.is_open
    then record w { waiting = none; buffered = w.buffered + length p; sent = w.sent ++ p ∷ [] }
    else record w { waiting = none; failed = some (message "RTCDataChannel is not open") }

pub data Turn : Type 0 where
  write : Packet → Turn
  drain : ℕ → Turn
  buffer_low channel_closes : Turn

unfoldable pub start_write : Packet → Option Packet → Option Failure → Writer → Writer
unfolding attempt
start_write p none none w = attempt p w
start_write p waiting failed w = w

unfoldable pub on_low : Option Packet → Writer → Writer
unfolding attempt
on_low none w = w
on_low (some p) w = attempt p w

unfoldable pub on_channel_close : Option Packet → Writer → Writer
on_channel_close none w = record w { is_open = false }
on_channel_close (some p) w = record w {
  is_open = false;
  waiting = none;
  failed = some (message "RTCDataChannel closed");
}

unfoldable pub turn : Turn → Writer → Writer
unfolding start_write on_low on_channel_close
turn (write p) w = start_write p w.waiting w.failed w
turn (drain n) w = record w { buffered = w.buffered - n }
turn buffer_low w = on_low w.waiting w
turn channel_closes w = on_channel_close w.waiting w

unfoldable pub turns : List Turn → Writer → Writer
unfolding turn
turns [] w = w
turns (t ∷ ts) w = turns ts (turn t w)

-- A write of at most `size` bytes.
abbrev pub IsSmall : ℕ → Turn → Type 0
IsSmall size (write p) = length p ≤ size
IsSmall size t = Unit {0}

abbrev WaitsSmall : ℕ → Option Packet → Type 0
WaitsSmall size none = Unit {0}
WaitsSmall size (some p) = length p ≤ size

record IsBounded (size : ℕ) (w : Writer) : Type 0 where
  bound : w.buffered ≤ high_water_mark + size
  small : WaitsSmall size w.waiting

attempt-IsBounded :
    (size : ℕ) (p : Packet) (w : Writer)
    → length p ≤ size
    → IsBounded size w
    → IsBounded size (attempt p w)
unfolding attempt
attempt-IsBounded size p w s v = elim (Bool-cases (ltb high_water_mark w.buffered)) [
  | inl full ↦ rw full (record { bound = v.bound; small = s })
  | inr room ↦ rw room (elim (Bool-cases w.is_open) [
    | inl opened ↦ rw opened (record { bound = past_mark w.buffered room; small = tt })
    | inr shut ↦ rw shut (record { bound = v.bound; small = tt })
  ])
]
  where
    past_mark : (b : ℕ) → ltb high_water_mark b ≡ false → b + length p ≤ high_water_mark + size
    past_mark b room = ground arith

turn-IsBounded :
    (size : ℕ) (t : Turn) (w : Writer)
    → IsSmall size t
    → IsBounded size w
    → IsBounded size (turn t w)
unfolding turn start_write on_low on_channel_close
turn-IsBounded size (write p) w s v = by_fields w.waiting w.failed
  where
    by_fields :
        (waiting : Option Packet) (failed : Option Failure)
        → IsBounded size (start_write p waiting failed w)
    by_fields none none = attempt-IsBounded size p w s v
    by_fields none (some e) = v
    by_fields (some q) none = v
    by_fields (some q) (some e) = v
turn-IsBounded size (drain n) w s v = record {
  bound = let b = v.bound in omega arith;
  small = v.small;
}
turn-IsBounded size buffer_low w s v = low w.waiting v.small
  where
    low : (waiting : Option Packet) → WaitsSmall size waiting → IsBounded size (on_low waiting w)
    low none q = v
    low (some p) q = attempt-IsBounded size p w q v
turn-IsBounded size channel_closes w s v = closes w.waiting v.small
  where
    closes :
        (waiting : Option Packet)
        → WaitsSmall size waiting
        → IsBounded size (on_channel_close waiting w)
    closes none q = record { bound = v.bound; small = v.small }
    closes (some p) q = record { bound = v.bound; small = tt }

turns-IsBounded :
    (size : ℕ) (ts : List Turn) (w : Writer)
    → All (IsSmall size) ts
    → IsBounded size w
    → IsBounded size (turns ts w)
unfolding turns
turns-IsBounded size [] w h v = v
turns-IsBounded size (t ∷ ts) w (s, h) v =
    turns-IsBounded size ts (turn t w) h (turn-IsBounded size t w s v)

-- If no packet has more than `size` bytes, the channel never buffers more than `size` bytes past the
-- high water mark of four mebibytes.
pub turns_bounded :
    (size : ℕ) (ts : List Turn)
    → All (IsSmall size) ts
    → (turns ts new_writer).buffered ≤ high_water_mark + size
turns_bounded size ts h =
    (turns-IsBounded size ts new_writer h (record { bound = omega arith; small = tt })).bound
