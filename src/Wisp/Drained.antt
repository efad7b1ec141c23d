-- ===== src/Wisp/Drained.antt =====
-- The write stream on a channel that drains again and again.
use scweb_vpn.Common.{
  arith, ℕ, zero, suc, ◌+◌, ◌-◌, ◌≡◌, refl, sym, ap, subst, ◌∙◌, inl, inr, Bool, true, false,
  Option, none, some, List, [], ◌∷◌, ◌++◌, Failure, length, Bool-cases, ltb, append-nil,
}
use scweb_vpn.Wisp.{Packet}
use scweb_vpn.Wisp.Writer.{attempt, high_water_mark, on_low, turn}
use scweb_vpn.Wisp.Writes.{
  Phase, running, closed, Flight, idle, writing, WriteStream, new_stream, Ask, write_settles,
  drained, low, ask, asks, next_write,
}
use scweb_vpn.Wisp.Sent.{
  Kept, IsKept, resting, sending, ending, stopped, finished, asks-IsKept, stream_of,
}

-- The channel drains, says so, and the write that it let through settles.
abbrev pub drain_once : WriteStream → WriteStream
drain_once s = asks (drained s.sink.buffered ∷ low ∷ write_settles ∷ []) s

unfoldable pub drain_rounds : ℕ → WriteStream → WriteStream
drain_rounds zero s = s
drain_rounds (suc n) s = drain_rounds n (drain_once s)

-- Nothing is left: the stream waits for packets or, if `close` was asked for, it is closed and so is the
-- channel.
abbrev pub IsAtRest : (asked : Bool) → WriteStream → Type 0
IsAtRest false s =
    (s.phase ≡ running false) × (s.flight ≡ idle) × (s.queue ≡ []) × (s.sink.waiting ≡ none)
IsAtRest true s = (s.phase ≡ closed) × (s.sink.is_open ≡ false)

-- A write is in flight over an open channel.
abbrev writing_stream :
    Bool → Option Packet → (sent queue taken : List Packet) → ℕ → Bool → WriteStream
writing_stream asked waiting sent queue taken buffered aborting =
    stream_of (running asked) writing waiting none sent queue taken buffered true aborting

-- The next write, of the first packet of the queue.
next_is :
    (asked : Bool) (sent : List Packet) (p : Packet) (q taken : List Packet) (buffered : ℕ)
    (aborting : Bool)
    → (w : Option Packet) × (sent' : List Packet) × (buffered' : ℕ) × (next_write
          (running asked)
          (p ∷ q)
          (stream_of (running asked) idle none none sent (p ∷ q) taken buffered true aborting)
        ≡ writing_stream asked w sent' q taken buffered' aborting)
unfolding attempt
next_is asked sent p q taken buffered aborting = elim (Bool-cases (ltb high_water_mark buffered)) [
  | inl full ↦ (some p, sent, buffered, rw full refl)
  | inr room ↦ (none, sent ++ p ∷ [], buffered + length p, rw room refl)
]

-- One round takes the write that is in flight to its end.
drain_once-writing :
    (asked : Bool) (waiting : Option Packet) (sent queue taken : List Packet) (buffered : ℕ)
    (aborting : Bool)
    → (sent' : List Packet) × (buffered' : ℕ) × (drain_once
          (writing_stream asked waiting sent queue taken buffered aborting)
        ≡ next_write
            (running asked)
            queue
            (stream_of (running asked) idle none none sent' queue taken buffered' true aborting))
unfolding asks ask turn on_low attempt
drain_once-writing asked none sent queue taken buffered aborting = (sent, buffered - buffered, refl)
drain_once-writing asked (some p) sent queue taken buffered aborting =
    (sent ++ p ∷ [], buffered - buffered + length p, rw room refl)
  where
    room : ltb high_water_mark (buffered - buffered) ≡ false
    room = ground arith

abbrev Rests : Bool → List Packet → WriteStream → Type 0
Rests asked taken s = IsAtRest asked s × (s.taken ≡ taken)

drain_rounds-Rests :
    (asked : Bool) (waiting : Option Packet) (sent queue taken : List Packet) (buffered : ℕ)
    (aborting : Bool)
    → Rests asked taken (
        drain_rounds
          (suc (length queue))
          (writing_stream asked waiting sent queue taken buffered aborting))
unfolding drain_rounds
drain_rounds-Rests false waiting sent [] taken buffered aborting =
    let (sent', buffered', e) = drain_once-writing false waiting sent [] taken buffered aborting in
    subst (Rests false taken) (sym e) ((refl, refl, refl, refl), refl)
drain_rounds-Rests true waiting sent [] taken buffered aborting =
    let (sent', buffered', e) = drain_once-writing true waiting sent [] taken buffered aborting in
    subst (Rests true taken) (sym e) ((refl, refl), refl)
drain_rounds-Rests asked waiting sent (p ∷ q) taken buffered aborting =
    let (sent₁, buffered₁, e₁) =
      drain_once-writing asked waiting sent (p ∷ q) taken buffered aborting in
    let (w, sent₂, buffered₂, e₂) = next_is asked sent₁ p q taken buffered₁ aborting in
    subst (λ s. Rests asked taken (drain_rounds (suc (length q)) s)) (sym (e₁ ∙ e₂))
      (drain_rounds-Rests asked w sent₂ q taken buffered₂ aborting)

drain_rounds-IsKept : (n : ℕ) (s : WriteStream) → IsKept s → IsKept (drain_rounds n s)
unfolding drain_rounds
drain_rounds-IsKept zero s v = v
drain_rounds-IsKept (suc n) s v = drain_rounds-IsKept n (drain_once s) (asks-IsKept _ s v)

Kept-rest :
    {phase : Phase} {flight : Flight} {waiting : Option Packet} {failed : Option Failure}
    {sent queue taken : List Packet} (asked : Bool) (buffered : ℕ) (is_open aborting : Bool)
    → Kept phase flight waiting failed sent queue taken
    → IsAtRest asked
        (stream_of phase flight waiting failed sent queue taken buffered is_open aborting)
    → sent ≡ taken
Kept-rest false b o c (resting {sent} {queue} e) h =
    sym (append-nil sent) ∙ ap (λ l. sent ++ l) (sym h.2) ∙ e
Kept-rest false b o c (sending f) h = absurd (cc (h.1))
Kept-rest false b o c (ending f) h = absurd (cc (h.0))
Kept-rest false b o c (stopped p) h = absurd (cc (h.0))
Kept-rest false b o c (finished e) h = e
Kept-rest true b o c (resting e) h = absurd (cc (h.0))
Kept-rest true b o c (sending f) h = absurd (cc (h.0))
Kept-rest true b o c (ending f) h = absurd (cc (h.0))
Kept-rest true b o c (stopped p) h = absurd (cc (h.0))
Kept-rest true b o c (finished e) h = e

-- A stream with a write in flight, over an open channel and with no failure, has sent every packet that it
-- took after as many rounds as its queue has packets and one more, in each of which the channel drains and
-- nothing else happens; if `close` was asked for, the stream and the channel are then closed.
pub drain_rounds_sent :
    (l : List Ask) (asked : Bool)
    → (asks l new_stream).phase ≡ running asked
    → (asks l new_stream).flight ≡ writing
    → (asks l new_stream).sink.failed ≡ none
    → (asks l new_stream).sink.is_open ≡ true
    → IsAtRest asked (drain_rounds (suc (length (asks l new_stream).queue)) (asks l new_stream))
      × ((drain_rounds (suc (length (asks l new_stream).queue)) (asks l new_stream)).sink.sent
          ≡ (asks l new_stream).taken)
drain_rounds_sent l asked runs writes sound opened =
    let s = asks l new_stream in
    let t = drain_rounds (suc (length s.queue)) s in
    let rests : Rests asked s.taken t =
      by_fields s.phase s.flight s.sink.failed s.sink.is_open runs writes sound opened in
    (
      rests.0,
      Kept-rest asked t.sink.buffered t.sink.is_open t.aborting
            (drain_rounds-IsKept (suc (length s.queue)) s (asks-IsKept l new_stream (resting refl)))
            rests.0
          ∙ rests.1,
    )
  where
    by_fields :
        (phase : Phase) (flight : Flight) (failed : Option Failure) (is_open : Bool)
        → phase ≡ running asked
        → flight ≡ writing
        → failed ≡ none
        → is_open ≡ true
        → Rests asked (asks l new_stream).taken (
            drain_rounds (suc (length (asks l new_stream).queue)) (
              stream_of phase flight
                (asks l new_stream).sink.waiting
                failed
                (asks l new_stream).sink.sent
                (asks l new_stream).queue
                (asks l new_stream).taken
                (asks l new_stream).sink.buffered
                is_open
                (asks l new_stream).aborting))
    by_fields phase flight failed is_open a b c d =
        let s = asks l new_stream in
        rw (a, b, c, d)
          (drain_rounds-Rests asked s.sink.waiting s.sink.sent s.queue s.taken s.sink.buffered
            s.aborting)
