-- ===== src/Wisp/Taken.antt =====
-- Which of the packets written to the write stream it takes.
use scweb_vpn.Common.{
  ◌≡◌, refl, sym, ap, ◌∙◌, ◌⊎◌, inl, inr, ℕ, Bool, true, false, Option, none, some, List, [], ◌∷◌,
  ◌++◌, Failure, append-nil, append_assoc,
}
use scweb_vpn.Wisp.{Packet}
use scweb_vpn.Wisp.Writes.{
  Phase, running, erroring, closed, errored, Flight, idle, writing, WriteStream, new_stream, Ask,
  write_packet, close_stream, abort_stream, write_settles, drained, low, channel_shut, channel_gone,
  ask, asks,
}
use scweb_vpn.Wisp.Sent.{IsFirstPart, HasSent, asks-HasSent, stream_of}

-- The packets of the writes, in order.
abbrev pub written : List Ask → List Packet
written [] = []
written (write_packet p ∷ l) = p ∷ written l
written (a ∷ l) = written l

abbrev IsEnded : Phase → Type 0
IsEnded (running false) = ⊥
IsEnded phase = Unit {0}

-- A step of a stream that is not to take packets any more.
abbrev Freezes : WriteStream → List Packet → Type 0
Freezes s taken = IsEnded s.phase × (s.taken ≡ taken)

ask-Freezes :
    (a : Ask) (phase : Phase) (flight : Flight) (waiting : Option Packet) (failed : Option Failure)
    (sent queue taken : List Packet) (buffered : ℕ) (is_open aborting : Bool)
    → IsEnded phase
    → Freezes
        (ask a (stream_of phase flight waiting failed sent queue taken buffered is_open aborting))
        taken
unfolding ask
ask-Freezes (write_packet p) (running false) fl w f s q t b o c h = absurd h
ask-Freezes close_stream (running false) fl w f s q t b o c h = absurd h
ask-Freezes abort_stream (running false) fl w f s q t b o c h = absurd h
ask-Freezes write_settles (running false) writing none none s q t b o c h = absurd h
ask-Freezes (write_packet p) (running true) fl w f s q t b o c h = (tt, refl)
ask-Freezes (write_packet p) erroring fl w f s q t b o c h = (tt, refl)
ask-Freezes (write_packet p) closed fl w f s q t b o c h = (tt, refl)
ask-Freezes (write_packet p) errored fl w f s q t b o c h = (tt, refl)
ask-Freezes close_stream (running true) fl w f s q t b o c h = (tt, refl)
ask-Freezes close_stream erroring fl w f s q t b o c h = (tt, refl)
ask-Freezes close_stream closed fl w f s q t b o c h = (tt, refl)
ask-Freezes close_stream errored fl w f s q t b o c h = (tt, refl)
ask-Freezes abort_stream (running true) idle w f s q t b o c h = (tt, refl)
ask-Freezes abort_stream (running true) writing w f s q t b o c h = (tt, refl)
ask-Freezes abort_stream erroring fl w f s q t b o c h = (tt, refl)
ask-Freezes abort_stream closed fl w f s q t b o c h = (tt, refl)
ask-Freezes abort_stream errored fl w f s q t b o c h = (tt, refl)
ask-Freezes write_settles phase idle w f s q t b o c h = (h, refl)
ask-Freezes write_settles phase writing (some p) f s q t b o c h = (h, refl)
ask-Freezes write_settles phase writing none (some e) s q t b o c h = (tt, refl)
ask-Freezes write_settles (running true) writing none none s [] t b o c h = (tt, refl)
ask-Freezes write_settles (running true) writing none none s (p ∷ q) t b o c h = (tt, refl)
ask-Freezes write_settles erroring writing none none s q t b o c h = (tt, refl)
ask-Freezes write_settles closed writing none none s q t b o c h = (tt, refl)
ask-Freezes write_settles errored writing none none s q t b o c h = (tt, refl)
ask-Freezes (drained n) phase fl w f s q t b o c h = (h, refl)
ask-Freezes low phase fl w f s q t b o c h = (h, refl)
ask-Freezes channel_shut phase fl w f s q t b o c h = (h, refl)
ask-Freezes channel_gone phase fl w f s q t b o c h = (h, refl)

asks-Freezes : (l : List Ask) (s : WriteStream) → IsEnded s.phase → (asks l s).taken ≡ s.taken
unfolding asks
asks-Freezes [] s h = refl
asks-Freezes (a ∷ l) s h = asks-Freezes l (ask a s) step.0 ∙ step.1
  where
    step : Freezes (ask a s) s.taken
    step =
        ask-Freezes a s.phase s.flight s.sink.waiting s.sink.failed s.sink.sent s.queue s.taken
          s.sink.buffered s.sink.is_open s.aborting h

-- A step of a stream that takes packets: it takes what is written, or it ends.
abbrev Goes : WriteStream → List Packet → Ask → Type 0
Goes s taken a =
    ((s.phase ≡ running false) × (s.taken ≡ taken ++ written (a ∷ []))) ⊎ Freezes s taken

ask-Goes :
    (a : Ask) (flight : Flight) (waiting : Option Packet) (failed : Option Failure)
    (sent queue taken : List Packet) (buffered : ℕ) (is_open aborting : Bool)
    → Goes
        (ask a (
          stream_of
            (running false)
            flight
            waiting
            failed
            sent
            queue
            taken
            buffered
            is_open
            aborting))
        taken
        a
unfolding ask
ask-Goes (write_packet p) idle w f s [] t b o c = inl (refl, refl)
ask-Goes (write_packet p) idle w f s (r ∷ q) t b o c = inl (refl, refl)
ask-Goes (write_packet p) writing w f s q t b o c = inl (refl, refl)
ask-Goes close_stream idle w f s [] t b o c = inr (tt, refl)
ask-Goes close_stream idle w f s (p ∷ q) t b o c = inr (tt, refl)
ask-Goes close_stream writing w f s q t b o c = inr (tt, refl)
ask-Goes abort_stream idle w f s q t b o c = inr (tt, refl)
ask-Goes abort_stream writing w f s q t b o c = inr (tt, refl)
ask-Goes write_settles idle w f s q t b o c = inl (refl, sym (append-nil t))
ask-Goes write_settles writing (some p) f s q t b o c = inl (refl, sym (append-nil t))
ask-Goes write_settles writing none (some e) s q t b o c = inr (tt, refl)
ask-Goes write_settles writing none none s [] t b o c = inl (refl, sym (append-nil t))
ask-Goes write_settles writing none none s (p ∷ q) t b o c = inl (refl, sym (append-nil t))
ask-Goes (drained n) fl w f s q t b o c = inl (refl, sym (append-nil t))
ask-Goes low fl w f s q t b o c = inl (refl, sym (append-nil t))
ask-Goes channel_shut fl w f s q t b o c = inl (refl, sym (append-nil t))
ask-Goes channel_gone fl w f s q t b o c = inl (refl, sym (append-nil t))

written-cons : (a : Ask) (l : List Ask) → written (a ∷ []) ++ written l ≡ written (a ∷ l)
written-cons (write_packet p) l = refl
written-cons close_stream l = refl
written-cons abort_stream l = refl
written-cons write_settles l = refl
written-cons (drained n) l = refl
written-cons low l = refl
written-cons channel_shut l = refl
written-cons channel_gone l = refl

asks-taken :
    (l : List Ask) (s : WriteStream)
    → s.phase ≡ running false
    → IsFirstPart (asks l s).taken (s.taken ++ written l)
unfolding asks
asks-taken [] s e = ([], refl)
asks-taken (a ∷ l) s e = elim (step s.phase e) [
  | inl (runs, more) ↦
      let (rest, whole) = asks-taken l (ask a s) runs in
      (
        rest,
        whole
            ∙ ap (λ x. x ++ written l) more
            ∙ append_assoc s.taken (written (a ∷ [])) (written l)
            ∙ ap (λ x. s.taken ++ x) (written-cons a l),
      )
  | inr (ended, same) ↦
      (written (a ∷ l), ap (λ x. x ++ written (a ∷ l)) (asks-Freezes l (ask a s) ended ∙ same))
]
  where
    step :
        (phase : Phase)
        → phase ≡ running false
        → Goes
            (ask a (
              stream_of phase s.flight s.sink.waiting s.sink.failed s.sink.sent s.queue s.taken
                s.sink.buffered s.sink.is_open s.aborting))
            s.taken
            a
    step phase e' = rw e' (
        ask-Goes a s.flight s.sink.waiting s.sink.failed s.sink.sent s.queue s.taken s.sink.buffered
          s.sink.is_open s.aborting)

-- After any sequence of writes, closes, aborts and events of the channel, the packets that the stream
-- took are a first part of those that were written, in order, and what the channel was sent is a
-- first part of what the stream took: all of it if the stream was closed, and all but the packet
-- that waits in `write` and the queue, in this order, if it runs and no write has failed.
pub asks-HasSent-written :
    (l : List Ask)
    → IsFirstPart (asks l new_stream).taken (written l)
      × HasSent (asks l new_stream).phase (asks l new_stream).sink.failed (asks l new_stream)
asks-HasSent-written l = (asks-taken l new_stream refl, asks-HasSent l)
