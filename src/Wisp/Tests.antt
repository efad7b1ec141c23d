-- ===== src/Wisp/Tests.antt =====
-- Runs of the two streams of Wisp at concrete inputs.
use scweb_vpn.Common.{
  suc, none, true, length, arith, ◌+◌, ◌≤◌, ◌≡◌, refl, some, List, [], ◌∷◌, message,
}
use scweb_vpn.Wisp.{
  binary, view, closing, new_transport, message_event, close_event, read, cancel, Event, run,
}
use scweb_vpn.Wisp.Steps.{wisp}
use scweb_vpn.Wisp.Order.{HasDelivered, run-HasDelivered}
use scweb_vpn.Wisp.Throws.{run_unthrown}
use scweb_vpn.Wisp.Writer.{
  attempt, turn, new_writer, write, drain, Turn, turns, high_water_mark, turns_bounded,
}
use scweb_vpn.Wisp.Writes.{
  running, writing, closed, new_stream, Ask, write_packet, close_stream, write_settles, drained,
  ask, asks,
}
use scweb_vpn.Wisp.Sent.{IsFirstPart, HasSent}
use scweb_vpn.Wisp.Drained.{IsAtRest, drain_rounds, drain_rounds_sent}
use scweb_vpn.Wisp.Taken.{written, asks-HasSent-written}

abbrev two_then_close : List Event
two_then_close =
    message_event (binary (1 ∷ 2 ∷ []))
    ∷ message_event (view (7 ∷ 8 ∷ 9 ∷ []) 1 1)
    ∷ read
    ∷ close_event
    ∷ message_event (binary (3 ∷ []))
    ∷ []

one_read_one_queued :
    (run two_then_close new_transport).controller
    ≡ some (record { queue = (8 ∷ []) ∷ []; taken = (1 ∷ 2 ∷ []) ∷ []; state = closing })
unfolding wisp
one_read_one_queued = refl

run-HasDelivered_example :
    HasDelivered (run two_then_close new_transport).controller ((1 ∷ 2 ∷ []) ∷ (8 ∷ []) ∷ [])
run-HasDelivered_example = run-HasDelivered two_then_close

run_unthrown_example : (run two_then_close new_transport).thrown ≡ []
run_unthrown_example = run_unthrown two_then_close (refl, (refl, (refl, (refl, (refl, tt)))))

-- The close listener throws once the reader has cancelled.
cancel_throws : (run (cancel ∷ close_event ∷ []) new_transport).thrown ≡ message "TypeError" ∷ []
unfolding wisp
cancel_throws = refl

abbrev three_turns : List Turn
three_turns = write (1 ∷ 2 ∷ []) ∷ drain 1 ∷ write (3 ∷ []) ∷ []

turns_bounded_example : (turns three_turns new_writer).buffered ≤ high_water_mark + 2
turns_bounded_example = turns_bounded 2 three_turns (omega arith, (tt, (omega arith, tt)))

-- The third packet comes after the close.
abbrev two_writes : List Ask
two_writes =
    write_packet (1 ∷ 2 ∷ [])
    ∷ write_packet (3 ∷ [])
    ∷ close_stream
    ∷ write_packet (4 ∷ [])
    ∷ write_settles
    ∷ drained 2
    ∷ write_settles
    ∷ []

two_writes_closed : (asks two_writes new_stream).phase ≡ closed
unfolding asks ask attempt turn
two_writes_closed = refl

two_writes_sent : (asks two_writes new_stream).sink.sent ≡ (1 ∷ 2 ∷ []) ∷ (3 ∷ []) ∷ []
unfolding asks ask attempt turn
two_writes_sent = refl

asks-HasSent-written_example :
    IsFirstPart (asks two_writes new_stream).taken (written two_writes)
    × HasSent
        (asks two_writes new_stream).phase
        (asks two_writes new_stream).sink.failed
        (asks two_writes new_stream)
asks-HasSent-written_example = asks-HasSent-written two_writes

-- Two packets and a close, before the first write has settled.
abbrev before_settling : List Ask
before_settling = write_packet (1 ∷ 2 ∷ []) ∷ write_packet (3 ∷ []) ∷ close_stream ∷ []

close_awaits : (asks before_settling new_stream).phase ≡ running true
unfolding asks ask attempt turn
close_awaits = refl

write_runs : (asks before_settling new_stream).flight ≡ writing
unfolding asks ask attempt turn
write_runs = refl

none_failed : (asks before_settling new_stream).sink.failed ≡ none
unfolding asks ask attempt turn
none_failed = refl

still_open : (asks before_settling new_stream).sink.is_open ≡ true
unfolding asks ask attempt turn
still_open = refl

drain_rounds_sent_example :
    IsAtRest true (
      drain_rounds
        (suc (length (asks before_settling new_stream).queue))
        (asks before_settling new_stream))
    × ((drain_rounds
          (suc (length (asks before_settling new_stream).queue))
          (asks before_settling new_stream)).sink.sent
        ≡ (asks before_settling new_stream).taken)
drain_rounds_sent_example =
    drain_rounds_sent before_settling true close_awaits write_runs none_failed still_open
