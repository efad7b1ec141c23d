-- ===== src/Wisp/Writes.antt =====
-- web/src/rtc-stream.ts: the write stream of `RTCWispTransport` in use. The stream is the browser's, by
-- its standard: it keeps what is written, calls `write` of the sink for one packet at a time, calls
-- `close` when all are written, and after an abort or a failure gives up what it keeps.
use scweb_vpn.Common.{Bool, true, false, Option, none, some, List, [], ◌∷◌, ◌++◌, Failure, ℕ}
use scweb_vpn.Wisp.{Packet}
use scweb_vpn.Wisp.Writer.{Writer, new_writer, attempt, turn, drain, buffer_low, channel_closes}

-- The channel's `close()`: it no longer takes packets; its `close` event comes later.
abbrev pub shut_channel : Writer → Writer
shut_channel w = record w { is_open = false }

-- `close: () => this.channel.close()`.
abbrev pub sink_close : Writer → Writer
sink_close w = shut_channel w

-- `abort: () => this.channel.close()`.
abbrev pub sink_abort : Writer → Writer
sink_abort w = shut_channel w

-- `running b`: packets are taken, and `b` tells whether `close` has been asked for. `erroring` waits for
-- the write that is in flight.
pub data Phase : Type 0 where
  running : Bool → Phase
  erroring closed errored : Phase

pub data Flight : Type 0 where
  idle writing : Flight

-- `queue` is what is kept, `taken` all that the stream ever took, in order.
pub record WriteStream : Type 0 where
  pub sink : Writer
  pub queue : List Packet
  pub phase : Phase
  pub flight : Flight
  pub aborting : Bool
  pub taken : List Packet

abbrev pub new_stream : WriteStream
new_stream = record {
  sink = new_writer;
  queue = [];
  phase = running false;
  flight = idle;
  aborting = false;
  taken = [];
}

-- What asks of the stream, the end of a write, and what the channel does: `channel_shut` is a `close()` of
-- it elsewhere, `channel_gone` its event.
pub data Ask : Type 0 where
  write_packet : Packet → Ask
  close_stream abort_stream write_settles : Ask
  drained : ℕ → Ask
  low channel_shut channel_gone : Ask

abbrev pub abort_sink : Bool → Writer → Writer
abort_sink true w = sink_abort w
abort_sink false w = w

-- The end of an abort or a failure.
abbrev pub give_up : WriteStream → WriteStream
give_up s = record s {
  sink = abort_sink s.aborting s.sink;
  queue = [];
  phase = errored;
  flight = idle;
}

-- With no write in flight: the next write, the close, or the end after an abort.
abbrev pub next_write : Phase → List Packet → WriteStream → WriteStream
next_write (running asked) (p ∷ q) s = record s {
  sink = attempt p s.sink;
  queue = q;
  flight = writing;
}
next_write (running true) [] s = record s { sink = sink_close s.sink; phase = closed }
next_write (running false) [] s = s
next_write erroring q s = give_up s
next_write closed q s = s
next_write errored q s = s

abbrev pub advance : Flight → WriteStream → WriteStream
advance idle s = next_write s.phase s.queue s
advance writing s = s

abbrev pub take_packet : Phase → Packet → WriteStream → WriteStream
take_packet (running false) p s =
    advance s.flight (record s { queue = s.queue ++ p ∷ []; taken = s.taken ++ p ∷ [] })
take_packet phase p s = s

abbrev pub ask_close : Phase → WriteStream → WriteStream
ask_close (running false) s = advance s.flight (record s { phase = running true })
ask_close phase s = s

abbrev pub ask_abort : Phase → WriteStream → WriteStream
ask_abort (running asked) s = advance s.flight (record s { phase = erroring; aborting = true })
ask_abort phase s = s

-- The promise of `write` is settled when nothing waits in the sink.
abbrev pub settle : Flight → Option Packet → Option Failure → WriteStream → WriteStream
settle writing none none s = advance idle (record s { flight = idle })
settle writing none (some e) s = give_up s
settle flight waiting failed s = s

unfoldable pub ask : Ask → WriteStream → WriteStream
unfolding attempt turn
ask (write_packet p) s = take_packet s.phase p s
ask close_stream s = ask_close s.phase s
ask abort_stream s = ask_abort s.phase s
ask write_settles s = settle s.flight s.sink.waiting s.sink.failed s
ask (drained n) s = record s { sink = turn (drain n) s.sink }
ask low s = record s { sink = turn buffer_low s.sink }
ask channel_shut s = record s { sink = shut_channel s.sink }
ask channel_gone s = record s { sink = turn channel_closes s.sink }

unfoldable pub asks : List Ask → WriteStream → WriteStream
unfolding ask
asks [] s = s
asks (a ∷ more) s = asks more (ask a s)
