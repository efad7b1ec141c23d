-- ===== src/Lib.antt =====
-- The browser side of SCWebVPN: its TypeScript and JavaScript code, modelled part by part.
--
-- The program. A page (web/src/app.ts) opens services of a home network through an OpenWrt Agent. It
-- calls `connect` for a service: that makes a `DirectConnection`, hands its Wisp transport to the
-- compatibility transport (web/src/compat.ts), and loads the frame, whose requests pass the service
-- worker (web/src/controller-sw.js).
-- `DirectConnection` (web/src/connection.ts) makes a WebRTC peer, posts its offer to the control
-- plane, waits for the Agent's answer, and opens three data channels; it is meant to use no relay.
-- One channel is for control requests (`ControlClient`), two carry Wisp streams. Each service is
-- shown under a synthetic host name (`virtualHostname`, web/src/virtual.ts), and the requests and
-- replies of its pages pass the rules of web/src/transport-policy.ts.
--
-- The files.
--   * Virtual: `virtualHostname` of web/src/virtual.ts. The shift register is its 32-bit pattern with
--     wrap-around written out; `atob` is defined from its standard in Platform/Base64.
--   * Policy: `agentTransportURL` and `sanitizeUpstreamHeaders` of web/src/transport-policy.ts. The
--     URL setters are defined from their standard in Platform/Url; `new URL` is the parameter
--     `UrlApi`, of which nothing is assumed.
--   * Connection/Guards: `validateSTUN`, `rejectRelay`, `failureMessage` of web/src/connection.ts.
--     The patterns are matchers on lists of UTF-16 units.
--   * Connection/Stats: `selectedPair`. The floats, `Number.isFinite` and `Math.round` are parameters;
--     the constant field `dataChannels` is left out.
--   * Connection/Control: `ControlClient`. A client is its pending map, its armed timers, its promises
--     numbered in order, and what it sent; a run is any order of requests, messages, timers and
--     channel events. Identifiers of pending requests are taken to be distinct, since they are random
--     96-bit values. `JSON.parse` is a parameter.
--   * Connection/Session: `DirectConnection`. A method is a program over the object's fields that
--     suspends at each await; `Date.now()` is an await here too, which only adds interleavings. Direct
--     has `connect` and `restart`, Rules the rule for each way to build a program, Safety the
--     invariant, Waits and Methods its proof, and Runs the object in use: a world has the object, the
--     methods that wait and the armed timers, and a step calls a method, fires a listener or timer,
--     or settles one await in any way. `Promise.race` and `Promise.all` are one await each. The set of
--     candidate types is a list, which is read only by membership. Ends has the clock and what it is for
--     a program to end before its fuel, Answers and Settles have the fuel that is enough, and Constructed
--     the constructor.
--   * Wisp: `RTCWispTransport` of web/src/rtc-stream.ts. Steps and Order are about the read stream in any
--     order of events, Throws about exceptions in its listeners, and Writer about the `write` of the write
--     stream. Writes has that stream as the browser runs it, with its queue, its close and its abort;
--     Sent, Taken and Drained are about what it sends.
--   * Binding: `parseBindingCode` of web/src/binding.ts; `Date.parse` is a parameter.
--   * Desktop: the remote desktop page, integrations/lan-remote-access/rustdesk-web-build/classic-ui.js. Desktop
--     itself has the sections, the first-frame timer and the gathered pointer moves, Keys the names of
--     keys, Input what the listeners send (the rounding of a coordinate is a parameter), Decoder
--     the wait for the video decoder (its readiness and the clock are parameters). Screen puts these
--     together: the start of the page and all its listeners, with their calls in order; Stages and
--     Ready are about that order.
--   * Yuv: the worker of integrations/lan-remote-access/rustdesk-web-open/yuv.js: its four buffers, of
--     which the allocator's pointers are a parameter, and its loop.
--   * Scramjet: `loadRemote` of web/src/scramjet.ts, and Build: web/scripts/build.ts, with the bundler and
--     the file system as parameters.
--   * Connection/Handshake: the promises of one browser event each (`textMessage`, `open`, `gathered`,
--     `connected`) and the log-in on a channel, over any sequence of events. Waits and Replies have
--     the proofs.
--   * Connection/Api: `api` and the requests to the control plane; `fetch` and `encodeURIComponent` are
--     parameters. Connection/Requests: the methods of `ControlClient` that call `request`, and
--     `randomControlID` of the random bytes that it draws.
--   * Compat: `RTCEpoxyTransport` of web/src/compat.ts. Chain has the promise `fetchQueue` with its links,
--     Order the queue of fetches that Transport uses for it, Replies is about
--     headers and replies, Sockets about `connect`. What the Epoxy client settles with is an event.
--     Transport is the whole object: calls of `request` with each of their awaits, in any order; Owned,
--     Served and Requests are about it.
--   * Worker: the `fetch` listener of web/src/controller-sw.js; Local is about embedded data, Routing about
--     the loop that waits for the controller. `decodeURIComponent` and `shouldRoute` are parameters.
--   * App: web/src/app.ts. App itself has the page's variables and elements, Address the slugs, URLs and
--     targets, Connects the calls of `connect` as runs with any interleaving of awaits and clicks
--     (Consistent, Closed, Tracked, Outcomes have its proofs), Panels the binding code and the
--     lists, Start `initialize`, the temporary panel and the logout, Diagnostics its two listeners,
--     Elements the elements that the page must have, and Creates the panel that makes a temporary service.
--     A connection is known by its number. A status with a value in it is a constructor that has
--     the value; `new URL` of one text is a parameter.
--   * Common: the shared names, tests, lists, results and texts. A text is its list of UTF-16 units.
--   * Platform: base64, URL records and JSON values.
--
-- Bounds and fuel. `answer_loop` takes the rounds of `waitForAnswer` as fuel and `restart` the number of
-- its inner calls; a program whose fuel ends stops where it is. What holds of every run holds for
-- every amount of fuel, so for any finite run of the code. A fuel of 91 is enough for `waitForAnswer`: a
-- round lasts 500 milliseconds and the loop gives up after 45 seconds. Three calls are enough for
-- `restart`, which gives up at a count of two, as long as no `close` or `connect` resets the count.
--
-- The loop of `prepareVideoDecoder` has its rounds as fuel; 601 are enough, as a round lasts 25 ms and the
-- loop gives up after 15 seconds.
--
-- Not modelled. The codecs, the canvas and the colour conversion of the remote desktop client, which are
-- vendored or compiled, and markup and styles. The vendored packages and the Go
-- programs appear only as replies that may be anything.
pub mod Common
pub mod Platform
pub mod Virtual
pub mod Policy
pub mod Connection
pub mod Binding
pub mod Desktop
pub mod Worker
pub mod Scramjet
pub mod Build
pub mod Yuv
pub mod App
pub mod Compat
pub mod Wisp
