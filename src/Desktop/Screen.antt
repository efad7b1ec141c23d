-- ===== src/Desktop/Screen.antt =====
-- integrations/lan-remote-access/rustdesk-web-build/classic-ui.js: the page in use, from its start on. Its start,
-- its listeners and what the client reports come in any order; each does what the source does, in order.
use scweb_vpn.Common.{
  ℕ, zero, suc, Bool, true, false, not, Option, none, some, List, [], ◌∷◌, ◌++◌, map, filter, ◌==◌,
  Result, ok, err, Failure, String,
}
use scweb_vpn.Common.Texts.{Text, lit}
use scweb_vpn.Desktop.{
  Page, new_page, BoxType, PageEvent, box, frame, connects, types, fails, times_out, submits,
  disconnects, page_step, Pointer, new_pointer, on_move, on_frame,
}
use scweb_vpn.Desktop.Decoder.{Wait, there, gives_up}
use scweb_vpn.Desktop.Input.{
  Rounded, PointerInput, RemoteCall, send_pointer, send_current, send_wheel, send_key,
  send_password, send_text, send_ctrl_alt_del,
}

-- What the page does to the browser, to the client and to the remote computer.
pub data Act : Type 0 where
  prevent_default focus_canvas : Act
  capture_pointer : ℕ → Act
  new_connection : Act
  start : (peer_id : Text) → Act
  call : RemoteCall → Act
  reload close_client request_fullscreen exit_fullscreen : Act
  go_to : Text → Act

-- How far `init().then(connect)` is; from `preparing` on there is a connection.
pub data Boot : Type 0 where
  loading unconnected preparing unprepared starting started : Boot

abbrev pub has_connection : Boot → Bool
has_connection loading = false
has_connection unconnected = false
has_connection boot = true

pub record Screen (P : Type 0) : Type 0 where
  pub page : Page
  pub pointer : Pointer (PointerInput P)
  pub boot : Boot
  pub acts : List Act

abbrev pub new_screen : {P : Type 0} → Screen P
new_screen = record { page = new_page; pointer = new_pointer; boot = loading; acts = [] }

-- What settles, what the client reports, and what the user does. `shown` is `document.fullscreenElement`,
-- and the text of `asks_text` is what `prompt` returns.
pub data Signal (P : Type 0) : Type 0 where
  init_settles : Result (Unit {0}) → Signal P
  decoder_settles : Wait → Signal P
  start_settles : Result (Unit {0}) → Signal P
  message_comes : BoxType → Text → Signal P
  frame_comes : (width height : ℕ) → Signal P
  timer_fires : Signal P
  password_typed : Text → Signal P
  password_submitted : Signal P
  pointer_down : (id : ℕ) → PointerInput P → Signal P
  pointer_up pointer_moves : PointerInput P → Signal P
  frame_turns context_menu : Signal P
  wheel_turns : (x y : Rounded) → List Bool → Signal P
  key_moves : (code : Text) → (down repeat : Bool) → List Bool → Signal P
  clicks_retry clicks_disconnect clicks_ctrl_alt_del : Signal P
  clicks_fullscreen : (shown : Bool) → Signal P
  fullscreen_settles : Result (Unit {0}) → Signal P
  asks_text : Option Text → Signal P

-- Two settings of the client are the page's host, and no token of an earlier session is kept.
pub data Setting : Type 0 where
  set_item : (key : String) → Text → Setting
  remove_item : (key : String) → Setting

abbrev pub settings : (server_key hostname : Text) → List Setting
settings server_key hostname =
    set_item "key" server_key
    ∷ set_item "rendezvous-server" hostname
    ∷ set_item "custom-rendezvous-server" hostname
    ∷ remove_item "access_token"
    ∷ []

-- `peerId.replaceAll(' ', '')`.
unfoldable pub without_spaces : Text → Text
without_spaces = filter (λ c. not (c == 32))

abbrev pub prompted : Option Text → Text
prompted none = []
prompted (some text) = text

abbrev pub toggle_fullscreen : Bool → Act
toggle_fullscreen true = exit_fullscreen
toggle_fullscreen false = request_fullscreen

-- A key that has no name, or comes before the connection, is left to the browser.
abbrev pub key_acts : List RemoteCall → List Act
key_acts [] = []
key_acts (c ∷ calls) = prevent_default ∷ map call (c ∷ calls)

module _ {P : Type 0} where
  abbrev pub does : List Act → Screen P → Screen P
  does acts s = record s { acts = s.acts ++ acts }

  abbrev pub shows : PageEvent → Screen P → Screen P
  shows e s = record s { page = page_step e s.page }

  -- The `showStatus(String(error), true)` of the last `catch`.
  abbrev pub boot_fails : Boot → Text → Screen P → Screen P
  boot_fails boot text s = shows (fails text) (record s { boot = boot })

  -- A callback of the connection: there is none before it.
  abbrev pub reported : Boot → Screen P → Screen P → Screen P
  reported loading s s' = s
  reported unconnected s s' = s
  reported boot s s' = s'

  -- The frame callback: it sends a move only if one is pending.
  abbrev pub turn_frame : ℕ → List RemoteCall → Screen P → Screen P
  turn_frame zero calls s = s
  turn_frame (suc n) calls s =
      does (map call calls) (record s { pointer = on_frame (has_connection s.boot) s.pointer })

  abbrev pub after_fullscreen : Result (Unit {0}) → Screen P → Screen P
  after_fullscreen (ok a) s = does (focus_canvas ∷ []) s
  after_fullscreen (err e) s = s

-- `String(error)` and the roundings are parameters, `peer_id` is that of the address or of the page.
module _ {P : Type 0} (rounded_x rounded_y : P → Rounded) (error_text : Failure → Text)
    (peer_id : Text) where
  -- `connect()` up to the decoder.
  abbrev pub connect_screen : Text → Screen P → Screen P
  connect_screen [] s = shows (connects []) (record s { boot = unconnected })
  connect_screen (c ∷ id) s =
      does (new_connection ∷ []) (shows (connects (c ∷ id)) (record s { boot = preparing }))

  abbrev pub after_init : Boot → Result (Unit {0}) → Screen P → Screen P
  after_init loading (ok a) s = connect_screen peer_id s
  after_init loading (err e) s = boot_fails unconnected (error_text e) s
  after_init boot r s = s

  abbrev pub after_decoder : Boot → Wait → Screen P → Screen P
  after_decoder preparing (there n) s =
      does (start (without_spaces peer_id) ∷ []) (record s { boot = starting })
  after_decoder preparing (gives_up e) s = boot_fails unprepared (error_text e) s
  after_decoder boot w s = s

  abbrev pub after_start : Boot → Result (Unit {0}) → Screen P → Screen P
  after_start starting (ok a) s = record s { boot = started }
  after_start starting (err e) s = boot_fails started (error_text e) s
  after_start boot r s = s

  -- `sendPointer(type, event)` on the canvas as it is.
  abbrev pub pointer_calls : ℕ → PointerInput P → Screen P → List Act
  pointer_calls type e s =
      map call (
        send_pointer rounded_x rounded_y (has_connection s.boot) s.page.size.0 s.page.size.1 type e)

  abbrev pub current_calls : Screen P → List RemoteCall
  current_calls s =
      send_current rounded_x rounded_y (has_connection s.boot) s.page.size.0 s.page.size.1
        s.pointer.pending

  -- `renderFrame(frame)`, whose `showViewer` takes the focus.
  abbrev pub draw_frame : (width height : ℕ) → Screen P → Screen P
  draw_frame width height s = does (focus_canvas ∷ []) (shows (frame width height) s)

  -- The listeners of the canvas: `pointerdown`, `pointerup` and `wheel`, then `keydown` and `keyup`.
  abbrev pub on_pointer_down : ℕ → PointerInput P → Screen P → Screen P
  on_pointer_down id e s =
      does (prevent_default ∷ focus_canvas ∷ capture_pointer id ∷ pointer_calls 1 e s) s

  abbrev pub on_pointer_up : PointerInput P → Screen P → Screen P
  on_pointer_up e s = does (prevent_default ∷ pointer_calls 2 e s) s

  abbrev pub on_wheel : (x y : Rounded) → List Bool → Screen P → Screen P
  on_wheel x y modifiers s =
      does (prevent_default ∷ map call (send_wheel (has_connection s.boot) x y modifiers)) s

  abbrev pub on_key : (code : Text) → (down repeat : Bool) → List Bool → Screen P → Screen P
  on_key code down repeat modifiers s =
      does (key_acts (send_key (has_connection s.boot) code down repeat modifiers)) s

  -- The listeners of the form and the buttons.
  abbrev pub on_submit : Screen P → Screen P
  on_submit s =
      does (prevent_default ∷ map call (send_password (has_connection s.boot) s.page.password))
        (shows submits s)

  abbrev pub on_retry : Screen P → Screen P
  on_retry s = does (reload ∷ []) s

  abbrev pub on_disconnect : Screen P → Screen P
  on_disconnect s = does (close_client ∷ go_to (lit "/rdp/") ∷ []) (shows disconnects s)

  abbrev pub on_ctrl_alt_del : Screen P → Screen P
  on_ctrl_alt_del s =
      does (map call (send_ctrl_alt_del (has_connection s.boot)) ++ focus_canvas ∷ []) s

  abbrev pub on_send_text : Option Text → Screen P → Screen P
  on_send_text text s =
      does (map call (send_text (has_connection s.boot) (prompted text)) ++ focus_canvas ∷ []) s

  unfoldable pub listen : Signal P → Screen P → Screen P
  unfolding page_step on_move on_frame send_pointer send_current send_wheel send_key send_password
      send_text send_ctrl_alt_del without_spaces
  listen (init_settles r) s = after_init s.boot r s
  listen (decoder_settles w) s = after_decoder s.boot w s
  listen (start_settles r) s = after_start s.boot r s
  listen (message_comes type text) s = reported s.boot s (shows (box type text) s)
  listen (frame_comes width height) s = reported s.boot s (draw_frame width height s)
  listen timer_fires s = shows times_out s
  listen (password_typed text) s = shows (types text) s
  listen password_submitted s = on_submit s
  listen (pointer_down id e) s = on_pointer_down id e s
  listen (pointer_up e) s = on_pointer_up e s
  listen (pointer_moves e) s = record s { pointer = on_move e s.pointer }
  listen frame_turns s = turn_frame s.pointer.frames (current_calls s) s
  listen context_menu s = does (prevent_default ∷ []) s
  listen (wheel_turns x y modifiers) s = on_wheel x y modifiers s
  listen (key_moves code down repeat modifiers) s = on_key code down repeat modifiers s
  listen clicks_retry s = on_retry s
  listen clicks_disconnect s = on_disconnect s
  listen (clicks_fullscreen shown) s = does (toggle_fullscreen shown ∷ []) s
  listen (fullscreen_settles r) s = after_fullscreen r s
  listen clicks_ctrl_alt_del s = on_ctrl_alt_del s
  listen (asks_text text) s = on_send_text text s

  unfoldable pub session_run : List (Signal P) → Screen P → Screen P
  unfolding listen
  session_run [] s = s
  session_run (e ∷ es) s = session_run es (listen e s)
