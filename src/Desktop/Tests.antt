-- ===== src/Desktop/Tests.antt =====
-- The remote desktop page at concrete events.
use scweb_vpn.Common.{ℕ, ◌≤◌, ◌≡◌, refl, false, List, [], ◌∷◌}
use scweb_vpn.Common.Texts.{Text, lit}
use scweb_vpn.Desktop.{
  new_page, success, box, frame, connects, times_out, PageEvent, message_box, connect, render_frame,
  page_step, page_run, first_frame_timeout, PointerEvent, moves, next_frame, new_pointer,
  pointer_run,
}
use scweb_vpn.Desktop.Screen.{
  new_connection, focus_canvas, capture_pointer, prevent_default, start, call, new_screen, Signal,
  init_settles, decoder_settles, pointer_down, session_run, listen, without_spaces,
}
use scweb_vpn.Desktop.Ready.{IsReady, session_run-IsReady}
use scweb_vpn.Desktop.Moves.{pointer_run-last_of_frames}
use scweb_vpn.Common.{ok, Failure, ◌+◌, ◌*◌, inl, Bool, true, some, All, ltb, arith}
use scweb_vpn.Desktop.Keys.{remote_key}
use scweb_vpn.Desktop.Input.{Rounded, whole, negative, PointerInput, send_pointer, input_mouse}
use scweb_vpn.Desktop.Input.Canvas.{IsOnCanvas, send_pointer-IsOnCanvas}
use scweb_vpn.Desktop.Decoder.{prepare_video_decoder, there}
use scweb_vpn.Desktop.Decoder.Ends.{Outcome, prepare_video_decoder-Outcome}

abbrev first_session : List PageEvent
first_session = connects (lit "123 456") ∷ box success [] ∷ frame 1920 1080 ∷ times_out ∷ []

viewer_stays : (page_run first_session new_page).viewer_hidden ≡ false
unfolding page_run page_step connect message_box render_frame first_frame_timeout
viewer_stays = refl

abbrev three_moves : List (PointerEvent ℕ)
three_moves = moves 1 ∷ moves 2 ∷ next_frame true ∷ moves 3 ∷ []

pointer_run-last_of_frames_example :
    ((pointer_run three_moves new_pointer).sent ≡ 2 ∷ [])
    × ((pointer_run three_moves new_pointer).frames ≤ 1)
pointer_run-last_of_frames_example = pointer_run-last_of_frames three_moves

five_is_sent : remote_key (lit "Digit5") ≡ some (lit "VK_5")
unfolding remote_key
five_is_sent = refl

-- A click right of and above the canvas.
abbrev far_click : PointerInput ℕ
far_click = record { position = 5000; button = 2; modifiers = true ∷ [] }

abbrev above : ℕ → Rounded
above p = negative 3

send_pointer-IsOnCanvas_example :
    All (IsOnCanvas 1920 1080 1 2) (send_pointer whole above true 1920 1080 1 far_click)
send_pointer-IsOnCanvas_example =
    send_pointer-IsOnCanvas whole above true 1920 1080 1 far_click (inl refl) (omega arith)

far_click_sent :
    send_pointer whole above true 1920 1080 1 far_click
    ≡ input_mouse 17 (some 1919) (some 0) (true ∷ []) ∷ []
unfolding send_pointer
far_click_sent = refl

abbrev from_third_round : ℕ → Bool
from_third_round n = ltb 2 n

abbrev steady_clock : ℕ → ℕ
steady_clock n = 100 + 30 * n

third_round : prepare_video_decoder 601 true true from_third_round steady_clock 100 ≡ there 3
unfolding prepare_video_decoder
third_round = refl

prepare_video_decoder-Outcome_example :
    Outcome from_third_round steady_clock
      (100 + 15000)
      0
      (prepare_video_decoder 601 true true from_third_round steady_clock 100)
prepare_video_decoder-Outcome_example =
    prepare_video_decoder-Outcome from_third_round steady_clock 100 (λ n. omega arith) (omega arith)

abbrev no_text : Failure → Text
no_text e = []

-- A click before there is a connection, and one while the decoder is loaded.
abbrev early_clicks : List (Signal ℕ)
early_clicks =
    pointer_down 7 far_click
    ∷ init_settles (ok tt)
    ∷ pointer_down 8 far_click
    ∷ decoder_settles (there 3)
    ∷ []

early_clicks_acts :
    (session_run whole above no_text (lit "12 3") early_clicks new_screen).acts
    ≡ prevent_default
      ∷ focus_canvas
      ∷ capture_pointer 7
      ∷ new_connection
      ∷ prevent_default
      ∷ focus_canvas
      ∷ capture_pointer 8
      ∷ call (input_mouse 17 (some 299) (some 0) (true ∷ []))
      ∷ start (lit "123")
      ∷ []
unfolding session_run listen send_pointer without_spaces
early_clicks_acts = refl

session_run-IsReady_example :
    IsReady (session_run whole above no_text (lit "12 3") early_clicks new_screen)
session_run-IsReady_example = session_run-IsReady whole above no_text (lit "12 3") early_clicks
