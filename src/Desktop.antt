-- ===== src/Desktop.antt =====
-- integrations/lan-remote-access/rustdesk-web-build/classic-ui.js: the sections of the remote desktop
-- page, the timer for the first frame, and the pointer moves that are gathered for one frame.
pub mod Sections
pub mod Moves
pub mod Keys
pub mod Input
pub mod Decoder
pub mod Screen
pub mod Stages
pub mod Ready
mod Tests
use scweb_vpn.Common.{
  ℕ, zero, suc, ◌-◌, Bool, true, false, not, Option, none, some, List, [], ◌∷◌, ◌++◌, if◌then◌else◌,
  String,
}
use scweb_vpn.Common.Texts.{Text, lit, text_eq}
use scweb_vpn.Platform.Json.{Json, str, property}

pub data Section : Type 0 where
  status password_panel viewer : Section

-- `hidden` of each section, what the status section says, and whether `firstFrameTimer` runs.
pub record Page : Type 0 where
  pub status_hidden : Bool
  pub password_hidden : Bool
  pub viewer_hidden : Bool
  pub status_text : Text
  pub is_error : Bool
  pub retry_hidden : Bool
  pub password : Text
  pub timer_runs : Bool
  pub size : ℕ × ℕ

abbrev pub new_page : Page
new_page = record {
  status_hidden = false;
  password_hidden = true;
  viewer_hidden = true;
  status_text = lit "正在建立加密视频通道…";
  is_error = false;
  retry_hidden = true;
  password = [];
  timer_runs = false;
  size = (300, 150);
}

abbrev pub show_only : Section → Page → Page
show_only status p = record p {
  status_hidden = false;
  password_hidden = true;
  viewer_hidden = true;
}
show_only password_panel p = record p {
  status_hidden = true;
  password_hidden = false;
  viewer_hidden = true;
}
show_only viewer p = record p {
  status_hidden = true;
  password_hidden = true;
  viewer_hidden = false;
}

-- `showStatus(message, isError)`.
abbrev pub show_status : Text → Bool → Page → Page
show_status text is_error p = record (show_only status p) {
  status_text = text;
  is_error = is_error;
  retry_hidden = not is_error;
}

-- `showPassword()`.
abbrev pub show_password : Page → Page
show_password p = record (show_only password_panel p) { password = [] }

abbrev clear_timer : Page → Page
clear_timer p = record p { timer_runs = false }

-- The types of message that the code tells apart.
pub data BoxType : Type 0 where
  input_password no_type error connecting success other_type : BoxType

abbrev or_text : Text → Text → Text
or_text [] default = default
or_text (c ∷ s) default = c ∷ s

-- `messageBox(type, title, text)`.
unfoldable pub message_box : BoxType → Text → Page → Page
message_box input_password text p = show_password (clear_timer p)
message_box no_type text p = p
message_box error text p = show_status (or_text text (lit "连接失败，请重试。")) true (clear_timer p)
message_box connecting text p = show_status (lit "正在验证并载入远程桌面…") false p
message_box success text p = record (clear_timer (show_status (lit "连接成功，正在等待第一帧画面…") false p)) {
  timer_runs = true;
}
message_box other_type text p = p

-- The callback of `firstFrameTimer`.
unfoldable pub first_frame_timeout : Page → Page
first_frame_timeout p = show_status (lit "连接已建立，但 20 秒内未能解码 VP9 首帧。请重新连接后再试。") true (clear_timer p)

-- `renderFrame(frame)` with the frame's display size.
unfoldable pub render_frame : ℕ → ℕ → Page → Page
render_frame width height p = record (show_only viewer (clear_timer p)) { size = (width, height) }

-- `connect()` up to its first await.
unfoldable pub connect : Text → Page → Page
connect [] p = show_status (lit "入口没有提供有效的 RustDesk ID。") true p
connect (c ∷ peer_id) p = show_status (lit "正在建立加密视频通道…") false (clear_timer p)

-- The `submit` listener of the password form, and the last `catch`.
unfoldable pub submit_password : Page → Page
submit_password p = record p { password = [] }

unfoldable pub connect_failed : Text → Page → Page
connect_failed text p = show_status text true p

pub data PageEvent : Type 0 where
  box : BoxType → Text → PageEvent
  frame : ℕ → ℕ → PageEvent
  connects : Text → PageEvent
  types : Text → PageEvent
  fails : Text → PageEvent
  times_out submits disconnects : PageEvent

-- A timer that does not run does not fire.
abbrev fire : Bool → Page → Page
fire true p = first_frame_timeout p
fire false p = p

unfoldable pub page_step : PageEvent → Page → Page
unfolding message_box first_frame_timeout render_frame connect submit_password connect_failed
page_step (box type text) p = message_box type text p
page_step (frame width height) p = render_frame width height p
page_step (connects peer_id) p = connect peer_id p
page_step (types text) p = record p { password = text }
page_step (fails text) p = connect_failed text p
page_step times_out p = fire p.timer_runs p
page_step submits p = submit_password p
page_step disconnects p = clear_timer p

unfoldable pub page_run : List PageEvent → Page → Page
unfolding page_step
page_run [] p = p
page_run (e ∷ es) p = page_run es (page_step e p)

-- `pendingMove`, the number of frames that were asked for, and the moves sent.
pub record Pointer (A : Type 0) : Type 0 where
  pub pending : Option A
  pub frames : ℕ
  pub sent : List A

-- A move, or the turn of the next frame, at which there is a connection or not.
pub data PointerEvent (A : Type 0) : Type 0 where
  moves : A → PointerEvent A
  next_frame : (connected : Bool) → PointerEvent A

abbrev pub new_pointer : {A : Type 0} → Pointer A
new_pointer = record { pending = none; frames = 0; sent = [] }

module _ {A : Type 0} where
  -- The `pointermove` listener; `moveFrame` is set while a frame is asked for.
  ask_frame : ℕ → Pointer A → Pointer A
  ask_frame zero m = record m { frames = 1 }
  ask_frame (suc n) m = m

  unfoldable pub on_move : A → Pointer A → Pointer A
  unfolding ask_frame
  on_move e m = ask_frame m.frames (record m { pending = some e })

  send_move : (connected : Bool) → Option A → Pointer A → Pointer A
  send_move connected none m = m
  send_move false (some e) m = m
  send_move true (some e) m = record m { sent = m.sent ++ e ∷ [] }

  -- The callback of the frame.
  run_frame : (connected : Bool) → ℕ → Pointer A → Pointer A
  unfolding send_move
  run_frame connected zero m = m
  run_frame connected (suc n) m =
      send_move connected m.pending (record m { pending = none; frames = n })

  unfoldable pub on_frame : (connected : Bool) → Pointer A → Pointer A
  unfolding run_frame
  on_frame connected m = run_frame connected m.frames m

  unfoldable pub pointer_run : List (PointerEvent A) → Pointer A → Pointer A
  unfolding on_move on_frame
  pointer_run [] m = m
  pointer_run (moves e ∷ es) m = pointer_run es (on_move e m)
  pointer_run (next_frame connected ∷ es) m = pointer_run es (on_frame connected m)

-- `window.onGlobalEvent(raw)`: what the session's state says after it, if it changes. `parse` is
-- `JSON.parse`, none where it throws, which is caught.
abbrev is_string : Text → Option Json → Bool
is_string t (some (str s)) = text_eq s t
is_string t other = false

abbrev of_event : Option Json → Option String
of_event none = none
of_event (some event) =
    if is_string (lit "connection_ready") (property event "name")
    then some (if is_string (lit "true") (property event "secure") then "已加密 · 中继" else "中继")
    else none

unfoldable pub on_global_event : (parse : Text → Option Json) → Text → Option String
on_global_event parse raw = of_event (parse raw)
