-- ===== src/Desktop/Ready.antt =====
-- In what order the remote desktop page makes its connection, starts it and sends input.
use scweb_vpn.Common.{ℕ, zero, suc, refl, List, [], ◌∷◌, map, Result, ok, err, Failure}
use scweb_vpn.Common.Texts.{Text}
use scweb_vpn.Desktop.{
  PageEvent, box, frame, connects, types, fails, times_out, submits, disconnects,
}
use scweb_vpn.Desktop.Decoder.{Wait, there, gives_up, exhausted}
use scweb_vpn.Desktop.Input.{
  Rounded, PointerInput, RemoteCall, send_pointer, send_current, send_wheel, send_key,
  send_password, send_text, send_ctrl_alt_del,
}
use scweb_vpn.Desktop.Sections.{IsOrderly, page_step-IsOrderly}
use scweb_vpn.Desktop.Screen.{
  Act, prevent_default, focus_canvas, capture_pointer, new_connection, start, call, reload,
  close_client, go_to, Boot, loading, unconnected, preparing, unprepared, starting, started, Screen,
  new_screen, Signal, init_settles, decoder_settles, start_settles, message_comes, frame_comes,
  timer_fires, password_typed, password_submitted, pointer_down, pointer_up, pointer_moves,
  frame_turns, context_menu, wheel_turns, key_moves, clicks_retry, clicks_disconnect,
  clicks_ctrl_alt_del, clicks_fullscreen, fullscreen_settles, asks_text, does, shows, reported,
  turn_frame, after_fullscreen, toggle_fullscreen, connect_screen, after_init, after_decoder,
  after_start, pointer_calls, prompted, listen, session_run,
}
use scweb_vpn.Desktop.Stages.{
  fresh, made, begun, Allowed, Allowed-append, stage_of, Stays, calls-Stays, key_acts-Stays,
  toggle-Stays, calls_then_focus-Stays,
}

pub record IsReady {P : Type 0} (s : Screen P) : Type 0 where
  pub orderly : IsOrderly s.page
  pub allowed : Allowed s.acts fresh (stage_of s.boot)

module _ {P : Type 0} where
  does-IsReady : (l : List Act) (s : Screen P) → Stays s.boot l → IsReady s → IsReady (does l s)
  does-IsReady l s h v = record {
    orderly = v.orderly;
    allowed = Allowed-append s.acts l fresh (stage_of s.boot) (stage_of s.boot) v.allowed h;
  }

  shows-IsReady : (e : PageEvent) (s : Screen P) → IsReady s → IsReady (shows e s)
  shows-IsReady e s v = record {
    orderly = page_step-IsOrderly e s.page v.orderly;
    allowed = v.allowed;
  }

  reported-IsReady :
      (boot : Boot) (s s' : Screen P) → IsReady s → IsReady s' → IsReady (reported boot s s')
  reported-IsReady loading s s' v v' = v
  reported-IsReady unconnected s s' v v' = v
  reported-IsReady preparing s s' v v' = v'
  reported-IsReady unprepared s s' v v' = v'
  reported-IsReady starting s s' v v' = v'
  reported-IsReady started s s' v v' = v'

  turn_frame-IsReady :
      (n : ℕ) (calls : List RemoteCall) (s : Screen P)
      → Stays s.boot (map call calls)
      → IsReady s
      → IsReady (turn_frame n calls s)
  turn_frame-IsReady zero calls s h v = v
  turn_frame-IsReady (suc n) calls s h v =
      does-IsReady (map call calls) _ h (record { orderly = v.orderly; allowed = v.allowed })

  after_fullscreen-IsReady :
      (r : Result (Unit {0})) (s : Screen P) → IsReady s → IsReady (after_fullscreen r s)
  after_fullscreen-IsReady (ok a) s v = does-IsReady (focus_canvas ∷ []) s refl v
  after_fullscreen-IsReady (err e) s v = v

module _ {P : Type 0} (rounded_x rounded_y : P → Rounded) (error_text : Failure → Text)
    (peer_id : Text) where
  connect_screen-IsReady :
      (id : Text) (s : Screen P)
      → Allowed s.acts fresh fresh
      → IsReady s
      → IsReady (connect_screen rounded_x rounded_y error_text peer_id id s)
  connect_screen-IsReady [] s h v = record {
    orderly = page_step-IsOrderly (connects []) s.page v.orderly;
    allowed = h;
  }
  connect_screen-IsReady (c ∷ id) s h v = record {
    orderly = page_step-IsOrderly (connects (c ∷ id)) s.page v.orderly;
    allowed = Allowed-append s.acts (new_connection ∷ []) fresh fresh made h refl;
  }

  after_init-IsReady :
      (boot : Boot) (r : Result (Unit {0})) (s : Screen P)
      → Allowed s.acts fresh (stage_of boot)
      → IsReady s
      → IsReady (after_init rounded_x rounded_y error_text peer_id boot r s)
  after_init-IsReady loading (ok a) s h v = connect_screen-IsReady peer_id s h v
  after_init-IsReady loading (err e) s h v = record {
    orderly = page_step-IsOrderly (fails (error_text e)) s.page v.orderly;
    allowed = h;
  }
  after_init-IsReady unconnected r s h v = v
  after_init-IsReady preparing r s h v = v
  after_init-IsReady unprepared r s h v = v
  after_init-IsReady starting r s h v = v
  after_init-IsReady started r s h v = v

  after_decoder-IsReady :
      (boot : Boot) (w : Wait) (s : Screen P)
      → Allowed s.acts fresh (stage_of boot)
      → IsReady s
      → IsReady (after_decoder rounded_x rounded_y error_text peer_id boot w s)
  after_decoder-IsReady preparing (there n) s h v = record {
    orderly = v.orderly;
    allowed = Allowed-append s.acts (start _ ∷ []) fresh made begun h refl;
  }
  after_decoder-IsReady preparing (gives_up e) s h v = record {
    orderly = page_step-IsOrderly (fails (error_text e)) s.page v.orderly;
    allowed = h;
  }
  after_decoder-IsReady preparing exhausted s h v = v
  after_decoder-IsReady loading w s h v = v
  after_decoder-IsReady unconnected w s h v = v
  after_decoder-IsReady unprepared w s h v = v
  after_decoder-IsReady starting w s h v = v
  after_decoder-IsReady started w s h v = v

  after_start-IsReady :
      (boot : Boot) (r : Result (Unit {0})) (s : Screen P)
      → Allowed s.acts fresh (stage_of boot)
      → IsReady s
      → IsReady (after_start rounded_x rounded_y error_text peer_id boot r s)
  after_start-IsReady starting (ok a) s h v = record { orderly = v.orderly; allowed = h }
  after_start-IsReady starting (err e) s h v = record {
    orderly = page_step-IsOrderly (fails (error_text e)) s.page v.orderly;
    allowed = h;
  }
  after_start-IsReady loading r s h v = v
  after_start-IsReady unconnected r s h v = v
  after_start-IsReady preparing r s h v = v
  after_start-IsReady unprepared r s h v = v
  after_start-IsReady started r s h v = v

  pointer_calls-Stays :
      (type : ℕ) (e : PointerInput P) (s : Screen P)
      → Stays s.boot (pointer_calls rounded_x rounded_y error_text peer_id type e s)
  unfolding send_pointer
  pointer_calls-Stays type e s =
      calls-Stays s.boot
        (λ b. send_pointer rounded_x rounded_y b s.page.size.0 s.page.size.1 type e) refl

  listen-IsReady :
      (e : Signal P) (s : Screen P)
      → IsReady s
      → IsReady (listen rounded_x rounded_y error_text peer_id e s)
  unfolding listen send_current send_wheel send_key send_password send_text send_ctrl_alt_del
  listen-IsReady (init_settles r) s v = after_init-IsReady s.boot r s v.allowed v
  listen-IsReady (decoder_settles w) s v = after_decoder-IsReady s.boot w s v.allowed v
  listen-IsReady (start_settles r) s v = after_start-IsReady s.boot r s v.allowed v
  listen-IsReady (message_comes type text) s v =
      reported-IsReady s.boot s _ v (shows-IsReady (box type text) s v)
  listen-IsReady (frame_comes width height) s v =
      reported-IsReady s.boot s _ v
        (does-IsReady (focus_canvas ∷ []) _ refl (shows-IsReady (frame width height) s v))
  listen-IsReady timer_fires s v = shows-IsReady times_out s v
  listen-IsReady (password_typed text) s v = shows-IsReady (types text) s v
  listen-IsReady password_submitted s v =
      does-IsReady (prevent_default ∷ _) _
        (calls-Stays s.boot (λ b. send_password b s.page.password) refl) (shows-IsReady submits s v)
  listen-IsReady (pointer_down id e) s v =
      does-IsReady (prevent_default ∷ focus_canvas ∷ capture_pointer id ∷ _) s
        (pointer_calls-Stays 1 e s) v
  listen-IsReady (pointer_up e) s v =
      does-IsReady (prevent_default ∷ _) s (pointer_calls-Stays 2 e s) v
  listen-IsReady (pointer_moves e) s v = record { orderly = v.orderly; allowed = v.allowed }
  listen-IsReady frame_turns s v =
      turn_frame-IsReady s.pointer.frames _ s
        (calls-Stays s.boot
          (λ b. send_current rounded_x rounded_y b s.page.size.0 s.page.size.1 s.pointer.pending)
          refl)
        v
  listen-IsReady context_menu s v = does-IsReady (prevent_default ∷ []) s refl v
  listen-IsReady (wheel_turns x y modifiers) s v =
      does-IsReady (prevent_default ∷ _) s
        (calls-Stays s.boot (λ b. send_wheel b x y modifiers) refl) v
  listen-IsReady (key_moves code down repeat modifiers) s v =
      does-IsReady _ s
        (key_acts-Stays s.boot _
          (calls-Stays s.boot (λ b. send_key b code down repeat modifiers) refl))
        v
  listen-IsReady clicks_retry s v = does-IsReady (reload ∷ []) s refl v
  listen-IsReady clicks_disconnect s v =
      does-IsReady (close_client ∷ go_to _ ∷ []) _ refl (shows-IsReady disconnects s v)
  listen-IsReady (clicks_fullscreen shown) s v =
      does-IsReady (toggle_fullscreen shown ∷ []) s (toggle-Stays shown s.boot) v
  listen-IsReady (fullscreen_settles r) s v = after_fullscreen-IsReady r s v
  listen-IsReady clicks_ctrl_alt_del s v =
      does-IsReady _ s (calls_then_focus-Stays s.boot (λ b. send_ctrl_alt_del b) refl) v
  listen-IsReady (asks_text text) s v =
      does-IsReady _ s (calls_then_focus-Stays s.boot (λ b. send_text b (prompted text)) refl) v

  run-IsReady :
      (es : List (Signal P)) (s : Screen P)
      → IsReady s
      → IsReady (session_run rounded_x rounded_y error_text peer_id es s)
  unfolding session_run
  run-IsReady [] s v = v
  run-IsReady (e ∷ es) s v =
      run-IsReady es (listen rounded_x rounded_y error_text peer_id e s) (listen-IsReady e s v)

  -- In any order of what settles, what the client reports and what the user does, one section is seen
  -- and the timer of the first frame runs only over the status section; the page makes one
  -- connection at most, starts it at most once and after it is made, and sends nothing to the
  -- remote computer before it is made.
  pub session_run-IsReady :
      (es : List (Signal P))
      → IsReady (session_run rounded_x rounded_y error_text peer_id es new_screen)
  session_run-IsReady es =
      run-IsReady es new_screen
        (record { orderly = record { one_seen = refl; timer_on_status = refl }; allowed = refl })
