-- ===== src/Desktop/Stages.antt =====
-- How far the remote desktop page is with its connection, by what it has done.
use scweb_vpn.Common.{◌≡◌, refl, sym, subst, Bool, true, false, List, [], ◌∷◌, ◌++◌, map}
use scweb_vpn.Desktop.Input.{RemoteCall}
use scweb_vpn.Desktop.Screen.{
  Act, prevent_default, focus_canvas, capture_pointer, new_connection, start, call, reload,
  close_client, request_fullscreen, exit_fullscreen, go_to, Boot, loading, unconnected, preparing,
  unprepared, starting, started, has_connection, toggle_fullscreen, key_acts,
}

pub data Stage : Type 0 where
  fresh made begun : Stage

-- From one stage to another: the connection is made once, it is started once and after that, and
-- nothing is sent to the remote computer before it is made.
abbrev pub Allowed : List Act → Stage → Stage → Type 0
Allowed [] st st' = st ≡ st'
Allowed (new_connection ∷ l) fresh st' = Allowed l made st'
Allowed (new_connection ∷ l) st st' = ⊥
Allowed (start id ∷ l) made st' = Allowed l begun st'
Allowed (start id ∷ l) st st' = ⊥
Allowed (call c ∷ l) fresh st' = ⊥
Allowed (call c ∷ l) st st' = Allowed l st st'
Allowed (a ∷ l) st st' = Allowed l st st'

pub Allowed-append :
    (l m : List Act) (st st₁ st₂ : Stage)
    → Allowed l st st₁
    → Allowed m st₁ st₂
    → Allowed (l ++ m) st st₂
Allowed-append [] m st st₁ st₂ e h = subst (λ x. Allowed m x st₂) (sym e) h
Allowed-append (new_connection ∷ l) m fresh st₁ st₂ h k = Allowed-append l m made st₁ st₂ h k
Allowed-append (new_connection ∷ l) m made st₁ st₂ h k = absurd h
Allowed-append (new_connection ∷ l) m begun st₁ st₂ h k = absurd h
Allowed-append (start id ∷ l) m fresh st₁ st₂ h k = absurd h
Allowed-append (start id ∷ l) m made st₁ st₂ h k = Allowed-append l m begun st₁ st₂ h k
Allowed-append (start id ∷ l) m begun st₁ st₂ h k = absurd h
Allowed-append (call c ∷ l) m fresh st₁ st₂ h k = absurd h
Allowed-append (call c ∷ l) m made st₁ st₂ h k = Allowed-append l m made st₁ st₂ h k
Allowed-append (call c ∷ l) m begun st₁ st₂ h k = Allowed-append l m begun st₁ st₂ h k
Allowed-append (prevent_default ∷ l) m st st₁ st₂ h k = Allowed-append l m st st₁ st₂ h k
Allowed-append (focus_canvas ∷ l) m st st₁ st₂ h k = Allowed-append l m st st₁ st₂ h k
Allowed-append (capture_pointer id ∷ l) m st st₁ st₂ h k = Allowed-append l m st st₁ st₂ h k
Allowed-append (reload ∷ l) m st st₁ st₂ h k = Allowed-append l m st st₁ st₂ h k
Allowed-append (close_client ∷ l) m st st₁ st₂ h k = Allowed-append l m st st₁ st₂ h k
Allowed-append (request_fullscreen ∷ l) m st st₁ st₂ h k = Allowed-append l m st st₁ st₂ h k
Allowed-append (exit_fullscreen ∷ l) m st st₁ st₂ h k = Allowed-append l m st st₁ st₂ h k
Allowed-append (go_to url ∷ l) m st st₁ st₂ h k = Allowed-append l m st st₁ st₂ h k

abbrev pub stage_of : Boot → Stage
stage_of loading = fresh
stage_of unconnected = fresh
stage_of preparing = made
stage_of unprepared = made
stage_of starting = begun
stage_of started = begun

-- Acts that change no stage.
abbrev pub Stays : Boot → List Act → Type 0
Stays boot l = Allowed l (stage_of boot) (stage_of boot)

pub made-calls : (l : List RemoteCall) → Allowed (map call l) made made
made-calls [] = refl
made-calls (c ∷ l) = made-calls l

pub begun-calls : (l : List RemoteCall) → Allowed (map call l) begun begun
begun-calls [] = refl
begun-calls (c ∷ l) = begun-calls l

-- Calls that are made only with a connection.
pub calls-Stays :
    (boot : Boot) (calls : Bool → List RemoteCall)
    → calls false ≡ []
    → Stays boot (map call (calls (has_connection boot)))
calls-Stays loading calls e = rw e refl
calls-Stays unconnected calls e = rw e refl
calls-Stays preparing calls e = made-calls (calls true)
calls-Stays unprepared calls e = made-calls (calls true)
calls-Stays starting calls e = begun-calls (calls true)
calls-Stays started calls e = begun-calls (calls true)

pub key_acts-Stays :
    (boot : Boot) (calls : List RemoteCall)
    → Stays boot (map call calls)
    → Stays boot (key_acts calls)
key_acts-Stays boot [] h = h
key_acts-Stays boot (c ∷ l) h = h

pub toggle-Stays : (shown : Bool) (boot : Boot) → Stays boot (toggle_fullscreen shown ∷ [])
toggle-Stays true boot = refl
toggle-Stays false boot = refl

pub calls_then_focus-Stays :
    (boot : Boot) (calls : Bool → List RemoteCall)
    → calls false ≡ []
    → Stays boot (map call (calls (has_connection boot)) ++ focus_canvas ∷ [])
calls_then_focus-Stays boot calls e =
    Allowed-append (map call (calls (has_connection boot))) (focus_canvas ∷ []) (stage_of boot)
      (stage_of boot) (stage_of boot) (calls-Stays boot calls e) refl
