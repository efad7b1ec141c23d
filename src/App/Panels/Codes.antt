-- ===== src/App/Panels/Codes.antt =====
-- How long a binding code is shown.
use scweb_vpn.Common.{
  ℕ, ◌≡◌, ◌⊎◌, inl, inr, refl, Bool, true, false, some, List, [], ◌∷◌, ==_refl, if◌then◌else◌,
  Result, ok, err,
}
use scweb_vpn.Binding.{BindingCode}
use scweb_vpn.App.Panels.{
  CodePanel, new_code_panel, clear_binding_code, ask_binding_code, show_binding_code, is_armed,
  expire, CodeEvent, asks, answers, expires, leaves, code_step, code_run,
}

-- The timer of the code that is shown runs, and takes the code away when it fires.
pub record IsTimed (p : CodePanel) : Type 0 where
  pub timer_id : ℕ
  pub current : p.timer ≡ some timer_id
  pub runs : is_armed timer_id p.armed ≡ true
  pub clears : (expire timer_id p).code ≡ []

abbrev pub IsGuarded : CodePanel → Type 0
IsGuarded p = (p.code ≡ []) ⊎ IsTimed p

code-expire : (n : ℕ) (p : CodePanel) → is_armed n p.armed ≡ true → (expire n p).code ≡ []
unfolding expire clear_binding_code
code-expire n p h = rw h refl

timed : (n : ℕ) (p : CodePanel) → p.timer ≡ some n → is_armed n p.armed ≡ true → IsTimed p
timed n p e h = record { timer_id = n; current = e; runs = h; clears = code-expire n p h }

show_binding_code-IsGuarded :
    (r : Result BindingCode) (now : ℕ) (p : CodePanel)
    → IsGuarded p
    → IsGuarded (show_binding_code r now p)
unfolding show_binding_code
show_binding_code-IsGuarded (err e) now p (inl h) = inl h
show_binding_code-IsGuarded (err e) now p (inr t) = inr (timed t.timer_id _ t.current t.runs)
show_binding_code-IsGuarded (ok issued) now p v =
    inr (timed p.next _ refl (rw (==_refl p.next) refl))

either-IsGuarded :
    (b : Bool) (p q : CodePanel) → IsGuarded p → IsGuarded q → IsGuarded (if b then p else q)
either-IsGuarded true p q v w = v
either-IsGuarded false p q v w = w

code_step-IsGuarded : (e : CodeEvent) (p : CodePanel) → IsGuarded p → IsGuarded (code_step e p)
unfolding code_step clear_binding_code ask_binding_code expire
code_step-IsGuarded asks p v = either-IsGuarded p.create_disabled p _ v (inl refl)
code_step-IsGuarded (answers r now) p v = show_binding_code-IsGuarded r now p v
code_step-IsGuarded (expires n) p v = either-IsGuarded (is_armed n p.armed) _ p (inl refl) v
code_step-IsGuarded leaves p v = inl refl

run-IsGuarded : (es : List CodeEvent) (p : CodePanel) → IsGuarded p → IsGuarded (code_run es p)
unfolding code_run
run-IsGuarded [] p v = v
run-IsGuarded (e ∷ es) p v = run-IsGuarded es (code_step e p) (code_step-IsGuarded e p v)

-- After any clicks, answers, timers and leavings a binding code is on the page only while its
-- timer runs, and the code is gone once that timer fires.
pub code_run-IsGuarded : (es : List CodeEvent) → IsGuarded (code_run es new_code_panel)
code_run-IsGuarded es = run-IsGuarded es new_code_panel (inl refl)
