-- ===== src/Connection/Session/Answers.antt =====
-- The rounds of `waitForAnswer`, at most 45 seconds of at least 500 milliseconds each, and `localOffer`.
use scweb_vpn.Common.{
  arith, ℕ, zero, suc, ◌+◌, ◌*◌, ◌≤◌, ◌≡◌, Bool, true, not, ◌&&◌, Option, none, some, [], ◌∷◌, ltb,
  Result, ok, err,
}
use scweb_vpn.Common.Texts.{Text}
use scweb_vpn.Connection.Guards.{reject_relay}
use scweb_vpn.Connection.Session.{
  Description, SignalState, pending, answered, failed_state, ConnectionStatus, Conn, Call,
  create_offer, set_local, gather, local_description, now, get_connection, sleep, Prog, Value, ret,
  ◌>>=◌, lift, await, checked_local, on_state, on_answer, checked_sdp, answer_loop, local_offer_of,
  local_offer, wait_for_answer,
}
use scweb_vpn.Connection.Session.Ends.{Passes, Ends, Ends-then, await-Ends, if-Ends}

module _ (F : Type 0) (Later : Conn → Conn → Type 0) (I : Conn → Type 0)
    (keep : (s s' : Conn) → Later s s' → I s → I s') where
  -- A method ends, with the invariant `I`.
  abbrev pub Ending : {A : Type 0} → Prog F A → ℕ → Conn → Type 0
  Ending m t s = Ends Later m t s (λ r s'. I s')

  -- An `await`, and what follows it.
  pub step-Ends :
      {B : Type 0} (c : Call) (k : Value F c → Prog F B) (t : ℕ) (s : Conn)
      → I s
      → ((a : Value F c) (t' : ℕ) (s' : Conn)
          → Passes F Later t s c (ok a) t' s'
          → I s'
          → Ending (k a) t' s')
      → Ending (await {F = F} c >>= k) t s
  step-Ends c k t s h go =
      await-Ends Later c k t s (λ r s'. I s') (λ e t' s' p. keep s s' p.1 h)
        (λ a t' s' p. go a t' s' p (keep s s' p.1 h))

  -- A method, and what follows it.
  pub seq-Ends :
      {A B : Type 0} (m : Prog F A) (f : A → Prog F B) (t : ℕ) (s : Conn)
      → Ending m t s
      → ((a : A) (t' : ℕ) (s' : Conn) → I s' → Ending (f a) t' s')
      → Ending (m >>= f) t s
  seq-Ends m f t s h go = Ends-then Later m f t s (λ r s'. I s') (λ r s'. I s') h go (λ e s' q. q)

  pub lift-Ends :
      {A B : Type 0} (r : Result A) (f : A → Prog F B) (t : ℕ) (s : Conn)
      → I s
      → ((a : A) → Ending (f a) t s)
      → Ending (lift {F = F} r >>= f) t s
  unfolding ◌>>=◌
  lift-Ends (ok a) f t s h go = go a
  lift-Ends (err e) f t s h go = h

  on_state-Ends :
      (state : SignalState) (st : ConnectionStatus) (rest : Prog F Description) (t : ℕ) (s : Conn)
      → I s
      → Ending rest t s
      → Ending (on_state state st rest) t s
  on_state-Ends pending st rest t s h k = k
  on_state-Ends answered st rest t s h k = of_answer st.answer
    where
      of_answer : (d : Option Description) → Ending (on_answer d rest) t s
      of_answer none = k
      of_answer (some d) = h
  on_state-Ends failed_state st rest t s h k = h

  -- Each round but the last sleeps 500 milliseconds.
  answer_loop-Ends :
      (fuel : ℕ) (id : Text) (deadline t : ℕ) (s : Conn)
      → I s
      → deadline ≤ t + 500 * fuel
      → Ending (answer_loop {F = F} (suc fuel) id deadline) t s
  unfolding answer_loop
  answer_loop-Ends zero id deadline t s h d = step-Ends now _ t s h λ time t₁ s₁ p₁ h₁.
      if-Ends Later (not s₁.closed && ltb time deadline) _ _ t₁ s₁ (λ r s'. I s')
        (λ on.
          absurd (past s₁.closed time (let late = p₁.0.0 in let read = p₁.0.1 in omega arith) on))
        (λ off. h₁)
    where
      past : (shut : Bool) (time : ℕ) → deadline ≤ time → (not shut && ltb time deadline) ≡ true → ⊥
      past shut time late on = ground arith
  answer_loop-Ends (suc fuel) id deadline t s h d = step-Ends now _ t s h λ time t₁ s₁ p₁ h₁.
      if-Ends Later (not s₁.closed && ltb time deadline) _ _ t₁ s₁ (λ r s'. I s')
        (λ on. step-Ends (get_connection id) _ t₁ s₁ h₁ λ st t₂ s₂ p₂ h₂.
          on_state-Ends st.state st _ t₂ s₂ h₂ (
            step-Ends (sleep 500) _ t₂ s₂ h₂ λ a t₃ s₃ p₃ h₃.
              answer_loop-Ends fuel id deadline t₃ s₃ h₃
                (let a₁ = p₁.0.0 in let a₂ = p₂.0 in let a₃ = p₃.0 in omega arith)))
        (λ off. h₁)

  pub wait_for_answer-Ends :
      (fuel : ℕ) (id : Text) (t : ℕ) (s : Conn)
      → I s
      → 91 ≤ fuel
      → Ending (wait_for_answer {F = F} fuel id) t s
  unfolding wait_for_answer
  wait_for_answer-Ends zero id t s h enough = absurd (omega arith)
  wait_for_answer-Ends (suc fuel) id t s h enough = step-Ends now _ t s h λ time t₁ s₁ p₁ h₁.
      answer_loop-Ends fuel id (time + 45000) t₁ s₁ h₁ (let read = p₁.0.1 in omega arith)

  checked_sdp-Ends :
      (sdp : Text) (d : Description) (t : ℕ) (s : Conn)
      → I s
      → Ending (checked_sdp {F = F} sdp d) t s
  checked_sdp-Ends [] d t s h = h
  checked_sdp-Ends (c ∷ r) d t s h = lift-Ends (reject_relay d.sdp) (λ a. ret d) t s h (λ a. h)

  checked_local-Ends :
      (d : Option Description) (t : ℕ) (s : Conn) → I s → Ending (checked_local {F = F} d) t s
  checked_local-Ends none t s h = h
  checked_local-Ends (some d) t s h = checked_sdp-Ends d.sdp d t s h

  pub local_offer-Ends :
      (ice_restart : Bool) (t : ℕ) (s : Conn) → I s → Ending (local_offer {F = F} ice_restart) t s
  unfolding local_offer local_offer_of
  local_offer-Ends ice_restart t s h = of_peer s.peer
    where
      of_peer : (p : Option ℕ) → Ending (local_offer_of ice_restart p) t s
      of_peer none = h
      of_peer (some p) = step-Ends (create_offer p ice_restart) _ t s h λ a t₁ s₁ p₁ h₁.
          step-Ends (set_local p a) _ t₁ s₁ h₁ λ b t₂ s₂ p₂ h₂.
            step-Ends (gather p) _ t₂ s₂ h₂ λ c t₃ s₃ p₃ h₃.
              step-Ends (local_description p) _ t₃ s₃ h₃
                λ d t₄ s₄ p₄ h₄. checked_local-Ends d t₄ s₄ h₄
