-- ===== src/Connection/Session/Waits.antt =====
-- The awaits, `localOffer` and `waitForAnswer`, and the invariant of `DirectConnection`.
use scweb_vpn.Common.{
  ℕ, zero, suc, ◌+◌, ◌≡◌, refl, Bool, true, false, not, ◌&&◌, Option, none, some, [], ◌∷◌, ltb,
  if◌then◌else◌, Result, ok,
}
use scweb_vpn.Common.Texts.{Text}
use scweb_vpn.Connection.Guards.{reject_relay}
use scweb_vpn.Connection.Session.{
  Description, SignalState, pending, answered, failed_state, ConnectionStatus, Conn, Call,
  create_offer, set_local, gather, local_description, now, get_connection, sleep, Prog, Value, ret,
  ◌>>=◌, lift, await, checked_local, on_state, on_answer, checked_sdp, answer_loop, local_offer_of,
  local_offer, wait_for_answer,
}
use scweb_vpn.Connection.Session.Direct.{restart}
use scweb_vpn.Connection.Session.Rules.{Holds, Holds-map, Holds-bind, Holds-lift}
use scweb_vpn.Connection.Session.Safety.{IsSound, IsRelayFree, IsAllowed}

-- The invariant at every `await`, and only allowed calls.
abbrev pub Safe : {F : Type 0} {A : Type 0} → Prog F A → Conn → (A → Conn → Type 0) → Type 0
Safe m s Post = Holds IsSound IsAllowed m s Post

-- The result is a description without relay candidates, and the state is sound.
abbrev pub SoundOffer : Description → Conn → Type 0
SoundOffer d s = IsSound s × IsRelayFree d

abbrev pub Sound : {A : Type 0} → A → Conn → Type 0
Sound a s = IsSound s

module _ (F : Type 0) where
  -- An `await`, and what follows it in any sound state.
  pub await-Safe :
      {B : Type 0} (c : Call) (k : Value F c → Prog F B) (s : Conn) (Post : B → Conn → Type 0)
      → IsAllowed c
      → IsSound s
      → ((a : Value F c) (s' : Conn) → IsSound s' → Safe (k a) s' Post)
      → Safe (await {F = F} c >>= k) s Post
  await-Safe c k s Post q v h =
      Holds-bind IsSound IsAllowed (await c) k s Post
        (v, q, λ r s' v'. Holds-lift F IsSound IsAllowed r s' _ v' (λ a e. h a s' v'))

  pub lift-Safe :
      {A B : Type 0} (r : Result A) (k : A → Prog F B) (s : Conn) (Post : B → Conn → Type 0)
      → IsSound s
      → ((a : A) → r ≡ ok a → Safe (k a) s Post)
      → Safe (lift {F = F} r >>= k) s Post
  lift-Safe r k s Post v h =
      Holds-bind IsSound IsAllowed (lift r) k s Post (Holds-lift F IsSound IsAllowed r s _ v h)

  checked_sdp-Safe :
      (sdp : Text) (d : Description) (s : Conn)
      → IsSound s
      → Safe (checked_sdp {F = F} sdp d) s SoundOffer
  checked_sdp-Safe [] d s v = v
  checked_sdp-Safe (c ∷ r) d s v =
      lift-Safe (reject_relay d.sdp) (λ a. ret d) s SoundOffer v (λ a e. (v, e))

  checked_local-Safe :
      (d : Option Description) (s : Conn) → IsSound s → Safe (checked_local {F = F} d) s SoundOffer
  checked_local-Safe none s v = v
  checked_local-Safe (some d) s v = checked_sdp-Safe d.sdp d s v

  local_offer_of-Safe :
      (restart : Bool) (p : Option ℕ) (s : Conn)
      → IsSound s
      → Safe (local_offer_of {F = F} restart p) s SoundOffer
  unfolding local_offer_of
  local_offer_of-Safe restart none s v = v
  local_offer_of-Safe restart (some p) s v =
      await-Safe (create_offer p restart) _ s SoundOffer tt v λ a s₁ v₁.
        await-Safe (set_local p a) _ s₁ SoundOffer tt v₁ λ b s₂ v₂.
          await-Safe (gather p) _ s₂ SoundOffer tt v₂ λ c s₃ v₃.
            await-Safe (local_description p) _ s₃ SoundOffer tt v₃
              λ d s₄ v₄. checked_local-Safe d s₄ v₄

  pub local_offer-Safe :
      (restart : Bool) (s : Conn) → IsSound s → Safe (local_offer {F = F} restart) s SoundOffer
  unfolding local_offer
  local_offer-Safe restart s v = local_offer_of-Safe restart s.peer s v

  pub if-Safe :
      {A : Type 0} (b : Bool) (m n : Prog F A) (s : Conn) (Post : A → Conn → Type 0)
      → Safe m s Post
      → Safe n s Post
      → Safe (if b then m else n) s Post
  if-Safe true m n s Post h k = h
  if-Safe false m n s Post h k = k

  pub unless-Safe :
      {A : Type 0} (b : Bool) (m n : Prog F A) (s : Conn) (Post : A → Conn → Type 0)
      → Safe m s Post
      → (b ≡ false → Safe n s Post)
      → Safe (if b then m else n) s Post
  unless-Safe true m n s Post h k = h
  unless-Safe false m n s Post h k = k refl

  on_state-Safe :
      (state : SignalState) (st : ConnectionStatus) (rest : Prog F Description) (s : Conn)
      → IsSound s
      → Safe rest s Sound
      → Safe (on_state state st rest) s Sound
  on_state-Safe pending st rest s v h = h
  on_state-Safe answered st rest s v h = of_answer st.answer
    where
      of_answer : (d : Option Description) → Safe (on_answer d rest) s Sound
      of_answer none = h
      of_answer (some d) = v
  on_state-Safe failed_state st rest s v h = v

  answer_loop-Safe :
      (fuel : ℕ) (id : Text) (deadline : ℕ) (s : Conn)
      → IsSound s
      → Safe (answer_loop {F = F} fuel id deadline) s Sound
  unfolding answer_loop
  answer_loop-Safe zero id deadline s v = v
  answer_loop-Safe (suc fuel) id deadline s v = await-Safe now _ s Sound tt v λ time s₁ v₁.
      if-Safe (not s₁.closed && ltb time deadline) _ _ s₁ Sound
        (await-Safe (get_connection id) _ s₁ Sound tt v₁ λ st s₂ v₂.
          on_state-Safe st.state st _ s₂ v₂ (
            await-Safe (sleep 500) _ s₂ Sound tt v₂
              λ a s₃ v₃. answer_loop-Safe fuel id deadline s₃ v₃))
        v₁

  pub wait_for_answer-Safe :
      (fuel : ℕ) (id : Text) (s : Conn) → IsSound s → Safe (wait_for_answer {F = F} fuel id) s Sound
  unfolding wait_for_answer
  wait_for_answer-Safe fuel id s v =
      await-Safe now _ s Sound tt v λ time s₁ v₁. answer_loop-Safe fuel id (time + 45000) s₁ v₁

  -- A method, and what follows it.
  pub then-Safe :
      {A B : Type 0} (m : Prog F A) (k : A → Prog F B) (s : Conn) (Mid : A → Conn → Type 0)
      (Post : B → Conn → Type 0)
      → Safe m s Mid
      → ((a : A) (s' : Conn) → Mid a s' → Safe (k a) s' Post)
      → Safe (m >>= k) s Post
  then-Safe m k s Mid Post h f =
      Holds-bind IsSound IsAllowed m k s Post
        (Holds-map IsSound IsAllowed m s Mid _ (λ a s' q. f a s' q) h)
