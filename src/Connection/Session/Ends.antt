-- ===== src/Connection/Session/Ends.antt =====
-- When a program of `DirectConnection` ends before its fuel does. The clock is that of `Date.now()`
-- and of the timers: it does not go back, and a timer of `d` milliseconds fires after `d` at least.
-- What runs at an await changes the connection as `Later` allows.
use scweb_vpn.Common.{
  ℕ, ◌+◌, ◌≤◌, ◌≡◌, refl, Bool, true, false, Result, ok, err, Failure, if◌then◌else◌,
}
use scweb_vpn.Connection.Session.{
  Conn, Call, now, sleep, Prog, Value, ret, raise, exhausted, act, look, wait, ◌>>=◌, catch,
  finally, lift, await,
}

-- `Passes F Later t s c r t' s'`: the call `c`, made at the time `t` in the state `s`, can settle as `r` at
-- the time `t'` in the state `s'`.
abbrev Takes : (F : Type 0) → ℕ → (c : Call) → Result (Value F c) → ℕ → Type 0
Takes F t now (ok n) t' = (t ≤ t') × (n ≡ t')
Takes F t now (err e) t' = ⊥
Takes F t (sleep d) (ok a) t' = t + d ≤ t'
Takes F t (sleep d) (err e) t' = ⊥
Takes F t c r t' = t ≤ t'

abbrev pub Passes :
    (F : Type 0)
    → (Conn → Conn → Type 0)
    → ℕ
    → Conn
    → (c : Call) → Result (Value F c)
    → ℕ
    → Conn
    → Type 0
Passes F Later t s c r t' s' = Takes F t c r t' × Later s s'

module _ {F : Type 0} (Later : Conn → Conn → Type 0) where
  -- From the time `t` and the state `s`, in every way that its calls can settle, the program ends in a
  -- result and a state that satisfy `Post`; it never comes to the end of its fuel.
  abbrev pub Ends : {A : Type 0} → Prog F A → ℕ → Conn → (Result A → Conn → Type 0) → Type 0
  Ends (ret a) t s Post = Post (ok a) s
  Ends (raise e) t s Post = Post (err e) s
  Ends exhausted t s Post = ⊥
  Ends (act u m) t s Post = Ends m t (u s) Post
  Ends (look g) t s Post = Ends (g s) t s Post
  Ends (wait c k) t s Post =
      (r : Result (Value F c)) (t' : ℕ) (s' : Conn)
      → Passes F Later t s c r t' s'
      → Ends (k r) t' s' Post

  -- The rest of a method after a result: it is skipped after a failure.
  abbrev pub Then :
      {A B : Type 0} → (A → Prog F B) → (Result B → Conn → Type 0) → Result A → Conn → Type 0
  Then f Post (ok a) s = (t : ℕ) → Ends (f a) t s Post
  Then f Post (err e) s = Post (err e) s

  -- The `catch` block after a result: it is skipped after a success.
  abbrev pub Caught :
      {A : Type 0} → (Failure → Prog F A) → (Result A → Conn → Type 0) → Result A → Conn → Type 0
  Caught f Post (ok a) s = Post (ok a) s
  Caught f Post (err e) s = (t : ℕ) → Ends (f e) t s Post

  pub Ends-bind :
      {A B : Type 0} (m : Prog F A) (f : A → Prog F B) (t : ℕ) (s : Conn)
      (Post : Result B → Conn → Type 0)
      → Ends m t s (Then f Post)
      → Ends (m >>= f) t s Post
  unfolding ◌>>=◌
  Ends-bind (ret a) f t s Post h = h t
  Ends-bind (raise e) f t s Post h = h
  Ends-bind exhausted f t s Post h = h
  Ends-bind (act u m) f t s Post h = Ends-bind m f t (u s) Post h
  Ends-bind (look g) f t s Post h = Ends-bind (g s) f t s Post h
  Ends-bind (wait c k) f t s Post h = λ r t' s' p. Ends-bind (k r) f t' s' Post (h r t' s' p)

  pub Ends-catch :
      {A : Type 0} (m : Prog F A) (f : Failure → Prog F A) (t : ℕ) (s : Conn)
      (Post : Result A → Conn → Type 0)
      → Ends m t s (Caught f Post)
      → Ends (catch m f) t s Post
  unfolding catch
  Ends-catch (ret a) f t s Post h = h
  Ends-catch (raise e) f t s Post h = h t
  Ends-catch exhausted f t s Post h = h
  Ends-catch (act u m) f t s Post h = Ends-catch m f t (u s) Post h
  Ends-catch (look g) f t s Post h = Ends-catch (g s) f t s Post h
  Ends-catch (wait c k) f t s Post h = λ r t' s' p. Ends-catch (k r) f t' s' Post (h r t' s' p)

  pub Ends-finally :
      {A : Type 0} (m : Prog F A) (u : Conn → Conn) (t : ℕ) (s : Conn)
      (Post : Result A → Conn → Type 0)
      → Ends m t s (λ r s'. Post r (u s'))
      → Ends (finally m u) t s Post
  unfolding finally
  Ends-finally (ret a) u t s Post h = h
  Ends-finally (raise e) u t s Post h = h
  Ends-finally exhausted u t s Post h = h
  Ends-finally (act v m) u t s Post h = Ends-finally m u t (v s) Post h
  Ends-finally (look g) u t s Post h = Ends-finally (g s) u t s Post h
  Ends-finally (wait c k) u t s Post h = λ r t' s' p. Ends-finally (k r) u t' s' Post (h r t' s' p)

  pub Ends-map :
      {A : Type 0} (m : Prog F A) (t : ℕ) (s : Conn) (Post Post' : Result A → Conn → Type 0)
      → ((r : Result A) (s' : Conn) → Post r s' → Post' r s')
      → Ends m t s Post
      → Ends m t s Post'
  Ends-map (ret a) t s Post Post' f h = f (ok a) s h
  Ends-map (raise e) t s Post Post' f h = f (err e) s h
  Ends-map exhausted t s Post Post' f h = h
  Ends-map (act u m) t s Post Post' f h = Ends-map m t (u s) Post Post' f h
  Ends-map (look g) t s Post Post' f h = Ends-map (g s) t s Post Post' f h
  Ends-map (wait c k) t s Post Post' f h =
      λ r t' s' p. Ends-map (k r) t' s' Post Post' f (h r t' s' p)

  -- What holds of a method that is followed by another.
  pub Ends-then :
      {A B : Type 0} (m : Prog F A) (f : A → Prog F B) (t : ℕ) (s : Conn)
      (Mid : Result A → Conn → Type 0) (Post : Result B → Conn → Type 0)
      → Ends m t s Mid
      → ((a : A) (t' : ℕ) (s' : Conn) → Mid (ok a) s' → Ends (f a) t' s' Post)
      → ((e : Failure) (s' : Conn) → Mid (err e) s' → Post (err e) s')
      → Ends (m >>= f) t s Post
  Ends-then {A} m f t s Mid Post h go stop =
      Ends-bind m f t s Post (Ends-map m t s Mid (Then f Post) on h)
    where
      on : (r : Result A) (s' : Conn) → Mid r s' → Then f Post r s'
      on (ok a) s' q = λ t'. go a t' s' q
      on (err e) s' q = stop e s' q

  -- An `await` that may fail, and what follows it.
  pub await-Ends :
      {B : Type 0} (c : Call) (k : Value F c → Prog F B) (t : ℕ) (s : Conn)
      (Post : Result B → Conn → Type 0)
      → ((e : Failure) (t' : ℕ) (s' : Conn) → Passes F Later t s c (err e) t' s' → Post (err e) s')
      → ((a : Value F c) (t' : ℕ) (s' : Conn)
          → Passes F Later t s c (ok a) t' s'
          → Ends (k a) t' s' Post)
      → Ends (await {F = F} c >>= k) t s Post
  unfolding ◌>>=◌
  await-Ends c k t s Post stop go = by_result
    where
      by_result :
          (r : Result (Value F c)) (t' : ℕ) (s' : Conn)
          → Passes F Later t s c r t' s'
          → Ends (lift r >>= k) t' s' Post
      by_result (ok a) t' s' p = go a t' s' p
      by_result (err e) t' s' p = stop e t' s' p

  pub if-Ends :
      {A : Type 0} (b : Bool) (m n : Prog F A) (t : ℕ) (s : Conn) (Post : Result A → Conn → Type 0)
      → (b ≡ true → Ends m t s Post)
      → (b ≡ false → Ends n t s Post)
      → Ends (if b then m else n) t s Post
  if-Ends true m n t s Post h k = h refl
  if-Ends false m n t s Post h k = k refl
