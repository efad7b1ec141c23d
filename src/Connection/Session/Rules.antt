-- ===== src/Connection/Session/Rules.antt =====
-- A rule for each way to build a program of `DirectConnection`: `Holds m s Post` says that from
-- state `s` every call of `m` is allowed, that the invariant holds at every call and at the end, if
-- what runs during a call keeps it, and that a result satisfies `Post`.
use scweb_vpn.Common.{◌≡◌, refl, Result, ok, err, Failure}
use scweb_vpn.Connection.Session.{
  Conn, Call, Value, Prog, ret, raise, exhausted, act, look, wait, ◌>>=◌, catch, finally, lift,
}

module _ {F : Type 0} (P : Conn → Type 0) (Q : Call → Type 0) where
  abbrev pub Holds : {A : Type 0} → Prog F A → Conn → (A → Conn → Type 0) → Type 0
  Holds (ret a) s Post = Post a s
  Holds (raise e) s Post = P s
  Holds exhausted s Post = P s
  Holds (act u m) s Post = Holds m (u s) Post
  Holds (look g) s Post = Holds (g s) s Post
  Holds (wait c k) s Post =
      P s × Q c × ((r : Result (Value F c)) (s' : Conn) → P s' → Holds (k r) s' Post)

  pub Holds-map :
      {A : Type 0} (m : Prog F A) (s : Conn) (Post Post' : A → Conn → Type 0)
      → ((a : A) (s' : Conn) → Post a s' → Post' a s')
      → Holds m s Post
      → Holds m s Post'
  Holds-map (ret a) s Post Post' f h = f a s h
  Holds-map (raise e) s Post Post' f h = h
  Holds-map exhausted s Post Post' f h = h
  Holds-map (act u m) s Post Post' f h = Holds-map m (u s) Post Post' f h
  Holds-map (look g) s Post Post' f h = Holds-map (g s) s Post Post' f h
  Holds-map (wait c k) s Post Post' f (p, q, h) =
      (p, q, λ r s' p'. Holds-map (k r) s' Post Post' f (h r s' p'))

  pub Holds-bind :
      {A B : Type 0} (m : Prog F A) (f : A → Prog F B) (s : Conn) (Post : B → Conn → Type 0)
      → Holds m s (λ a s'. Holds (f a) s' Post)
      → Holds (m >>= f) s Post
  unfolding ◌>>=◌
  Holds-bind (ret a) f s Post h = h
  Holds-bind (raise e) f s Post h = h
  Holds-bind exhausted f s Post h = h
  Holds-bind (act u m) f s Post h = Holds-bind m f (u s) Post h
  Holds-bind (look g) f s Post h = Holds-bind (g s) f s Post h
  Holds-bind (wait c k) f s Post (p, q, h) =
      (p, q, λ r s' p'. Holds-bind (k r) f s' Post (h r s' p'))

  pub Holds-catch :
      {A : Type 0} (m : Prog F A) (f : Failure → Prog F A) (s : Conn) (Post : A → Conn → Type 0)
      → ((e : Failure) (s' : Conn) → P s' → Holds (f e) s' Post)
      → Holds m s Post
      → Holds (catch m f) s Post
  unfolding catch
  Holds-catch (ret a) f s Post g h = h
  Holds-catch (raise e) f s Post g h = g e s h
  Holds-catch exhausted f s Post g h = h
  Holds-catch (act u m) f s Post g h = Holds-catch m f (u s) Post g h
  Holds-catch (look k) f s Post g h = Holds-catch (k s) f s Post g h
  Holds-catch (wait c k) f s Post g (p, q, h) =
      (p, q, λ r s' p'. Holds-catch (k r) f s' Post g (h r s' p'))

  pub Holds-finally :
      {A : Type 0} (m : Prog F A) (u : Conn → Conn) (s : Conn) (Post : A → Conn → Type 0)
      → ((s' : Conn) → P s' → P (u s'))
      → Holds m s (λ a s'. Post a (u s'))
      → Holds (finally m u) s Post
  unfolding finally
  Holds-finally (ret a) u s Post g h = h
  Holds-finally (raise e) u s Post g h = g s h
  Holds-finally exhausted u s Post g h = h
  Holds-finally (act v m) u s Post g h = Holds-finally m u (v s) Post g h
  Holds-finally (look k) u s Post g h = Holds-finally (k s) u s Post g h
  Holds-finally (wait c k) u s Post g (p, q, h) =
      (p, q, λ r s' p'. Holds-finally (k r) u s' Post g (h r s' p'))

-- A result that is handed on or thrown.
pub Holds-lift :
    (F : Type 0) (P : Conn → Type 0) (Q : Call → Type 0) {A : Type 0} (r : Result A) (s : Conn)
    (Post : A → Conn → Type 0)
    → P s
    → ((a : A) → r ≡ ok a → Post a s)
    → Holds P Q (lift {F = F} r) s Post
Holds-lift F P Q (ok a) s Post p f = f a refl
Holds-lift F P Q (err e) s Post p f = p
