-- ===== src/Compat/Served.antt =====
-- `RTCEpoxyTransport` in use: the awaits of a call before and after its fetch.
use scweb_vpn.Common.{
  arith, ℕ, zero, suc, ◌<◌, ◌≡◌, refl, sym, Bool, true, false, Option, none, some, List, [], ◌∷◌,
  get_elem?, subst, All, Result, ok, err,
}
use scweb_vpn.Platform.Url.{UrlApi}
use scweb_vpn.Common.Texts.{Text}
use scweb_vpn.Compat.{queue_step}
use scweb_vpn.Compat.Transport.{
  RequestBody, no_body, plain_body, blob_body, Ask, Stage, initializing, reading, queued, buffering,
  concluded, Transport, set_elem, moves, make_client, fetch_for, submit, read_body, on_init,
  on_blob, on_body,
}
use scweb_vpn.Compat.Owned.{
  in_queue, submit-in_queue, expected, Owns, HasClient, pass-Owns, submit-Owns,
}

module _ (P : Stage → Type 0) where
  pub set_elem-All : (n : ℕ) (s : Stage) (l : List Stage) → P s → All P l → All P (set_elem n s l)
  set_elem-All n s [] h v = tt
  set_elem-All zero s (x ∷ l) h v = (h, v.1)
  set_elem-All (suc n) s (x ∷ l) h v = (v.0, set_elem-All n s l h v.1)

  pub get-All : (n : ℕ) (s : Stage) (l : List Stage) → get_elem? l n ≡ some s → All P l → P s
  get-All n s [] e v = absurd (cc e)
  get-All zero s (x ∷ l) e v = subst P (cc e) v.0
  get-All (suc n) s (x ∷ l) e v = get-All n s l e v.1

module _ (api : UrlApi) where
  abbrev pub ReadyFor : Bool → ℕ → Type 0
  ReadyFor true clients = 0 < clients
  ReadyFor false clients = Unit {0}

  pub record IsServed (t : Transport) : Type 0 where
    pub owned : Owns api (in_queue t.queue) t.calls
    pub clients_made : All (HasClient api t.clients) t.calls
    pub made_ready : ReadyFor t.ready t.clients

  HasClient-more :
      (clients : ℕ) (l : List Stage)
      → All (HasClient api clients) l
      → All (HasClient api (suc clients)) l
  HasClient-more clients [] v = tt
  HasClient-more clients (s ∷ l) (h, v) = (one s h, HasClient-more clients l v)
    where
      one : (s : Stage) → HasClient api clients s → HasClient api (suc clients) s
      one (initializing true a) h = tt
      one (initializing false a) h = omega arith
      one (reading a) h = omega arith
      one (queued a body) h = omega arith
      one (buffering reply) h = omega arith
      one (concluded r) h = tt

  make_client-IsServed :
      (loads : Bool) (t : Transport) → IsServed t → IsServed (make_client loads t)
  make_client-IsServed true t v = record {
    owned = v.owned;
    clients_made = HasClient-more t.clients t.calls v.clients_made;
    made_ready = omega arith;
  }
  make_client-IsServed false t v = v

  -- A call that waits for no fetch, and goes on to a stage that waits for none.
  pass-IsServed :
      (n : ℕ) (s r : Stage) (t : Transport)
      → get_elem? t.calls n ≡ some r
      → expected api (some r) ≡ []
      → expected api (some s) ≡ []
      → HasClient api t.clients s
      → IsServed t
      → IsServed (moves n s t)
  pass-IsServed n s r t e none_before free c v = record {
    owned = pass-Owns api n s r (in_queue t.queue) t.calls e none_before free v.owned;
    clients_made = set_elem-All (HasClient api t.clients) n s t.calls c v.clients_made;
    made_ready = v.made_ready;
  }

  submit-IsServed :
      (n : ℕ) (a : Ask) (body : Option Text) (r : Stage) (t : Transport)
      → get_elem? t.calls n ≡ some r
      → expected api (some r) ≡ []
      → 0 < t.clients
      → IsServed t
      → IsServed (submit api n a body t)
  unfolding queue_step
  submit-IsServed n a body r t e none_before c v = record {
    owned =
        subst (λ l. Owns api l (set_elem n (queued a body) t.calls))
          (sym (
            submit-in_queue (n, fetch_for api a body) t.queue.running t.queue.waiting
              t.queue.started t.queue.ended))
          (submit-Owns api n a body r (in_queue t.queue) t.calls e none_before v.owned);
    clients_made =
        set_elem-All (HasClient api t.clients) n (queued a body) t.calls c v.clients_made;
    made_ready = v.made_ready;
  }

  read_body-IsServed :
      (b : RequestBody) (n : ℕ) (a : Ask) (r : Stage) (t : Transport)
      → get_elem? t.calls n ≡ some r
      → expected api (some r) ≡ []
      → 0 < t.clients
      → IsServed t
      → IsServed (read_body api b n a t)
  read_body-IsServed no_body n a r t e none_before c v =
      submit-IsServed n a none r t e none_before c v
  read_body-IsServed (plain_body text) n a r t e none_before c v =
      submit-IsServed n a (some text) r t e none_before c v
  read_body-IsServed (blob_body bytes) n a r t e none_before c v =
      pass-IsServed n (reading a) r t e none_before refl c v

  pub on_init-IsServed :
      (stage : Option Stage) (n : ℕ) (r : Result (Unit {0})) (t : Transport)
      → get_elem? t.calls n ≡ stage
      → IsServed t
      → IsServed (on_init api stage n r t)
  on_init-IsServed none n r t e v = v
  on_init-IsServed (some (initializing true a)) n (ok done) t e v =
      read_body-IsServed a.body n a (initializing true a) (make_client true t) e refl (omega arith)
        (make_client-IsServed true t v)
  on_init-IsServed (some (initializing false a)) n (ok done) t e v =
      read_body-IsServed a.body n a (initializing false a) t e refl
        (get-All (HasClient api t.clients) n (initializing false a) t.calls e v.clients_made) v
  on_init-IsServed (some (initializing true a)) n (err f) t e v =
      pass-IsServed n (concluded (err f)) (initializing true a) t e refl refl tt v
  on_init-IsServed (some (initializing false a)) n (err f) t e v = v
  on_init-IsServed (some (reading a)) n r t e v = v
  on_init-IsServed (some (queued a body)) n r t e v = v
  on_init-IsServed (some (buffering reply)) n r t e v = v
  on_init-IsServed (some (concluded s)) n r t e v = v

  pub on_blob-IsServed :
      (stage : Option Stage) (n : ℕ) (r : Result Text) (t : Transport)
      → get_elem? t.calls n ≡ stage
      → IsServed t
      → IsServed (on_blob api stage n r t)
  on_blob-IsServed none n r t e v = v
  on_blob-IsServed (some (reading a)) n (ok bytes) t e v =
      submit-IsServed n a (some bytes) (reading a) t e refl
        (get-All (HasClient api t.clients) n (reading a) t.calls e v.clients_made) v
  on_blob-IsServed (some (reading a)) n (err f) t e v =
      pass-IsServed n (concluded (err f)) (reading a) t e refl refl tt v
  on_blob-IsServed (some (initializing loads a)) n r t e v = v
  on_blob-IsServed (some (queued a body)) n r t e v = v
  on_blob-IsServed (some (buffering reply)) n r t e v = v
  on_blob-IsServed (some (concluded s)) n r t e v = v

  pub on_body-IsServed :
      (stage : Option Stage) (n : ℕ) (r : Result (Unit {0})) (t : Transport)
      → get_elem? t.calls n ≡ stage
      → IsServed t
      → IsServed (on_body api stage n r t)
  on_body-IsServed none n r t e v = v
  on_body-IsServed (some (buffering reply)) n (ok done) t e v =
      pass-IsServed n (concluded (ok reply)) (buffering reply) t e refl refl tt v
  on_body-IsServed (some (buffering reply)) n (err f) t e v =
      pass-IsServed n (concluded (err f)) (buffering reply) t e refl refl tt v
  on_body-IsServed (some (initializing loads a)) n r t e v = v
  on_body-IsServed (some (reading a)) n r t e v = v
  on_body-IsServed (some (queued a body)) n r t e v = v
  on_body-IsServed (some (concluded s)) n r t e v = v
