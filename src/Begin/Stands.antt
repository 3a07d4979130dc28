-- ===== src/Begin/Stands.antt =====
-- How a request stands after the end of ngx_http_drizzle_handler (src/ngx_http_drizzle_handler.c), which answers it when its
-- connection has descriptor 0.
use drizzle_nginx_module.Prelude.{
  ℕ, ◌≡◌, refl, ap, ap₂, ◌∙◌, ◌⊎◌, inl, inr, Bool, true, false, none, some, if◌then◌else◌, [], ◌∷◌,
  arith,
}
use drizzle_nginx_module.Nginx.{Rc}
use drizzle_nginx_module.Connect.{Attempt, answer}
use drizzle_nginx_module.Upstream.InitPeer.{PeerSetup}
use drizzle_nginx_module.Session.{
  Session, Env, set_connection_of, connection_of, test_connection, finalize,
}
use drizzle_nginx_module.Begin.{Host, Begun, left, fault, finalized, closed, goes}
use drizzle_nginx_module.Begin.Serve.{is_fake, answer_rejected}
use drizzle_nginx_module.Begin.Resume.{finalize-answers}
use drizzle_nginx_module.Begin.Connects.{IsAnswered, ReadsNull, IsWaiting, Handles, Connects}
use drizzle_nginx_module.Begin.Starts.{Starts}

-- The request was answered with 503, once, and has no connection.
abbrev pub IsRefused : Bool → Session → Type 0
IsRefused header_sent s =
    (s.ended ≡ some (answer header_sent (Rc.status 503)) ∷ []) × (connection_of s ≡ none)

-- A session is kept, or, on a connection with descriptor 0, finalized with 503 and without that connection.
abbrev pub Cleared : Session → Session → Type 0
Cleared x s =
    ((test_connection is_fake (connection_of x) ≡ false) × (s ≡ x))
    ⊎ ((test_connection is_fake (connection_of x) ≡ true)
        × (s ≡ finalize (Rc.status 503) (set_connection_of none x)))

-- How a session stands when the handler returns: it is not on a connection with descriptor 0; and it was answered and
-- has no connection, with 503 if it waited on descriptor 0, or read a NULL pointer in the place of nginx's connection,
-- or waits on a connection to write to, or is what the handling of its events, or a 500 for want of memory, left of a
-- session that had a connection, cleared as above.
abbrev pub Leaves : Env → Host → (Session → Session) → (ℕ → Attempt) → Bool → Session → Type 0
Leaves env host reconnect attempts header_sent s =
    (test_connection is_fake (connection_of s) ≡ false)
    × (IsAnswered s
        ⊎ (IsRefused header_sent s
            ⊎ (ReadsNull attempts s
                ⊎ (IsWaiting header_sent s
                    ⊎ ((x : Session) × Handles env host reconnect x × Cleared x s)))))

-- How a request that is held stands: it is finalized with 500, before or after it has an upstream, and before it has a
-- peer; or its session stands as above; or nginx reads its body (`r->aio`).
abbrev pub Stands : Env → Host → (Session → Session) → (ℕ → Attempt) → Bool → Begun → Type 0
Stands env host reconnect attempts header_sent left = Unit
Stands env host reconnect attempts header_sent fault = ⊥
Stands env host reconnect attempts header_sent (finalized rc) = rc ≡ Rc.status 500
Stands env host reconnect attempts header_sent (closed a) = a ≡ answer header_sent (Rc.status 500)
Stands env host reconnect attempts header_sent (goes s) =
    Leaves env host reconnect attempts header_sent s

module _ (env : Env) (host : Host) (reconnect : Session → Session) (setup : PeerSetup)
    (attempts : ℕ → Attempt) where
  kept-Leaves :
      (h : Bool) (s : Session)
      → test_connection is_fake (connection_of s) ≡ false
      → Connects env host reconnect attempts h s
      → Leaves env host reconnect attempts h s
  kept-Leaves h s e (inl v) = (e, inl v)
  kept-Leaves h s e (inr (inl v)) = (e, inr (inr (inl v)))
  kept-Leaves h s e (inr (inr (inl v))) = (e, inr (inr (inr (inl v))))
  kept-Leaves h s e (inr (inr (inr v))) = (e, inr (inr (inr (inr (s, v, inl (e, refl))))))

  -- A session on descriptor 0 is answered.
  rejected-Leaves :
      (h : Bool) (s : Session)
      → test_connection is_fake (connection_of s) ≡ true
      → Connects env host reconnect attempts h s
      → Leaves env host reconnect attempts h (finalize (Rc.status 503) (set_connection_of none s))
  rejected-Leaves h s e v =
      let (ended, gone, _) = finalize-answers (Rc.status 503) (set_connection_of none s) refl in
      (
        ap (test_connection is_fake) gone,
        elim v [
          | inl (_, _, f) ↦ absurd (ground (arith, e, f))
          | inr (inl (_, f, _, _)) ↦ absurd (ground (arith, e, f))
          | inr (inr (inl (before, unsent, _, _, _))) ↦
              inr (
                inl
                  (ended ∙ ap₂ (λ b xs. some (answer b (Rc.status 503)) ∷ xs) unsent before, gone))
          | inr (inr (inr w)) ↦ inr (inr (inr (inr (s, w, inr (e, refl)))))
        ],
      )

  pub answer_rejected-Stands :
      (h : Bool) (b : Begun)
      → Starts env host reconnect setup attempts h b
      → Stands env host reconnect attempts h (answer_rejected b)
  unfolding answer_rejected
  answer_rejected-Stands h left v = tt
  answer_rejected-Stands h fault v = v
  answer_rejected-Stands h (finalized rc) v = v
  answer_rejected-Stands h (closed a) v = v
  answer_rejected-Stands h (goes s) v = go (test_connection is_fake (connection_of s)) refl
    where
      go :
          (b : Bool)
          → test_connection is_fake (connection_of s) ≡ b
          → Stands env host reconnect attempts h
              (if b then goes (finalize (Rc.status 503) (set_connection_of none s)) else goes s)
      go false e = kept-Leaves h s e v
      go true e = rejected-Leaves h s e v
