-- ===== src/Begin/Connects.antt =====
-- How a session stands when ngx_http_upstream_dbd_connect (src/ngx_http_drizzle_util.c) returns to the request that started
-- it.
use drizzle_nginx_module.Prelude.{
  ℕ, ◌+◌, ◌≡◌, refl, sym, ap, ◌∙◌, subst, ◌⊎◌, inl, inr, Bool, true, false, not, List, [], ◌∷◌,
  Option, none, some, ◌==◌, if◌then◌else◌, Bool-cases, Option-cases, arith,
}
use drizzle_nginx_module.Nginx.{Rc, Connection, PeerConnection}
use drizzle_nginx_module.Peer.{Request}
use drizzle_nginx_module.Peer.Outcome.{IsFresh}
use drizzle_nginx_module.Connect.{Attempt, Answer, Result, answered, connected}
use drizzle_nginx_module.Connect.Retry.{AllHeld, HasConnection, Settled, dbd_connect-settles}
use drizzle_nginx_module.LocConf.{LocConf}
use drizzle_nginx_module.LocConf.Query.{Chosen, chosen, no_row, null_read, choose_query}
use drizzle_nginx_module.Upstream.{PeersConf}
use drizzle_nginx_module.Upstream.InitPeer.{
  PeerSetup, Started, init_ok, init_failed, init_fault, init_peer, request_dbname, request_query,
  new_request, with_choice, with_query,
}
use drizzle_nginx_module.Session.{
  Session, Env, set_req, set_connection_of, connection_of, timer, context, finalize,
}
use drizzle_nginx_module.Processor.{process_events}
use drizzle_nginx_module.Begin.{
  Host, hand_over, wait_or_process, is_again, resume, resumed, connect_session,
}
use drizzle_nginx_module.Begin.Resume.{resume-none}

-- A request that started has the peers of its upstream, in the order of its turn.
pub init_peer-request :
    (setup : PeerSetup) (conf : LocConf) (method : ℕ) (peers : PeersConf) (current : ℕ)
    (pc : PeerConnection) (s : Started)
    → init_peer setup conf method peers current pc ≡ init_ok s
    → (dbname : List ℕ) × (s.request ≡ new_request peers current pc dbname)
unfolding init_peer
init_peer-request setup conf method peers current pc s e =
    go (not setup.memory) (peers.number == 0) (request_dbname setup conf) (choose_query conf method)
      e
  where
    by_query :
        (request : Request) (o : Option (List ℕ))
        → with_query request o ≡ init_ok s
        → s.request ≡ request
    by_query request none f = absurd (ground (arith, f))
    by_query request (some sql) f = ground (arith, f)

    go :
        (a b : Bool) (o : Option (List ℕ)) (k : Chosen)
        → (if a then init_failed else if b then init_fault else elim o [
          | none ↦ init_failed
          | some name ↦ with_choice setup (new_request peers current pc name) k
        ])
          ≡ init_ok s
        → (dbname : List ℕ) × (s.request ≡ new_request peers current pc dbname)
    go true b o k f = absurd (ground (arith, f))
    go false true o k f = absurd (ground (arith, f))
    go false false none k f = absurd (ground (arith, f))
    go false false (some name) no_row f = absurd (ground (arith, f))
    go false false (some name) null_read f = absurd (ground (arith, f))
    go false false (some name) (chosen q) f =
        (name, by_query (new_request peers current pc name) (request_query setup q) f)

-- The request was answered, once, and has no connection.
abbrev pub IsAnswered : Session → Type 0
IsAnswered s = (a : Answer) × (s.ended ≡ some a ∷ []) × (connection_of s ≡ none)

-- In some attempt nginx had no connection for descriptor 0, and the NULL pointer was read.
abbrev pub ReadsNull : (ℕ → Attempt) → Session → Type 0
ReadsNull attempts s =
    (s.ended ≡ none ∷ [])
    × (connection_of s ≡ none)
    × (k : ℕ) × ((attempts k).net.get_connection 0 ≡ none)

-- The request is not finalized, has a connection and the timer for writing to it, and sent its header or not as it did
-- before.
abbrev pub IsWaiting : Bool → Session → Type 0
IsWaiting header_sent s =
    (s.ended ≡ [])
    × (s.out.header_sent ≡ header_sent)
    × (c : Connection) × (connection_of s ≡ some c)
    × (c.write.timer_set ≡ true)

module _ (env : Env) (host : Host) (reconnect : Session → Session) where
  -- What a request with a connection became: its events were handled, or, without the memory for its body, it was finalized
  -- with 500.
  abbrev pub Handles : Session → Type 0
  Handles s =
      (u : Session) × HasConnection u.req
      × (u.ended ≡ [])
      × ((s ≡ (process_events env reconnect u).1)
          ⊎ ((s ≡ finalize (Rc.status 500) u) × (host.chain_memory ≡ false)))

  abbrev pub Connects : (ℕ → Attempt) → Bool → Session → Type 0
  Connects attempts header_sent s =
      IsAnswered s ⊎ (ReadsNull attempts s ⊎ (IsWaiting header_sent s ⊎ Handles s))

  resume-cases :
      (rc : Rc) (s : Session) (c : Connection)
      → connection_of s ≡ some c
      → s.request_sent ≡ false
      → let u = set_connection_of (some (hand_over c)) s in
        (resume env host reconnect rc s ≡ wait_or_process env host reconnect rc u)
        ⊎ ((resume env host reconnect rc s ≡ finalize (Rc.status 500) u)
            × (host.chain_memory ≡ false))
  unfolding resume
  resume-cases rc s c e first = elim (Bool-cases host.chain_memory) [
    | inl m ↦ inl (ground (arith, e, first, m))
    | inr m ↦ elim (Bool-cases host.reuses_body) [
      | inl b ↦ inr (ground (arith, e, first, m, b), m)
      | inr b ↦ inl (ground (arith, e, first, b))
    ]
  ]

  wait-Connects :
      (attempts : ℕ → Attempt) (rc : Rc) (u : Session) (c : Connection)
      → (rc ≡ Rc.again) ⊎ (rc ≡ Rc.done)
      → connection_of u ≡ some c
      → u.ended ≡ []
      → Connects attempts u.out.header_sent (wait_or_process env host reconnect rc u)
  unfolding wait_or_process is_again
  wait-Connects attempts rc u c (inl again) e before =
      subst (λ rc. Connects attempts u.out.header_sent (wait_or_process env host reconnect rc u))
        (sym again)
        (inr (
          inr
            (inl (before, refl, record c { write = timer true c.write }, ground (arith, e), refl))))
  wait-Connects attempts rc u c (inr done) e before =
      subst (λ rc. Connects attempts u.out.header_sent (wait_or_process env host reconnect rc u))
        (sym done) (inr (inr (inr (record u { request_sent = false }, (c, e), before, inl refl))))

  resume-Connects :
      (attempts : ℕ → Attempt) (rc : Rc) (s : Session) (c : Connection)
      → (rc ≡ Rc.again) ⊎ (rc ≡ Rc.done)
      → connection_of s ≡ some c
      → s.request_sent ≡ false
      → s.ended ≡ []
      → Connects attempts s.out.header_sent (resume env host reconnect rc s)
  resume-Connects attempts rc s c code e first before =
      let u = set_connection_of (some (hand_over c)) s in
      elim (resume-cases rc s c e first) [
        | inl same ↦
            subst (Connects attempts s.out.header_sent) (sym same)
              (wait-Connects attempts rc u (hand_over c) code refl before)
        | inr (same, m) ↦ inr (inr (inr (u, (hand_over c, refl), before, inr (same, m))))
      ]

  resumed-Connects :
      (attempts : ℕ → Attempt) (s : Session) (r : Result)
      → s.request_sent ≡ false
      → s.ended ≡ []
      → Settled attempts r
      → Connects attempts s.out.header_sent (resumed env host reconnect s (some r))
  resumed-Connects attempts s (answered r) first before gone =
      inl (r.0, ap (λ xs. some r.0 ∷ xs) before, gone)
  resumed-Connects attempts s (connected rc req) first before (inl (code, (c, e), _)) =
      resume-Connects attempts rc (set_req req s) c code e first before
  resumed-Connects attempts s (connected rc req) first before (inr (again, (full, k, e))) =
      elim (Option-cases req.link.pc.connection) [
        | inr (c, f) ↦ resume-Connects attempts rc (set_req req s) c (inl again) f first before
        | inl f ↦
            subst (Connects attempts s.out.header_sent)
              (sym (resume-none env host reconnect rc (set_req req s) f))
              (inr (inl (ap (λ xs. none ∷ xs) before, f, k, sym e ∙ f)))
      ]

  -- Connecting a request that has no connection ends, and each way in which it ends.
  pub connect_session-Connects :
      (attempts : ℕ → Attempt) (s : Session)
      → IsFresh s.req
      → AllHeld s.req.link.pool.cache
      → s.request_sent ≡ false
      → s.ended ≡ []
      → Connects attempts s.out.header_sent (connect_session env host reconnect attempts s)
  unfolding connect_session
  connect_session-Connects attempts s fresh held first before =
      let (r, e, settled) =
        dbd_connect-settles (s.req.remaining_peers + 1) attempts (context s) 0 s.req fresh held
          (omega arith) in
      subst (λ o. Connects attempts s.out.header_sent (resumed env host reconnect s o)) (sym e)
        (resumed-Connects attempts s r first before settled)
