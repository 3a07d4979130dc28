-- ===== src/Begin/Starts.antt =====
-- ngx_http_upstream_dbd_init of src/ngx_http_drizzle_util.c, for a request that the handler admits.
use drizzle_nginx_module.Prelude.{
  ℕ, ◌<◌, ◌≡◌, refl, sym, ap, subst, Bool, true, false, not, ◌&&◌, List, Option, none, some, ◌==◌,
  if◌then◌else◌, arith,
}
use drizzle_nginx_module.Nginx.{Rc, PeerConnection}
use drizzle_nginx_module.Connect.{Attempt, answer, is_ok}
use drizzle_nginx_module.LocConf.{LocConf, Mixed}
use drizzle_nginx_module.LocConf.Query.{
  HttpMethods, refuse, Chosen, chosen, no_row, null_read, choose_query,
}
use drizzle_nginx_module.LocConf.Built.{Built}
use drizzle_nginx_module.LocConf.Choice.{admitted-Chosen}
use drizzle_nginx_module.LocConf.Pass.{UpstreamConf, Location}
use drizzle_nginx_module.Upstream.{PeersConf}
use drizzle_nginx_module.Upstream.InitPeer.{
  PeerSetup, Started, InitPeer, init_ok, init_failed, init_fault, init_peer, request_dbname,
  request_query, new_request, with_choice,
}
use drizzle_nginx_module.Session.{Session, Env}
use drizzle_nginx_module.Begin.{
  Host, Arrival, Begun, left, fault, finalized, closed, goes, Watch, started, begin_peer,
  dbd_init_request, dbd_init, unwatched, watching, new_session, connect_session,
}
use drizzle_nginx_module.Begin.Aims.{HasPeers}
use drizzle_nginx_module.Begin.Connects.{Connects, init_peer-request, connect_session-Connects}
use drizzle_nginx_module.Peer.{Request}
use drizzle_nginx_module.Peer.Outcome.{IsFresh}
use drizzle_nginx_module.Connect.Retry.{AllHeld}
use drizzle_nginx_module.Upstream.InitPeer.Start.{new_request-IsFresh}

init_peer-not :
    (setup : PeerSetup) (conf : LocConf) (method : ℕ) (peers : PeersConf) (current : ℕ)
    (pc : PeerConnection) (q : Mixed)
    → 0 < peers.number
    → choose_query conf method ≡ chosen q
    → ¬ (init_peer setup conf method peers current pc ≡ init_fault)
unfolding init_peer
init_peer-not setup conf method peers current pc q pos c e =
    go (not setup.memory) (peers.number == 0) refl (request_dbname setup conf)
      (choose_query conf method) c (request_query setup q) refl e
  where
    go :
        (a b : Bool)
        → (peers.number == 0) ≡ b
        → (o : Option (List ℕ)) (k : Chosen) → k ≡ chosen q
        → (sql : Option (List ℕ)) → request_query setup q ≡ sql
        → ¬ (
            (if a then init_failed else if b then init_fault else elim o [
              | none ↦ init_failed
              | some name ↦ with_choice setup (new_request peers current pc name) k
            ])
            ≡ init_fault)
    go true b x o k y sql z f = absurd (ground (arith, f))
    go false true x o k y sql z f = absurd (ground (arith, x, pos))
    go false false x none k y sql z f = absurd (ground (arith, f))
    go false false x (some name) no_row y sql z f = absurd (ground (arith, y))
    go false false x (some name) null_read y sql z f = absurd (ground (arith, y))
    go false false x (some name) (chosen p) y sql z f = absurd (ground (arith, f, y, z, sql))

module _ (env : Env) (host : Host) (reconnect : Session → Session) (setup : PeerSetup)
    (attempts : ℕ → Attempt) where
  -- The request is finalized with 500 before it has a peer, waits for its body, or has connected a session.
  abbrev pub Starts : Bool → Begun → Type 0
  Starts header_sent left = Unit
  Starts header_sent fault = ⊥
  Starts header_sent (finalized rc) = rc ≡ Rc.status 500
  Starts header_sent (closed a) = a ≡ answer header_sent (Rc.status 500)
  Starts header_sent (goes s) = Connects env host reconnect attempts header_sent s

  goes-Starts :
      (from : Arrival) (conf : LocConf) (method : ℕ) (u : UpstreamConf) (pc : PeerConnection)
      (s : Started)
      → HasPeers u
      → pc.connection ≡ none
      → init_peer setup conf method u.peers u.current pc ≡ init_ok s
      → Connects env host reconnect attempts from.out.header_sent
          (connect_session env host reconnect attempts (new_session from s))
  unfolding new_session new_request
  goes-Starts from conf method u pc s has empty e =
      let (dbname, same) = init_peer-request setup conf method u.peers u.current pc s e in
      let fresh =
        new_request-IsFresh u.peers u.current pc dbname has.some_peer has.complete empty
          has.bounded in
      connect_session-Connects env host reconnect attempts (new_session from s)
        (subst IsFresh (sym same) fresh)
        (subst (λ (r : Request). AllHeld r.link.pool.cache) (sym same) has.cached) refl refl

  started-Starts :
      (from : Arrival) (i : InitPeer)
      → ¬ (i ≡ init_fault)
      → ((s : Started)
          → i ≡ init_ok s
          → Connects env host reconnect attempts from.out.header_sent
              (connect_session env host reconnect attempts (new_session from s)))
      → Starts from.out.header_sent (started env host reconnect setup attempts from i)
  started-Starts from init_failed safe goes_on = refl
  started-Starts from init_fault safe goes_on = absurd (safe refl)
  started-Starts from (init_ok s) safe goes_on = goes_on s refl

  pub begin_peer-Starts :
      (m : HttpMethods) (from : Arrival) (loc : Location) (method : ℕ) (pc : PeerConnection)
      (u : UpstreamConf)
      → Built m loc.conf
      → refuse loc.conf method ≡ none
      → loc.upstream ≡ some u
      → HasPeers u
      → pc.connection ≡ none
      → Starts from.out.header_sent
          (begin_peer env host reconnect setup attempts from loc method pc)
  unfolding begin_peer
  begin_peer-Starts m from loc method pc u b admitted has ready empty =
      let (q, chose, _) = admitted-Chosen m loc.conf method b admitted in
      let i = init_peer setup loc.conf method u.peers u.current pc in
      let same : begin_peer env host reconnect setup attempts from loc method pc
          ≡ started env host reconnect setup attempts from i =
        ap
          (λ o. elim o [
            | none ↦ fault
            | some v ↦
                started env host reconnect setup attempts from
                  (init_peer setup loc.conf method v.peers v.current pc)
          ])
          has in
      subst (Starts from.out.header_sent) (sym same) (
        started-Starts from i
          (init_peer-not setup loc.conf method u.peers u.current pc q ready.some_peer chose)
          (λ s. goes-Starts from loc.conf method u pc s ready empty))

  pub dbd_init-Starts :
      (from : Arrival) (loc : Location) (method : ℕ) (pc : PeerConnection)
      → Starts from.out.header_sent
          (begin_peer env host reconnect setup attempts from loc method pc)
      → Starts from.out.header_sent
          (dbd_init env host reconnect setup attempts from loc method pc).1
  unfolding dbd_init dbd_init_request is_ok
  dbd_init-Starts from loc method pc v =
      go (host.clear_event && (not host.write_active && not host.write_added)) host.aio
        (not host.has_states && not host.states_memory) (host.has_states && not host.state_memory)
        (not host.cleanup_memory)
    where
      h : Bool
      h = from.out.header_sent

      watched : Bool → Watch
      watched = watching env host reconnect setup attempts

      none_watched : Watch
      none_watched = unwatched env host reconnect setup attempts

      last : Watch × Begun
      last = (watched true, begin_peer env host reconnect setup attempts from loc method pc)

      go :
          (a b c d e : Bool)
          → let r : Watch × Begun =
              if a
              then (none_watched, finalized (Rc.status 500))
              else if b
              then (none_watched, left)
              else if c
              then (watched false, finalized (Rc.status 500))
              else if d
              then (watched false, closed (answer h (Rc.status 500)))
              else if e
              then (watched false, finalized (Rc.status 500))
              else last in
            Starts h r.1
      go true b c d e = refl
      go false true c d e = tt
      go false false true d e = refl
      go false false false true e = refl
      go false false false false true = refl
      go false false false false false = v
