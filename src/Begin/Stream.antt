-- ===== src/Begin/Stream.antt =====
-- A request from its start to its last byte: what ngx_http_upstream_drizzle_init_peer and ngx_http_upstream_dbd_connect
-- (src/ngx_http_drizzle_upstream.c and src/ngx_http_drizzle_util.c) leave is where the flow of bytes begins.
use drizzle_nginx_module.Prelude.{
  ℕ, ◌+◌, ◌^◌, ◌<◌, ◌≡◌, refl, sym, ap, ◌∙◌, subst, ◌⊎◌, inl, inr, Bool, true, false, [], ◌++◌,
  some, if◌then◌else◌, All, arith,
}
use drizzle_nginx_module.Nginx.{Rc, Connection, PeerConnection}
use drizzle_nginx_module.Peer.{Request, State}
use drizzle_nginx_module.Connect.{Attempt, connected, dbd_connect}
use drizzle_nginx_module.Output.Buffers.{bytes_of}
use drizzle_nginx_module.Output.Stream.{IsStream, produced, held}
use drizzle_nginx_module.Session.{
  Session, Env, set_req, set_connection_of, connection_of, on_write, timer, context,
}
use drizzle_nginx_module.Session.Flow.{Phase, PieceFits, encode}
use drizzle_nginx_module.Reception.Flow.{IsSession}
use drizzle_nginx_module.Processor.{process_events}
use drizzle_nginx_module.Drain.Run.{Lives, Reach, reach-wire}
use drizzle_nginx_module.LocConf.{LocConf}
use drizzle_nginx_module.Upstream.{PeersConf}
use drizzle_nginx_module.Upstream.InitPeer.{PeerSetup, Started, init_ok, init_peer, new_request}
use drizzle_nginx_module.Begin.Connects.{init_peer-request}
use drizzle_nginx_module.Processor.Events.{process_events-Claim}
use drizzle_nginx_module.Begin.{
  Host, Arrival, new_session, hand_over, is_again, wait_or_process, resume, resumed,
  connect_session,
}
use drizzle_nginx_module.Begin.Early.{IsEarly, ConnectsEarly, dbd_connect-Early}

-- The session with which a request that has a connection goes on: it waits for its timer, or its events are handled.
abbrev pub first_session : Arrival → Started → Request → Connection → Session
first_session from started req c =
    record (set_connection_of (some (hand_over c)) (set_req req (new_session from started))) {
      request_sent = false;
    }

-- Nothing was output yet, and the pieces that come have the length that libdrizzle states.
abbrev pub IsNew : Arrival → Type 0
IsNew from = IsStream from.out × (produced from.out ≡ []) × All PieceFits from.db.fields

Phase-early :
    (st : State) (s : Session)
    → s.seen ≡ []
    → (st ≡ State.db_connect) ⊎ (st ≡ State.db_idle)
    → Phase st s
Phase-early State.db_connect s e v = e
Phase-early State.db_idle s e v = e
Phase-early _ s e v = absurd (ground (arith, v))

first_session-IsSession :
    (from : Arrival) (started : Started) (req : Request) (c : Connection)
    → IsNew from
    → IsEarly req
    → IsSession (first_session from started req c)
unfolding new_session
first_session-IsSession from started req c (stream, empty, fits) v = (
  record { stream = stream; same = empty; fits = fits },
  Phase-early req.state (first_session from started req c) refl v,
)

init_peer-Early :
    (setup : PeerSetup) (conf : LocConf) (method : ℕ) (peers : PeersConf) (current : ℕ)
    (pc : PeerConnection) (s : Started)
    → init_peer setup conf method peers current pc ≡ init_ok s
    → IsEarly s.request
unfolding new_request
init_peer-Early setup conf method peers current pc s e =
    let (dbname, same) = init_peer-request setup conf method peers current pc s e in
    inl (ap (λ (r : Request). r.state) same)

-- What is done with the first session.
abbrev pub Goes : Env → (Session → Session) → Rc → Session → Session → Type 0
Goes env reconnect rc s t =
    t ≡ (if is_again rc then on_write (timer true) s else (process_events env reconnect s).1)

module _ (env : Env) (host : Host) (reconnect : Session → Session)
    (small : env.conf.buf_size < 2 ^ 64) where
  resume-some :
      (rc : Rc) (s : Session) (c : Connection)
      → connection_of s ≡ some c
      → s.request_sent ≡ false
      → host.chain_memory ≡ true
      → resume env host reconnect rc s
        ≡ wait_or_process env host reconnect rc (set_connection_of (some (hand_over c)) s)
  unfolding resume
  resume-some rc s c e first memory = ground (arith, e, first, memory)

  connect_session-Goes :
      (from : Arrival) (started : Started) (attempts : ℕ → Attempt) (rc : Rc) (req : Request)
      (c : Connection)
      → dbd_connect
          (started.request.remaining_peers + 1)
          attempts
          (context (new_session from started))
          0
          started.request
        ≡ some (connected rc req)
      → req.link.pc.connection ≡ some c
      → host.chain_memory ≡ true
      → Goes env reconnect rc
          (first_session from started req c)
          (connect_session env host reconnect attempts (new_session from started))
  unfolding connect_session new_session wait_or_process
  connect_session-Goes from started attempts rc req c e conn memory =
      ap (resumed env host reconnect (new_session from started)) e
      ∙ resume-some rc (set_req req (new_session from started)) c conn refl memory

  -- The session that connecting leaves keeps the flow of bytes.
  connect_session-IsSession :
      (from : Arrival) (started : Started) (attempts : ℕ → Attempt) (rc : Rc) (req : Request)
      (c : Connection)
      → IsNew from
      → IsEarly started.request
      → dbd_connect
          (started.request.remaining_peers + 1)
          attempts
          (context (new_session from started))
          0
          started.request
        ≡ some (connected rc req)
      → req.link.pc.connection ≡ some c
      → host.chain_memory ≡ true
      → (rc ≡ Rc.again) ⊎ Lives (process_events env reconnect (first_session from started req c))
      → IsSession (connect_session env host reconnect attempts (new_session from started))
  unfolding new_session is_again
  connect_session-IsSession from started attempts rc req c new early e conn memory = go
    where
      first : Session
      first = first_session from started req c

      still : IsEarly req
      still = subst ConnectsEarly e (
          dbd_connect-Early (started.request.remaining_peers + 1) attempts
            (context (new_session from started)) 0 started.request early)

      first-IsSession : IsSession first
      first-IsSession = first_session-IsSession from started req c new still

      timed : IsSession (on_write (timer true) first)
      timed = (
        record {
          stream = first-IsSession.0.stream;
          same = first-IsSession.0.same;
          fits = first-IsSession.0.fits;
        },
        Phase-early req.state (on_write (timer true) first) refl still,
      )

      left : Rc → Session
      left rc =
          if is_again rc
          then on_write (timer true) first
          else (process_events env reconnect first).1

      by_code :
          (b : Bool)
          → Lives (process_events env reconnect first)
          → IsSession
              (if b then on_write (timer true) first else (process_events env reconnect first).1)
      by_code true lives = timed
      by_code false lives =
          (process_events-Claim env small reconnect first first-IsSession).waits lives

      go :
          (rc ≡ Rc.again) ⊎ Lives (process_events env reconnect first)
          → IsSession (connect_session env host reconnect attempts (new_session from started))
      go (inl again) =
          subst IsSession
            (sym
              (connect_session-Goes from started attempts rc req c e conn memory ∙ ap left again))
            timed
      go (inr lives) =
          subst IsSession (sym (connect_session-Goes from started attempts rc req c e conn memory))
            (by_code (is_again rc) lives)

  -- A request that ngx_http_upstream_drizzle_init_peer started and for which the loop of attempts ends with a connection: over
  -- every run from the session that ngx_http_upstream_dbd_connect then leaves, what the output filter got, what is queued
  -- and what is in the last buffer are together the RDS encoding of what the database delivered. The loop gave
  -- NGX_AGAIN, or the request goes on after its events were handled for the first time. Nothing was output before, the
  -- buffers are smaller than 2^64 bytes, nginx has the memory for a chain, and the pieces of fields have the length
  -- that libdrizzle states.
  pub request-wire :
      (setup : PeerSetup) (conf : LocConf) (method : ℕ) (peers : PeersConf) (current : ℕ)
      (pc : PeerConnection) (from : Arrival) (started : Started) (attempts : ℕ → Attempt) (rc : Rc)
      (req : Request) (c : Connection) (t : Session)
      → IsNew from
      → init_peer setup conf method peers current pc ≡ init_ok started
      → dbd_connect
          (started.request.remaining_peers + 1)
          attempts
          (context (new_session from started))
          0
          started.request
        ≡ some (connected rc req)
      → req.link.pc.connection ≡ some c
      → host.chain_memory ≡ true
      → (rc ≡ Rc.again) ⊎ Lives (process_events env reconnect (first_session from started req c))
      → Reach env reconnect
          (connect_session env host reconnect attempts (new_session from started))
          t
      → t.out.wire ++ (bytes_of t.out.out_bufs ++ held t.out.out_buf) ≡ encode t.seen
  request-wire setup conf method peers current pc from started attempts rc req c t new init e conn
        memory goes_on run =
      reach-wire env small reconnect
        (connect_session env host reconnect attempts (new_session from started)) t
        (connect_session-IsSession from started attempts rc req c new
          (init_peer-Early setup conf method peers current pc started init) e conn memory goes_on)
        run
