-- ===== src/Begin.antt =====
-- The start of a request: ngx_http_upstream_dbd_init, ngx_http_upstream_dbd_init_request,
-- ngx_http_upstream_dbd_reinit and the end of ngx_http_upstream_dbd_connect of
-- src/ngx_http_drizzle_util.c.
pub mod Serve
pub mod Starts
pub mod Aims
pub mod Early
pub mod Stream
pub mod Handled
pub mod Resume
pub mod Connects
pub mod Stands
pub mod Rejected
mod Tests
use drizzle_nginx_module.Prelude.{
  ℕ, ◌+◌, Bool, true, false, not, ◌&&◌, ◌||◌, List, [], ◌∷◌, Option, none, some, if◌then◌else◌,
}
use drizzle_nginx_module.Nginx.{Rc, Connection, Handler, PeerConnection}
use drizzle_nginx_module.Peer.{Request, use_log}
use drizzle_nginx_module.Connect.{
  Answer, Attempt, Result, connected, answered, answer, is_ok, dbd_connect,
}
use drizzle_nginx_module.LocConf.Pass.{Location}
use drizzle_nginx_module.Upstream.InitPeer.{
  PeerSetup, Started, InitPeer, init_ok, init_failed, init_fault, init_peer,
}
use drizzle_nginx_module.Output.Buffers.{Output}
use drizzle_nginx_module.Session.{
  Db, ClientWrite, Session, Env, set_req, set_connection_of, connection_of, on_write, timer,
  test_connection, context, ended_with, finalize,
}
use drizzle_nginx_module.Processor.{process_events}

-- What nginx has and answers at the start of a request: the event flag NGX_USE_CLEAR_EVENT, `c->write->active` and `ngx_add_event`; `r->aio`; whether the client's aborts are not watched
-- (`u->store`, `r->post_action` or `ignore_client_abort`); `r->upstream_states`, its memory, and the memory of a state and
-- of the cleanup. Then, at each connection, the memory of the list of headers; whether a request body is sent again in a
-- subrequest or can be reused, and the memory of its chain.
pub record Host : Type 0 where
  pub clear_event : Bool
  pub write_active : Bool
  pub write_added : Bool
  pub aio : Bool
  pub ignores_abort : Bool
  pub has_states : Bool
  pub states_memory : Bool
  pub state_memory : Bool
  pub cleanup_memory : Bool
  pub headers_memory : Bool
  pub sends_body_again : Bool
  pub reuses_body : Bool
  pub chain_memory : Bool

-- What the request brings: `r->headers_out` and the counters of the request, the replies that libdrizzle will give, and the
-- client's connection.
pub record Arrival : Type 0 where
  pub out : Output
  pub db : Db
  pub client_error : Bool
  pub client_timedout : Bool
  pub client_write : ClientWrite

-- ngx_http_drizzle_create_request
abbrev pub create_request : Rc
create_request = Rc.ok

-- ngx_http_drizzle_reinit_request
abbrev pub reinit_request : Rc
reinit_request = Rc.ok

-- The session of a request that ngx_http_upstream_drizzle_init_peer started: `ngx_pcalloc` cleared `dp` and
-- ngx_http_upstream_create the upstream object.
unfoldable pub new_session : Arrival → Started → Session
new_session from started = record {
  req = started.request;
  out = from.out;
  db = from.db;
  query = started.query;
  row = 0;
  read_timeout = 0;
  status_n = 0;
  length = 0;
  client_error = from.client_error;
  client_timedout = from.client_timedout;
  client_write = from.client_write;
  draining = false;
  request_sent = false;
  thread_id = none;
  asked = [];
  seen = [];
  ended = [];
}

-- ngx_http_upstream_dbd_reinit: whether it returns NGX_OK. `u->headers_in`, which it clears, has no field.
unfoldable pub dbd_reinit : Host → Bool
unfolding is_ok
dbd_reinit host =
    if not (is_ok reinit_request) || not host.headers_memory
    then false
    else not (host.sends_body_again && not host.chain_memory)

-- The connection calls ngx_http_upstream_dbd_handler and logs where the request does.
abbrev pub hand_over : Connection → Connection
hand_over c = use_log (record c {
  write = record (c.write) { handler = Handler.dbd_handler };
  read = record (c.read) { handler = Handler.dbd_handler };
})

unfoldable pub is_again : Rc → Bool
is_again Rc.again = true
is_again Rc.ok = false
is_again Rc.error = false
is_again Rc.busy = false
is_again Rc.done = false
is_again Rc.declined = false
is_again (Rc.status n) = false

module _ (env : Env) (host : Host) (reconnect : Session → Session) where
  -- From `u->request_sent = 0` on.
  unfoldable pub wait_or_process : Rc → Session → Session
  unfolding is_again
  wait_or_process rc s =
      let s' = record s { request_sent = false } in
      if is_again rc then on_write (timer true) s' else (process_events env reconnect s').1

  -- ngx_http_upstream_dbd_connect after `ngx_event_connect_peer` gave NGX_OK, NGX_AGAIN or NGX_DONE. It reads the
  -- connection, so without one it reads a NULL pointer.
  unfoldable pub resume : Rc → Session → Session
  unfolding dbd_reinit wait_or_process
  resume rc s = elim (connection_of s) [
    | none ↦ ended_with none s
    | some c ↦
        let s' = set_connection_of (some (hand_over c)) s in
        if s.request_sent && not (dbd_reinit host)
        then finalize (Rc.status 500) s'
        else if host.reuses_body && not host.chain_memory
        then finalize (Rc.status 500) s'
        else wait_or_process rc s'
  ]

  abbrev pub resumed : Session → Option Result → Session
  resumed s none = ended_with none s
  resumed s (some (connected rc req)) = resume rc (set_req req s)
  resumed s (some (answered r)) = ended_with (some r) s

  -- ngx_http_upstream_dbd_connect, the whole, with one attempt more than there are peers left.
  unfoldable pub connect_session : (ℕ → Attempt) → Session → Session
  unfolding resume
  connect_session attempts s =
      resumed s (dbd_connect (s.req.remaining_peers + 1) attempts (context s) 0 s.req)

-- How ngx_http_upstream_dbd_init returns: without a word (`r->aio`), after ngx_http_finalize_request, after
-- ngx_http_upstream_drizzle_finalize_request of a request that has no peer yet, with a read of a NULL pointer or a division by
-- zero, or with a session.
pub data Begun : Type 0 where
  left fault : Begun
  finalized : Rc → Begun
  closed : Answer → Begun
  goes : Session → Begun

-- The client's half: whether its aborts are watched, and whether the cleanup is registered.
pub record Watch : Type 0 where
  pub watched : Bool
  pub cleanup : Bool

module _ (env : Env) (host : Host) (reconnect : Session → Session) (setup : PeerSetup)
    (attempts : ℕ → Attempt) where
  abbrev pub started : Arrival → InitPeer → Begun
  started from init_failed = closed (answer from.out.header_sent (Rc.status 500))
  started from init_fault = fault
  started from (init_ok s) = goes (connect_session env host reconnect attempts (new_session from s))

  -- The label `found`.
  unfoldable pub begin_peer : Arrival → Location → ℕ → PeerConnection → Begun
  begin_peer from loc method pc = elim loc.upstream [
    | none ↦ fault
    | some u ↦ started from (init_peer setup loc.conf method u.peers u.current pc)
  ]

  abbrev pub unwatched : Watch
  unwatched = record { watched = false; cleanup = false }

  abbrev pub watching : Bool → Watch
  watching cleanup = record { watched = not host.ignores_abort; cleanup = cleanup }

  -- ngx_http_upstream_dbd_init_request. `u->resolved` is NULL, since nothing of the module sets it.
  unfoldable pub dbd_init_request : Arrival → Location → ℕ → PeerConnection → Watch × Begun
  unfolding begin_peer is_ok
  dbd_init_request from loc method pc =
      if host.aio
      then (unwatched, left)
      else if not (is_ok create_request)
      then (watching false, finalized (Rc.status 500))
      else if not host.has_states && not host.states_memory
      then (watching false, finalized (Rc.status 500))
      else if host.has_states && not host.state_memory
      then (watching false, closed (answer from.out.header_sent (Rc.status 500)))
      else if not host.cleanup_memory
      then (watching false, finalized (Rc.status 500))
      else (watching true, begin_peer from loc method pc)

  -- ngx_http_upstream_dbd_init. The client's timer for reading, which it removes, has no field.
  unfoldable pub dbd_init : Arrival → Location → ℕ → PeerConnection → Watch × Begun
  unfolding dbd_init_request
  dbd_init from loc method pc =
      if host.clear_event && (not host.write_active && not host.write_added)
      then (unwatched, finalized (Rc.status 500))
      else dbd_init_request from loc method pc
