-- ===== src/Begin/Rejected.antt =====
-- A request for which the pool is full: ngx_http_upstream_drizzle_get_peer of src/ngx_http_drizzle_upstream.c gives it nginx's
-- connection on descriptor 0, and ngx_http_drizzle_handler of src/ngx_http_drizzle_handler.c answers it.
use drizzle_nginx_module.Prelude.{ℕ, ◌≡◌, true, false, [], ◌∷◌, Option, none, some}
use drizzle_nginx_module.Nginx.{Rc, Connection}
use drizzle_nginx_module.Peer.{Net}
use drizzle_nginx_module.Peer.Outcome.{active}
use drizzle_nginx_module.Connect.{Attempt, Answer}
use drizzle_nginx_module.Upstream.InitPeer.{PeerSetup}
use drizzle_nginx_module.Session.{Session, Env, connection_of}
use drizzle_nginx_module.Begin.{Host, goes, resume}
use drizzle_nginx_module.Begin.Serve.{answer_rejected}

-- nginx has the memory, and adds the event if it must.
pub record Accepts (host : Host) : Type 0 where
  pub added : host.write_added ≡ true
  pub no_aio : host.aio ≡ false
  pub states : host.states_memory ≡ true
  pub state : host.state_memory ≡ true
  pub cleanup : host.cleanup_memory ≡ true
  pub chain : host.chain_memory ≡ true

-- A connection of nginx has the descriptor that it was asked for.
abbrev pub KeepsDescriptor : Net → Type 0
KeepsDescriptor net = (fd : ℕ) (c : Connection) → net.get_connection fd ≡ some c → c.fd ≡ fd

-- The request is answered once, with 503, before any header, keeps no connection, and the pool counts what it did; or, if nginx
-- has no connection left, the session reads a NULL pointer.
abbrev pub IsRejected : Option Connection → ℕ → Session → Type 0
IsRejected (some fake) n s =
    (s.ended ≡ some (Answer.code (Rc.status 503)) ∷ [])
    × (connection_of s ≡ none)
    × (active s.req ≡ n)
IsRejected none n s = s.ended ≡ none ∷ []

module _ (env : Env) (host : Host) (reconnect : Session → Session) (setup : PeerSetup)
    (attempts : ℕ → Attempt) where
  -- What a session that is given the outcome of `get_peer` becomes.
  abbrev Leaves : Session → Option Connection → ℕ → Type 0
  Leaves s o n =
      (t : Session) × (answer_rejected (goes (resume env host reconnect Rc.again s)) ≡ goes t)
      × IsRejected o n t
