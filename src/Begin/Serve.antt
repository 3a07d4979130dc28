-- ===== src/Begin/Serve.antt =====
-- ngx_http_drizzle_handler of src/ngx_http_drizzle_handler.c (nginx 0.8.17 or later).
use drizzle_nginx_module.Prelude.{
  ℕ, ◌+◌, Bool, false, not, List, [], Option, none, some, length, ◌==◌, if◌then◌else◌,
}
use drizzle_nginx_module.Nginx.{Rc, Connection, PeerConnection}
use drizzle_nginx_module.Connect.{Attempt}
use drizzle_nginx_module.LocConf.Query.{refuse}
use drizzle_nginx_module.LocConf.Pass.{UpstreamConf, Location, drizzle_add}
use drizzle_nginx_module.Upstream.InitPeer.{PeerSetup}
use drizzle_nginx_module.Session.{
  Session, Env, set_connection_of, connection_of, test_connection, finalize,
}
use drizzle_nginx_module.Begin.{
  Host, Arrival, Begun, left, fault, finalized, closed, goes, Watch, dbd_init,
}

-- The request, with nginx's answers: `ngx_http_upstream_create`, the memory of the context, the upstream blocks of the
-- configuration, and `ngx_strncasecmp(...) == 0`. `count` is `r->main->count`.
pub record Incoming : Type 0 where
  pub subrequest_in_memory : Bool
  pub method : ℕ
  pub count : ℕ
  pub created : Bool
  pub ctx_memory : Bool
  pub upstreams : List UpstreamConf
  pub casecmp : List ℕ → List ℕ → Bool

-- The location with the upstream of the request, or what the handler returns.
pub data Targeted : Type 0 where
  no_target : Rc → Targeted
  targets : Location → Targeted

abbrev pub with_found : Location → Option UpstreamConf → Targeted
with_found loc none = no_target (Rc.status 500)
with_found loc (some u) = targets (record loc { upstream = some u })

abbrev pub with_target : Incoming → Location → Option (List ℕ) → Targeted
with_target r loc none = no_target Rc.error
with_target r loc (some text) =
    if length text == 0
    then no_target (Rc.status 500)
    else with_found loc (drizzle_add r.casecmp text 0 r.upstreams)

-- `if (dlcf->complex_target)`: the upstream of the location is set anew.
unfoldable pub find_target : Incoming → PeerSetup → Location → Targeted
find_target r setup loc = elim loc.complex_target [
  | none ↦ targets loc
  | some script ↦ with_target r loc (setup.value script)
]

-- A return code before the request is held, or NGX_DONE: `r->main->count`, the location, and what became of the request.
pub data Served : Type 0 where
  refused : Rc → Served
  served : ℕ → Location → Watch × Begun → Served

abbrev pub is_fake : Connection → Bool
is_fake c = c.fd == 0

-- The connection on descriptor 0 is given back to nginx, and the request is answered with NGX_HTTP_SERVICE_UNAVAILABLE.
unfoldable pub answer_rejected : Begun → Begun
answer_rejected left = left
answer_rejected fault = fault
answer_rejected (finalized rc) = finalized rc
answer_rejected (closed a) = closed a
answer_rejected (goes s) =
    if test_connection is_fake (connection_of s)
    then goes (finalize (Rc.status 503) (set_connection_of none s))
    else goes s

-- The peer connection that ngx_http_upstream_create clears.
abbrev pub new_pc : PeerConnection
new_pc = record { connection = none; cached = false; sockaddr = [] }

module _ (env : Env) (host : Host) (reconnect : Session → Session) (setup : PeerSetup)
    (attempts : ℕ → Attempt) where
  unfoldable pub begin : Arrival → Incoming → Location → Watch × Begun
  unfolding answer_rejected
  begin from r loc =
      let begun = dbd_init env host reconnect setup attempts from loc r.method new_pc in
      (begun.0, answer_rejected begun.1)

  abbrev pub with_targeted : Arrival → Incoming → Targeted → Served
  with_targeted from r (no_target rc) = refused rc
  with_targeted from r (targets loc) =
      if not r.ctx_memory
      then refused (Rc.status 500)
      else served (r.count + 1) loc (begin from r loc)

  abbrev pub unless_refused : Arrival → Incoming → Location → Option Rc → Served
  unless_refused from r loc (some rc) = refused rc
  unless_refused from r loc none =
      if not r.created
      then refused (Rc.status 500)
      else with_targeted from r (find_target r setup loc)

  -- ngx_http_drizzle_handler
  unfoldable pub drizzle_handler : Arrival → Incoming → Location → Served
  unfolding find_target begin
  drizzle_handler from r loc =
      if r.subrequest_in_memory
      then refused (Rc.status 500)
      else unless_refused from r loc (refuse loc.conf r.method)
