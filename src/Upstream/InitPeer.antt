-- ===== src/Upstream/InitPeer.antt =====
-- ngx_http_upstream_drizzle_init_peer of src/ngx_http_drizzle_upstream.c: the start of a request, with its database and its
-- query.
pub mod Start
use drizzle_nginx_module.Prelude.{
  ℕ, ◌%◌, Bool, true, false, not, List, [], Option, none, some, length, ltb, ◌==◌, if◌then◌else◌,
}
use drizzle_nginx_module.Nginx.{PeerConnection}
use drizzle_nginx_module.Peer.{Request, State}
use drizzle_nginx_module.Upstream.{PeersConf}
use drizzle_nginx_module.LocConf.{Mixed, LocConf}
use drizzle_nginx_module.LocConf.Query.{Chosen, chosen, no_row, null_read, choose_query}

-- nginx's and libdrizzle's part: the memory for `dp`; `ngx_http_complex_value`, `none` where it fails; and
-- DRIZZLE_MAX_DB_SIZE.
pub record PeerSetup : Type 0 where
  pub memory : Bool
  pub value : List ℕ → Option (List ℕ)
  pub max_db : ℕ

-- `dp->dbname`: the text of drizzle_dbname, if it is not empty; `none` is the failure.
abbrev pub fit_dbname : PeerSetup → Option (List ℕ) → Option (List ℕ)
fit_dbname setup none = none
fit_dbname setup (some name) =
    if length name == 0
    then some []
    else if not (ltb (length name) setup.max_db)
    then none
    else some name

unfoldable pub request_dbname : PeerSetup → LocConf → Option (List ℕ)
request_dbname setup conf = elim conf.dbname [
  | none ↦ some []
  | some script ↦ fit_dbname setup (setup.value script)
]

-- `dp->query`: a complex value must not be empty.
abbrev pub fit_query : Option (List ℕ) → Option (List ℕ)
fit_query none = none
fit_query (some sql) = if length sql == 0 then none else some sql

unfoldable pub request_query : PeerSetup → Mixed → Option (List ℕ)
request_query setup q = elim q.cv [
  | none ↦ some q.sv
  | some script ↦ fit_query (setup.value script)
]

-- `dp` as it is now, with the query beside it.
pub record Started : Type 0 where
  pub request : Request
  pub query : List ℕ

-- NGX_OK, NGX_ERROR, or a division by zero or a read of a NULL pointer.
pub data InitPeer : Type 0 where
  init_ok : Started → InitPeer
  init_failed init_fault : InitPeer

-- What `ngx_pcalloc` and the function leave in `dp`.
unfoldable pub new_request : PeersConf → ℕ → PeerConnection → List ℕ → Request
new_request peers current pc dbname = record {
  link = record {
    pc = pc;
    dp = record { name = []; drizzle_con = none; has_set_names = false; used = 0; failed = false };
    pool = peers.pool;
  };
  peers = peers.peers;
  current = current;
  next_peer = current % peers.number;
  remaining_peers = peers.number;
  enable_charset = false;
  set_names_query = [];
  dbname = dbname;
  state = State.db_connect;
  query_started = false;
}

abbrev pub with_query : Request → Option (List ℕ) → InitPeer
with_query request none = init_failed
with_query request (some sql) = init_ok (record { request = request; query = sql })

abbrev pub with_choice : PeerSetup → Request → Chosen → InitPeer
with_choice setup request no_row = init_failed
with_choice setup request null_read = init_fault
with_choice setup request (chosen q) = with_query request (request_query setup q)

abbrev pub with_dbname : PeerSetup → LocConf → ℕ → (List ℕ → Request) → Option (List ℕ) → InitPeer
with_dbname setup conf method request none = init_failed
with_dbname setup conf method request (some name) =
    with_choice setup (request name) (choose_query conf method)

-- ngx_http_upstream_drizzle_init_peer; `current` is `dscf->current`.
unfoldable pub init_peer : PeerSetup → LocConf → ℕ → PeersConf → ℕ → PeerConnection → InitPeer
init_peer setup conf method peers current pc =
    if not setup.memory
    then init_failed
    else if peers.number == 0
    then init_fault
    else with_dbname setup conf method (new_request peers current pc) (request_dbname setup conf)
