-- ===== src/Upstream.antt =====
-- ngx_http_upstream_drizzle_init of src/ngx_http_drizzle_upstream.c: the peers of an upstream from its drizzle_server
-- directives.
pub mod Peers
pub mod InitPeer
pub mod Directive
pub mod Tests
use drizzle_nginx_module.Prelude.{
  ℕ, ◌+◌, Bool, true, false, not, List, [], ◌∷◌, ◌++◌, Option, none, some, length, ltb, ◌==◌,
  if◌then◌else◌,
}
use drizzle_nginx_module.Keepalive.{Overflow, Pool, keepalive_init}
use drizzle_nginx_module.Peer.{Peer, Protocol}

-- `ngx_addr_t`
pub record Addr : Type 0 where
  pub sockaddr : List ℕ
  pub name : List ℕ

-- `ngx_http_upstream_drizzle_server_t`
pub record Server : Type 0 where
  pub addrs : List Addr
  pub port : ℕ
  pub user : List ℕ
  pub password : List ℕ
  pub dbname : List ℕ
  pub set_names_query : List ℕ
  pub protocol : Protocol

-- nginx's answers: the memory for the peers, for the text of each peer's address and for the pool's items, and
-- `ngx_sock_ntop`.
pub record Setup : Type 0 where
  pub peers_memory : Bool
  pub host_memory : ℕ → Bool
  pub items_memory : Bool
  pub ntop : List ℕ → List ℕ

-- `n += server[i].naddrs`
unfoldable pub count_addrs : ℕ → List Server → ℕ
count_addrs n [] = n
count_addrs n (server ∷ servers) = count_addrs (n + length server.addrs) servers

unfoldable pub peer_of : Setup → Server → Addr → Peer
peer_of setup server addr = record {
  sockaddr = addr.sockaddr;
  name = addr.name;
  port = server.port;
  user = server.user;
  password = server.password;
  dbname = server.dbname;
  set_names_query = server.set_names_query;
  host = setup.ntop addr.sockaddr;
  protocol = server.protocol;
}

-- The array of peers up to the index `n`, which is its length here: without memory, written past its end, or filled.
pub data Filling : Type 0 where
  failed overrun : Filling
  filled : List Peer → Filling

unfoldable pub fill_addrs : Setup → ℕ → Server → List Addr → List Peer → Filling
fill_addrs setup number server [] peers = filled peers
fill_addrs setup number server (addr ∷ addrs) peers =
    if not (ltb (length peers) number)
    then overrun
    else if not (setup.host_memory (length peers))
    then failed
    else fill_addrs setup number server addrs (peers ++ (peer_of setup server addr ∷ []))

unfoldable pub fill_servers : Setup → ℕ → List Server → List Peer → Filling
fill_servers setup number [] peers = filled peers
fill_servers setup number (server ∷ servers) peers =
    elim (fill_addrs setup number server server.addrs peers) [
      | failed ↦ failed
      | overrun ↦ overrun
      | filled peers' ↦ fill_servers setup number servers peers'
    ]

-- `dscf->peers` with `single` and `number`, and the pool.
pub record PeersConf : Type 0 where
  pub single : Bool
  pub number : ℕ
  pub peers : List Peer
  pub pool : Pool

-- NGX_ERROR, a write past the end of the peers, or NGX_OK.
pub data Init : Type 0 where
  init_error init_overrun : Init
  init_ok : PeersConf → Init

unfoldable pub init_pool : Setup → Bool → ℕ → List Peer → Pool → Init
init_pool setup single number peers pool =
    if pool.max_cached == 0
    then init_ok (record { single = single; number = number; peers = peers; pool = pool })
    else elim (keepalive_init setup.items_memory pool) [
      | none ↦ init_error
      | some pool' ↦
          init_ok (record { single = single; number = number; peers = peers; pool = pool' })
    ]

-- ngx_http_upstream_drizzle_init; `servers` is empty where there is no drizzle_server.
unfoldable pub init : Setup → List Server → Pool → Init
init setup servers pool =
    let number = count_addrs 0 servers in
    if length servers == 0
    then init_error
    else if not setup.peers_memory
    then init_error
    else elim (fill_servers setup number servers []) [
      | failed ↦ init_error
      | overrun ↦ init_overrun
      | filled peers ↦ init_pool setup (number == 1) number peers (record pool { active_conns = 0 })
    ]

-- The pool that `ngx_pcalloc` clears in ngx_http_upstream_drizzle_create_srv_conf; its queues are not made yet.
abbrev pub create_pool : Pool
create_pool = record {
  single = false;
  free = [];
  cache = [];
  active_conns = 0;
  max_cached = 0;
  overflow = Overflow.overflow_ignore;
  closed = [];
  freed = [];
}

-- `ngx_http_upstream_drizzle_srv_conf_t` before the peers: `servers`, `peers`, `current` and the pool.
pub record SrvConf : Type 0 where
  pub servers : List Server
  pub peers : Option PeersConf
  pub current : ℕ
  pub pool : Pool

-- ngx_http_upstream_drizzle_create_srv_conf, with the memory of the record and of its cleanup; `none` is NULL.
unfoldable pub create_srv_conf : Bool → Bool → Option SrvConf
create_srv_conf memory cleanup_memory =
    if not memory
    then none
    else if not cleanup_memory
    then none
    else some (record { servers = []; peers = none; current = 0; pool = create_pool })
