-- ===== src/Peer.antt =====
-- src/ngx_http_drizzle_upstream.c, the request's half: the choice of a peer, the connection to it, and its
-- release (ngx_http_upstream_drizzle_get_peer and _free_peer; nginx 0.8.17 or later).
pub mod Outcome
pub mod Rounds
pub mod Balance
mod Tests
use drizzle_nginx_module.Prelude.{
  ℕ, ◌+◌, ◌-◌, ◌%◌, Bool, true, false, not, ◌&&◌, List, [], ◌∷◌, Option, none, some, length,
  get_elem?, leb, ltb, ◌==◌, if◌then◌else◌,
}
use drizzle_nginx_module.Nginx.{Rc, Log, Connection, Upstream, PeerConnection, succ64}
use drizzle_nginx_module.Keepalive.{
  Overflow, overflow_ignore, overflow_reject, Pool, PeerData, Peering, get_peer_single,
  get_peer_multi, keepalive_free_peer, free_connection,
}

pub data Protocol : Type 0 where
  drizzle_protocol mysql_protocol : Protocol

-- `ngx_http_upstream_drizzle_peer_t`
pub record Peer : Type 0 where
  pub sockaddr : List ℕ
  pub name : List ℕ
  pub port : ℕ
  pub user : List ℕ
  pub password : List ℕ
  pub dbname : List ℕ
  pub set_names_query : List ℕ
  pub host : List ℕ
  pub protocol : Protocol

-- `ngx_http_drizzle_state_t`
pub data State : Type 0 where
  db_connect db_send_query db_recv_cols db_recv_rows db_idle : State

-- `pc`, `dp` and `dscf` again, with the fields of the round robin. `peers` and `current` are `dscf->peers` and
-- `dscf->current`.
pub record Request : Type 0 where
  pub link : Peering
  pub peers : List Peer
  pub current : ℕ
  pub next_peer : ℕ
  pub remaining_peers : ℕ
  pub enable_charset : Bool
  pub set_names_query : List ℕ
  pub dbname : List ℕ
  pub state : State
  pub query_started : Bool

-- What `drizzle_con_add_options`, the copies into `dc` and `drizzle_con_set_tcp` tell libdrizzle.
pub record Target : Type 0 where
  pub mysql : Bool
  pub db : List ℕ
  pub user : List ℕ
  pub password : List ℕ
  pub host : List ℕ
  pub port : ℕ

-- What `drizzle_con_connect` returns.
pub data Connecting : Type 0 where
  connected io_wait failed : Connecting

-- What nginx and libdrizzle answer to the calls of one `get_peer`. `dc` is the handle that `ngx_pcalloc` gives,
-- `con_fd` is `none` for -1, `get_connection` is `none` for NULL, `fake` is what it gives for descriptor 0, and `add_conn`
-- is `none` where the event module has no `ngx_add_conn`.
pub record Net : Type 0 where
  pub dc : Option ℕ
  pub con_connect : Target → Connecting
  pub con_fd : Option ℕ
  pub get_connection : ℕ → Option Connection
  pub add_conn : Option Bool
  pub add_read : Bool
  pub add_write : Bool

unfoldable pub is_declined : Rc → Bool
is_declined Rc.declined = true
is_declined Rc.ok = false
is_declined Rc.error = false
is_declined Rc.again = false
is_declined Rc.busy = false
is_declined Rc.done = false
is_declined (Rc.status n) = false

abbrev pub set_connection : Option Connection → Request → Request
set_connection c s = record s {
  link = record (s.link) { pc = record (s.link.pc) { connection = c } };
}

abbrev pub set_drizzle_con : Option ℕ → Request → Request
set_drizzle_con dc s = record s {
  link = record (s.link) { dp = record (s.link.dp) { drizzle_con = dc } };
}

abbrev pub set_pool : Pool → Request → Request
set_pool pool s = record s { link = record (s.link) { pool = pool } }

-- `dp->failed = 0`
abbrev pub clear_failed : Request → Request
clear_failed s = record s { link = record (s.link) { dp = record (s.link.dp) { failed = false } } }

-- The round robin: the peer at `next_peer`. `none` is a read outside the array of peers.
unfoldable pub draw : Request → Option (Peer × Request)
draw s = elim (get_elem? s.peers s.next_peer) [
  | none ↦ none
  | some peer ↦ some (
    peer,
    record s {
      next_peer = (s.next_peer + 1) % length s.peers;
      remaining_peers = s.remaining_peers - 1;
      current = (s.next_peer + 1) % length s.peers;
      enable_charset = ltb 0 (length peer.set_names_query);
      set_names_query = peer.set_names_query;
      link = record (s.link) {
        dp = record (s.link.dp) { name = peer.name };
        pc = record (s.link.pc) { sockaddr = peer.sockaddr; cached = false };
      };
    },
  )
]

-- `dscf->max_cached && dscf->overflow == reject && dscf->active_conns >= dscf->max_cached`
unfoldable pub rejects : Overflow → Bool
rejects overflow_reject = true
rejects overflow_ignore = false

unfoldable pub is_full : Pool → Bool
unfolding rejects
is_full pool =
    ltb 0 pool.max_cached && (rejects pool.overflow && leb pool.max_cached pool.active_conns)

unfoldable pub is_mysql : Protocol → Bool
is_mysql mysql_protocol = true
is_mysql drizzle_protocol = false

-- The request's database name stands before the peer's.
unfoldable pub target : Peer → Request → Target
unfolding is_mysql
target peer s = record {
  mysql = is_mysql peer.protocol;
  db = if ltb 0 (length s.dbname) then s.dbname else peer.dbname;
  user = peer.user;
  password = peer.password;
  host = peer.host;
  port = peer.port;
}

-- The label `invalid`.
unfoldable pub invalid : Request → Rc × Request
invalid s = (
  Rc.error,
  set_drizzle_con none (
      set_connection none
        (set_pool (free_connection s.link.pc.connection s.link.dp.drizzle_con s.link.pool) s)),
)

-- The new nginx connection logs where the request does.
abbrev pub use_log : Connection → Connection
use_log c = record c {
  log = Log.request_log;
  read = record (c.read) { log = Log.request_log };
  write = record (c.write) { log = Log.request_log };
}

-- `wev->ready = 1`
abbrev pub make_ready : Connection → Connection
make_ready c = record c { write = record (c.write) { ready = true } }

-- From `pc->connection = c` to the end: `dp->state`, and the events of the descriptor.
unfoldable pub attach : Net → Bool → Connection → Request → Rc × Request
unfolding invalid
attach net waiting c s =
    let s' =
      set_connection (some (use_log c))
        (record s { state = if waiting then State.db_connect else State.db_idle }) in
    let finished =
      if waiting
      then (Rc.again, s')
      else (Rc.done, set_connection (some (make_ready (use_log c))) s') in
    elim net.add_conn [
      | some added ↦ if added then finished else invalid s'
      | none ↦
          if not net.add_read
          then invalid s'
          else if waiting && not net.add_write
          then invalid s'
          else finished
    ]

-- From `dscf->active_conns++`.
unfoldable pub register : Net → Bool → Request → Rc × Request
unfolding invalid attach
register net waiting s =
    let s' = set_pool (record (s.link.pool) { active_conns = succ64 s.link.pool.active_conns }) s in
    elim net.con_fd [
      | none ↦ invalid s'
      | some fd ↦ elim (net.get_connection fd) [
        | none ↦ invalid s'
        | some c ↦ attach net waiting c s'
      ]
    ]

-- From the allocation of `dc` to the end.
unfoldable pub open_connection : Net → Peer → Request → Rc × Request
unfolding register
open_connection net peer s = elim net.dc [
  | none ↦ (Rc.error, s)
  | some dc ↦ elim (net.con_connect (target peer s)) [
    | failed ↦ (
      Rc.declined,
      set_drizzle_con none (set_pool (record (s.link.pool) { freed = dc ∷ s.link.pool.freed }) s),
    )
    | connected ↦ register net false (set_drizzle_con (some dc) s)
    | io_wait ↦ register net true (set_drizzle_con (some dc) s)
  ]
]

-- A pooled connection, or else what follows.
abbrev pub or_else : Rc × Peering → Request → Option (Rc × Request) → Option (Rc × Request)
or_else found s more =
    if is_declined found.0 then more else some (found.0, record s { link = found.1 })

-- From the choice of the peer to the end. The rejection is told by a connection on descriptor 0.
unfoldable pub open_or_reject : Net → Peer → Request → Rc × Request
unfolding open_connection
open_or_reject net peer s =
    if is_full s.link.pool
    then (Rc.again, set_connection (net.get_connection 0) s)
    else open_connection net peer s

unfoldable pub round_robin : Net → Request → Option (Rc × Request)
unfolding open_or_reject
round_robin net s = if s.remaining_peers == 0 then some (Rc.busy, s) else elim (draw s) [
  | none ↦ none
  | some (peer, s') ↦
      if ltb 0 s'.link.pool.max_cached && not s'.link.pool.single
      then or_else (get_peer_multi s'.link) s' (some (open_or_reject net peer s'))
      else some (open_or_reject net peer s')
]

-- ngx_http_upstream_drizzle_get_peer
unfoldable pub get_peer : Net → Request → Option (Rc × Request)
unfolding round_robin
get_peer net s =
    let s' = clear_failed s in
    if ltb 0 s'.link.pool.max_cached && s'.link.pool.single
    then or_else (get_peer_single s'.link) s' (round_robin net s')
    else round_robin net s'

-- ngx_http_upstream_drizzle_free_peer, with a `pc`. `none` is the pool's fault on two empty queues.
unfoldable pub free_peer : Upstream → Bool → Request → Option Request
free_peer u state_failed s =
    elim (if ltb 0 s.link.pool.max_cached
      then keepalive_free_peer u state_failed s.link
      else some s.link) [
        | none ↦ none
        | some l ↦ elim l.pc.connection [
          | none ↦ some (record s { link = l })
          | some c ↦ some (
              set_drizzle_con none (
                set_connection none (
                  set_pool (free_connection (some c) l.dp.drizzle_con l.pool)
                    (record s { link = l }))))
        ]
      ]
