-- ===== src/Peer/Tests.antt =====
-- Runs of the choice of a peer, of the retries and of the set-up of the peers on concrete requests.
use drizzle_nginx_module.Prelude.{
  ℕ, ◌<◌, ◌≤◌, ◌≡◌, refl, true, false, List, [], ◌∷◌, ◌++◌, none, some, drop, take, map, codes,
  arith,
}
use drizzle_nginx_module.Nginx.{Rc, Event, Connection, Upstream, Handler, Log}
use drizzle_nginx_module.Keepalive.{Pool, Overflow, keepalive_free_peer, mark_failed}
use drizzle_nginx_module.Peer.{
  Net, Peer, Protocol, Request, State, Connecting, get_peer, free_peer, is_full, rejects,
}
use drizzle_nginx_module.Peer.Outcome.{active, IsFresh, Got, get_peer_cases}
use drizzle_nginx_module.Peer.Balance.{get_peer_limit, get_peer-free_peer}
use drizzle_nginx_module.Peer.Rounds.{draws, draws-round}
use drizzle_nginx_module.Connect.{
  Context, Attempt, Failure, Next, Result, is_nolive, may_retry, reset, next, dbd_connect,
}
use drizzle_nginx_module.Connect.Retry.{Settled, dbd_connect-settles, next-retries}
use drizzle_nginx_module.Upstream.{Addr, Server, Setup, init}
use drizzle_nginx_module.Upstream.Peers.{Complete, init-Complete}

abbrev event : Event
event = record {
  timer_set = false;
  active = false;
  disabled = false;
  posted = false;
  closed = false;
  ready = false;
  handler = Handler.no_handler;
  log = Log.cycle_log;
}

abbrev connection_on : ℕ → Connection
connection_on fd = record {
  fd = fd;
  close = false;
  idle = false;
  read = event;
  write = event;
  log = Log.cycle_log;
}

-- The connection to port 3306 is being opened; any other is refused.
abbrev network : Net
network = record {
  dc = some 11;
  con_connect = λ t. elim (Prim.Native.Nat.compare t.port 3306) [
    | Prim.Native.Nat.Ordering.eq ↦ Connecting.io_wait
    | _ ↦ Connecting.failed
  ];
  con_fd = some 5;
  get_connection = λ fd. some (connection_on fd);
  add_conn = some true;
  add_read = true;
  add_write = true;
}

abbrev peer_at : ℕ → Peer
peer_at port = record {
  sockaddr = port ∷ [];
  name = codes "db";
  port = port;
  user = codes "u";
  password = codes "p";
  dbname = codes "d";
  set_names_query = [];
  host = codes "127.0.0.1";
  protocol = Protocol.mysql_protocol;
}

abbrev peers : List Peer
peers = peer_at 3307 ∷ (peer_at 3306 ∷ (peer_at 3308 ∷ []))

abbrev pool_with : ℕ → Pool
pool_with active_conns = record {
  single = false;
  free = [];
  cache = [];
  active_conns = active_conns;
  max_cached = 2;
  overflow = Overflow.overflow_reject;
  closed = [];
  freed = [];
}

abbrev request_with : ℕ → Request
request_with active_conns = record {
  link = record {
    pc = record { connection = none; cached = false; sockaddr = [] };
    dp = record { name = []; drizzle_con = none; has_set_names = false; used = 0; failed = false };
    pool = pool_with active_conns;
  };
  peers = peers;
  current = 2;
  next_peer = 2;
  remaining_peers = 3;
  enable_charset = false;
  set_names_query = [];
  dbname = [];
  state = State.db_connect;
  query_started = false;
}

request-IsFresh : IsFresh (request_with 1)
request-IsFresh = record { in_range = omega arith; no_connection = refl; bounded = omega arith }

full-IsFresh : IsFresh (request_with 2)
full-IsFresh = record { in_range = omega arith; no_connection = refl; bounded = omega arith }

get_peer_cases_example : Got network (request_with 1) (get_peer network (request_with 1))
get_peer_cases_example = get_peer_cases network (request_with 1) request-IsFresh

get_peer_limit_example :
    (rc : Rc) × (s' : Request) × (get_peer network (request_with 1) ≡ some (rc, s'))
    × (active s' ≤ s'.link.pool.max_cached)
get_peer_limit_example =
    get_peer_limit network (request_with 1) request-IsFresh refl (omega arith) (omega arith)

abbrev upstream : Upstream
upstream = record { status_n = 0; header_sent = false; length = 0 }

room_left : is_full (pool_with 1) ≡ false
unfolding is_full rejects
room_left = refl

no_room : is_full (pool_with 2) ≡ true
unfolding is_full rejects
no_room = refl

get_peer-free_peer_example :
    (rc : Rc) × (s' : Request) × (s'' : Request) × (get_peer network (request_with 1)
      ≡ some (rc, s'))
    × (free_peer upstream true s' ≡ some s'')
    × (active s'' ≡ 1)
    × (s''.link.pc.connection ≡ none)
get_peer-free_peer_example =
    get_peer-free_peer network upstream (request_with 1) request-IsFresh refl room_left

draws-round_example : draws 5 (request_with 1) ≡ map some (drop 2 peers ++ take 2 peers)
draws-round_example = draws-round 5 (request_with 1) refl (omega arith) (omega arith)

abbrev context : Context
context = record { upstream = upstream; client_error = false }

abbrev attempts : ℕ → Attempt
attempts n = record { state_pushed = true; net = network }

dbd_connect-settles_example :
    (r : Result) × (dbd_connect 4 attempts context 0 (request_with 1) ≡ some r) × Settled attempts r
dbd_connect-settles_example =
    dbd_connect-settles 4 attempts context 0 (request_with 1) request-IsFresh tt (omega arith)

retried :
    next context Failure.ft_error (request_with 1)
    ≡ some (
        Next.connects (record (request_with 1) {
          link = record ((request_with 1).link) {
            dp = record ((request_with 1).link.dp) { failed = true };
          };
        }))
unfolding next free_peer keepalive_free_peer mark_failed is_nolive may_retry reset
retried = refl

next-retries_example :
    (false ≡ false)
    × (false ≡ false)
    × (false ≡ false)
    × (0 < 3)
    × (is_nolive Failure.ft_error ≡ false)
    × ((request_with 1).link.pc.connection ≡ none)
    × (State.db_connect ≡ State.db_connect)
    × (false ≡ false)
    × ((request_with 1).remaining_peers ≡ (request_with 1).remaining_peers)
next-retries_example =
    next-retries context Failure.ft_error (request_with 1)
      (record (request_with 1) {
        link = record ((request_with 1).link) {
          dp = record ((request_with 1).link.dp) { failed = true };
        };
      })
      retried

-- Two servers, one of them with two addresses.
abbrev server_at : List Addr → Server
server_at addrs = record {
  addrs = addrs;
  port = 3306;
  user = codes "u";
  password = codes "p";
  dbname = codes "d";
  set_names_query = [];
  protocol = Protocol.mysql_protocol;
}

abbrev addr : ℕ → Addr
addr n = record { sockaddr = n ∷ []; name = codes "db" }

abbrev servers : List Server
servers = server_at (addr 1 ∷ (addr 2 ∷ [])) ∷ (server_at (addr 3 ∷ []) ∷ [])

abbrev setup : Setup
setup = record { peers_memory = true; host_memory = λ _. true; items_memory = true; ntop = λ a. a }

init-Complete_example : Complete setup servers (init setup servers (pool_with 4))
init-Complete_example =
    init-Complete setup servers (pool_with 4) refl (λ _. refl) refl (omega arith)
