-- ===== src/Begin/Tests.antt =====
-- Runs of the start of a request, and of a rejected one, on concrete requests.
mod Wire
use drizzle_nginx_module.Prelude.{
  ℕ, ◌+◌, ◌^◌, ◌<◌, ◌≡◌, refl, true, false, [], ◌∷◌, ◌++◌, none, some, bytes_eq, codes, arith,
}
use drizzle_nginx_module.Nginx.{Rc, Event, Connection, Handler, Log}
use drizzle_nginx_module.Keepalive.{Overflow}
use drizzle_nginx_module.Peer.{Net, Connecting}
use drizzle_nginx_module.Connect.{Attempt, Context, Result, dbd_connect}
use drizzle_nginx_module.Connect.Retry.{Settled}
use drizzle_nginx_module.LocConf.{Mixed}
use drizzle_nginx_module.LocConf.Query.{Chosen, choose_query, refuse}
use drizzle_nginx_module.LocConf.Pass.{UpstreamConf, Location, ContentHandler}
use drizzle_nginx_module.Upstream.{PeersConf}
use drizzle_nginx_module.Upstream.InitPeer.{
  PeerSetup, Started, InitPeer, request_dbname, request_query, init_peer,
}
use drizzle_nginx_module.Upstream.InitPeer.Start.{Evaluates, start_settles}
use drizzle_nginx_module.Upstream.Tests.{methods, get_conf, get_conf-Built, pool, peer}
use drizzle_nginx_module.Output.Buffers.{Output, Client}
use drizzle_nginx_module.Session.{Session, Env}
use drizzle_nginx_module.Begin.{Host, Arrival}
use drizzle_nginx_module.Begin.Serve.{Incoming, drizzle_handler, new_pc}
use drizzle_nginx_module.Begin.Handled.{Handled}

abbrev pub event : Event
event = record {
  timer_set = false;
  active = false;
  disabled = false;
  posted = false;
  closed = false;
  ready = false;
  handler = Handler.no_handler;
  log = Log.cycle_log;
}

abbrev pub connection_on : ℕ → Connection
connection_on fd = record {
  fd = fd;
  close = false;
  idle = false;
  read = event;
  write = event;
  log = Log.cycle_log;
}

-- The connection is being opened.
abbrev pub network : Net
network = record {
  dc = some 11;
  con_connect = λ _. Connecting.io_wait;
  con_fd = some 5;
  get_connection = λ fd. some (connection_on fd);
  add_conn = some true;
  add_read = true;
  add_write = true;
}

abbrev pub attempts : ℕ → Attempt
attempts n = record { state_pushed = true; net = network }

abbrev pub setup : PeerSetup
setup = record { memory = true; value = λ _. some (codes "v"); max_db = 64 }

setup-Evaluates : Evaluates setup
setup-Evaluates script = (codes "v", refl, omega arith)

-- One peer, with room for two connections, of which some are open.
abbrev pub conf_with : Overflow → ℕ → PeersConf
conf_with overflow active_conns = record {
  single = true;
  number = 1;
  peers = peer ∷ [];
  pool = pool overflow active_conns;
}

abbrev pub upstream : Overflow → ℕ → UpstreamConf
upstream overflow active_conns = record {
  host = codes "db";
  port = 0;
  peers = conf_with overflow active_conns;
  current = 0;
}

abbrev pub location : ℕ → Location
location active_conns = record {
  conf = get_conf;
  complex_target = none;
  upstream = some (upstream Overflow.overflow_reject active_conns);
  handler = ContentHandler.drizzle_handler;
  auto_redirect = false;
  name = codes "/";
}

get_admitted : refuse get_conf 2 ≡ none
unfolding refuse
get_admitted = refl

empty_dbname : request_dbname setup get_conf ≡ some []
unfolding request_dbname
empty_dbname = refl

abbrev pub no_error : Context
no_error = record {
  upstream = record { status_n = 0; header_sent = false; length = 0 };
  client_error = false;
}

start_settles_example :
    (q : Mixed) × (started : Started) × (r : Result) × (choose_query get_conf 2 ≡ Chosen.chosen q)
    × (request_query setup q ≡ some started.query)
    × (init_peer setup get_conf 2 (conf_with Overflow.overflow_reject 0) 0 new_pc
        ≡ InitPeer.init_ok started)
    × (dbd_connect (1 + 1) attempts no_error 0 started.request ≡ some r)
    × Settled attempts r
start_settles_example =
    start_settles methods setup get_conf 2 (conf_with Overflow.overflow_reject 0) 0 new_pc []
      attempts no_error get_conf-Built get_admitted refl setup-Evaluates empty_dbname (omega arith)
      refl refl (omega arith) tt

abbrev pub client : Client
client = record {
  alloc = λ _. true;
  header = λ _. Rc.ok;
  filter = λ _. Rc.ok;
  buffered = λ _. false;
  sent = λ _. 1;
}

abbrev pub env : Env
env = record {
  client = client;
  conf = record { buf_size = 64; max_buffered = 128; enable_module_header = false };
  del_read = λ _. true;
  del_write = λ _. true;
  handle_write = λ _. true;
  handle_read = λ _. true;
  time_left = λ _. 9;
}

abbrev pub host : Host
host = record {
  clear_event = true;
  write_active = false;
  write_added = true;
  aio = false;
  ignores_abort = false;
  has_states = false;
  states_memory = true;
  state_memory = true;
  cleanup_memory = true;
  headers_memory = true;
  sends_body_again = false;
  reuses_body = false;
  chain_memory = true;
}

abbrev pub output : Output
output = record {
  out_buf = none;
  avail_out = 0;
  buffered_output = 0;
  output_blocked = false;
  output_paused = false;
  seen_stream_end = false;
  out_bufs = [];
  busy_bufs = [];
  free_bufs = [];
  header_sent = false;
  status = 0;
  headers = [];
  content_type = [];
  calls = 0;
  wire = [];
}

abbrev pub arrival : Arrival
arrival = record {
  out = output;
  db = record { connects = []; queries = []; columns = []; rows = []; fields = [] };
  client_error = false;
  client_timedout = false;
  client_write = record { delayed = false; timedout = false; timer_set = false };
}

abbrev pub incoming : Incoming
incoming = record {
  subrequest_in_memory = false;
  method = 2;
  count = 1;
  created = true;
  ctx_memory = true;
  upstreams = [];
  casecmp = bytes_eq;
}

-- Connecting again leaves the request as it is.
abbrev pub stay : Session → Session
stay s = s
