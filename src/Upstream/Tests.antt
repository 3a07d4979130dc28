-- ===== src/Upstream/Tests.antt =====
-- Runs of the directives drizzle_query and drizzle_server on concrete arguments.
use drizzle_nginx_module.Prelude.{
  ℕ, ◌≡◌, refl, inl, true, false, List, [], ◌∷◌, ◌++◌, none, some, map, codes, bytes_eq, All, arith,
}
use drizzle_nginx_module.Keepalive.Directive.{after_prefix}
use drizzle_nginx_module.Keepalive.{Pool, Overflow}
use drizzle_nginx_module.Peer.{Peer, Protocol, Request, State}
use drizzle_nginx_module.LocConf.{LocConf, Mixed, create_loc_conf, merge_loc_conf, inherits_query}
use drizzle_nginx_module.LocConf.Query.{
  HttpMethods, Compiler, ConfResult, Chosen, drizzle_query, query_for_methods, add_methods,
  find_method, compile_query, choose_query, http_methods,
}
use drizzle_nginx_module.LocConf.Built.{Built, text_of}
use drizzle_nginx_module.LocConf.Choice.{Names, drizzle_query-again}
use drizzle_nginx_module.LocConf.Merged.{Follows, drizzle_query-Follows}
use drizzle_nginx_module.Output.Headers.{same_key}
use drizzle_nginx_module.Upstream.{Addr, Server, PeersConf, Setup, Init, init}
use drizzle_nginx_module.Upstream.Directive.{
  Limits, Parser, Parsed, new_server, drizzle_server, parse_server, set_options, set_option,
  set_dbname, set_charset, has_quote,
}
use drizzle_nginx_module.Upstream.Directive.Targets.{Declared, Serves, Declared-Serves}
use drizzle_nginx_module.Upstream.Directive.Written.{
  Setting, written, with_settings, Complains, drizzle_server-written, drizzle_server-too_long,
}

abbrev pub methods : HttpMethods
methods = record {
  get = 2;
  head = 4;
  post = 8;
  put = 16;
  delete = 32;
  mkcol = 64;
  copy = 128;
  move = 256;
  options = 512;
  propfind = 1024;
  proppatch = 2048;
  lock = 4096;
  unlock = 8192;
  patch = 16384;
}

abbrev compiler : Compiler
compiler = record {
  default_memory = true;
  array_memory = true;
  push_memory = true;
  value_memory = true;
  has_variables = λ _. false;
  compiles = λ _. true;
}

-- drizzle_query GET "select 1";
abbrev pub get_conf : LocConf
get_conf = record create_loc_conf {
  methods_set = 2;
  queries = some (record { key = 2; sv = codes "select 1"; cv = none } ∷ []);
}

get_conf-ok :
    drizzle_query methods compiler (codes "GET" ∷ []) (codes "select 1") create_loc_conf
    ≡ ConfResult.conf_ok get_conf
unfolding drizzle_query query_for_methods add_methods find_method same_key compile_query bytes_eq
get_conf-ok = refl

pub get_conf-Built : Built methods get_conf
get_conf-Built =
    Built.queried compiler (codes "GET" ∷ []) (codes "select 1") create_loc_conf get_conf
      Built.created get_conf-ok

-- drizzle_query POST "call p()"; in the same location.
abbrev post_conf : LocConf
post_conf = record create_loc_conf {
  methods_set = 10;
  queries = some (
      record { key = 2; sv = codes "select 1"; cv = none }
      ∷ (record { key = 8; sv = codes "call p()"; cv = none } ∷ []));
}

post_conf-ok :
    drizzle_query methods compiler (codes "POST" ∷ []) (codes "call p()") get_conf
    ≡ ConfResult.conf_ok post_conf
unfolding drizzle_query query_for_methods add_methods find_method same_key compile_query bytes_eq
post_conf-ok = refl

post-Names : Names (http_methods methods) (codes "POST" ∷ []) 8
unfolding find_method same_key bytes_eq
post-Names = inl refl

-- The location sets its buffer too, and is merged with a location that has a query of its own for POST.
abbrev outer_conf : LocConf
outer_conf = record create_loc_conf {
  methods_set = 8;
  queries = some (record { key = 8; sv = codes "select 2"; cv = none } ∷ []);
}

abbrev sized_conf : LocConf
sized_conf = record post_conf { buf_size = some 64 }

abbrev merged_conf : LocConf
merged_conf = record sized_conf {
  enable_module_header = some 1;
  connect_timeout = some 60000;
  send_timeout = some 60000;
  recv_cols_timeout = some 60000;
  recv_rows_timeout = some 60000;
  max_buffered = some 1048576;
}

merged_conf-ok : merge_loc_conf 4096 outer_conf sized_conf ≡ some merged_conf
unfolding merge_loc_conf inherits_query
merged_conf-ok = refl

drizzle_query-Follows_example :
    (q : Mixed) × (choose_query merged_conf 8 ≡ Chosen.chosen q) × (text_of q ≡ codes "call p()")
drizzle_query-Follows_example =
    drizzle_query-Follows methods compiler (codes "POST" ∷ []) (codes "call p()") 4096 get_conf
      post_conf sized_conf outer_conf merged_conf 8 get_conf-Built post_conf-ok post-Names
      (omega arith) (Follows.sets post_conf sized_conf Follows.no_more (refl, refl, refl))
      merged_conf-ok

drizzle_query-again_example : ¬ (
    drizzle_query methods compiler (codes "POST" ∷ []) (codes "call q()") post_conf
    ≡ ConfResult.conf_ok get_conf)
drizzle_query-again_example =
    drizzle_query-again methods compiler compiler (codes "POST" ∷ []) (codes "POST" ∷ [])
      (codes "call p()") (codes "call q()") get_conf post_conf get_conf 8 post_conf-ok post-Names
      post-Names (omega arith)

abbrev limits : Limits
limits = record { max_db = 4; max_user = 4; max_password = 4 }

abbrev addr : Addr
addr = record { sockaddr = 7 ∷ []; name = codes "db" }

abbrev parser : Parser
parser = record {
  parse_url = λ _. some (addr ∷ [], 3306);
  servers_memory = true;
  push_memory = true;
  query_memory = true;
}

abbrev settings : List Setting
settings =
    Setting.dbname_is (codes "d1")
    ∷ (Setting.charset_is (codes "utf8") ∷ (Setting.dbname_is (codes "d2") ∷ []))

abbrev server : Server
server = with_settings settings (new_server (addr ∷ []) 3306)

server-ok :
    drizzle_server limits parser none (codes "db") (map written settings) []
    ≡ Parsed.accepted (server ∷ [])
unfolding drizzle_server parse_server set_options set_option set_dbname set_charset after_prefix
    has_quote
server-ok = refl

utf8_unquoted : has_quote (codes "utf8") ≡ false
unfolding has_quote
utf8_unquoted = refl

drizzle_server-written_example :
    drizzle_server limits parser none (codes "db") (map written settings) []
    ≡ Parsed.accepted ([] ++ (server ∷ []))
drizzle_server-written_example =
    drizzle_server-written limits parser none (codes "db") (addr ∷ []) 3306 settings [] refl refl
      refl refl (omega arith, ((omega arith, utf8_unquoted), (omega arith, tt)))

drizzle_server-too_long_example : Complains none (
    drizzle_server limits parser none
      (codes "db")
      (map written settings ++ (written (Setting.user_is (codes "root")) ∷ []))
      [])
drizzle_server-too_long_example =
    drizzle_server-too_long limits parser none (codes "db") (addr ∷ []) 3306 settings
      (Setting.user_is (codes "root")) [] [] refl refl refl refl
      (omega arith, ((omega arith, utf8_unquoted), (omega arith, tt))) (omega arith)

abbrev setup : Setup
setup = record {
  peers_memory = true;
  host_memory = λ _. true;
  items_memory = true;
  ntop = λ _. codes "127.0.0.1";
}

abbrev pub pool : Overflow → ℕ → Pool
pool overflow active_conns = record {
  single = false;
  free = [];
  cache = [];
  active_conns = active_conns;
  max_cached = 2;
  overflow = overflow;
  closed = [];
  freed = [];
}

abbrev pub peer : Peer
peer = record {
  sockaddr = 7 ∷ [];
  name = codes "db";
  port = 3306;
  user = codes "u";
  password = codes "p";
  dbname = codes "d";
  set_names_query = [];
  host = codes "127.0.0.1";
  protocol = Protocol.mysql_protocol;
}

abbrev request : Request
request = record {
  link = record {
    pc = record { connection = none; cached = false; sockaddr = [] };
    dp = record { name = []; drizzle_con = none; has_set_names = false; used = 0; failed = false };
    pool = pool Overflow.overflow_ignore 0;
  };
  peers = peer ∷ [];
  current = 0;
  next_peer = 0;
  remaining_peers = 1;
  enable_charset = false;
  set_names_query = [];
  dbname = codes "own";
  state = State.db_connect;
  query_started = false;
}

Declared-Serves_example :
    (conf : PeersConf) × (init setup (server ∷ []) (pool Overflow.overflow_ignore 0)
      ≡ Init.init_ok conf)
    × All (Serves limits request) conf.peers
Declared-Serves_example =
    Declared-Serves limits parser none setup (server ∷ []) (pool Overflow.overflow_ignore 0) request
      (omega arith) (omega arith) (omega arith)
      (Declared.one_more (codes "db") (map written settings) [] (server ∷ []) Declared.no_server
        server-ok)
      (omega arith) refl (λ _. refl) refl (omega arith)
