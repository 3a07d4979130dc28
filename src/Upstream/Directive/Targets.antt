-- ===== src/Upstream/Directive/Targets.antt =====
-- What ngx_http_upstream_get_drizzle_peer copies into the arrays of a libdrizzle connection, from the drizzle_server directives
-- of src/ngx_http_drizzle_upstream.c on.
use drizzle_nginx_module.Prelude.{
  ℕ, ◌<◌, ◌≡◌, sym, subst, true, List, [], ◌∷◌, Option, length, ltb, if◌then◌else◌, Bool, false,
  All, All-append, map,
}
use drizzle_nginx_module.Keepalive.{Pool}
use drizzle_nginx_module.Peer.{Peer, Request, Target, target}
use drizzle_nginx_module.Upstream.{Addr, Server, PeersConf, Setup, peer_of, init_ok, init}
use drizzle_nginx_module.Upstream.Peers.{all_peers, init-Complete}
use drizzle_nginx_module.Upstream.Directive.{Limits, Parser, accepted, drizzle_server}
use drizzle_nginx_module.Upstream.Directive.Accepted.{IsQuoted, Fits, drizzle_server-Fits}

-- The servers that accepted drizzle_server directives make, one after the other.
pub data Declared (lim : Limits) (nginx : Parser) (peers : Option PeersConf)
    : List Server → Type 0 where
  no_server : Declared lim nginx peers []
  one_more :
      (url : List ℕ) (args : List (List ℕ)) (servers servers' : List Server)
      → Declared lim nginx peers servers
      → drizzle_server lim nginx peers url args servers ≡ accepted servers'
      → Declared lim nginx peers servers'

-- The texts leave room for the final NUL in the arrays.
pub record Copied (lim : Limits) (t : Target) : Type 0 where
  pub db : length t.db < lim.max_db
  pub user : length t.user < lim.max_user
  pub password : length t.password < lim.max_password

-- What a request gets from the peer.
abbrev pub Serves : Limits → Request → Peer → Type 0
Serves lim request peer = Copied lim (target peer request) × IsQuoted peer.set_names_query

Declared-Fits :
    (lim : Limits) (nginx : Parser) (peers : Option PeersConf) (servers : List Server)
    → 0 < lim.max_db
    → 0 < lim.max_user
    → 0 < lim.max_password
    → Declared lim nginx peers servers
    → All (Fits lim) servers
Declared-Fits lim nginx peers _ d u p no_server = tt
Declared-Fits lim nginx peers _ d u p (one_more url args servers servers' before e) =
    let (s, same, fits) = drizzle_server-Fits lim nginx peers url args servers servers' d u p e in
    subst (All (Fits lim)) (sym same) (
      All-append (Fits lim) servers (s ∷ []) (Declared-Fits lim nginx peers servers d u p before)
        (fits, tt))

peer_of-Serves :
    (lim : Limits) (setup : Setup) (request : Request) (s : Server) (addr : Addr)
    → length request.dbname < lim.max_db
    → Fits lim s
    → Serves lim request (peer_of setup s addr)
unfolding peer_of target
peer_of-Serves lim setup request s addr h v = (
  record { db = by_test (ltb 0 (length request.dbname)); user = v.user; password = v.password },
  v.names,
)
  where
    by_test : (b : Bool) → length (if b then request.dbname else s.dbname) < lim.max_db
    by_test true = h
    by_test false = v.dbname

map-Serves :
    (lim : Limits) (setup : Setup) (request : Request) (s : Server) (addrs : List Addr)
    → length request.dbname < lim.max_db
    → Fits lim s
    → All (Serves lim request) (map (peer_of setup s) addrs)
map-Serves lim setup request s [] h v = tt
map-Serves lim setup request s (addr ∷ addrs) h v =
    (peer_of-Serves lim setup request s addr h v, map-Serves lim setup request s addrs h v)

all_peers-Serves :
    (lim : Limits) (setup : Setup) (request : Request) (servers : List Server)
    → length request.dbname < lim.max_db
    → All (Fits lim) servers
    → All (Serves lim request) (all_peers setup servers)
all_peers-Serves lim setup request [] h v = tt
all_peers-Serves lim setup request (s ∷ servers) h v =
    All-append (Serves lim request) (map (peer_of setup s) s.addrs) (all_peers setup servers)
      (map-Serves lim setup request s s.addrs h v.0)
      (all_peers-Serves lim setup request servers h v.1)

-- From drizzle_server directives that are accepted, at least one, init lays out peers, if nginx has the memory; with
-- each of them, the database, the user and the password that a request copies to its libdrizzle connection leave
-- room for the final NUL, and the query for the character set is none or holds its name in a literal that the name
-- does not leave. libdrizzle's arrays are not empty, and the request's own database fits.
pub Declared-Serves :
    (lim : Limits) (nginx : Parser) (peers : Option PeersConf) (setup : Setup)
    (servers : List Server) (pool : Pool) (request : Request)
    → 0 < lim.max_db
    → 0 < lim.max_user
    → 0 < lim.max_password
    → Declared lim nginx peers servers
    → 0 < length servers
    → setup.peers_memory ≡ true
    → ((n : ℕ) → setup.host_memory n ≡ true)
    → setup.items_memory ≡ true
    → length request.dbname < lim.max_db
    → (conf : PeersConf) × (init setup servers pool ≡ init_ok conf)
      × All (Serves lim request) conf.peers
Declared-Serves lim nginx peers setup servers pool request d u p made some_server room hosts items
      h =
    let (conf, e, laid, counted, one, none_active) =
      init-Complete setup servers pool room hosts items some_server in
    (
      conf,
      e,
      subst (All (Serves lim request)) (sym laid) (
          all_peers-Serves lim setup request servers h
            (Declared-Fits lim nginx peers servers d u p made)),
    )
