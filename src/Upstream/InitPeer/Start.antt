-- ===== src/Upstream/InitPeer/Start.antt =====
-- A request that ngx_http_drizzle_handler admits (src/ngx_http_drizzle_handler.c), from its start in
-- src/ngx_http_drizzle_upstream.c to its connection in src/ngx_http_drizzle_util.c.
use native.Mathlib.Nat.{mod-lt}
use drizzle_nginx_module.Prelude.{
  ℕ, ◌+◌, ◌%◌, ◌^◌, ◌<◌, ◌≡◌, refl, ap, ◌∙◌, Bool, true, false, not, List, none, some, length, ◌==◌,
  if◌then◌else◌, Option-cases, inl, inr, arith,
}
use drizzle_nginx_module.Nginx.{PeerConnection}
use drizzle_nginx_module.Peer.Outcome.{IsFresh}
use drizzle_nginx_module.Connect.{Context, Attempt, Result, dbd_connect}
use drizzle_nginx_module.Connect.Retry.{AllHeld, Settled, dbd_connect-settles}
use drizzle_nginx_module.LocConf.{Mixed, LocConf}
use drizzle_nginx_module.LocConf.Query.{HttpMethods, refuse, chosen, choose_query}
use drizzle_nginx_module.LocConf.Built.{Built}
use drizzle_nginx_module.LocConf.Choice.{admitted-Chosen}
use drizzle_nginx_module.Upstream.{PeersConf}
use drizzle_nginx_module.Upstream.InitPeer.{
  PeerSetup, request_dbname, request_query, Started, InitPeer, init_ok, init_failed, init_fault,
  new_request, with_choice, with_query, with_dbname, init_peer,
}

-- nginx can evaluate every complex value, and none is empty.
abbrev pub Evaluates : PeerSetup → Type 0
Evaluates setup =
    (script : List ℕ) → (text : List ℕ) × (setup.value script ≡ some text) × (0 < length text)

request_query-some :
    (setup : PeerSetup) (q : Mixed)
    → Evaluates setup
    → (sql : List ℕ) × (request_query setup q ≡ some sql)
unfolding request_query
request_query-some setup q w = elim (Option-cases q.cv) [
  | inl e ↦ (q.sv, ground (arith, e))
  | inr (script, e) ↦ let (text, f, pos) = w script in (text, ground (arith, e, f, pos))
]

pub new_request-IsFresh :
    (peers : PeersConf) (current : ℕ) (pc : PeerConnection) (dbname : List ℕ)
    → 0 < peers.number
    → peers.number ≡ length peers.peers
    → pc.connection ≡ none
    → peers.pool.active_conns < 2 ^ 64
    → IsFresh (new_request peers current pc dbname)
unfolding new_request
new_request-IsFresh peers current pc dbname pos e c b = record {
  in_range = omega (arith, e, mod-lt current {m = peers.number} pos, ap (λ n. current % n) e);
  no_connection = c;
  bounded = b;
}

pub init_peer-ok :
    (setup : PeerSetup) (conf : LocConf) (method : ℕ) (peers : PeersConf) (current : ℕ)
    (pc : PeerConnection) (q : Mixed) (dbname sql : List ℕ)
    → setup.memory ≡ true
    → 0 < peers.number
    → request_dbname setup conf ≡ some dbname
    → choose_query conf method ≡ chosen q
    → request_query setup q ≡ some sql
    → init_peer setup conf method peers current pc
      ≡ init_ok (record { request = new_request peers current pc dbname; query = sql })
unfolding init_peer
init_peer-ok setup conf method peers current pc q dbname sql memory pos d c e =
    by_test (not setup.memory) (peers.number == 0) (ap not memory) (ground (arith, pos))
    ∙ ap (with_dbname setup conf method (new_request peers current pc)) d
    ∙ ap (with_choice setup (new_request peers current pc dbname)) c
    ∙ ap (with_query (new_request peers current pc dbname)) e
  where
    rest : InitPeer
    rest = with_dbname setup conf method (new_request peers current pc) (request_dbname setup conf)

    by_test :
        (a b : Bool)
        → a ≡ false
        → b ≡ false
        → (if a then init_failed else if b then init_fault else rest) ≡ rest
    by_test true b x y = absurd (ground (arith, x))
    by_test false true x y = absurd (ground (arith, y))
    by_test false false x y = refl

-- In every configuration that directives and merges make, a request that the handler does not refuse starts and is
-- settled: it has a query, the one chosen for its method, it reads no NULL pointer and divides by no zero on its
-- start, and connecting ends, within one round more than there are peers: with a connection that a call of `get_peer` took
-- out of the pool or opened and counted; or turned away by a full pool, with what nginx gave for descriptor 0, which may
-- be nothing; or with an answer and no connection. Its upstream has peers, as many as it states, each cached item has
-- a connection, nginx has the memory and evaluates its values to texts that are not empty, and the database's name
-- fits.
pub start_settles :
    (m : HttpMethods) (setup : PeerSetup) (conf : LocConf) (method : ℕ) (peers : PeersConf)
    (current : ℕ) (pc : PeerConnection) (dbname : List ℕ) (attempts : ℕ → Attempt) (ctx : Context)
    → Built m conf
    → refuse conf method ≡ none
    → setup.memory ≡ true
    → Evaluates setup
    → request_dbname setup conf ≡ some dbname
    → 0 < peers.number
    → peers.number ≡ length peers.peers
    → pc.connection ≡ none
    → peers.pool.active_conns < 2 ^ 64
    → AllHeld peers.pool.cache
    → (q : Mixed) × (started : Started) × (r : Result) × (choose_query conf method ≡ chosen q)
      × (request_query setup q ≡ some started.query)
      × (init_peer setup conf method peers current pc ≡ init_ok started)
      × (dbd_connect (peers.number + 1) attempts ctx 0 started.request ≡ some r)
      × Settled attempts r
unfolding new_request
start_settles m setup conf method peers current pc dbname attempts ctx b admitted memory w d pos e c
      bounded held =
    let (q, chose, _) = admitted-Chosen m conf method b admitted in
    let (sql, evaluated) = request_query-some setup q w in
    let request = new_request peers current pc dbname in
    let (r, connects, settled) =
      dbd_connect-settles (peers.number + 1) attempts ctx 0 request
        (new_request-IsFresh peers current pc dbname pos e c bounded) held (omega arith) in
    (
      q,
      record { request = request; query = sql },
      r,
      chose,
      evaluated,
      init_peer-ok setup conf method peers current pc q dbname sql memory pos d chose evaluated,
      connects,
      settled,
    )
