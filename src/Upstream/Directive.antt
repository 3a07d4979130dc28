-- ===== src/Upstream/Directive.antt =====
-- The directive drizzle_server: ngx_http_upstream_drizzle_server of src/ngx_http_drizzle_upstream.c.
pub mod Accepted
pub mod Targets
pub mod Written
use drizzle_nginx_module.Prelude.{
  ℕ, Bool, true, false, not, ◌&&◌, ◌||◌, List, [], ◌∷◌, ◌++◌, Option, none, some, length, codes,
  leb, bytes_eq, ◌==◌, if◌then◌else◌,
}
use drizzle_nginx_module.Keepalive.Directive.{after_prefix}
use drizzle_nginx_module.Peer.{Protocol}
use drizzle_nginx_module.Upstream.{Addr, Server, PeersConf}

-- DRIZZLE_MAX_DB_SIZE, DRIZZLE_MAX_USER_SIZE and DRIZZLE_MAX_PASSWORD_SIZE: the sizes of libdrizzle's arrays.
pub record Limits : Type 0 where
  pub max_db : ℕ
  pub max_user : ℕ
  pub max_password : ℕ

-- nginx's answers: `ngx_parse_url`, with the addresses and the port that it finds, and the memory.
pub record Parser : Type 0 where
  pub parse_url : List ℕ → Option (List Addr × ℕ)
  pub servers_memory : Bool
  pub push_memory : Bool
  pub query_memory : Bool

-- NGX_CONF_OK, NGX_CONF_ERROR, or a read of a NULL pointer.
pub data Parsed {ℓ} (A : Type ℓ) : Type ℓ where
  accepted : A → Parsed A
  refused fault : Parsed A

-- The message about a value that is too large reads `dscf->peers->name`; `none` is NULL.
unfoldable pub too_large : Option PeersConf → Parsed Server
too_large none = fault
too_large (some peers) = refused

unfoldable pub set_dbname : Limits → Option PeersConf → List ℕ → Server → Parsed Server
unfolding too_large
set_dbname lim peers text s =
    if leb lim.max_db (length text) then too_large peers else accepted (record s { dbname = text })

unfoldable pub set_user : Limits → Option PeersConf → List ℕ → Server → Parsed Server
unfolding too_large
set_user lim peers text s =
    if leb lim.max_user (length text) then too_large peers else accepted (record s { user = text })

unfoldable pub set_password : Limits → Option PeersConf → List ℕ → Server → Parsed Server
unfolding too_large
set_password lim peers text s =
    if leb lim.max_password (length text)
    then too_large peers
    else accepted (record s { password = text })

unfoldable pub set_protocol : List ℕ → Server → Parsed Server
set_protocol text s =
    if bytes_eq text (codes "mysql")
    then accepted (record s { protocol = Protocol.mysql_protocol })
    else if bytes_eq text (codes "drizzle")
    then accepted (record s { protocol = Protocol.drizzle_protocol })
    else refused

-- The loop that looks for a quote.
unfoldable pub has_quote : List ℕ → Bool
has_quote [] = false
has_quote (c ∷ cs) = (c == 39) || has_quote cs

abbrev pub names_query : List ℕ → List ℕ
names_query charset = codes "set names '" ++ (charset ++ codes "'")

unfoldable pub set_charset : Parser → List ℕ → Server → Parsed Server
unfolding has_quote
set_charset nginx text s =
    if length text == 0
    then accepted s
    else if has_quote text
    then refused
    else if not nginx.query_memory
    then refused
    else accepted (record s { set_names_query = names_query text })

-- One turn of the loop over the options.
unfoldable pub set_option : Limits → Parser → Option PeersConf → List ℕ → Server → Parsed Server
unfolding after_prefix set_dbname set_user set_password set_protocol set_charset
set_option lim nginx peers arg s = elim (after_prefix (codes "dbname=") arg) [
  | some text ↦ set_dbname lim peers text s
  | none ↦ elim (after_prefix (codes "user=") arg) [
    | some text ↦ set_user lim peers text s
    | none ↦ elim (after_prefix (codes "password=") arg) [
      | some text ↦ set_password lim peers text s
      | none ↦ elim (after_prefix (codes "protocol=") arg) [
        | some text ↦ set_protocol text s
        | none ↦ elim (after_prefix (codes "charset=") arg) [
          | some text ↦ set_charset nginx text s
          | none ↦ refused
        ]
      ]
    ]
  ]
]

abbrev pub and_then {ℓ} : {A B : Type ℓ} → Parsed A → (A → Parsed B) → Parsed B
and_then (accepted a) k = k a
and_then refused k = refused
and_then fault k = fault

unfoldable pub set_options :
    Limits → Parser → Option PeersConf → List (List ℕ) → Server → Parsed Server
set_options lim nginx peers [] s = accepted s
set_options lim nginx peers (arg ∷ args) s =
    and_then (set_option lim nginx peers arg s) (set_options lim nginx peers args)

-- The server as the first argument makes it.
abbrev pub new_server : List Addr → ℕ → Server
new_server addrs port = record {
  addrs = addrs;
  port = port;
  user = [];
  password = [];
  dbname = [];
  set_names_query = [];
  protocol = Protocol.drizzle_protocol;
}

unfoldable pub parse_server :
    Limits → Parser → Option PeersConf → List ℕ → List (List ℕ) → Parsed Server
unfolding set_options
parse_server lim nginx peers url args = elim (nginx.parse_url url) [
  | none ↦ refused
  | some (addrs, port) ↦ set_options lim nginx peers args (new_server addrs port)
]

-- ngx_http_upstream_drizzle_server, with its first argument and its options. `servers` is `dscf->servers`, empty where it is
-- NULL, and `uscf->servers` after the first directive; `peers` is `dscf->peers`. The callback `uscf->peer.init_upstream` has
-- no field.
unfoldable pub drizzle_server :
    Limits → Parser → Option PeersConf → List ℕ → List (List ℕ) → List Server → Parsed (List Server)
drizzle_server lim nginx peers url args servers =
    if ((length servers == 0) && not nginx.servers_memory) || not nginx.push_memory
    then refused
    else and_then (parse_server lim nginx peers url args) (λ s. accepted (servers ++ (s ∷ [])))
