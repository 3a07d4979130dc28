-- ===== src/Upstream/Directive/Written.antt =====
-- What a user may ask for with drizzle_server (src/ngx_http_drizzle_upstream.c), as README documents it.
use drizzle_nginx_module.Prelude.{
  ℕ, ◌<◌, ◌≤◌, ◌≡◌, ◌∙◌, refl, ap, true, false, List, [], ◌∷◌, ◌++◌, map, Option, none, some,
  length, bytes_eq, codes, All, ◌⊎◌, inl, inr, arith,
}
use drizzle_nginx_module.Keepalive.Directive.{after_prefix}
use drizzle_nginx_module.Peer.{Protocol}
use drizzle_nginx_module.Upstream.{Addr, Server, PeersConf}
use drizzle_nginx_module.Upstream.Directive.{
  Limits, Parser, Parsed, accepted, refused, fault, too_large, set_dbname, set_user, set_password,
  set_protocol, has_quote, names_query, set_charset, set_option, and_then, set_options, new_server,
  parse_server, drizzle_server,
}

pub data Setting : Type 0 where
  dbname_is user_is password_is charset_is : List ℕ → Setting
  protocol_is : Protocol → Setting

abbrev pub written : Setting → List ℕ
written (dbname_is text) = codes "dbname=" ++ text
written (user_is text) = codes "user=" ++ text
written (password_is text) = codes "password=" ++ text
written (charset_is text) = codes "charset=" ++ text
written (protocol_is Protocol.mysql_protocol) = codes "protocol=mysql"
written (protocol_is Protocol.drizzle_protocol) = codes "protocol=drizzle"

-- The text is not too long for its array; a character set is named, without a quote.
abbrev pub IsPossible : Limits → Setting → Type 0
IsPossible lim (dbname_is text) = length text < lim.max_db
IsPossible lim (user_is text) = length text < lim.max_user
IsPossible lim (password_is text) = length text < lim.max_password
IsPossible lim (charset_is text) = (0 < length text) × (has_quote text ≡ false)
IsPossible lim (protocol_is p) = Unit

abbrev pub with_setting : Setting → Server → Server
with_setting (dbname_is text) s = record s { dbname = text }
with_setting (user_is text) s = record s { user = text }
with_setting (password_is text) s = record s { password = text }
with_setting (charset_is text) s = record s { set_names_query = names_query text }
with_setting (protocol_is p) s = record s { protocol = p }

abbrev pub with_settings : List Setting → Server → Server
with_settings [] s = s
with_settings (x ∷ xs) s = with_settings xs (with_setting x s)

module _ (lim : Limits) (nginx : Parser) (peers : Option PeersConf) where
  set_option-written :
      (x : Setting) (s : Server)
      → nginx.query_memory ≡ true
      → IsPossible lim x
      → set_option lim nginx peers (written x) s ≡ accepted (with_setting x s)
  unfolding set_option after_prefix set_dbname set_user set_password set_protocol set_charset
      bytes_eq
  set_option-written (dbname_is text) s m h = ground (arith, h)
  set_option-written (user_is text) s m h = ground (arith, h)
  set_option-written (password_is text) s m h = ground (arith, h)
  set_option-written (charset_is text) s m h = ground (arith, m, h.0, h.1)
  set_option-written (protocol_is Protocol.mysql_protocol) s m h = refl
  set_option-written (protocol_is Protocol.drizzle_protocol) s m h = refl

  set_options-written :
      (xs : List Setting) (s : Server)
      → nginx.query_memory ≡ true
      → All (IsPossible lim) xs
      → set_options lim nginx peers (map written xs) s ≡ accepted (with_settings xs s)
  unfolding set_options
  set_options-written [] s m h = refl
  set_options-written (x ∷ xs) s m h =
      ap (λ r. and_then r (set_options lim nginx peers (map written xs)))
        (set_option-written x s m h.0)
      ∙ set_options-written xs (with_setting x s) m h.1

  -- A drizzle_server directive whose address nginx can parse and whose settings are possible, in any order and also
  -- repeated, adds one server, after those before it: it has the addresses and the port that nginx found, speaks
  -- Drizzle's protocol if no other is asked for, and each setting takes effect, a later one over an earlier one. nginx
  -- has the memory.
  pub drizzle_server-written :
      (url : List ℕ) (addrs : List Addr) (port : ℕ) (xs : List Setting) (servers : List Server)
      → nginx.parse_url url ≡ some (addrs, port)
      → nginx.servers_memory ≡ true
      → nginx.push_memory ≡ true
      → nginx.query_memory ≡ true
      → All (IsPossible lim) xs
      → drizzle_server lim nginx peers url (map written xs) servers
        ≡ accepted (servers ++ (with_settings xs (new_server addrs port) ∷ []))
  unfolding drizzle_server parse_server
  drizzle_server-written url addrs port xs servers parses m1 m2 m3 h =
      ground (arith, parses, m1, m2, set_options-written xs (new_server addrs port) m3 h)

-- A text that is too long for its array: of the database, the user or the password.
abbrev pub IsTooLong : Limits → Setting → Type 0
IsTooLong lim (dbname_is text) = lim.max_db ≤ length text
IsTooLong lim (user_is text) = lim.max_user ≤ length text
IsTooLong lim (password_is text) = lim.max_password ≤ length text
IsTooLong lim (charset_is text) = ⊥
IsTooLong lim (protocol_is p) = ⊥

-- The message about the text is one about an upstream whose peers are not there yet, or it is written.
abbrev pub Complains : Option PeersConf → Parsed (List Server) → Type 0
Complains peers r =
    ((peers ≡ none) × (r ≡ fault)) ⊎ ((conf : PeersConf) × (peers ≡ some conf) × (r ≡ refused))

module _ (lim : Limits) (nginx : Parser) where
  set_option-too_long :
      (peers : Option PeersConf) (x : Setting) (s : Server)
      → IsTooLong lim x
      → set_option lim nginx peers (written x) s ≡ too_large peers
  unfolding set_option after_prefix set_dbname set_user set_password
  set_option-too_long peers (dbname_is text) s h = ground (arith, h)
  set_option-too_long peers (user_is text) s h = ground (arith, h)
  set_option-too_long peers (password_is text) s h = ground (arith, h)
  set_option-too_long peers (charset_is text) s h = absurd h
  set_option-too_long peers (protocol_is p) s h = absurd h

  set_options-append :
      (peers : Option PeersConf) (xs : List Setting) (args : List (List ℕ)) (s : Server)
      → nginx.query_memory ≡ true
      → All (IsPossible lim) xs
      → set_options lim nginx peers (map written xs ++ args) s
        ≡ set_options lim nginx peers args (with_settings xs s)
  unfolding set_options
  set_options-append peers [] args s m h = refl
  set_options-append peers (x ∷ xs) args s m h =
      ap (λ r. and_then r (set_options lim nginx peers (map written xs ++ args)))
        (set_option-written lim nginx peers x s m h.0)
      ∙ set_options-append peers xs args (with_setting x s) m h.1

  set_options-too_long :
      (peers : Option PeersConf) (x : Setting) (args : List (List ℕ)) (s : Server)
      → IsTooLong lim x
      → set_options lim nginx peers (written x ∷ args) s ≡ too_large peers
  unfolding set_options too_large
  set_options-too_long none x args s h =
      ap (λ r. and_then r (set_options lim nginx none args)) (set_option-too_long none x s h)
  set_options-too_long (some conf) x args s h =
      ap (λ r. and_then r (set_options lim nginx (some conf) args))
        (set_option-too_long (some conf) x s h)

  -- A drizzle_server directive with a database, a user or a password that is too long for its array, after settings
  -- that are possible and before any arguments, adds no server; its message reads the peers of the upstream, so that
  -- while they are not set up it reads a NULL pointer in place of refusing the directive. nginx can parse the address
  -- and has the memory.
  pub drizzle_server-too_long :
      (peers : Option PeersConf) (url : List ℕ) (addrs : List Addr) (port : ℕ) (xs : List Setting)
      (x : Setting) (args : List (List ℕ)) (servers : List Server)
      → nginx.parse_url url ≡ some (addrs, port)
      → nginx.servers_memory ≡ true
      → nginx.push_memory ≡ true
      → nginx.query_memory ≡ true
      → All (IsPossible lim) xs
      → IsTooLong lim x
      → Complains peers
          (drizzle_server lim nginx peers url (map written xs ++ (written x ∷ args)) servers)
  unfolding drizzle_server parse_server too_large
  drizzle_server-too_long none url addrs port xs x args servers parses m1 m2 m3 h long =
      let s = with_settings xs (new_server addrs port) in
      let before = set_options-append none xs (written x ∷ args) (new_server addrs port) m3 h in
      inl (refl, ground (arith, parses, m1, m2, before ∙ set_options-too_long none x args s long))
  drizzle_server-too_long (some conf) url addrs port xs x args servers parses m1 m2 m3 h long =
      let s = with_settings xs (new_server addrs port) in
      let before =
        set_options-append (some conf) xs (written x ∷ args) (new_server addrs port) m3 h in
      inr (
        conf,
        refl,
        ground (arith, parses, m1, m2, before ∙ set_options-too_long (some conf) x args s long),
      )
