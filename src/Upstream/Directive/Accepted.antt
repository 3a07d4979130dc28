-- ===== src/Upstream/Directive/Accepted.antt =====
-- What drizzle_server (src/ngx_http_drizzle_upstream.c) accepts fits the arrays of libdrizzle, into which the connection to a
-- peer copies it.
use drizzle_nginx_module.Prelude.{
  ℕ, ◌<◌, ◌≡◌, refl, subst, ◌⊎◌, inl, inr, Bool, true, false, not, ◌&&◌, ◌||◌, List, [], ◌∷◌, ◌++◌,
  Option, none, some, length, codes, leb, bytes_eq, ◌==◌, if◌then◌else◌, arith,
}
use drizzle_nginx_module.Keepalive.Directive.{after_prefix}
use drizzle_nginx_module.Peer.{Protocol}
use drizzle_nginx_module.Upstream.{Addr, Server, PeersConf}
use drizzle_nginx_module.Upstream.Directive.{
  Limits, Parser, Parsed, accepted, refused, fault, too_large, set_dbname, set_user, set_password,
  set_protocol, has_quote, names_query, set_charset, set_option, and_then, set_options, new_server,
  parse_server, drizzle_server,
}

-- The query that chooses the character set is none, or one whose literal the charset cannot leave.
abbrev pub IsQuoted : List ℕ → Type 0
IsQuoted query =
    (query ≡ [])
    ⊎ ((charset : List ℕ) × (query ≡ names_query charset) × (has_quote charset ≡ false))

-- Each text leaves room for the final NUL.
pub record Fits (lim : Limits) (s : Server) : Type 0 where
  pub dbname : length s.dbname < lim.max_db
  pub user : length s.user < lim.max_user
  pub password : length s.password < lim.max_password
  pub names : IsQuoted s.set_names_query

too_large-not : (peers : Option PeersConf) (s : Server) → ¬ (too_large peers ≡ accepted s)
unfolding too_large
too_large-not none s e = absurd (ground (arith, e))
too_large-not (some p) s e = absurd (ground (arith, e))

module _ (lim : Limits) (nginx : Parser) (peers : Option PeersConf) where
  abbrev Keeps : (Server → Parsed Server) → Type 0
  Keeps f = (s s' : Server) → Fits lim s → f s ≡ accepted s' → Fits lim s'

  accepted-eq : (s s' : Server) → Fits lim s → accepted s ≡ accepted s' → Fits lim s'
  accepted-eq s s' v e = subst (Fits lim) (ground (arith, e)) v

  unless_large :
      (b : Bool) (t s' : Server)
      → (b ≡ false → Fits lim t)
      → (if b then too_large peers else accepted t) ≡ accepted s'
      → Fits lim s'
  unless_large true t s' fits e = absurd (too_large-not peers s' e)
  unless_large false t s' fits e = accepted-eq t s' (fits refl) e

  set_dbname-Fits : (text : List ℕ) → Keeps (set_dbname lim peers text)
  unfolding set_dbname
  set_dbname-Fits text s s' v e =
      unless_large (leb lim.max_db (length text)) (record s { dbname = text }) s'
        (λ h. record {
          dbname = ground (arith, h);
          user = v.user;
          password = v.password;
          names = v.names;
        })
        e

  set_user-Fits : (text : List ℕ) → Keeps (set_user lim peers text)
  unfolding set_user
  set_user-Fits text s s' v e =
      unless_large (leb lim.max_user (length text)) (record s { user = text }) s'
        (λ h. record {
          dbname = v.dbname;
          user = ground (arith, h);
          password = v.password;
          names = v.names;
        })
        e

  set_password-Fits : (text : List ℕ) → Keeps (set_password lim peers text)
  unfolding set_password
  set_password-Fits text s s' v e =
      unless_large (leb lim.max_password (length text)) (record s { password = text }) s'
        (λ h. record {
          dbname = v.dbname;
          user = v.user;
          password = ground (arith, h);
          names = v.names;
        })
        e

  set_protocol-Fits : (text : List ℕ) → Keeps (set_protocol text)
  unfolding set_protocol
  set_protocol-Fits text s s' v e =
      go (bytes_eq text (codes "mysql")) (bytes_eq text (codes "drizzle")) e
    where
      with_protocol : Protocol → Server
      with_protocol p = record s { protocol = p }

      same : (p : Protocol) → Fits lim (with_protocol p)
      same p = record { dbname = v.dbname; user = v.user; password = v.password; names = v.names }

      go :
          (a b : Bool)
          → (if a
              then accepted (with_protocol Protocol.mysql_protocol)
              else if b
              then accepted (with_protocol Protocol.drizzle_protocol)
              else refused)
            ≡ accepted s'
          → Fits lim s'
      go true b f = accepted-eq _ s' (same Protocol.mysql_protocol) f
      go false true f = accepted-eq _ s' (same Protocol.drizzle_protocol) f
      go false false f = absurd (ground (arith, f))

  set_charset-Fits : (text : List ℕ) → Keeps (set_charset nginx text)
  unfolding set_charset
  set_charset-Fits text s s' v e =
      go (length text == 0) (has_quote text) (not nginx.query_memory) refl e
    where
      go :
          (a b c : Bool)
          → has_quote text ≡ b
          → (if a
              then accepted s
              else if b
              then refused
              else if c
              then refused
              else accepted (record s { set_names_query = names_query text }))
            ≡ accepted s'
          → Fits lim s'
      go true b c h f = accepted-eq s s' v f
      go false true c h f = absurd (ground (arith, f))
      go false false true h f = absurd (ground (arith, f))
      go false false false h f =
          accepted-eq (record s { set_names_query = names_query text }) s'
            (record {
              dbname = v.dbname;
              user = v.user;
              password = v.password;
              names = inr (text, refl, h);
            })
            f

  set_option-Fits : (arg : List ℕ) → Keeps (set_option lim nginx peers arg)
  unfolding set_option
  set_option-Fits arg s s' v e =
      go (after_prefix (codes "dbname=") arg) (after_prefix (codes "user=") arg)
        (after_prefix (codes "password=") arg) (after_prefix (codes "protocol=") arg)
        (after_prefix (codes "charset=") arg) e
    where
      go :
          (a b c d f : Option (List ℕ))
          → elim a [
            | some text ↦ set_dbname lim peers text s
            | none ↦ elim b [
              | some text ↦ set_user lim peers text s
              | none ↦ elim c [
                | some text ↦ set_password lim peers text s
                | none ↦ elim d [
                  | some text ↦ set_protocol text s
                  | none ↦ elim f [ some text ↦ set_charset nginx text s | none ↦ refused ]
                ]
              ]
            ]
          ]
            ≡ accepted s'
          → Fits lim s'
      go (some text) b c d f h = set_dbname-Fits text s s' v h
      go none (some text) c d f h = set_user-Fits text s s' v h
      go none none (some text) d f h = set_password-Fits text s s' v h
      go none none none (some text) f h = set_protocol-Fits text s s' v h
      go none none none none (some text) h = set_charset-Fits text s s' v h
      go none none none none none h = absurd (ground (arith, h))

  set_options-Fits : (args : List (List ℕ)) → Keeps (set_options lim nginx peers args)
  unfolding set_options
  set_options-Fits [] s s' v e = accepted-eq s s' v e
  set_options-Fits (arg ∷ args) s s' v e =
      go (set_option lim nginx peers arg s) (λ t. set_option-Fits arg s t v)
        (λ t w. set_options-Fits args t s' w) e
    where
      go :
          (r : Parsed Server)
          → ((t : Server) → r ≡ accepted t → Fits lim t)
          → ((t : Server)
              → Fits lim t
              → set_options lim nginx peers args t ≡ accepted s'
              → Fits lim s')
          → and_then r (set_options lim nginx peers args) ≡ accepted s'
          → Fits lim s'
      go (accepted t) fits rest f = rest t (fits t refl) f
      go refused fits rest f = absurd (ground (arith, f))
      go fault fits rest f = absurd (ground (arith, f))

  -- The first argument leaves every text empty.
  new_server-Fits :
      (addrs : List Addr) (port : ℕ)
      → 0 < lim.max_db
      → 0 < lim.max_user
      → 0 < lim.max_password
      → Fits lim (new_server addrs port)
  new_server-Fits addrs port d u p = record { dbname = d; user = u; password = p; names = inl refl }

  parse_server-Fits :
      (url : List ℕ) (args : List (List ℕ)) (s : Server)
      → 0 < lim.max_db
      → 0 < lim.max_user
      → 0 < lim.max_password
      → parse_server lim nginx peers url args ≡ accepted s
      → Fits lim s
  unfolding parse_server
  parse_server-Fits url args s d u p e = go (nginx.parse_url url) e
    where
      go :
          (o : Option (List Addr × ℕ))
          → elim o [
            | none ↦ refused
            | some (addrs, port) ↦ set_options lim nginx peers args (new_server addrs port)
          ]
            ≡ accepted s
          → Fits lim s
      go none f = absurd (ground (arith, f))
      go (some (addrs, port)) f =
          set_options-Fits args (new_server addrs port) s (new_server-Fits addrs port d u p) f

  -- The servers before stay, and the new one fits.
  pub drizzle_server-Fits :
      (url : List ℕ) (args : List (List ℕ)) (servers servers' : List Server)
      → 0 < lim.max_db
      → 0 < lim.max_user
      → 0 < lim.max_password
      → drizzle_server lim nginx peers url args servers ≡ accepted servers'
      → (s : Server) × (servers' ≡ servers ++ (s ∷ [])) × Fits lim s
  unfolding drizzle_server
  drizzle_server-Fits url args servers servers' d u p e =
      go (((length servers == 0) && not nginx.servers_memory) || not nginx.push_memory)
        (parse_server lim nginx peers url args) (λ s. parse_server-Fits url args s d u p) e
    where
      go :
          (b : Bool) (r : Parsed Server)
          → ((s : Server) → r ≡ accepted s → Fits lim s)
          → (if b then refused else and_then r (λ s. accepted (servers ++ (s ∷ []))))
            ≡ accepted servers'
          → (s : Server) × (servers' ≡ servers ++ (s ∷ [])) × Fits lim s
      go true r fits f = absurd (ground (arith, f))
      go false (accepted s) fits f = (s, ground (arith, f), fits s refl)
      go false refused fits f = absurd (ground (arith, f))
      go false fault fits f = absurd (ground (arith, f))
