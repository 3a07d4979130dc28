-- ===== src/LocConf/Query.antt =====
-- The directive drizzle_query (ngx_http_drizzle_query of src/ngx_http_drizzle_module.c), and the choice of a request's query in
-- ngx_http_drizzle_handler and ngx_http_upstream_drizzle_init_peer.
use Prim.Native.Nat.{bit_or}
use drizzle_nginx_module.Prelude.{
  ℕ, Bool, not, ◌&&◌, ◌||◌, List, [], ◌∷◌, ◌++◌, Option, none, some, length, codes, ◌==◌,
  if◌then◌else◌,
}
use drizzle_nginx_module.Prelude.Bits.{meets}
use drizzle_nginx_module.Nginx.{Rc}
use drizzle_nginx_module.Output.Headers.{same_key}
use drizzle_nginx_module.LocConf.{Mixed, LocConf, is_null}

-- nginx's bits for the methods, NGX_HTTP_GET and so on.
pub record HttpMethods : Type 0 where
  pub get : ℕ
  pub head : ℕ
  pub post : ℕ
  pub put : ℕ
  pub delete : ℕ
  pub mkcol : ℕ
  pub copy : ℕ
  pub move : ℕ
  pub options : ℕ
  pub propfind : ℕ
  pub proppatch : ℕ
  pub lock : ℕ
  pub unlock : ℕ
  pub patch : ℕ

-- `ngx_drizzle_http_methods`
abbrev pub http_methods : HttpMethods → List (List ℕ × ℕ)
http_methods m =
    (codes "GET", m.get)
    ∷ ((codes "HEAD", m.head)
        ∷ ((codes "POST", m.post)
            ∷ ((codes "PUT", m.put)
                ∷ ((codes "DELETE", m.delete)
                    ∷ ((codes "MKCOL", m.mkcol)
                        ∷ ((codes "COPY", m.copy)
                            ∷ ((codes "MOVE", m.move)
                                ∷ ((codes "OPTIONS", m.options)
                                    ∷ ((codes "PROPFIND", m.propfind)
                                        ∷ ((codes "PROPPATCH", m.proppatch)
                                            ∷ ((codes "LOCK", m.lock)
                                                ∷ ((codes "UNLOCK", m.unlock)
                                                    ∷ ((codes "PATCH", m.patch) ∷ [])))))))))))))

-- The row of the table that `ngx_strcasecmp` finds.
unfoldable pub find_method : List (List ℕ × ℕ) → List ℕ → Option ℕ
find_method [] name = none
find_method ((known, key) ∷ table) name =
    if same_key name known then some key else find_method table name

-- The loop over the directive's methods; `none` is NGX_CONF_ERROR.
unfoldable pub add_methods : List (List ℕ × ℕ) → ℕ → List (List ℕ) → ℕ → Option ℕ
add_methods table taken [] methods = some methods
add_methods table taken (name ∷ names) methods = elim (find_method table name) [
  | none ↦ none
  | some key ↦ if meets taken key then none else add_methods table taken names (bit_or methods key)
]

-- nginx's answers: the memory, `ngx_http_script_variables_count` as a test, and ngx_http_compile_complex_value.
pub record Compiler : Type 0 where
  pub default_memory : Bool
  pub array_memory : Bool
  pub push_memory : Bool
  pub value_memory : Bool
  pub has_variables : List ℕ → Bool
  pub compiles : List ℕ → Bool

-- The end of the directive: the query's text, simple or complex.
unfoldable pub compile_query : Compiler → ℕ → List ℕ → Option Mixed
compile_query nginx methods sql =
    if nginx.has_variables sql
    then if nginx.value_memory && nginx.compiles sql
      then some (record { key = methods; sv = []; cv = some sql })
      else none
    else some (record { key = methods; sv = sql; cv = none })

-- What a directive returns: NGX_CONF_OK, "is duplicate", or NGX_CONF_ERROR.
pub data ConfResult (A : Type 0) : Type 0 where
  conf_ok : A → ConfResult A
  is_duplicate conf_error : ConfResult A

abbrev pub rows : Option (List Mixed) → List Mixed
rows none = []
rows (some qs) = qs

-- The two kinds of query, with what the rest of the directive made of the text.
abbrev pub with_default : Option Mixed → LocConf → ConfResult LocConf
with_default none conf = conf_error
with_default (some q) conf = conf_ok (record conf { default_query = some q })

abbrev pub with_methods : ℕ → Option Mixed → LocConf → ConfResult LocConf
with_methods methods none conf = conf_error
with_methods methods (some q) conf = conf_ok (record conf {
  methods_set = bit_or conf.methods_set methods;
  queries = some (rows conf.queries ++ (q ∷ []));
})

unfoldable pub query_for_methods : Compiler → Option ℕ → List ℕ → LocConf → ConfResult LocConf
query_for_methods nginx none sql conf = conf_error
query_for_methods nginx (some methods) sql conf =
    if (is_null conf.queries && not nginx.array_memory) || not nginx.push_memory
    then conf_error
    else with_methods methods (compile_query nginx methods sql) conf

-- ngx_http_drizzle_query, with the methods and the text that are its arguments.
unfoldable pub drizzle_query :
    HttpMethods → Compiler → List (List ℕ) → List ℕ → LocConf → ConfResult LocConf
unfolding query_for_methods
drizzle_query m nginx names sql conf =
    if length sql == 0
    then conf_error
    else if length names == 0
    then if not (is_null conf.default_query)
      then is_duplicate
      else if not nginx.default_memory
      then conf_error
      else with_default (compile_query nginx 0xffff sql) conf
    else query_for_methods nginx (add_methods (http_methods m) conf.methods_set names 0) sql conf

-- The guard of ngx_http_drizzle_handler: NGX_HTTP_NOT_ALLOWED, NGX_HTTP_INTERNAL_SERVER_ERROR, or nothing.
unfoldable pub refuse : LocConf → ℕ → Option Rc
refuse conf method =
    if is_null conf.default_query && not (meets conf.methods_set method)
    then if not (conf.methods_set == 0) then some (Rc.status 405) else some (Rc.status 500)
    else none

-- The loop of init_peer over the queries.
unfoldable pub find_query : ℕ → List Mixed → Option Mixed
find_query method [] = none
find_query method (q ∷ qs) = if meets q.key method then some q else find_query method qs

-- The query of a request; or no row has the method; or a NULL pointer is read.
pub data Chosen : Type 0 where
  chosen : Mixed → Chosen
  no_row null_read : Chosen

abbrev pub found : Option Mixed → Chosen → Chosen
found none otherwise = otherwise
found (some q) otherwise = chosen q

unfoldable pub choose_query : LocConf → ℕ → Chosen
unfolding find_query
choose_query conf method =
    if meets conf.methods_set method
    then elim conf.queries [ none ↦ null_read | some qs ↦ found (find_query method qs) no_row ]
    else found conf.default_query null_read
