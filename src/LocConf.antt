-- ===== src/LocConf.antt =====
-- The configuration of a location: ngx_http_drizzle_create_loc_conf and ngx_http_drizzle_merge_loc_conf of
-- src/ngx_http_drizzle_module.c. A field that is unset (NGX_CONF_UNSET, or NULL) is `none`.
pub mod Query
pub mod Built
pub mod Choice
pub mod Merged
pub mod Pass
use drizzle_nginx_module.Prelude.{
  ℕ, ◌*◌, ◌<◌, ◌≤◌, ◌≡◌, Bool, true, false, ◌&&◌, List, Option, none, some, ltb, ◌==◌,
  if◌then◌else◌, arith,
}

-- `ngx_drizzle_mixed_t`: the methods of a query, and its text: a complex value `cv`, given by the text that was compiled, or
-- the simple text `sv`.
pub record Mixed : Type 0 where
  pub key : ℕ
  pub sv : List ℕ
  pub cv : Option (List ℕ)

-- `ngx_http_drizzle_loc_conf_t`, the fields that are merged. `dbname` is the text that was compiled.
pub record LocConf : Type 0 where
  pub enable_module_header : Option ℕ
  pub connect_timeout : Option ℕ
  pub send_timeout : Option ℕ
  pub recv_cols_timeout : Option ℕ
  pub recv_rows_timeout : Option ℕ
  pub dbname : Option (List ℕ)
  pub default_query : Option Mixed
  pub methods_set : ℕ
  pub queries : Option (List Mixed)
  pub buf_size : Option ℕ
  pub max_buffered : Option ℕ
  pub tid_var_index : Option ℕ

-- ngx_http_drizzle_create_loc_conf
abbrev pub create_loc_conf : LocConf
create_loc_conf = record {
  enable_module_header = none;
  connect_timeout = none;
  send_timeout = none;
  recv_cols_timeout = none;
  recv_rows_timeout = none;
  dbname = none;
  default_query = none;
  methods_set = 0;
  queries = none;
  buf_size = none;
  max_buffered = none;
  tid_var_index = none;
}

abbrev pub or_prev {ℓ} : {A : Type ℓ} → Option A → Option A → Option A
or_prev none prev = prev
or_prev (some v) prev = some v

-- `ngx_conf_merge_value` and its kin
abbrev pub merge_value : Option ℕ → Option ℕ → ℕ → ℕ
merge_value (some v) prev default = v
merge_value none (some v) default = v
merge_value none none default = default

abbrev pub is_null {ℓ} : {A : Type ℓ} → Option A → Bool
is_null none = true
is_null (some v) = false

-- `if ((conf->default_query == NULL) && (conf->queries == NULL))`
unfoldable pub inherits_query : LocConf → Bool
inherits_query conf = is_null conf.default_query && is_null conf.queries

-- ngx_http_drizzle_merge_loc_conf; `none` is NGX_CONF_ERROR, and `pagesize` is `ngx_pagesize`.
unfoldable pub merge_loc_conf : ℕ → LocConf → LocConf → Option LocConf
unfolding inherits_query
merge_loc_conf pagesize prev conf =
    let queried = if inherits_query conf then prev else conf in
    let buf_size = merge_value conf.buf_size prev.buf_size pagesize in
    let max_buffered = merge_value conf.max_buffered prev.max_buffered (1024 * 1024) in
    if buf_size == 0
    then none
    else if ltb max_buffered buf_size
    then none
    else some (record {
      enable_module_header =
          some (merge_value conf.enable_module_header prev.enable_module_header 1);
      connect_timeout = some (merge_value conf.connect_timeout prev.connect_timeout 60000);
      send_timeout = some (merge_value conf.send_timeout prev.send_timeout 60000);
      recv_cols_timeout = some (merge_value conf.recv_cols_timeout prev.recv_cols_timeout 60000);
      recv_rows_timeout = some (merge_value conf.recv_rows_timeout prev.recv_rows_timeout 60000);
      dbname = or_prev conf.dbname prev.dbname;
      default_query = queried.default_query;
      methods_set = queried.methods_set;
      queries = queried.queries;
      buf_size = some buf_size;
      max_buffered = some max_buffered;
      tid_var_index = or_prev conf.tid_var_index prev.tid_var_index;
    })

-- A configuration that a merge made has a buffer that is not empty and a limit that holds one buffer. A location
-- below it that sets nothing of its own gets the same configuration, the queries and the bounds included.
pub merge_loc_conf-inherits :
    (pagesize : ℕ) (prev conf merged : LocConf)
    → merge_loc_conf pagesize prev conf ≡ some merged
    → (size : ℕ) × (limit : ℕ) × (merged.buf_size ≡ some size)
      × (merged.max_buffered ≡ some limit)
      × (0 < size)
      × (size ≤ limit)
      × (merge_loc_conf pagesize merged create_loc_conf ≡ some merged)
unfolding merge_loc_conf inherits_query
merge_loc_conf-inherits pagesize prev conf merged e = (
  merge_value conf.buf_size prev.buf_size pagesize,
  merge_value conf.max_buffered prev.max_buffered (1024 * 1024),
  ground (arith, e),
  ground (arith, e),
  ground (arith, e),
  ground (arith, e),
  ground (arith, e),
)
