-- ===== src/Output/Headers.antt =====
-- `ngx_http_drizzle_set_header` of src/ngx_http_drizzle_util.c: the response headers, a list in the order of
-- `headers_out.headers`, whose parts are read one after the other.
use drizzle_nginx_module.Prelude.{
  ℕ, ◌+◌, Bool, true, false, ◌&&◌, List, [], ◌∷◌, ◌++◌, Option, none, some, length, map, leb, ◌==◌,
  if◌then◌else◌, bytes_eq,
}
use drizzle_nginx_module.Nginx.{Rc}

-- `ngx_table_elt_t`
pub record Header : Type 0 where
  pub hash : ℕ
  pub key : List ℕ
  pub value : List ℕ

-- What `ngx_strncasecmp` compares.
unfoldable pub lower : ℕ → ℕ
lower c = if leb b'A' c && leb c b'Z' then c + 32 else c

-- `h[i].key.len == key->len && ngx_strncasecmp(h[i].key.data, key->data, h[i].key.len) == 0`
unfoldable pub same_key : List ℕ → List ℕ → Bool
unfolding lower
same_key a b = length a == length b && bytes_eq (map lower a) (map lower b)

-- The first header with the key is overwritten, and an empty value unsets it; `none`: there is none.
unfoldable pub overwrite : List ℕ → List ℕ → List Header → Option (List Header)
unfolding same_key
overwrite key value [] = none
overwrite key value (h ∷ hs) = elim (same_key h.key key) [
  | true ↦ some (record h { hash = if length value == 0 then 0 else h.hash; value = value } ∷ hs)
  | false ↦ elim (overwrite key value hs) [ none ↦ none | some hs' ↦ some (h ∷ hs') ]
]

-- `pushed` is whether `ngx_list_push` has room.
unfoldable pub set_header : Bool → List ℕ → List ℕ → List Header → Rc × List Header
unfolding overwrite
set_header pushed key value hs = elim (overwrite key value hs) [
  | some hs' ↦ (Rc.ok, hs')
  | none ↦
      if length value == 0
      then (Rc.ok, hs)
      else if pushed
      then (Rc.ok, hs ++ (record { hash = 1; key = key; value = value } ∷ []))
      else (Rc.status 500, hs)
]
