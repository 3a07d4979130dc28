-- ===== src/Nginx.antt =====
-- What the module uses of nginx's own types: return codes, events, connections, the upstream object.
-- These are nginx's (not under this repository): only the fields that the module reads or writes stand here.
use drizzle_nginx_module.Prelude.{ℕ, ◌+◌, ◌-◌, ◌%◌, ◌^◌, Bool, true, false, ◌||◌, List, Option, leb}

-- `ngx_int_t` return values: NGX_OK (0), NGX_ERROR (-1), NGX_AGAIN (-2), NGX_BUSY (-3), NGX_DONE (-4),
-- NGX_DECLINED (-5), and `status n` for a positive HTTP status.
pub data Rc : Type 0 where
  ok error again busy done declined : Rc
  status : ℕ → Rc

-- `rc >= NGX_HTTP_SPECIAL_RESPONSE`
unfoldable pub is_special : Rc → Bool
is_special (status n) = leb 300 n
is_special ok = false
is_special error = false
is_special again = false
is_special busy = false
is_special done = false
is_special declined = false

-- `rc == NGX_ERROR`
unfoldable pub is_error : Rc → Bool
is_error error = true
is_error ok = false
is_error again = false
is_error busy = false
is_error done = false
is_error declined = false
is_error (status n) = false

-- `rc == NGX_ERROR || rc >= NGX_HTTP_SPECIAL_RESPONSE`
unfoldable pub is_failure : Rc → Bool
unfolding is_error is_special
is_failure rc = is_error rc || is_special rc

-- `ngx_uint_t` and `size_t` on a 64-bit build.
abbrev pub succ64 : ℕ → ℕ
succ64 n = (n + 1) % 2 ^ 64

abbrev pub pred64 : ℕ → ℕ
pred64 n = (n + 2 ^ 64 - 1) % 2 ^ 64

-- Which log an object writes to.
pub data Log : Type 0 where
  request_log cycle_log : Log

-- Which function an event calls.
pub data Handler : Type 0 where
  no_handler dbd_handler keepalive_dummy_handler keepalive_close_handler : Handler

-- `ngx_event_t`
pub record Event : Type 0 where
  pub timer_set : Bool
  pub active : Bool
  pub disabled : Bool
  pub posted : Bool
  pub closed : Bool
  pub ready : Bool
  pub handler : Handler
  pub log : Log

-- `ngx_connection_t`
pub record Connection : Type 0 where
  pub fd : ℕ
  pub close : Bool
  pub idle : Bool
  pub read : Event
  pub write : Event
  pub log : Log

-- `ngx_http_upstream_t`: what the keepalive pool reads of it.
pub record Upstream : Type 0 where
  pub status_n : ℕ
  pub header_sent : Bool
  pub length : ℕ

-- `ngx_peer_connection_t`. `sockaddr` is the address that the field points to, `socklen` its length.
pub record PeerConnection : Type 0 where
  pub connection : Option Connection
  pub cached : Bool
  pub sockaddr : List ℕ
