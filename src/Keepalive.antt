-- ===== src/Keepalive.antt =====
-- src/ngx_http_drizzle_keepalive.c and the pool's half of src/ngx_http_drizzle_upstream.h: the pool of idle
-- database connections of an upstream block. The two `ngx_queue_t` are lists, head first.
pub mod Invariant
pub mod History
pub mod Reuse
pub mod Directive
mod Tests
use drizzle_nginx_module.Prelude.{
  ℕ, zero, suc, Bool, true, false, not, ◌&&◌, ◌||◌, List, [], ◌∷◌, ◌++◌, Option, none, some,
  extract, split_last, bytes_eq, ◌==◌, if◌then◌else◌,
}
use mathlib.Core.Option
use drizzle_nginx_module.Nginx.{
  Rc, Log, Connection, Upstream, PeerConnection, Handler, succ64, pred64,
}

-- `ngx_http_drizzle_keepalive_cache_t`. `slot` is the item's index in the array of `init`; `connection` and
-- `drizzle_con` are NULL in an item never used.
pub record Item : Type 0 where
  pub slot : ℕ
  pub connection : Option Connection
  pub sockaddr : List ℕ
  pub drizzle_con : Option ℕ
  pub name : List ℕ
  pub used : ℕ
  pub has_set_names : Bool

pub data Overflow : Type 0 where
  overflow_ignore overflow_reject : Overflow

abbrev pub add_option {ℓ} : {A : Type ℓ} → Option A → List A → List A
add_option none xs = xs
add_option (some x) xs = x ∷ xs

-- The pool's fields of `ngx_http_upstream_drizzle_srv_conf_t`. `closed` and `freed` are no fields of the source:
-- they are the history of the descriptors that `ngx_free_connection` took, and of the handles that
-- `drizzle_con_free` took, newest first.
pub record Pool : Type 0 where
  pub single : Bool
  pub free : List Item
  pub cache : List Item
  pub active_conns : ℕ
  pub max_cached : ℕ
  pub overflow : Overflow
  pub closed : List ℕ
  pub freed : List ℕ

-- The fields of `ngx_http_upstream_drizzle_peer_data_t` that the pool saves and restores. The address that
-- `dp->sockaddr` stores is `PeerConnection.sockaddr`, which points there.
pub record PeerData : Type 0 where
  pub name : List ℕ
  pub drizzle_con : Option ℕ
  pub has_set_names : Bool
  pub used : ℕ
  pub failed : Bool

-- What the peer functions work on: `pc`, `dp` and `dscf`.
pub record Peering : Type 0 where
  pub pc : PeerConnection
  pub dp : PeerData
  pub pool : Pool

-- ngx_http_drizzle_keepalive_init: the items enter `free` at its head, so the last one stands first.
-- `none` is the allocation failure (NGX_ERROR).
unfoldable pub fresh_item : ℕ → Item
fresh_item n = record {
  slot = n;
  connection = none;
  sockaddr = [];
  drizzle_con = none;
  name = [];
  used = 0;
  has_set_names = false;
}

unfoldable pub fresh_items : ℕ → List Item
unfolding fresh_item
fresh_items zero = []
fresh_items (suc n) = fresh_item n ∷ fresh_items n

unfoldable pub keepalive_init : Bool → Pool → Option Pool
unfolding fresh_items
keepalive_init allocated pool =
    if allocated
    then some (record pool { cache = []; free = fresh_items pool.max_cached })
    else none

-- ngx_http_upstream_drizzle_free_connection: `active_conns--`, the libdrizzle connection is freed, and nginx
-- takes the descriptor back, with its timers, events and posted events.
unfoldable pub free_connection : Option Connection → Option ℕ → Pool → Pool
free_connection c dc pool = record pool {
  active_conns = pred64 pool.active_conns;
  freed = add_option dc pool.freed;
  closed = add_option (Option.map (λ (c : Connection). c.fd) c) pool.closed;
}

-- `c->idle = 0`, and the three logs are the request's.
unfoldable pub wake : Connection → Connection
wake c = record c {
  idle = false;
  log = Log.request_log;
  read = record (c.read) { log = Log.request_log };
  write = record (c.write) { log = Log.request_log };
}

-- The timers go, the handlers are the pool's, `c->idle = 1`, and the logs are the cycle's.
unfoldable pub rest : Connection → Connection
rest c = record c {
  idle = true;
  log = Log.cycle_log;
  read = record (c.read) {
    timer_set = false;
    handler = Handler.keepalive_close_handler;
    log = Log.cycle_log;
  };
  write = record (c.write) {
    timer_set = false;
    handler = Handler.keepalive_dummy_handler;
    log = Log.cycle_log;
  };
}

-- ngx_http_drizzle_keepalive_get_peer_single: the most recently saved connection.
unfoldable pub get_peer_single : Peering → Rc × Peering
unfolding wake
get_peer_single s = elim s.pool.cache [
  | [] ↦ (Rc.declined, s)
  | item ∷ others ↦ (
    Rc.done,
    record {
      pc = record (s.pc) {
        connection = Option.map wake item.connection;
        cached = true;
        sockaddr = item.sockaddr;
      };
      dp = record (s.dp) {
        name = item.name;
        drizzle_con = item.drizzle_con;
        has_set_names = item.has_set_names;
        used = item.used;
      };
      pool = record (s.pool) { cache = others; free = item ∷ s.pool.free };
    },
  )
]

-- ngx_http_drizzle_keepalive_get_peer_multi: the most recently saved connection to the peer's address.
unfoldable pub same_address : List ℕ → Item → Bool
same_address addr item = bytes_eq item.sockaddr addr

unfoldable pub get_peer_multi : Peering → Rc × Peering
unfolding wake
get_peer_multi s = elim (extract (same_address s.pc.sockaddr) s.pool.cache) [
  | none ↦ (Rc.declined, s)
  | some (item, others) ↦ (
    Rc.done,
    record {
      pc = record (s.pc) { connection = Option.map wake item.connection; cached = true };
      dp = record (s.dp) {
        drizzle_con = item.drizzle_con;
        has_set_names = item.has_set_names;
        used = item.used;
      };
      pool = record (s.pool) { cache = others; free = item ∷ s.pool.free };
    },
  )
]

-- The test of ngx_http_drizzle_keepalive_free_peer on the upstream's answer.
unfoldable pub reusable_answer : Upstream → Bool
reusable_answer u =
    u.status_n == 404
    || (u.status_n == 410 || (u.status_n == 200 && (u.header_sent && u.length == 0)))

-- The item that a saved connection goes to. With no free item the oldest cached connection is closed.
-- `none`: both queues are empty, where the source takes the queue's sentinel for an item.
unfoldable pub take_item : Pool → Option (Item × Pool)
unfolding free_connection
take_item pool = elim pool.free [
  | item ∷ others ↦ some (item, record pool { free = others })
  | [] ↦ elim (split_last pool.cache) [
    | none ↦ none
    | some (others, item) ↦
        some
          (item, free_connection item.connection item.drizzle_con (record pool { cache = others }))
  ]
]

unfoldable pub fill : PeerConnection → PeerData → Connection → Item → Item
unfolding rest
fill pc dp c item = record item {
  connection = some (rest c);
  sockaddr = pc.sockaddr;
  drizzle_con = dp.drizzle_con;
  has_set_names = dp.has_set_names;
  name = dp.name;
  used = succ64 dp.used;
}

unfoldable pub save : Peering → Connection → Option Peering
unfolding fill
save s c = elim (take_item s.pool) [
  | none ↦ none
  | some (item, pool) ↦ some (record {
    pc = record (s.pc) { connection = none };
    dp = record (s.dp) { used = succ64 s.dp.used };
    pool = record pool { cache = fill s.pc s.dp c item ∷ pool.cache };
  })
]

-- `if (state & NGX_PEER_FAILED) dp->failed = 1;`
unfoldable pub mark_failed : Bool → PeerData → PeerData
mark_failed state_failed dp = record dp { failed = dp.failed || state_failed }

-- ngx_http_drizzle_keepalive_free_peer. `state_failed` is `state & NGX_PEER_FAILED`.
unfoldable pub keepalive_free_peer : Upstream → Bool → Peering → Option Peering
unfolding mark_failed
keepalive_free_peer u state_failed s =
    let s' = record s { dp = mark_failed state_failed s.dp } in
    elim s.pc.connection [
      | none ↦ some s'
      | some c ↦ if not s'.dp.failed && reusable_answer u then save s' c else some s'
    ]

-- What `recv(c->fd, buf, 1, MSG_PEEK)` reports of an idle connection.
pub data Peek : Type 0 where
  peek_data peek_eof peek_again peek_error : Peek

unfoldable pub is_stale : Peek → Bool
is_stale peek_again = true
is_stale peek_data = false
is_stale peek_eof = false
is_stale peek_error = false

-- The end of ngx_http_drizzle_keepalive_close_handler: `c->data` is the item in that slot. The item keeps
-- its old fields in `free`.
unfoldable pub close_item : ℕ → Pool → Pool
unfolding free_connection
close_item slot pool = elim (extract (λ (item : Item). item.slot == slot) pool.cache) [
  | none ↦ pool
  | some (item, others) ↦
      let pool' =
        free_connection item.connection item.drizzle_con (record pool { cache = others }) in
      record pool' { free = item ∷ pool'.free }
]

-- ngx_http_drizzle_keepalive_close_handler for the cached item in `slot`; `close` is `c->close`.
unfoldable pub close_handler : Peek → Bool → ℕ → Pool → Pool
unfolding is_stale close_item
close_handler peek close slot pool =
    if not close && is_stale peek then pool else close_item slot pool
