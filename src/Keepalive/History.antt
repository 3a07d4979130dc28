-- ===== src/Keepalive/History.antt =====
-- Any sequence of calls on the pool of src/ngx_http_drizzle_keepalive.c: requests that take and give
-- connections, and events on the idle ones.
use drizzle_nginx_module.Prelude.{
  ℕ, ◌<◌, ◌≡◌, refl, Bool, true, List, [], ◌∷◌, Option, none, some, arith, ◌∙◌,
}
use drizzle_nginx_module.Nginx.{Upstream, PeerConnection}
use drizzle_nginx_module.Keepalive.{
  Pool, PeerData, Peering, keepalive_init, get_peer_single, get_peer_multi, take_item, save,
  keepalive_free_peer, Peek, close_handler, free_connection,
}
use drizzle_nginx_module.Keepalive.Invariant.{
  IsPool, keepalive_init-IsPool, get_peer_single-IsPool, get_peer_multi-IsPool,
  close_handler-IsPool, keepalive_free_peer-IsPool,
}
use mathlib.Core.Option

pub data Call : Type 0 where
  takes_single : PeerConnection → PeerData → Call
  takes_multi : PeerConnection → PeerData → Call
  gives : Upstream → Bool → PeerConnection → PeerData → Call
  wakes : Peek → Bool → ℕ → Call

-- `none` is the fault of a queue that is read when it is empty.
pub step : Pool → Call → Option Pool
step pool (takes_single pc dp) =
    some (get_peer_single (record { pc = pc; dp = dp; pool = pool })).1.pool
step pool (takes_multi pc dp) =
    some (get_peer_multi (record { pc = pc; dp = dp; pool = pool })).1.pool
step pool (gives u failed pc dp) =
    Option.map (λ (s : Peering). s.pool)
      (keepalive_free_peer u failed (record { pc = pc; dp = dp; pool = pool }))
step pool (wakes peek close slot) = some (close_handler peek close slot pool)

pub run : Pool → List Call → Option Pool
run pool [] = some pool
run pool (c ∷ cs) = elim (step pool c) [ none ↦ none | some pool' ↦ run pool' cs ]

-- What holds of the pool between two calls.
pub record Between (cap : ℕ) (pool : Pool) : Type 0 where
  pub is_pool : IsPool pool
  pub capacity : pool.max_cached ≡ cap

capacity-get_peer_single : (s : Peering) → (get_peer_single s).1.pool.max_cached ≡ s.pool.max_cached
unfolding get_peer_single
capacity-get_peer_single s = ground arith

capacity-get_peer_multi : (s : Peering) → (get_peer_multi s).1.pool.max_cached ≡ s.pool.max_cached
unfolding get_peer_multi
capacity-get_peer_multi s = ground arith

capacity-close_handler :
    (peek : Peek) (close : Bool) (slot : ℕ) (pool : Pool)
    → (close_handler peek close slot pool).max_cached ≡ pool.max_cached
unfolding close_handler free_connection
capacity-close_handler peek close slot pool = ground arith

capacity-take_item :
    (pool : Pool) {r : _} → take_item pool ≡ some r → r.1.max_cached ≡ pool.max_cached
unfolding take_item free_connection
capacity-take_item pool e = ground arith

capacity-free_peer :
    (u : Upstream) (failed : Bool) (s : Peering) {s' : Peering}
    → keepalive_free_peer u failed s ≡ some s'
    → s'.pool.max_cached ≡ s.pool.max_cached
unfolding keepalive_free_peer save take_item free_connection
capacity-free_peer u failed s e = ground arith

step-Between :
    (cap : ℕ) (pool : Pool) (c : Call)
    → 0 < cap
    → Between cap pool
    → (pool' : Pool) × (step pool c ≡ some pool') × Between cap pool'
unfolding step
step-Between cap pool (takes_single pc dp) h b = (
  _,
  refl,
  record {
    is_pool = get_peer_single-IsPool _ b.is_pool;
    capacity = capacity-get_peer_single _ ∙ b.capacity;
  },
)
step-Between cap pool (takes_multi pc dp) h b = (
  _,
  refl,
  record {
    is_pool = get_peer_multi-IsPool _ b.is_pool;
    capacity = capacity-get_peer_multi _ ∙ b.capacity;
  },
)
step-Between cap pool (gives u failed pc dp) h b =
    let (s', e, v) =
      keepalive_free_peer-IsPool u failed (record { pc = pc; dp = dp; pool = pool }) b.is_pool
        (omega (arith, b.capacity)) in
    (s'.pool, rw e, record { is_pool = v; capacity = capacity-free_peer u failed _ e ∙ b.capacity })
step-Between cap pool (wakes peek close slot) h b = (
  _,
  refl,
  record {
    is_pool = close_handler-IsPool peek close slot pool b.is_pool;
    capacity = capacity-close_handler peek close slot pool ∙ b.capacity;
  },
)

run-Between :
    (cap : ℕ) (pool : Pool) (cs : List Call)
    → 0 < cap
    → Between cap pool
    → (pool' : Pool) × (run pool cs ≡ some pool') × Between cap pool'
unfolding run
run-Between cap pool [] h b = (pool, refl, b)
run-Between cap pool (c ∷ cs) h b =
    let (pool1, e, b1) = step-Between cap pool c h b in
    let (pool2, e2, b2) = run-Between cap pool1 cs h b1 in (pool2, rw (e, run) e2, b2)

-- From the initialisation on, with a capacity of at least 1, no sequence of calls reads an empty queue;
-- after any sequence each item is in exactly one of the two queues, their lengths add up to the capacity,
-- and each cached item holds an idle connection with the close handler.
pub run-IsPool :
    (pool : Pool) {pool0 : Pool} (cs : List Call)
    → 0 < pool.max_cached
    → keepalive_init true pool ≡ some pool0
    → (pool' : Pool) × (run pool0 cs ≡ some pool')
      × IsPool pool'
      × (pool'.max_cached ≡ pool.max_cached)
unfolding keepalive_init
run-IsPool pool {pool0} cs h e =
    let (pool', r, b) =
      run-Between pool.max_cached pool0 cs h
        (record { is_pool = keepalive_init-IsPool pool e; capacity = ground arith }) in
    (pool', r, b.is_pool, b.capacity)
