-- ===== src/Peer/Balance.antt =====
-- `active_conns` of src/ngx_http_drizzle_upstream.c over ngx_http_upstream_drizzle_get_peer and
-- ngx_http_upstream_drizzle_free_peer.
use drizzle_nginx_module.Prelude.{
  ◌<◌, ◌≤◌, ◌≡◌, inl, inr, Bool, true, false, [], none, some, Option-cases, arith,
}
use drizzle_nginx_module.Nginx.{Rc, Connection, Upstream, pred64}
use drizzle_nginx_module.Keepalive.{
  overflow_reject, mark_failed, keepalive_free_peer, free_connection,
}
use drizzle_nginx_module.Peer.{Net, Request, is_full, rejects, get_peer, free_peer}
use drizzle_nginx_module.Peer.Outcome.{active, IsFresh, get_peer_cases}

-- Where a full pool of capacity at least 1 rejects, and the number of active connections is within
-- `max_cached`, `get_peer` returns and leaves it so. The request is as for the cases of `get_peer`.
pub get_peer_limit :
    (net : Net) (s : Request)
    → IsFresh s
    → s.link.pool.overflow ≡ overflow_reject
    → 0 < s.link.pool.max_cached
    → active s ≤ s.link.pool.max_cached
    → (rc : Rc) × (s' : Request) × (get_peer net s ≡ some (rc, s'))
      × (active s' ≤ s'.link.pool.max_cached)
unfolding is_full rejects
get_peer_limit net s h o pos le =
    let (rc, s', e, cases, kept) = get_peer_cases net s h in
    (rc, s', e, ground (arith, cases, kept, o, pos, le, h.bounded))

-- A request that failed and has a connection gives it back, whatever the pool: one connection less is active.
free_peer_failed :
    (u : Upstream) (s : Request) (c : Connection)
    → s.link.pc.connection ≡ some c
    → (s' : Request) × (free_peer u true s ≡ some s')
      × (active s' ≡ pred64 (active s))
      × (s'.link.pc.connection ≡ none)
unfolding free_peer keepalive_free_peer mark_failed free_connection
free_peer_failed u s c e = elim (Option-cases (free_peer u true s)) [
  | inl n ↦ absurd (ground (arith, n, e))
  | inr (s', f) ↦ (s', f, ground (arith, e, f), ground (arith, e, f))
]

pub free_peer_empty :
    (u : Upstream) (failed : Bool) (s : Request)
    → s.link.pc.connection ≡ none
    → (s' : Request) × (free_peer u failed s ≡ some s')
      × (active s' ≡ active s)
      × (s'.link.pc.connection ≡ none)
      × (s'.peers ≡ s.peers)
      × (s'.next_peer ≡ s.next_peer)
      × (s'.remaining_peers ≡ s.remaining_peers)
      × (s'.link.pool.cache ≡ s.link.pool.cache)
unfolding free_peer keepalive_free_peer mark_failed free_connection
free_peer_empty u failed s e = elim (Option-cases (free_peer u failed s)) [
  | inl n ↦ absurd (ground (arith, n, e))
  | inr (s', f) ↦ (
    s',
    f,
    ground (arith, e, f),
    ground (arith, e, f),
    ground (arith, e, f),
    ground (arith, e, f),
    ground (arith, e, f),
    ground (arith, e, f),
  )
]

-- Nothing cached, and room in the pool: whatever `get_peer` does, when the request then fails and is freed, no
-- connection is left and the number of active connections is what it was before. The request is as for the
-- cases of `get_peer`.
pub get_peer-free_peer :
    (net : Net) (u : Upstream) (s : Request)
    → IsFresh s
    → s.link.pool.cache ≡ []
    → is_full s.link.pool ≡ false
    → (rc : Rc) × (s' : Request) × (s'' : Request) × (get_peer net s ≡ some (rc, s'))
      × (free_peer u true s' ≡ some s'')
      × (active s'' ≡ active s)
      × (s''.link.pc.connection ≡ none)
get_peer-free_peer net u s h empty room =
    let (rc, s', e, cases, kept) = get_peer_cases net s h in
    elim (Option-cases s'.link.pc.connection) [
      | inl n ↦
          let (s'', f, a, gone, p, q, l, k) = free_peer_empty u true s' n in
          (rc, s', s'', e, f, ground (arith, cases, empty, room, a, n), gone)
      | inr (c, n) ↦
          let (s'', f, a, gone) = free_peer_failed u s' c n in
          (rc, s', s'', e, f, ground (arith, cases, empty, room, a, n, h.bounded), gone)
    ]
