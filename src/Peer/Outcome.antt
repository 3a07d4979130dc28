-- ===== src/Peer/Outcome.antt =====
-- What ngx_http_upstream_drizzle_get_peer of src/ngx_http_drizzle_upstream.c can do.
use drizzle_nginx_module.Prelude.{
  length-append, extract_cases, ℕ, ◌+◌, ◌-◌, ◌%◌, ◌^◌, ◌<◌, ◌≡◌, refl, sym, subst, ◌⊎◌, inl, inr,
  Bool, true, false, not, ◌&&◌, List, [], ◌∷◌, ◌++◌, Option, none, some, length, get_elem?-some,
  ltb, ◌==◌, Bool-cases, Option-cases, arith,
}
use mathlib.Core.Option
use drizzle_nginx_module.Nginx.{Rc, Connection, succ64, pred64}
use drizzle_nginx_module.Keepalive.{
  same_address, wake, Item, Pool, Peering, get_peer_single, get_peer_multi, free_connection,
}
use drizzle_nginx_module.Peer.{
  Net, Peer, Request, clear_failed, set_pool, set_drizzle_con, Connecting, is_declined, draw,
  is_full, invalid, attach, register, open_connection, open_or_reject, round_robin, get_peer,
  target,
}

abbrev pub active : Request → ℕ
active s = s.link.pool.active_conns

-- The counters that `get_peer` must keep right: `active_conns` is below 2^64, there is no connection yet, and
-- `next_peer` is the index of a peer.
pub record IsFresh (s : Request) : Type 0 where
  pub in_range : s.next_peer < length s.peers
  pub no_connection : s.link.pc.connection ≡ none
  pub bounded : active s < 2 ^ 64

abbrev pub SameLimit : Pool → Pool → Type 0
SameLimit pool pool' =
    (pool'.max_cached ≡ pool.max_cached)
    × (pool'.overflow ≡ pool.overflow)
    × (pool'.single ≡ pool.single)

-- A connection was opened, or is being opened.
abbrev pub Opened : Request → Rc → Request → Type 0
Opened s rc s' =
    ((rc ≡ Rc.again) ⊎ (rc ≡ Rc.done))
    × (active s' ≡ succ64 (active s))
    × (c : Connection) × (s'.link.pc.connection ≡ some c)

-- No connection is left over, and none is counted.
abbrev pub Failed : Request → Rc → Request → Type 0
Failed s rc s' =
    ((rc ≡ Rc.error) ⊎ (rc ≡ Rc.declined)) × (active s' ≡ active s) × (s'.link.pc.connection ≡ none)

abbrev pub Same : Request → Request → Type 0
Same s s' =
    SameLimit s.link.pool s'.link.pool
    × (s'.peers ≡ s.peers)
    × (s'.next_peer ≡ s.next_peer)
    × (s'.remaining_peers ≡ s.remaining_peers)
    × (s'.query_started ≡ s.query_started)
    × (s'.link.pool.cache ≡ s.link.pool.cache)

attach-outcome :
    (net : Net) (waiting : Bool) (c : Connection) (s : Request)
    → let r = attach net waiting c s in
      ((((r.0 ≡ Rc.again) ⊎ (r.0 ≡ Rc.done))
          × (active r.1 ≡ active s)
          × (c : Connection) × (r.1.link.pc.connection ≡ some c))
        ⊎ ((r.0 ≡ Rc.error) × (active r.1 ≡ pred64 (active s)) × (r.1.link.pc.connection ≡ none)))
      × Same s r.1
unfolding attach invalid free_connection
attach-outcome net waiting c s = ground arith

abbrev pub Tried : Request → Rc × Request → Type 0
Tried s r = (Opened s r.0 r.1 ⊎ Failed s r.0 r.1) × Same s r.1

register-outcome :
    (net : Net) (waiting : Bool) (s : Request)
    → active s < 2 ^ 64
    → Tried s (register net waiting s)
unfolding register invalid free_connection
register-outcome net waiting s h = elim (Option-cases net.con_fd) [
  | inl e ↦ ground (arith, e)
  | inr (fd, e) ↦ elim (Option-cases (net.get_connection fd)) [
    | inl f ↦ ground (arith, e, f)
    | inr (c, f) ↦ ground (
      arith,
      e,
      f,
      attach-outcome net waiting c
          (set_pool (record (s.link.pool) { active_conns = succ64 s.link.pool.active_conns }) s),
    )
  ]
]

open_connection-outcome :
    (net : Net) (peer : Peer) (s : Request) → IsFresh s → Tried s (open_connection net peer s)
unfolding open_connection
open_connection-outcome net peer s h = elim (Option-cases net.dc) [
  | inl e ↦ ground (arith, e, h.no_connection)
  | inr (dc, e) ↦ go dc e (net.con_connect (target peer s)) refl
]
  where
    go :
        (dc : ℕ)
        → net.dc ≡ some dc
        → (x : Connecting) → net.con_connect (target peer s) ≡ x
        → Tried s (open_connection net peer s)
    go dc e Connecting.failed f = ground (arith, e, f, h.no_connection)
    go dc e Connecting.connected f =
        ground (arith, e, f, register-outcome net false (set_drizzle_con (some dc) s) h.bounded)
    go dc e Connecting.io_wait f =
        ground (arith, e, f, register-outcome net true (set_drizzle_con (some dc) s) h.bounded)

-- An item leaves `cache`, and its connection, awake, and its libdrizzle handle are handed over.
abbrev pub Takes : Peering → Peering → Type 0
Takes l l' =
    (before : List Item) × (item : Item) × (after : List Item) × (l.pool.cache
      ≡ before ++ (item ∷ after))
    × (l'.pool.cache ≡ before ++ after)
    × (l'.pool.free ≡ item ∷ l.pool.free)
    × (l'.pc.connection ≡ Option.map wake item.connection)
    × (l'.dp.drizzle_con ≡ item.drizzle_con)

-- A pool either declines and changes nothing, or gives a connection that is counted already.
abbrev pub FromPool : Peering → Rc × Peering → Type 0
FromPool l r =
    (r ≡ (Rc.declined, l))
    ⊎ ((r.0 ≡ Rc.done)
        × (0 < length l.pool.cache)
        × Takes l r.1
        × (r.1.pool.active_conns ≡ l.pool.active_conns)
        × SameLimit l.pool r.1.pool)

get_peer_single-FromPool : (l : Peering) → FromPool l (get_peer_single l)
unfolding get_peer_single
get_peer_single-FromPool l =
    elim l.pool.cache
      as (λ c.
        FromPool (record l { pool = record (l.pool) { cache = c } })
          (get_peer_single (record l { pool = record (l.pool) { cache = c } }))) [
            | [] ↦ inl refl
            | item ∷ others ↦ inr (
              refl,
              omega arith,
              ([], item, others, refl, refl, refl, refl, refl),
              refl,
              (refl, refl, refl),
            )
          ]

get_peer_multi-FromPool : (l : Peering) → FromPool l (get_peer_multi l)
unfolding get_peer_multi same_address
get_peer_multi-FromPool l = elim (extract_cases (same_address l.pc.sockaddr) l.pool.cache) [
  | inl (h, e) ↦ ground (arith, e)
  | inr (item, others, e, (hit, before, after, split, left, h)) ↦ inr (
    ground (arith, e),
    ground (arith, split, length-append before (item ∷ after)),
    (
      before,
      item,
      after,
      split,
      ground (arith, e, left),
      ground (arith, e),
      ground (arith, e),
      ground (arith, e),
    ),
    ground (arith, e),
    ground (arith, e),
  )
]

abbrev pub Pooled : Request → Rc → Request → Type 0
Pooled s rc s' =
    (rc ≡ Rc.done)
    × (0 < s.link.pool.max_cached)
    × (0 < length s.link.pool.cache)
    × (active s' ≡ active s)
    × Takes s.link s'.link

abbrev pub Busy : Request → Rc → Request → Type 0
Busy s rc s' =
    (rc ≡ Rc.busy)
    × (s.remaining_peers ≡ 0)
    × (active s' ≡ active s)
    × (s'.link.pc.connection ≡ none)

abbrev pub Rejected : Net → Request → Rc → Request → Type 0
Rejected net s rc s' =
    (rc ≡ Rc.again)
    × (is_full s.link.pool ≡ true)
    × (active s' ≡ active s)
    × (s'.link.pc.connection ≡ net.get_connection 0)

-- A peer was taken, and the next one stands after it in the round.
abbrev pub Advanced : Request → Request → Type 0
Advanced s s' =
    (0 < s.remaining_peers)
    × (s'.remaining_peers ≡ s.remaining_peers - 1)
    × (s'.next_peer ≡ (s.next_peer + 1) % length s.peers)
    × (s'.link.pool.cache ≡ s.link.pool.cache)

abbrev pub Kept : Request → Request → Type 0
Kept s s' =
    SameLimit s.link.pool s'.link.pool × (s'.peers ≡ s.peers) × (s'.query_started ≡ s.query_started)

abbrev pub Outcome : Net → Request → Rc → Request → Type 0
Outcome net s rc s' =
    Pooled s rc s'
    ⊎ (Busy s rc s'
        ⊎ (Advanced s s'
            × (Rejected net s rc s'
                ⊎ ((Opened s rc s' ⊎ Failed s rc s') × (is_full s.link.pool ≡ false)))))

abbrev pub Got : Net → Request → Option (Rc × Request) → Type 0
Got net s o = (rc : Rc) × (s' : Request) × (o ≡ some (rc, s')) × Outcome net s rc s' × Kept s s'

in_range_next :
    (s : Request)
    → s.next_peer < length s.peers
    → (s.next_peer + 1) % length s.peers < length s.peers
in_range_next s h = omega arith

or_reject-outcome :
    (net : Net) (peer : Peer) (s : Request)
    → IsFresh s
    → (let r = open_or_reject net peer s in
        (Rejected net s r.0 r.1
          ⊎ ((Opened s r.0 r.1 ⊎ Failed s r.0 r.1) × (is_full s.link.pool ≡ false)))
        × Same s r.1)
unfolding open_or_reject
or_reject-outcome net peer s h = elim (Bool-cases (is_full s.link.pool)) [
  | inl e ↦ ground (arith, e)
  | inr e ↦ ground (arith, e, open_connection-outcome net peer s h)
]

abbrev drawn : Request → Peer → Request
drawn s peer = record s {
  next_peer = (s.next_peer + 1) % length s.peers;
  remaining_peers = s.remaining_peers - 1;
  current = (s.next_peer + 1) % length s.peers;
  enable_charset = ltb 0 (length peer.set_names_query);
  set_names_query = peer.set_names_query;
  link = record (s.link) {
    dp = record (s.link.dp) { name = peer.name };
    pc = record (s.link.pc) { sockaddr = peer.sockaddr; cached = false };
  };
}

drawn-IsFresh : (s : Request) (peer : Peer) → IsFresh s → IsFresh (drawn s peer)
drawn-IsFresh s peer h = record {
  in_range = in_range_next s h.in_range;
  no_connection = h.no_connection;
  bounded = h.bounded;
}

tried-Got :
    (net : Net) (s : Request) (peer : Peer)
    → IsFresh s
    → 0 < s.remaining_peers
    → Got net s (some (open_or_reject net peer (drawn s peer)))
tried-Got net s peer h pos =
    let r = open_or_reject net peer (drawn s peer) in
    (
      r.0,
      r.1,
      refl,
      ground (arith, or_reject-outcome net peer (drawn s peer) (drawn-IsFresh s peer h)),
      ground (arith, or_reject-outcome net peer (drawn s peer) (drawn-IsFresh s peer h)),
    )

round_robin-Got : (net : Net) (s : Request) → IsFresh s → Got net s (round_robin net s)
unfolding round_robin draw is_declined
round_robin-Got net s h = elim (Bool-cases (s.remaining_peers == 0)) [
  | inl e ↦ (Rc.busy, s, ground (arith, e), ground (arith, e, h.no_connection), ground arith)
  | inr e ↦
      let (peer, f) = get_elem?-some s.peers s.next_peer h.in_range in
      let pos : 0 < s.remaining_peers = ground (arith, e) in
      let tried = tried-Got net s peer h pos in
      let found = get_peer_multi (drawn s peer).link in
      elim (Bool-cases (ltb 0 s.link.pool.max_cached && not s.link.pool.single)) [
        | inl m ↦ elim (get_peer_multi-FromPool (drawn s peer).link) [
          | inl n ↦ subst (Got net s) (sym (ground (arith, e, f, m, n))) tried
          | inr n ↦ (
            found.0,
            record (drawn s peer) { link = found.1 },
            ground (arith, e, f, m, n.0),
            inl (n.0, ground (arith, m), n.1, n.3, n.2),
            (n.4, refl, refl),
          )
        ]
        | inr m ↦ subst (Got net s) (sym (ground (arith, e, f, m))) tried
      ]
]

-- For a request without a connection, whose `next_peer` is in range and whose `active_conns` is below 2^64,
-- `get_peer` never reads outside its peers. It takes an item out of `cache` and hands over its connection, awake, and
-- its libdrizzle handle, which is counted already; or, with no peer remaining, NGX_BUSY; or, with a peer remaining, it takes the next one in the round:
-- then it rejects, exactly if the pool is full; or it opens one connection and counts it; or it fails, and then
-- no connection is left and the count is what it was. The limits of the pool, the peers and `query_started`
-- stay, and so does `cache` where no item is taken from it.
pub get_peer_cases : (net : Net) (s : Request) → IsFresh s → Got net s (get_peer net s)
unfolding get_peer is_declined
get_peer_cases net s h =
    let s' = clear_failed s in
    let h' : IsFresh s' = record {
      in_range = h.in_range;
      no_connection = h.no_connection;
      bounded = h.bounded;
    } in
    let robin = round_robin-Got net s' h' in
    elim (Bool-cases (ltb 0 s.link.pool.max_cached && s.link.pool.single)) [
      | inl m ↦
          let found = get_peer_single s'.link in
          elim (get_peer_single-FromPool s'.link) [
            | inl n ↦ subst (Got net s) (sym (ground (arith, m, n))) robin
            | inr n ↦ (
              found.0,
              record s' { link = found.1 },
              ground (arith, m, n.0),
              inl (n.0, ground (arith, m), n.1, n.3, n.2),
              (n.4, refl, refl),
            )
          ]
      | inr m ↦ subst (Got net s) (sym (ground (arith, m))) robin
    ]
