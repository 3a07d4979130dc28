-- ===== src/Keepalive/Reuse.antt =====
-- What src/ngx_http_drizzle_keepalive.c gives back of a connection that it saved, and which one it closes.
use drizzle_nginx_module.Prelude.{
  ◌≤◌, ◌<◌, ◌≡◌, refl, sym, ap, ◌⊎◌, inl, inr, ◌≢◌, Bool, true, false, List, [], ◌∷◌, ◌++◌, Option,
  none, some, length, length-append, length-map, map, take, take-of_length_le,
  take-append_of_length, extract-head, All, extract, extract_cases, split_last_cases, bytes_eq_refl,
  bytes_eq→eq, arith, not, ◌&&◌, ◌==◌, ==_refl, Bool-cases,
}
use drizzle_nginx_module.Nginx.{Rc, Connection, Upstream, PeerConnection, succ64, pred64}
use drizzle_nginx_module.Keepalive.{
  Item, Pool, PeerData, Peering, free_connection, add_option, wake, rest, get_peer_single,
  same_address, get_peer_multi, reusable_answer, take_item, fill, save, mark_failed,
  keepalive_free_peer, Peek, is_stale, close_item, close_handler,
}
use drizzle_nginx_module.Keepalive.Invariant.{IsPool, count, count-append}
use mathlib.Core.Option
use mathlib.Core.List.{map-append}

-- What a request finds after it took a connection that another one had saved.
abbrev pub Resumes : Peering → Connection → Peering → Type 0
Resumes s c t =
    (t.pc.connection ≡ some (wake (rest c)))
    × (t.pc.cached ≡ true)
    × (t.dp.drizzle_con ≡ s.dp.drizzle_con)
    × (t.dp.has_set_names ≡ s.dp.has_set_names)
    × (t.dp.used ≡ succ64 s.dp.used)

-- The connection that a save leaves at the head of `cache`.
save-head :
    (s : Peering) (c : Connection) {s' : Peering}
    → save s c ≡ some s'
    → (item : Item) × (pool : Pool) × (take_item s.pool ≡ some (item, pool))
      × (s'.pool ≡ record pool { cache = fill s.pc s.dp c item ∷ pool.cache })
unfolding save
save-head s c {s'} e = go (take_item s.pool) refl
  where
    go :
        (r : Option (Item × Pool))
        → take_item s.pool ≡ r
        → (item : Item) × (pool : Pool) × (take_item s.pool ≡ some (item, pool))
          × (s'.pool ≡ record pool { cache = fill s.pc s.dp c item ∷ pool.cache })
    go none t = absurd (ground arith)
    go (some (item, pool)) t = (item, pool, t, ground arith)

-- After a save, the next request in single mode gets that connection, awake, with the libdrizzle handle,
-- the address, the name and the charset flag that were saved, and one use more; the rest of the cache is
-- what the save had left.
pub get_peer_single-save :
    (s : Peering) (c : Connection) {s' : Peering} (pc : PeerConnection) (dp : PeerData)
    → save s c ≡ some s'
    → let t = get_peer_single (record { pc = pc; dp = dp; pool = s'.pool }) in
      (t.0 ≡ Rc.done)
      × Resumes s c t.1
      × (t.1.pc.sockaddr ≡ s.pc.sockaddr)
      × (t.1.dp.name ≡ s.dp.name)
      × (Option.map (λ (r : Item × Pool). r.1.cache) (take_item s.pool) ≡ some t.1.pool.cache)
unfolding get_peer_single fill
get_peer_single-save s c pc dp e =
    let (item, pool, t, p) = save-head s c e in
    rw (p, t) (refl, (refl, refl, refl, refl, refl), refl, refl, refl)

-- After a save, the next request in multi mode whose peer has the saved address gets that connection, awake,
-- with the libdrizzle handle and the charset flag that were saved, and one use more; the rest of the cache is
-- what the save had left.
pub get_peer_multi-save :
    (s : Peering) (c : Connection) {s' : Peering} (pc : PeerConnection) (dp : PeerData)
    → save s c ≡ some s'
    → pc.sockaddr ≡ s.pc.sockaddr
    → let t = get_peer_multi (record { pc = pc; dp = dp; pool = s'.pool }) in
      (t.0 ≡ Rc.done)
      × Resumes s c t.1
      × (Option.map (λ (r : Item × Pool). r.1.cache) (take_item s.pool) ≡ some t.1.pool.cache)
unfolding get_peer_multi fill same_address
get_peer_multi-save s c pc dp e a =
    let (item, pool, t, p) = save-head s c e in
    let found =
      extract-head (same_address pc.sockaddr) (fill s.pc s.dp c item) pool.cache
        (rw a (bytes_eq_refl s.pc.sockaddr)) in
    rw (p, t, found, get_peer_multi) (refl, (refl, refl, refl, refl, refl), refl)

-- In multi mode a request gets a cached connection exactly if one has its peer's address: it is the most
-- recently saved of these, it leaves the cache and nothing else does; otherwise nothing changes.
pub get_peer_multi_cases :
    (s : Peering)
    → (All (λ item. same_address s.pc.sockaddr item ≡ false) s.pool.cache
        × (get_peer_multi s ≡ (Rc.declined, s)))
      ⊎ ((item : Item) × (before : List Item) × (after : List Item) × (s.pool.cache
            ≡ before ++ (item ∷ after))
          × (item.sockaddr ≡ s.pc.sockaddr)
          × All (λ i. same_address s.pc.sockaddr i ≡ false) before
          × ((get_peer_multi s).0 ≡ Rc.done)
          × ((get_peer_multi s).1.pc.connection ≡ Option.map wake item.connection)
          × ((get_peer_multi s).1.dp.drizzle_con ≡ item.drizzle_con)
          × ((get_peer_multi s).1.pool
              ≡ record (s.pool) { cache = before ++ after; free = item ∷ s.pool.free }))
unfolding get_peer_multi same_address
get_peer_multi_cases s = elim (extract_cases (same_address s.pc.sockaddr) s.pool.cache) [
  | inl (h, e) ↦ inl (h, rw (e, get_peer_multi))
  | inr (item, others, e, (hit, before, after, split, left, h)) ↦ inr (
    item,
    before,
    after,
    split,
    bytes_eq→eq item.sockaddr s.pc.sockaddr hit,
    h,
    rw (e, get_peer_multi),
    rw (e, get_peer_multi),
    rw (e, get_peer_multi),
    rw (e, left, get_peer_multi),
  )
]

-- `free_peer` saves a connection exactly if the request did not fail, there is a connection, and the answer
-- was 404, 410, or a finished 200 whose header was sent; otherwise only the failure mark may change.
pub keepalive_free_peer_cases :
    (u : Upstream) (state_failed : Bool) (s : Peering)
    → let marked = record s { dp = mark_failed state_failed s.dp } in
      ((c : Connection) × (s.pc.connection ≡ some c)
        × (s.dp.failed ≡ false)
        × (state_failed ≡ false)
        × ((u.status_n ≡ 404)
            ⊎ ((u.status_n ≡ 410) ⊎ ((u.status_n ≡ 200) × (u.header_sent ≡ true) × (u.length ≡ 0))))
        × (keepalive_free_peer u state_failed s ≡ save marked c))
      ⊎ (((s.pc.connection ≡ none)
            ⊎ ((s.dp.failed ≡ true)
                ⊎ ((state_failed ≡ true)
                    ⊎ ((u.status_n ≢ 404)
                        × (u.status_n ≢ 410)
                        × ((u.status_n ≢ 200) ⊎ ((u.header_sent ≡ false) ⊎ (u.length ≢ 0)))))))
          × (keepalive_free_peer u state_failed s ≡ some marked))
unfolding keepalive_free_peer reusable_answer mark_failed
keepalive_free_peer_cases u state_failed s = ground arith

-- The connections that a pool offers, most recently saved first.
abbrev pub connections : List Item → List (Option Connection)
connections = map (λ (i : Item). i.connection)

-- With a free item a save closes nothing.
abbrev pub ClosesNothing : Pool → Pool → Type 0
ClosesNothing pool pool' =
    (0 < length pool.free)
    × (pool'.closed ≡ pool.closed)
    × (pool'.freed ≡ pool.freed)
    × (pool'.active_conns ≡ pool.active_conns)

-- With none, the oldest cached connection and its libdrizzle handle go.
abbrev pub ClosesOldest : Pool → Pool → Type 0
ClosesOldest pool pool' =
    (front : List Item) × (oldest : Item) × (pool.free ≡ [])
    × (pool.cache ≡ front ++ (oldest ∷ []))
    × (pool'.closed
        ≡ add_option (Option.map (λ (d : Connection). d.fd) oldest.connection) pool.closed)
    × (pool'.freed ≡ add_option oldest.drizzle_con pool.freed)
    × (pool'.active_conns ≡ pred64 pool.active_conns)

take_item_cases :
    (pool : Pool) (item : Item) (pool' : Pool)
    → take_item pool ≡ some (item, pool')
    → ((pool'.cache ≡ pool.cache) × ClosesNothing pool pool')
      ⊎ ((oldest : Item) × (pool.cache ≡ pool'.cache ++ (oldest ∷ [])) × ClosesOldest pool pool')
unfolding take_item free_connection
take_item_cases pool item pool' t = go pool.free refl
  where
    go :
        (free : List Item)
        → pool.free ≡ free
        → ((pool'.cache ≡ pool.cache) × ClosesNothing pool pool')
          ⊎ ((oldest : Item) × (pool.cache ≡ pool'.cache ++ (oldest ∷ []))
              × ClosesOldest pool pool')
    go (i ∷ others) e =
        inl (ground arith, (omega (arith, ap length e), ground arith, ground arith, ground arith))
    go [] e = elim (split_last_cases pool.cache) [
      | inl (_, n) ↦ absurd (ground arith)
      | inr (front, oldest, n, c) ↦
          inr
            (oldest, ground arith, (front, oldest, e, c, ground arith, ground arith, ground arith))
    ]

-- Saving into a well-formed pool of capacity `max_cached` puts the connection on top and keeps the `max_cached`
-- most recent ones. With a free item nothing is closed; with none, the oldest cached connection and its
-- libdrizzle handle are, and one connection less is active.
pub save_keeps_most_recent :
    (s : Peering) (c : Connection) {s' : Peering}
    → IsPool s.pool
    → save s c ≡ some s'
    → (connections s'.pool.cache
        ≡ take s.pool.max_cached (some (rest c) ∷ connections s.pool.cache))
      × (ClosesNothing s.pool s'.pool ⊎ ClosesOldest s.pool s'.pool)
unfolding fill
save_keeps_most_recent s c {s'} v e =
    let (item, pool, t, p) = save-head s c e in
    elim (take_item_cases s.pool item pool t) [
      | inl (same, nothing) ↦ (
        rw (p, same)
            (sym (
              take-of_length_le s.pool.max_cached (some (rest c) ∷ connections s.pool.cache) (
                omega (
                  arith,
                  v.sized,
                  nothing.0,
                  length-map (λ (i : Item). i.connection) s.pool.cache,
                )))),
        inl (rw p nothing),
      )
      | inr (oldest, split, closes) ↦ (
        rw (p, split, map-append)
            (sym (
              take-append_of_length s.pool.max_cached (some (rest c) ∷ connections pool.cache)
                (oldest.connection ∷ [])
                (omega (
                  arith,
                  v.sized,
                  ap length closes.2,
                  ap length split,
                  length-append {0} pool.cache (oldest ∷ []),
                  length-map (λ (i : Item). i.connection) pool.cache,
                )))),
        inr (rw p closes),
      )
    ]

-- The slots of a well-formed pool tell its items apart.
no_twin :
    (item : Item) (before after : List Item)
    → count item.slot (before ++ (item ∷ after)) ≤ 1
    → All (λ (i : Item). (i.slot == item.slot) ≡ false) before
no_twin item [] after h = tt
no_twin item (b ∷ before) after h = (
  ground (arith, count-append item.slot before (item ∷ after), ==_refl item.slot),
  no_twin item before after (omega arith),
)

extract-slot :
    (item : Item) (before after : List Item)
    → All (λ (i : Item). (i.slot == item.slot) ≡ false) before
    → extract (λ (i : Item). i.slot == item.slot) (before ++ (item ∷ after))
      ≡ some (item, before ++ after)
unfolding extract
extract-slot item [] after h = rw (==_refl item.slot, extract)
extract-slot item (b ∷ before) after h = rw (h.0, extract-slot item before after h.1, extract)

-- For the connection of a cached item of a well-formed pool: if the peek reports that nothing can be read, and
-- nginx did not ask to close it, the pool is left alone. Otherwise the connection is closed with its libdrizzle
-- handle, one connection less is active, and the item moves to `free`; the other items stay.
pub close_handler_cases :
    (peek : Peek) (close : Bool) (pool : Pool) (item : Item) (before after : List Item)
    → IsPool pool
    → pool.cache ≡ before ++ (item ∷ after)
    → let pool' = close_handler peek close item.slot pool in
      ((close ≡ false) × (peek ≡ Peek.peek_again) × (pool' ≡ pool))
      ⊎ (((close ≡ true) ⊎ (peek ≢ Peek.peek_again))
          × (pool'.cache ≡ before ++ after)
          × (pool'.free ≡ item ∷ pool.free)
          × (pool'.closed
              ≡ add_option (Option.map (λ (d : Connection). d.fd) item.connection) pool.closed)
          × (pool'.freed ≡ add_option item.drizzle_con pool.freed)
          × (pool'.active_conns ≡ pred64 pool.active_conns))
unfolding close_handler close_item free_connection is_stale
close_handler_cases peek close pool item before after v m =
    let found =
      extract-slot item before after (
        no_twin item before after
          (ground (arith, v.each_slot item.slot, ap (count item.slot) m))) in
    elim (Bool-cases (not close && is_stale peek)) [
      | inl e ↦ inl (ground arith, ground arith, ground arith)
      | inr e ↦
          rw (e, m, found, close_handler, close_item)
            (inr (ground arith, refl, refl, refl, refl, refl))
    ]
