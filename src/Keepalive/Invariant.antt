-- ===== src/Keepalive/Invariant.antt =====
-- When the pool of src/ngx_http_drizzle_keepalive.c is well formed, and its operations one by one.
use drizzle_nginx_module.Prelude.{
  ℕ, zero, suc, ◌+◌, ◌<◌, ◌≡◌, refl, ap, subst, inl, inr, Bool, true, List, [], ◌∷◌, ◌++◌, Option,
  none, some, length, length-append, All, All-append, All-split, extract_cases, split_last_cases,
  arith, ltb, not, ◌&&◌, ◌==◌, if◌then◌else◌, Bool-cases,
}
use drizzle_nginx_module.Nginx.{Connection, Handler, Upstream, succ64}
use drizzle_nginx_module.Keepalive.{
  Item, Pool, Peering, fresh_items, keepalive_init, free_connection, rest, get_peer_single,
  same_address, get_peer_multi, reusable_answer, take_item, fill, save, mark_failed,
  keepalive_free_peer, Peek, is_stale, close_item, close_handler,
}

-- How many items of the list stand in a slot.
abbrev pub count : ℕ → List Item → ℕ
count k [] = 0
count k (i ∷ is) = (if i.slot == k then 1 else 0) + count k is

pub count-append : (k : ℕ) (xs ys : List Item) → count k (xs ++ ys) ≡ count k xs + count k ys
count-append k [] ys = omega arith
count-append k (x ∷ xs) ys = ground (arith, count-append k xs ys)

-- A cached connection: open, idle, with the pool's close handler on its read event.
abbrev pub IsIdle : Item → Type 0
IsIdle item =
    (c : Connection) × (item.connection ≡ some c)
    × (c.idle ≡ true)
    × (c.read.handler ≡ Handler.keepalive_close_handler)

pub record IsPool (pool : Pool) : Type 0 where
  pub sized : length pool.free + length pool.cache ≡ pool.max_cached
  pub each_slot :
      (k : ℕ) → count k pool.free + count k pool.cache ≡ (if ltb k pool.max_cached then 1 else 0)
  pub idle : All IsIdle pool.cache

length-fresh_items : (n : ℕ) → length (fresh_items n) ≡ n
unfolding fresh_items
length-fresh_items zero = refl
length-fresh_items (suc n) = ap suc (length-fresh_items n)

count-fresh_items : (n k : ℕ) → count k (fresh_items n) ≡ (if ltb k n then 1 else 0)
unfolding fresh_items
count-fresh_items zero k = ground arith
count-fresh_items (suc n) k = ground (arith, count-fresh_items n k)

-- Initialisation, when its allocation succeeds, gives a well-formed pool.
pub keepalive_init-IsPool :
    (pool : Pool) {pool' : Pool} → keepalive_init true pool ≡ some pool' → IsPool pool'
unfolding keepalive_init
keepalive_init-IsPool pool e = subst IsPool (ground arith) fresh
  where
    fresh : IsPool (record pool { cache = []; free = fresh_items pool.max_cached })
    fresh = record {
      sized = omega (arith, length-fresh_items pool.max_cached);
      each_slot = λ k. omega (arith, count-fresh_items pool.max_cached k);
      idle = tt;
    }

-- The slots that an extraction leaves behind.
abbrev Moves : List Item → Item → List Item → Type 0
Moves cache item others =
    (length cache ≡ suc (length others))
    × ((k : ℕ) → count k cache ≡ (if item.slot == k then 1 else 0) + count k others)

moved :
    (before after : List Item) (item : Item)
    → Moves (before ++ (item ∷ after)) item (before ++ after)
moved before after item = (
  omega (arith, length-append {0} before (item ∷ after), length-append {0} before after),
  λ k. omega (arith, count-append k before (item ∷ after), count-append k before after),
)

-- An item that leaves `cache` for `free` leaves the pool well formed.
pub release-IsPool :
    (pool : Pool) (before after : List Item) (item : Item)
    → pool.cache ≡ before ++ (item ∷ after)
    → IsPool pool
    → IsPool (record pool { cache = before ++ after; free = item ∷ pool.free })
release-IsPool pool before after item e v = record {
  sized = omega (arith, v.sized, ap length e, (moved before after item).0);
  each_slot = λ k. omega (arith, v.each_slot k, ap (count k) e, (moved before after item).1 k);
  idle =
      let parts = All-split IsIdle before (item ∷ after) (subst (All IsIdle) e v.idle) in
      All-append IsIdle before after parts.0 parts.1.1;
}

pub get_peer_single-IsPool : (s : Peering) → IsPool s.pool → IsPool (get_peer_single s).1.pool
unfolding get_peer_single
get_peer_single-IsPool s v = go s.pool.cache refl
  where
    go : (cache : List Item) → s.pool.cache ≡ cache → IsPool (get_peer_single s).1.pool
    go [] e = rw (e, get_peer_single) v
    go (item ∷ others) e = rw (e, get_peer_single) (release-IsPool s.pool [] others item e v)

-- Of what an extraction does with a pool: nothing, or one item moves from `cache` to `free`.
pub get_peer_multi-IsPool : (s : Peering) → IsPool s.pool → IsPool (get_peer_multi s).1.pool
unfolding get_peer_multi
get_peer_multi-IsPool s v = elim (extract_cases (same_address s.pc.sockaddr) s.pool.cache) [
  | inl (_, e) ↦ rw (e, get_peer_multi) v
  | inr (item, others, e, (_, before, after, split, left, _)) ↦
      rw (e, get_peer_multi, left) (release-IsPool s.pool before after item split v)
]

free_connection-IsPool :
    (c : Option Connection) (dc : Option ℕ) (pool : Pool)
    → IsPool pool
    → IsPool (free_connection c dc pool)
unfolding free_connection
free_connection-IsPool c dc pool v = record {
  sized = v.sized;
  each_slot = v.each_slot;
  idle = v.idle;
}

pub close_item-IsPool : (slot : ℕ) (pool : Pool) → IsPool pool → IsPool (close_item slot pool)
unfolding close_item free_connection
close_item-IsPool slot pool v =
    elim (extract_cases (λ (item : Item). item.slot == slot) pool.cache) [
      | inl (_, e) ↦ rw (e, close_item) v
      | inr (item, others, e, (_, before, after, split, left, _)) ↦
          rw (e, close_item, left)
            (free_connection-IsPool item.connection item.drizzle_con _
              (release-IsPool pool before after item split v))
    ]

pub close_handler-IsPool :
    (peek : Peek) (close : Bool) (slot : ℕ) (pool : Pool)
    → IsPool pool
    → IsPool (close_handler peek close slot pool)
unfolding close_handler
close_handler-IsPool peek close slot pool v = elim (Bool-cases (not close && is_stale peek)) [
  | inl e ↦ rw (e, close_handler) v
  | inr e ↦ rw (e, close_handler) (close_item-IsPool slot pool v)
]

-- What `take_item` gives on a well-formed pool with a capacity: an item, and the pool that misses it.
pub record Taken (pool : Pool) (item : Item) (pool' : Pool) : Type 0 where
  pub sized : length pool'.free + length pool'.cache + 1 ≡ pool.max_cached
  pub capacity : pool'.max_cached ≡ pool.max_cached
  pub each_slot :
      (k : ℕ)
      → (if item.slot == k then 1 else 0) + count k pool'.free + count k pool'.cache
        ≡ (if ltb k pool.max_cached then 1 else 0)
  pub idle : All IsIdle pool'.cache

pub take_item-Taken :
    (pool : Pool)
    → IsPool pool
    → 0 < pool.max_cached
    → (item : Item) × (pool' : Pool) × (take_item pool ≡ some (item, pool')) × Taken pool item pool'
unfolding take_item
take_item-Taken pool v h = go pool.free refl
  where
    go :
        (free : List Item)
        → pool.free ≡ free
        → (item : Item) × (pool' : Pool) × (take_item pool ≡ some (item, pool'))
          × Taken pool item pool'
    go (item ∷ others) e = (
      item,
      record pool { free = others },
      rw (e, take_item),
      record {
        sized = omega (arith, v.sized, ap length e);
        capacity = refl;
        each_slot = λ k. omega (arith, v.each_slot k, ap (count k) e);
        idle = v.idle;
      },
    )
    go [] e = elim (split_last_cases pool.cache) [
      | inl (c, _) ↦ absurd (omega (arith, v.sized, ap length e, ap length c))
      | inr (others, item, s, c) ↦ (
        item,
        free_connection item.connection item.drizzle_con (record pool { cache = others }),
        simp (e, s, take_item),
        record {
          sized =
              omega
                (arith, v.sized, ap length e, ap length c, length-append {0} others (item ∷ []));
          capacity = refl;
          each_slot = λ k. omega (
            arith,
            v.each_slot k,
            ap (count k) e,
            ap (count k) c,
            count-append k others (item ∷ []),
          );
          idle = (All-split IsIdle others (item ∷ []) (subst (All IsIdle) c v.idle)).0;
        },
      )
    ]

-- Saving a connection never meets the queue's sentinel, and keeps the pool well formed.
pub save-IsPool :
    (s : Peering) (c : Connection)
    → IsPool s.pool
    → 0 < s.pool.max_cached
    → (s' : Peering) × (save s c ≡ some s') × IsPool s'.pool
unfolding save rest
save-IsPool s c v h =
    let (item, pool', e, t) = take_item-Taken s.pool v h in
    (
      record {
        pc = record (s.pc) { connection = none };
        dp = record (s.dp) { used = succ64 s.dp.used };
        pool = record pool' { cache = fill s.pc s.dp c item ∷ pool'.cache };
      },
      rw (e, save),
      record {
        sized = omega (arith, t.sized, t.capacity);
        each_slot = λ k. ground (arith, t.each_slot k, t.capacity);
        idle = ((rest c, refl, refl, refl), t.idle);
      },
    )

-- `free_peer` always answers, and keeps the pool well formed.
pub keepalive_free_peer-IsPool :
    (u : Upstream) (state_failed : Bool) (s : Peering)
    → IsPool s.pool
    → 0 < s.pool.max_cached
    → (s' : Peering) × (keepalive_free_peer u state_failed s ≡ some s') × IsPool s'.pool
unfolding keepalive_free_peer
keepalive_free_peer-IsPool u state_failed s v h = go s.pc.connection refl
  where
    marked : Peering
    marked = record s { dp = mark_failed state_failed s.dp }

    go :
        (c : Option Connection)
        → s.pc.connection ≡ c
        → (s' : Peering) × (keepalive_free_peer u state_failed s ≡ some s') × IsPool s'.pool
    go none e = (marked, simp (e, keepalive_free_peer), v)
    go (some c) e = elim (Bool-cases (not marked.dp.failed && reusable_answer u)) [
      | inl t ↦
          let (s', saved, v') = save-IsPool marked c v h in
          (s', simp (e, t, keepalive_free_peer) saved, v')
      | inr t ↦ (marked, simp (e, t, keepalive_free_peer), v)
    ]
