-- ===== src/Connect/Retry.antt =====
-- The loop of ngx_http_upstream_dbd_connect and ngx_http_upstream_drizzle_next of src/ngx_http_drizzle_util.c.
use drizzle_nginx_module.Prelude.{
  ℕ, zero, suc, ◌+◌, ◌%◌, ◌<◌, ◌≡◌, refl, sym, ap, subst, ◌∙◌, List, ◌∷◌, All, All-split, ◌⊎◌, inl,
  inr, true, false, Option, none, some, length, Bool-cases, arith,
}
use mathlib.Core.Option
use native.Mathlib.Nat.{mod-lt}
use drizzle_nginx_module.Nginx.{Rc, Connection}
use drizzle_nginx_module.Keepalive.{Item, wake, keepalive_free_peer, mark_failed}
use drizzle_nginx_module.Peer.{Request, State, is_full, get_peer, free_peer}
use drizzle_nginx_module.Peer.Outcome.{
  active, IsFresh, get_peer_cases, Pooled, Opened, Outcome, Kept, SameLimit, Takes,
}
use drizzle_nginx_module.Peer.Balance.{free_peer_empty}
use drizzle_nginx_module.Connect.{
  Context, Answer, answer, Failure, ft_nolive, ft_error, Next, Result, connected, answered, Attempt,
  failure_status, finalize_request, close_left, next, may_retry, reset, is_nolive, after_get_peer,
  dbd_connect,
}

-- A request that has no connection is finalized without one.
pub finalize_empty :
    (ctx : Context) (rc : Rc) (s : Request)
    → s.link.pc.connection ≡ none
    → (a : Answer) × (s' : Request) × (finalize_request ctx rc s ≡ some (a, s'))
      × (s'.link.pc.connection ≡ none)
unfolding finalize_request close_left
finalize_empty ctx rc s e =
    let (s', f, same, gone, _, _, _, _) = free_peer_empty ctx.upstream false s e in
    (answer ctx.upstream.header_sent rc, close_left s', ground (arith, f), ground (arith, gone))

abbrev Ended : Option Next → Type 0
Ended o =
    (a : Answer) × (s' : Request) × (o ≡ some (Next.ends (a, s'))) × (s'.link.pc.connection ≡ none)

abbrev Again : Request → Option Next → Type 0
Again s o =
    (s' : Request) × (o ≡ some (Next.connects s'))
    × (s'.link.pc.connection ≡ none)
    × (active s' ≡ active s)
    × (s'.peers ≡ s.peers)
    × (s'.next_peer ≡ s.next_peer)
    × (s'.remaining_peers ≡ s.remaining_peers)
    × (s'.link.pool.cache ≡ s.link.pool.cache)

next-error :
    (ctx : Context) (s : Request)
    → s.link.pc.connection ≡ none
    → Ended (next ctx ft_error s) ⊎ Again s (next ctx ft_error s)
unfolding next is_nolive reset
next-error ctx s e =
    let (s', f, same, gone, p, q, l, k) = free_peer_empty ctx.upstream true s e in
    elim (Bool-cases ctx.client_error) [
      | inl x ↦
          let (a, t, g, none_left) = finalize_empty ctx (Rc.status 499) s' gone in
          inl (a, t, ground (arith, f, x, g), none_left)
      | inr x ↦ elim (Bool-cases (may_retry ctx ft_error s')) [
        | inl y ↦ inr (reset s', ground (arith, f, x, y), gone, same, p, q, l, k)
        | inr y ↦
            let (a, t, g, none_left) =
              finalize_empty ctx (Rc.status (failure_status ft_error)) s' gone in
            inl (a, t, ground (arith, f, x, y, g), none_left)
      ]
    ]

next-nolive :
    (ctx : Context) (s : Request) → s.link.pc.connection ≡ none → Ended (next ctx ft_nolive s)
unfolding next is_nolive may_retry
next-nolive ctx s e = elim (Bool-cases ctx.client_error) [
  | inl x ↦
      let (a, t, g, none_left) = finalize_empty ctx (Rc.status 499) s e in
      (a, t, ground (arith, x, g), none_left)
  | inr x ↦
      let (a, t, g, none_left) = finalize_empty ctx (Rc.status (failure_status ft_nolive)) s e in
      (a, t, ground (arith, x, g), none_left)
]

-- Each cached item has a connection, as in a well-formed pool.
abbrev pub AllHeld : List Item → Type 0
AllHeld = All (λ item. (c : Connection) × (item.connection ≡ some c))

abbrev pub HasConnection : Request → Type 0
HasConnection s = (c : Connection) × (s.link.pc.connection ≡ some c)

-- What nginx gave for descriptor 0, in some attempt on a full pool.
abbrev pub IsTurnedAway : (ℕ → Attempt) → Request → Type 0
IsTurnedAway attempts s =
    (is_full s.link.pool ≡ true)
    × (k : ℕ) × (s.link.pc.connection ≡ (attempts k).net.get_connection 0)

-- A call of `get_peer` took a connection out of the pool, or opened and counted one.
abbrev pub Gained : (ℕ → Attempt) → Rc → Request → Type 0
Gained attempts rc s =
    (k : ℕ) × (before : Request) × (get_peer (attempts k).net before ≡ some (rc, s))
    × (Pooled before rc s ⊎ Opened before rc s)

-- How a request stands after `dbd_connect`: with a connection that it gained, or turned away by a full pool; or
-- answered, and then it has no connection.
abbrev pub Settled : (ℕ → Attempt) → Result → Type 0
Settled attempts (connected rc s) =
    (((rc ≡ Rc.again) ⊎ (rc ≡ Rc.done)) × HasConnection s × Gained attempts rc s)
    ⊎ ((rc ≡ Rc.again) × IsTurnedAway attempts s)
Settled attempts (answered r) = r.1.link.pc.connection ≡ none

abbrev Settles : (ℕ → Attempt) → Option Result → Type 0
Settles attempts o = (r : Result) × (o ≡ some r) × Settled attempts r

Takes-HasConnection :
    (s s' : Request) → AllHeld s.link.pool.cache → Takes s.link s'.link → HasConnection s'
Takes-HasConnection s s' held (before, item, after, split, _, _, conn, _) =
    let (c, e) = (All-split _ before (item ∷ after) (subst AllHeld split held)).1.0 in
    (wake c, conn ∙ ap (Option.map wake) e)

is_full-kept :
    (s s' : Request)
    → is_full s.link.pool ≡ true
    → active s' ≡ active s
    → SameLimit s.link.pool s'.link.pool
    → is_full s'.link.pool ≡ true
unfolding is_full
is_full-kept s s' full a (m, o, _) = ground (arith, full, a, m, o)

got-Settled :
    (attempts : ℕ → Attempt) (n : ℕ) (s s' : Request) (rc : Rc)
    → AllHeld s.link.pool.cache
    → (rc ≡ Rc.again) ⊎ (rc ≡ Rc.done)
    → get_peer (attempts n).net s ≡ some (rc, s')
    → Outcome (attempts n).net s rc s'
    → Kept s s'
    → Settled attempts (connected rc s')
got-Settled attempts n s s' rc held code got (inl pooled) kept =
    inl (code, Takes-HasConnection s s' held pooled.4, (n, s, got, inl pooled))
got-Settled attempts n s s' rc held code got (inr (inl busy)) kept =
    absurd (ground (arith, code, busy))
got-Settled attempts n s s' rc held code got (inr (inr (_, inl (again, full, same, conn)))) kept =
    inr (again, (is_full-kept s s' full same kept.0, n, conn))
got-Settled attempts n s s' rc held code got (inr (inr (_, inr (inl opened, _)))) kept =
    inl (code, (opened.2, opened.3), (n, s, got, inr opened))
got-Settled attempts n s s' rc held code got (inr (inr (_, inr (inr (failed, _, _), _)))) kept =
    absurd (ground (arith, code, failed))

-- The loop of connecting and retrying ends: with more fuel than peers remain, a request without a connection,
-- as for the cases of `get_peer`, comes out with a connection that a call of `get_peer` took out of the pool or opened
-- and counted; or turned away by a full pool, with what nginx gave it for descriptor 0, which may be nothing; or answered
-- and without one. Each cached item has a connection.
pub dbd_connect-settles :
    (fuel : ℕ) (attempts : ℕ → Attempt) (ctx : Context) (n : ℕ) (s : Request)
    → IsFresh s
    → AllHeld s.link.pool.cache
    → s.remaining_peers < fuel
    → (r : Result) × (dbd_connect fuel attempts ctx n s ≡ some r) × Settled attempts r
unfolding dbd_connect after_get_peer
dbd_connect-settles zero attempts ctx n s h held lt = absurd (omega arith)
dbd_connect-settles (suc fuel) attempts ctx n s h held lt =
    elim (Bool-cases (attempts n).state_pushed) [
      | inr e ↦
          let (a, t, g, none_left) = finalize_empty ctx (Rc.status 500) s h.no_connection in
          (Result.answered (a, t), ground (arith, e, g), none_left)
      | inl e ↦
          let (rc, s', got, cases, kept) = get_peer_cases (attempts n).net s h in
          go (dbd_connect-settles fuel attempts ctx (n + 1)) rc s' e got cases kept
    ]
  where
    go :
        ((t : Request)
          → IsFresh t
          → AllHeld t.link.pool.cache
          → t.remaining_peers < fuel
          → Settles attempts (dbd_connect fuel attempts ctx (n + 1) t))
        → (rc : Rc) (s' : Request) → (attempts n).state_pushed ≡ true
        → get_peer (attempts n).net s ≡ some (rc, s')
        → Outcome (attempts n).net s rc s'
        → Kept s s'
        → Settles attempts (dbd_connect (suc fuel) attempts ctx n s)
    go rec Rc.ok s' e got cases kept = absurd (ground (arith, cases))
    go rec (Rc.status k) s' e got cases kept = absurd (ground (arith, cases))
    go rec Rc.again s' e got cases kept = (
      connected Rc.again s',
      ground (arith, e, got),
      got-Settled attempts n s s' Rc.again held (inl refl) got cases kept,
    )
    go rec Rc.done s' e got cases kept = (
      connected Rc.done s',
      ground (arith, e, got),
      got-Settled attempts n s s' Rc.done held (inr refl) got cases kept,
    )
    go rec Rc.busy s' e got cases kept =
        let none_yet : s'.link.pc.connection ≡ none = ground (arith, cases) in
        let (a, t, g, none_left) = next-nolive ctx s' none_yet in
        (answered (a, t), ground (arith, e, got, g), none_left)
    go rec Rc.error s' e got cases kept =
        let none_yet : s'.link.pc.connection ≡ none = ground (arith, cases) in
        let (a, t, g, none_left) = finalize_empty ctx (Rc.status 500) s' none_yet in
        (answered (a, t), ground (arith, e, got, g), none_left)
    go rec Rc.declined s' e got cases kept =
        let none_yet : s'.link.pc.connection ≡ none = ground (arith, cases) in
        elim (next-error ctx s' none_yet) [
          | inl (a, t, g, none_left) ↦ (answered (a, t), ground (arith, e, got, g), none_left)
          | inr (t, g, none_left, same, ps, at, left, rest) ↦
              let within : (s.next_peer + 1) % length s.peers < length s.peers =
                mod-lt (s.next_peer + 1) {m = length s.peers} (omega (arith, h.in_range)) in
              let here : t.peers ≡ s.peers = ps ∙ kept.1 in
              let fresh : IsFresh t = record {
                in_range = ground (arith, cases, at, here, within);
                no_connection = none_left;
                bounded = ground (arith, cases, same, h.bounded);
              } in
              let cached : t.link.pool.cache ≡ s.link.pool.cache = ground (arith, cases, rest) in
              let (r, f, settled) =
                rec t fresh (subst AllHeld (sym cached) held) (ground (arith, cases, left, lt)) in
              (r, ground (arith, e, got, g, f), settled)
        ]

-- A request is retried only if its query was never sent (not even in part), no header went to the client, the
-- client is still there, a peer remains, and the failure was an error or a timeout; the retry is without a
-- connection and begins at `state_db_connect` with the charset flag cleared.
pub next-retries :
    (ctx : Context) (ft : Failure) (s s' : Request)
    → next ctx ft s ≡ some (Next.connects s')
    → (s.query_started ≡ false)
      × (ctx.upstream.header_sent ≡ false)
      × (ctx.client_error ≡ false)
      × (0 < s.remaining_peers)
      × (is_nolive ft ≡ false)
      × (s'.link.pc.connection ≡ none)
      × (s'.state ≡ State.db_connect)
      × (s'.link.dp.has_set_names ≡ false)
      × (s'.remaining_peers ≡ s.remaining_peers)
unfolding next may_retry reset free_peer keepalive_free_peer mark_failed
next-retries ctx ft s s' e = ground arith
