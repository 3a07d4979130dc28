-- ===== src/Begin/Early.antt =====
-- No query was sent on a connection that ngx_http_upstream_dbd_connect of src/ngx_http_drizzle_util.c leaves to a request.
use drizzle_nginx_module.Prelude.{
  ◌∷◌, ℕ, zero, suc, ◌+◌, ◌≡◌, refl, ◌∙◌, subst, ◌⊎◌, inl, inr, Bool, true, false, not, ◌&&◌,
  Option, none, some, ◌==◌, if◌then◌else◌, Option-cases, ltb, arith,
}
use drizzle_nginx_module.Nginx.{Rc, Connection, succ64}
use drizzle_nginx_module.Keepalive.{Peering, get_peer_single, get_peer_multi}
use drizzle_nginx_module.Peer.{
  Connecting, target, set_pool, set_connection, set_drizzle_con, is_full, Net, Peer, Request, State,
  clear_failed, draw, attach, register, open_connection, or_else, open_or_reject, round_robin,
  invalid, is_declined, get_peer,
}
use drizzle_nginx_module.Connect.{
  Answer, finalize_request, Attempt, Context, Failure, Next, Result, answered, connected, next,
  dbd_connect, after_get_peer, after_next, answered_with,
}
use drizzle_nginx_module.Connect.Retry.{next-retries}

-- No query was sent on the connection.
abbrev pub IsEarly : Request → Type 0
IsEarly s = (s.state ≡ State.db_connect) ⊎ (s.state ≡ State.db_idle)

abbrev EarlyNext : Request → Request → Type 0
EarlyNext s s' = (s'.state ≡ s.state) ⊎ IsEarly s'

attach-Early :
    (net : Net) (waiting : Bool) (c : Connection) (s : Request)
    → EarlyNext s (attach net waiting c s).1
unfolding attach invalid
attach-Early net waiting c s = ground arith

register-Early : (net : Net) (waiting : Bool) (s : Request) → EarlyNext s (register net waiting s).1
unfolding register invalid
register-Early net waiting s = elim (Option-cases net.con_fd) [
  | inl e ↦ ground (arith, e)
  | inr (fd, e) ↦ elim (Option-cases (net.get_connection fd)) [
    | inl f ↦ ground (arith, e, f)
    | inr (c, f) ↦ ground (
      arith,
      e,
      f,
      attach-Early net waiting c
          (set_pool (record (s.link.pool) { active_conns = succ64 s.link.pool.active_conns }) s),
    )
  ]
]

open_connection-Early :
    (net : Net) (p : Peer) (s : Request) → EarlyNext s (open_connection net p s).1
unfolding open_connection
open_connection-Early net p s = go net.dc (net.con_connect (target p s))
  where
    go :
        (o : Option ℕ) (x : Connecting)
        → let r : Rc × Request = elim o [
          | none ↦ (Rc.error, s)
          | some dc ↦ elim x [
            | Connecting.failed ↦ (
              Rc.declined,
              set_drizzle_con none
                  (set_pool (record (s.link.pool) { freed = dc ∷ s.link.pool.freed }) s),
            )
            | Connecting.connected ↦ register net false (set_drizzle_con (some dc) s)
            | Connecting.io_wait ↦ register net true (set_drizzle_con (some dc) s)
          ]
        ] in
          EarlyNext s r.1
    go none x = inl refl
    go (some dc) Connecting.failed = inl refl
    go (some dc) Connecting.connected = register-Early net false (set_drizzle_con (some dc) s)
    go (some dc) Connecting.io_wait = register-Early net true (set_drizzle_con (some dc) s)

open_or_reject-Early : (net : Net) (p : Peer) (s : Request) → EarlyNext s (open_or_reject net p s).1
unfolding open_or_reject
open_or_reject-Early net p s = go (is_full s.link.pool)
  where
    go :
        (b : Bool)
        → let r : Rc × Request =
            if b
            then (Rc.again, set_connection (net.get_connection 0) s)
            else open_connection net p s in
          EarlyNext s r.1
    go true = inl refl
    go false = open_connection-Early net p s

abbrev Early? : Request → Option (Rc × Request) → Type 0
Early? s none = Unit
Early? s (some r) = EarlyNext s r.1

or_else-Early :
    (found : Rc × Peering) (s : Request) (more : Option (Rc × Request))
    → Early? s more
    → Early? s (or_else found s more)
or_else-Early found s more v = go (is_declined found.0)
  where
    go : (b : Bool) → Early? s (if b then more else some (found.0, record s { link = found.1 }))
    go true = v
    go false = inl refl

draw-state : (s s' : Request) (p : Peer) → draw s ≡ some (p, s') → s'.state ≡ s.state
unfolding draw
draw-state s s' p e = ground (arith, e)

EarlyNext-eq : (s t u : Request) → t.state ≡ s.state → EarlyNext t u → EarlyNext s u
EarlyNext-eq s t u e (inl f) = inl (f ∙ e)
EarlyNext-eq s t u e (inr v) = inr v

Early-eq : (s t : Request) (o : Option (Rc × Request)) → t.state ≡ s.state → Early? t o → Early? s o
Early-eq s t none e v = tt
Early-eq s t (some r) e v = EarlyNext-eq s t r.1 e v

round_robin-Early : (net : Net) (s : Request) → Early? s (round_robin net s)
unfolding round_robin
round_robin-Early net s = go (s.remaining_peers == 0) (draw s) refl
  where
    opened : Peer → Request → Option (Rc × Request)
    opened peer s' =
        if ltb 0 s'.link.pool.max_cached && not s'.link.pool.single
        then or_else (get_peer_multi s'.link) s' (some (open_or_reject net peer s'))
        else some (open_or_reject net peer s')

    opened-Early :
        (b : Bool) (peer : Peer) (s' : Request)
        → Early? s' (
            if b
            then or_else (get_peer_multi s'.link) s' (some (open_or_reject net peer s'))
            else some (open_or_reject net peer s'))
    opened-Early true peer s' =
        or_else-Early _ s' (some (open_or_reject net peer s')) (open_or_reject-Early net peer s')
    opened-Early false peer s' = open_or_reject-Early net peer s'

    go :
        (b : Bool) (o : Option (Peer × Request))
        → draw s ≡ o
        → Early? s (
            if b
            then some (Rc.busy, s)
            else elim o [ none ↦ none | some (peer, s') ↦ opened peer s' ])
    go true o e = inl refl
    go false none e = tt
    go false (some (peer, s')) e =
        Early-eq s s' (opened peer s') (draw-state s s' peer e) (opened-Early _ peer s')

get_peer-Early :
    (net : Net) (s s' : Request) (rc : Rc) → get_peer net s ≡ some (rc, s') → EarlyNext s s'
unfolding get_peer
get_peer-Early net s s' rc e =
    subst (Early? s) e (go (ltb 0 s.link.pool.max_cached && s.link.pool.single))
  where
    go :
        (b : Bool)
        → Early? s (
            if b
            then or_else
                (get_peer_single (clear_failed s).link)
                (clear_failed s)
                (round_robin net (clear_failed s))
            else round_robin net (clear_failed s))
    go true = or_else-Early _ (clear_failed s) _ (round_robin-Early net (clear_failed s))
    go false = round_robin-Early net (clear_failed s)

next-Early :
    (ctx : Context) (ft : Failure) (s s' : Request)
    → next ctx ft s ≡ some (Next.connects s')
    → IsEarly s'
next-Early ctx ft s s' e = let (_, _, _, _, _, _, st, _, _) = next-retries ctx ft s s' e in inl st

abbrev pub ConnectsEarly : Option Result → Type 0
ConnectsEarly none = Unit
ConnectsEarly (some (answered r)) = Unit
ConnectsEarly (some (connected rc s)) = IsEarly s

after_next-Early :
    (o : Option Next) (again : Request → Option Result)
    → ((s : Request) → o ≡ some (Next.connects s) → ConnectsEarly (again s))
    → ConnectsEarly (after_next o again)
after_next-Early none again k = tt
after_next-Early (some (Next.connects s)) again k = k s refl
after_next-Early (some (Next.ends r)) again k = tt

answered_with-Early : (o : Option (Answer × Request)) → ConnectsEarly (answered_with o)
answered_with-Early none = tt
answered_with-Early (some r) = tt

-- Where the loop ends with a connection, no query was sent on it.
pub dbd_connect-Early :
    (fuel : ℕ) (attempts : ℕ → Attempt) (ctx : Context) (n : ℕ) (s : Request)
    → IsEarly s
    → ConnectsEarly (dbd_connect fuel attempts ctx n s)
unfolding dbd_connect after_get_peer
dbd_connect-Early zero attempts ctx n s v = tt
dbd_connect-Early (suc fuel) attempts ctx n s v =
    go (not (attempts n).state_pushed) (get_peer (attempts n).net s) refl
      (λ t. dbd_connect-Early fuel attempts ctx (n + 1) t)
  where
    again : Request → Option Result
    again = dbd_connect fuel attempts ctx (n + 1)

    early : (s' : Request) → EarlyNext s s' → IsEarly s'
    early s' (inr w) = w
    early s' (inl e) = elim v [ inl f ↦ inl (e ∙ f) | inr f ↦ inr (e ∙ f) ]

    retry :
        (ft : Failure) (s' : Request)
        → ((t : Request) → IsEarly t → ConnectsEarly (again t))
        → ConnectsEarly (after_next (next ctx ft s') again)
    retry ft s' rec =
        after_next-Early (next ctx ft s') again (λ t e. rec t (next-Early ctx ft s' t e))

    by_code :
        (rc : Rc) (s' : Request)
        → IsEarly s'
        → ((t : Request) → IsEarly t → ConnectsEarly (again t))
        → ConnectsEarly (after_get_peer ctx (some (rc, s')) again)
    by_code Rc.error s' w rec = answered_with-Early _
    by_code Rc.busy s' w rec = retry Failure.ft_nolive s' rec
    by_code Rc.declined s' w rec = retry Failure.ft_error s' rec
    by_code Rc.ok s' w rec = w
    by_code Rc.again s' w rec = w
    by_code Rc.done s' w rec = w
    by_code (Rc.status k) s' w rec = w

    go :
        (b : Bool) (o : Option (Rc × Request))
        → get_peer (attempts n).net s ≡ o
        → ((t : Request) → IsEarly t → ConnectsEarly (again t))
        → ConnectsEarly (
            if b
            then answered_with (finalize_request ctx (Rc.status 500) s)
            else after_get_peer ctx o again)
    go true o e rec = answered_with-Early _
    go false none e rec = tt
    go false (some (rc, s')) e rec =
        by_code rc s' (early s' (get_peer-Early (attempts n).net s s' rc e)) rec
