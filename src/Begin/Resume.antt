-- ===== src/Begin/Resume.antt =====
-- The steps of a request whose first call of ngx_http_upstream_drizzle_get_peer gives NGX_AGAIN (src/ngx_http_drizzle_upstream.c
-- and src/ngx_http_drizzle_util.c).
use drizzle_nginx_module.Prelude.{
  ℕ, suc, ◌<◌, ◌≡◌, ap, ◌∙◌, true, false, [], ◌∷◌, none, some, arith,
}
use drizzle_nginx_module.Nginx.{Rc, Connection}
use drizzle_nginx_module.Peer.{Net, Request, is_full, get_peer}
use drizzle_nginx_module.Peer.Outcome.{active, IsFresh, get_peer_cases}
use drizzle_nginx_module.Peer.Balance.{free_peer_empty}
use drizzle_nginx_module.Connect.{
  Attempt, Context, answer, connected, dbd_connect, after_get_peer, finalize_request, close_left,
}
use drizzle_nginx_module.Session.{
  Session, Env, set_connection_of, connection_of, on_write, timer, context, ended_with, finalize,
}
use drizzle_nginx_module.Begin.{Host, hand_over, wait_or_process, is_again, resume}

-- Nothing cached, a peer left, and a pool that is full and rejects.
pub get_peer-rejects :
    (net : Net) (s : Request)
    → IsFresh s
    → s.link.pool.cache ≡ []
    → is_full s.link.pool ≡ true
    → 0 < s.remaining_peers
    → (s' : Request) × (get_peer net s ≡ some (Rc.again, s'))
      × (s'.link.pc.connection ≡ net.get_connection 0)
      × (active s' ≡ active s)
get_peer-rejects net s h empty full pos =
    let (rc, s', e, cases, kept) = get_peer_cases net s h in
    let again : rc ≡ Rc.again = ground (arith, cases, empty, full, pos) in
    (
      s',
      e ∙ ap (λ r. some (r, s')) again,
      ground (arith, cases, empty, full, pos),
      ground (arith, cases, empty, full, pos),
    )

pub dbd_connect-again :
    (fuel : ℕ) (attempts : ℕ → Attempt) (ctx : Context) (s s' : Request)
    → (attempts 0).state_pushed ≡ true
    → get_peer (attempts 0).net s ≡ some (Rc.again, s')
    → dbd_connect (suc fuel) attempts ctx 0 s ≡ some (connected Rc.again s')
unfolding dbd_connect after_get_peer
dbd_connect-again fuel attempts ctx s s' pushed e = ground (arith, pushed, e)

-- The connection waits to be written to, until the timer.
abbrev pub waiting_on : Connection → Session → Session
waiting_on c s =
    on_write (timer true)
      (record (set_connection_of (some (hand_over c)) s) { request_sent = false })

pub resume-again :
    (env : Env) (host : Host) (reconnect : Session → Session) (s : Session) (c : Connection)
    → connection_of s ≡ some c
    → s.request_sent ≡ false
    → host.chain_memory ≡ true
    → resume env host reconnect Rc.again s ≡ waiting_on c s
unfolding resume wait_or_process is_again
resume-again env host reconnect s c e first memory = ground (arith, e, first, memory)

pub resume-none :
    (env : Env) (host : Host) (reconnect : Session → Session) (rc : Rc) (s : Session)
    → connection_of s ≡ none
    → resume env host reconnect rc s ≡ ended_with none s
unfolding resume
resume-none env host reconnect rc s e = ground (arith, e)

-- A session without a connection is answered, and the pool keeps its count.
pub finalize-answers :
    (rc : Rc) (s : Session)
    → connection_of s ≡ none
    → ((finalize rc s).ended ≡ some (answer s.out.header_sent rc) ∷ s.ended)
      × (connection_of (finalize rc s) ≡ none)
      × (active (finalize rc s).req ≡ active s.req)
unfolding finalize finalize_request close_left
finalize-answers rc s e =
    let (t, f, same, gone, _, _, _, _) = free_peer_empty (context s).upstream false s.req e in
    (ground (arith, f, gone), ground (arith, f, gone), ground (arith, f, gone, same))
