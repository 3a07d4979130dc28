-- ===== src/Connect.antt =====
-- The retries of a request: ngx_http_upstream_drizzle_finalize_request, ngx_http_upstream_drizzle_next and
-- ngx_http_upstream_dbd_connect of src/ngx_http_drizzle_util.c.
pub mod Retry
use drizzle_nginx_module.Prelude.{
  ℕ, zero, suc, ◌+◌, Bool, true, false, not, ◌&&◌, List, ◌∷◌, Option, none, some, ltb,
  if◌then◌else◌,
}
use drizzle_nginx_module.Nginx.{Rc, Connection, Upstream, is_failure}
use drizzle_nginx_module.Peer.{
  Net, Request, State, is_declined, get_peer, free_peer, set_connection, set_pool,
}

-- The upstream object and the client's connection (`r->connection->error`).
pub record Context : Type 0 where
  pub upstream : Upstream
  pub client_error : Bool

-- What the client gets: nothing yet, the last buffer (`ngx_http_send_special`), or a code.
pub data Answer : Type 0 where
  no_answer last_buffer : Answer
  code : Rc → Answer

unfoldable pub is_ok : Rc → Bool
is_ok Rc.ok = true
is_ok Rc.declined = false
is_ok Rc.error = false
is_ok Rc.again = false
is_ok Rc.busy = false
is_ok Rc.done = false
is_ok (Rc.status n) = false

unfoldable pub answer : Bool → Rc → Answer
unfolding is_ok
answer header_sent rc =
    let rc' = if header_sent && is_failure rc then Rc.ok else rc in
    if is_declined rc'
    then Answer.no_answer
    else if is_ok rc'
    then Answer.last_buffer
    else Answer.code rc'

-- `ngx_close_connection` of a connection that `free_peer` left.
unfoldable pub close_left : Request → Request
close_left s = elim s.link.pc.connection [
  | none ↦ set_connection none s
  | some c ↦
      set_connection none (set_pool (record (s.link.pool) { closed = c.fd ∷ s.link.pool.closed }) s)
]

-- ngx_http_upstream_drizzle_finalize_request
unfoldable pub finalize_request : Context → Rc → Request → Option (Answer × Request)
unfolding answer close_left
finalize_request ctx rc s = elim (free_peer ctx.upstream false s) [
  | none ↦ none
  | some s' ↦ some (answer ctx.upstream.header_sent rc, close_left s')
]

-- NGX_HTTP_UPSTREAM_FT_ERROR, _TIMEOUT and _NOLIVE
pub data Failure : Type 0 where
  ft_error ft_timeout ft_nolive : Failure

unfoldable pub is_nolive : Failure → Bool
is_nolive ft_nolive = true
is_nolive ft_error = false
is_nolive ft_timeout = false

unfoldable pub failure_status : Failure → ℕ
failure_status ft_timeout = 504
failure_status ft_error = 502
failure_status ft_nolive = 502

-- Where ngx_http_upstream_drizzle_next goes on: in `dbd_connect`, or with the request's end.
pub data Next : Type 0 where
  connects : Request → Next
  ends : Answer × Request → Next

unfoldable pub reset : Request → Request
reset s = record s {
  state = State.db_connect;
  link = record (s.link) {
    dp = record (s.link.dp) { has_set_names = false; used = 0 };
    pc = record (s.link.pc) { cached = false };
  };
}

unfoldable pub may_retry : Context → Failure → Request → Bool
unfolding is_nolive
may_retry ctx ft s =
    not s.query_started
    && (ltb 0 s.remaining_peers && (not ctx.upstream.header_sent && not (is_nolive ft)))

abbrev pub end_with : Option (Answer × Request) → Option Next
end_with none = none
end_with (some r) = some (Next.ends r)

-- ngx_http_upstream_drizzle_next. NGX_HTTP_CLIENT_CLOSED_REQUEST is 499.
unfoldable pub next : Context → Failure → Request → Option Next
unfolding is_nolive failure_status may_retry reset finalize_request
next ctx ft s = elim (if is_nolive ft then some s else free_peer ctx.upstream true s) [
  | none ↦ none
  | some s' ↦
      if ctx.client_error
      then end_with (finalize_request ctx (Rc.status 499) s')
      else if may_retry ctx ft s'
      then some (Next.connects (reset s'))
      else end_with (finalize_request ctx (Rc.status (failure_status ft)) s')
]

-- The end of one call of ngx_http_upstream_dbd_connect, with those that it makes again.
pub data Result : Type 0 where
  connected : Rc → Request → Result
  answered : Answer × Request → Result

abbrev pub answered_with : Option (Answer × Request) → Option Result
answered_with none = none
answered_with (some r) = some (Result.answered r)

-- A retry calls the handler of the next attempt.
abbrev pub after_next : Option Next → (Request → Option Result) → Option Result
after_next none again = none
after_next (some (Next.connects s)) again = again s
after_next (some (Next.ends r)) again = some (Result.answered r)

-- What follows the return of `get_peer`.
unfoldable pub after_get_peer :
    Context → Option (Rc × Request) → (Request → Option Result) → Option Result
unfolding next finalize_request
after_get_peer ctx none again = none
after_get_peer ctx (some (Rc.error, s)) again =
    answered_with (finalize_request ctx (Rc.status 500) s)
after_get_peer ctx (some (Rc.busy, s)) again = after_next (next ctx ft_nolive s) again
after_get_peer ctx (some (Rc.declined, s)) again = after_next (next ctx ft_error s) again
after_get_peer ctx (some (Rc.ok, s)) again = some (Result.connected Rc.ok s)
after_get_peer ctx (some (Rc.again, s)) again = some (Result.connected Rc.again s)
after_get_peer ctx (some (Rc.done, s)) again = some (Result.connected Rc.done s)
after_get_peer ctx (some (Rc.status n, s)) again = some (Result.connected (Rc.status n) s)

-- What the attempts meet: whether nginx has room for the attempt's state, and what the network answers.
pub record Attempt : Type 0 where
  pub state_pushed : Bool
  pub net : Net

-- ngx_http_upstream_dbd_connect, up to the connection of the peer, for the attempts from number `n`. It and `next`
-- call each other; `none` is the end of the fuel, or a fault of `get_peer` or `free_peer`.
unfoldable pub dbd_connect : ℕ → (ℕ → Attempt) → Context → ℕ → Request → Option Result
unfolding after_get_peer finalize_request
dbd_connect zero attempts ctx n s = none
dbd_connect (suc fuel) attempts ctx n s =
    let rec = dbd_connect fuel attempts ctx (n + 1) in
    if not (attempts n).state_pushed
    then answered_with (finalize_request ctx (Rc.status 500) s)
    else after_get_peer ctx (get_peer (attempts n).net s) rec
