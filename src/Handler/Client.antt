-- ===== src/Handler/Client.antt =====
-- The client's connection while the request waits for the database:
-- ngx_http_upstream_dbd_check_broken_connection and ngx_http_upstream_dbd_cleanup of src/ngx_http_drizzle_util.c.
use drizzle_nginx_module.Prelude.{
  ◌≡◌, refl, ◌⊎◌, inl, inr, Bool, true, false, not, ◌&&◌, List, [], ◌∷◌, Option, if◌then◌else◌,
  arith,
}
use drizzle_nginx_module.Nginx.{Rc}
use drizzle_nginx_module.Connect.{Answer}
use drizzle_nginx_module.LocConf.{is_null}
use drizzle_nginx_module.Session.{Session, connection_of, finalize}
use drizzle_nginx_module.Begin.{Watch}

-- What `recv(c->fd, buf, 1, MSG_PEEK)` gives: a byte, 0 for the end of the stream, -1 with NGX_EAGAIN, or -1 with another error.
pub data Peeked : Type 0 where
  one_byte end_of_stream would_block recv_failed : Peeked

-- The event of the client's connection (`ev->write`, `ev->active`, `ev->pending_eof`), the event flags NGX_USE_LEVEL_EVENT and
-- NGX_USE_KQUEUE_EVENT, and whether `ngx_del_event` succeeds. `ev->eof` and `ev->error`, which the module only sets, have no field.
pub record ClientEvent : Type 0 where
  pub write : Bool
  pub active : Bool
  pub pending_eof : Bool
  pub level : Bool
  pub kqueue : Bool
  pub deleted : Bool
  pub peeked : Peeked

-- `n >= 0 || err == NGX_EAGAIN`
unfoldable pub is_quiet_peek : Peeked → Bool
is_quiet_peek one_byte = true
is_quiet_peek end_of_stream = true
is_quiet_peek would_block = true
is_quiet_peek recv_failed = false

-- `n > 0`, or -1 with NGX_EAGAIN
unfoldable pub is_alive : Peeked → Bool
is_alive one_byte = true
is_alive would_block = true
is_alive end_of_stream = false
is_alive recv_failed = false

-- From `c->error = 1` to the end. NGX_HTTP_CLIENT_CLOSED_REQUEST is 499.
unfoldable pub client_closed : Bool → Session → Session
client_closed cacheable s =
    let s' = record s { client_error = true } in
    if not cacheable && not (is_null (connection_of s))
    then finalize (Rc.status 499) s'
    else if is_null (connection_of s)
    then finalize (Rc.status 499) s'
    else s'

unfoldable pub undeletable : ClientEvent → Bool
undeletable ev = ev.level && (ev.active && not ev.deleted)

-- ngx_http_upstream_dbd_check_broken_connection; `cacheable` is `u->cacheable`.
unfoldable pub check_broken_connection : Bool → ClientEvent → Session → Session
unfolding client_closed is_quiet_peek is_alive undeletable
check_broken_connection cacheable ev s =
    if s.client_error
    then if undeletable ev
      then finalize (Rc.status 500) s
      else if not cacheable
      then finalize (Rc.status 499) s
      else s
    else if ev.kqueue
    then if not ev.pending_eof then s else client_closed cacheable s
    else if ev.write && is_quiet_peek ev.peeked
    then s
    else if undeletable ev
    then finalize (Rc.status 500) s
    else if is_alive ev.peeked
    then s
    else client_closed cacheable s

-- ngx_http_upstream_dbd_cleanup, where it is registered; the end of a request clears the registration (`*u->cleanup = NULL`).
unfoldable pub dbd_cleanup : Watch → Session → Session
dbd_cleanup w s = elim s.ended [ [] ↦ if w.cleanup then finalize Rc.done s else s | e ∷ es ↦ s ]

-- The client has left, as far as the event tells: its connection has failed before; or kqueue saw its end; or peeking
-- fails; or an event for reading meets the end of the stream.
abbrev pub HasLeft : ClientEvent → Session → Type 0
HasLeft ev s =
    (s.client_error ≡ true)
    ⊎ (((ev.kqueue ≡ true) × (ev.pending_eof ≡ true))
        ⊎ ((ev.kqueue ≡ false)
            × ((ev.peeked ≡ Peeked.recv_failed)
                ⊎ ((ev.write ≡ false) × (ev.peeked ≡ Peeked.end_of_stream)))))

-- What is done with the request: its client is there and it stays; its client left and it is finalized with 499; or the event
-- cannot be deleted and it is finalized with 500.
abbrev pub Watched : ClientEvent → Session → Session → Type 0
Watched ev s t =
    ((¬ HasLeft ev s) × (t ≡ s))
    ⊎ ((HasLeft ev s × (t ≡ finalize (Rc.status 499) (record s { client_error = true })))
        ⊎ ((undeletable ev ≡ true) × (t ≡ finalize (Rc.status 500) s)))

-- After the cleanup a request is without a connection, if it was not finalized before; it is finalized no second time.
pub dbd_cleanup-once :
    (w : Watch) (s : Session)
    → w.cleanup ≡ true
    → ((s.ended ≡ []) × (dbd_cleanup w s ≡ finalize Rc.done s))
      ⊎ ((¬ (s.ended ≡ [])) × (dbd_cleanup w s ≡ s))
unfolding dbd_cleanup
dbd_cleanup-once w s h = go s.ended refl
  where
    go :
        (xs : List (Option Answer))
        → s.ended ≡ xs
        → let t : Session = elim xs [
          | [] ↦ if w.cleanup then finalize Rc.done s else s
          | e ∷ es ↦ s
        ] in
          ((s.ended ≡ []) × (t ≡ finalize Rc.done s)) ⊎ ((¬ (s.ended ≡ [])) × (t ≡ s))
    go [] e = inl (e, ground (arith, h))
    go (x ∷ xs) e = inr (λ f. ground (arith, e, f), refl)
