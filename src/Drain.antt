-- ===== src/Drain.antt =====
-- ngx_http_drizzle_drain_output of src/ngx_http_drizzle_output.c, nginx's write handler of a client that fell behind.
pub mod Flow
pub mod Run
use drizzle_nginx_module.Prelude.{
  ℕ, Bool, true, false, not, ◌&&◌, List, [], ◌∷◌, Option, none, some, if◌then◌else◌,
}
use drizzle_nginx_module.Nginx.{Rc, Event, Connection}
use drizzle_nginx_module.Connect.{is_ok}
use drizzle_nginx_module.Output.Buffers.{Output, output_bufs, next_call}
use drizzle_nginx_module.Session.{
  Session, Env, ClientWrite, set_out, on_read, timer, finalize, is_open, lift,
}

-- How the handler leaves the request: finalized, still waiting for the client, or with the reading from the database
-- resumed, so that its last call, ngx_http_drizzle_process_events, is due.
pub data Drain : Type 0 where
  finalized : Session → Drain
  waits : Session → Drain
  resumed : Session → Drain

abbrev pub set_client_write : ClientWrite → Session → Session
set_client_write w s = record s { client_write = w }

module _ (env : Env) where
  -- `ngx_handle_write_event(wev, clcf->send_lowat)`: its failure ends the request.
  unfoldable pub await_client : Session → Drain
  await_client s =
      let s' = set_out (next_call s.out) s in
      if env.handle_write s.out.calls then waits s' else finalized (finalize (Rc.status 500) s')

  -- From `if (wev->timer_set)` on: what ngx_http_drizzle_output_ready stopped is started again.
  unfoldable pub resume : Session → Drain
  resume s =
      let opened = record s {
        client_write = record (s.client_write) { timer_set = false };
        out = record (next_call s.out) { output_paused = false };
        draining = false;
      } in
      let s' = on_read (λ e. record e { ready = false }) opened in
      if env.handle_read s.out.calls
      then resumed (on_read (timer true) s')
      else finalized (finalize (Rc.status 500) s')

  unfoldable pub after_drain : Rc × Session → Drain
  after_drain (rc, s) =
      if not (is_ok rc)
      then finalized (finalize Rc.error s)
      else if is_open env s.out
      then resume s
      else await_client (
          set_client_write
            (if s.client_write.delayed
              then s.client_write
              else record (s.client_write) { timer_set = true })
            s)

  -- The handler, up to its last call.
  unfoldable pub drain : Session → Drain
  drain s =
      let w = s.client_write in
      if w.timedout && not w.delayed
      then finalized (finalize (Rc.status 408) (record s { client_timedout = true }))
      else let s' =
          if w.timedout
          then set_client_write (record w { timedout = false; delayed = false }) s
          else s in
        if s'.client_write.delayed
        then await_client s'
        else after_drain (lift (output_bufs env.client env.conf.enable_module_header) s')

  -- ngx_http_drizzle_drain_output; `process` is ngx_http_drizzle_process_events.
  unfoldable pub drain_output : (Session → Session) → Session → Session
  drain_output process s = elim (drain s) [
    | finalized s' ↦ s'
    | waits s' ↦ s'
    | resumed s' ↦ process s'
  ]
