-- ===== src/Handler.antt =====
-- The handlers of the events of the connection to the database (src/ngx_http_drizzle_handler.c) and $drizzle_thread_id
-- (src/ngx_http_drizzle_util.c).
pub mod ThreadId
pub mod Same
pub mod Client
use drizzle_nginx_module.Prelude.{
  ℕ, ◌^◌, Bool, true, false, not, List, Option, none, some, take, ◌==◌, if◌then◌else◌,
}
use drizzle_nginx_module.Nginx.{Rc}
use drizzle_nginx_module.Connect.{Failure, is_ok}
use drizzle_nginx_module.Output.Buffers.{next_call}
use drizzle_nginx_module.Status.{Sprintf, print_number}
use drizzle_nginx_module.Status.Digits.{get_num_size}
use drizzle_nginx_module.Session.{Session, Env, set_out}
use drizzle_nginx_module.Processor.{upstream_next, process_events}

-- What the system tells of the database's connection: the event flag NGX_USE_KQUEUE_EVENT and `c->write->pending_eof`; and
-- `getsockopt`, which fails with `errno` or gives the pending `error`.
pub record Socket : Type 0 where
  pub kqueue : Bool
  pub pending_eof : Bool
  pub getsockopt_fails : Bool
  pub errno : ℕ
  pub error : ℕ

-- ngx_http_upstream_drizzle_test_connect
unfoldable pub test_connect : Socket → Rc
test_connect sock =
    if sock.kqueue
    then if sock.pending_eof then Rc.error else Rc.ok
    else if (if sock.getsockopt_fails then sock.errno else sock.error) == 0
    then Rc.ok
    else Rc.error

-- What the handlers meet: `c->write->timedout` or `c->read->timedout`; the state of the connection; the thread id of
-- `dp->drizzle_con` (`none`: NULL); and whether nginx gives the indexed variable.
pub record Wakeup : Type 0 where
  pub timed_out : Bool
  pub socket : Socket
  pub thread : Option ℕ
  pub has_variable : Bool

module _ (sp : Sprintf) (env : Env) where
  -- The text that is printed into the memory of the variable, of which `len` bytes are its value.
  -- Without the memory the source leaves the variable valid, on NULL; here its value stays what it was.
  unfoldable pub set_thread_id : ℕ → Session → Rc × Session
  set_thread_id tid s =
      let asked = set_out (next_call s.out) s in
      if env.client.alloc s.out.calls
      then (
        Rc.ok,
        record asked { thread_id = some (take (get_num_size tid) (print_number sp tid)) },
      )
      else (Rc.error, asked)

  -- ngx_http_drizzle_set_thread_id_variable. A `uint32_t` is read from the connection; 0 is no thread.
  unfoldable pub set_thread_id_variable : Wakeup → Session → Rc × Session
  set_thread_id_variable wake s = elim wake.thread [
    | none ↦ (Rc.error, s)
    | some tid ↦
        if tid == 0
        then (Rc.ok, s)
        else if not wake.has_variable
        then (Rc.error, s)
        else set_thread_id tid s
  ]

  -- ngx_http_drizzle_wev_handler and ngx_http_drizzle_rev_handler, which differ in the event whose `timedout` they read.
  unfoldable pub handle_event : (Session → Session) → Wakeup → Session → Session
  unfolding test_connect
  handle_event reconnect wake s =
      let s' = record s { request_sent = true } in
      if wake.timed_out
      then upstream_next env reconnect Failure.ft_timeout (set_thread_id_variable wake s').1
      else if not (is_ok (test_connect wake.socket))
      then upstream_next env reconnect Failure.ft_error s'
      else (process_events env reconnect s').1

  -- ngx_http_drizzle_output_filter, which nginx calls in place of its chain writer.
  unfoldable pub output_filter : (Session → Session) → Session → Rc × Session
  output_filter reconnect s =
      (Rc.again, (process_events env reconnect (record s { request_sent = true })).1)
