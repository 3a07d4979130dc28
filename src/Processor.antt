-- ===== src/Processor.antt =====
-- src/ngx_http_drizzle_processor.c: the states of a request from the connection to the database to the last row.
pub mod Flow
pub mod Events
pub mod Query
pub mod Once
pub mod Resend
mod Tests
use drizzle_nginx_module.Prelude.{
  ℕ, Bool, true, false, not, ◌&&◌, ◌||◌, List, [], ◌∷◌, ◌++◌, Option, none, some, ◌==◌,
  if◌then◌else◌,
}
use drizzle_nginx_module.Nginx.{Rc, is_failure, is_special, is_error}
use drizzle_nginx_module.Peer.{Request, State}
use drizzle_nginx_module.Connect.{Failure, Next, next, is_ok}
use drizzle_nginx_module.Output.Buffers.{Client, Output, output_bufs}
use drizzle_nginx_module.Output.Atoms.{
  DbResult, Column, write_header, output_col, output_row, output_field,
}
use drizzle_nginx_module.Reception.{see, leave_queries, unless_failed, recv_cols, recv_rows}
use drizzle_nginx_module.Session.{
  ConReply, QueryReply, ColumnReply, RowReply, FieldReply, Db, Seen, Session, Env, Step, lift,
  set_out, set_req, set_state, on_read, on_write, timer, set_has_names, names_pending, context,
  ended_with, finalize, Ending, done, output_ready, when_ready,
}

-- The text that ngx_http_upstream_drizzle_send_query sends.
unfoldable pub query_text : Session → List ℕ
query_text s = if names_pending s then s.req.set_names_query else s.query

-- `dp->query_started = 1`
abbrev pub start_query : Session → Session
start_query s = record s { req = record (s.req) { query_started = true } }

abbrev pub is_send_query : State → Bool
is_send_query State.db_send_query = true
is_send_query _ = false

-- libdrizzle returned DRIZZLE_RETURN_IO_WAIT for a query.
unfoldable pub wait_query : Session → Session
wait_query s =
    if is_send_query s.req.state then s else on_write (timer true) (set_state State.db_send_query s)

unfoldable pub is_done : Rc → Bool
is_done Rc.done = true
is_done Rc.ok = false
is_done Rc.error = false
is_done Rc.again = false
is_done Rc.busy = false
is_done Rc.declined = false
is_done (Rc.status n) = false

-- `rc > NGX_OK`
unfoldable pub is_positive : Rc → Bool
is_positive (Rc.status n) = true
is_positive Rc.ok = false
is_positive Rc.error = false
is_positive Rc.again = false
is_positive Rc.busy = false
is_positive Rc.done = false
is_positive Rc.declined = false

-- `MYSQL_ER_NO_SUCH_TABLE`
abbrev pub no_such_table : ℕ
no_such_table = 1146

module _ (env : Env) where
  -- ngx_http_drizzle_output_result_header. With the character set pending the result is that of "set names".
  unfoldable pub output_result_header : DbResult → Step
  output_result_header res s =
      if names_pending s
      then (if res.error_code == 0 then Rc.done else Rc.error, s)
      else let written =
          lift (write_header env.client env.conf res) (see (Seen.seen_header res) s) in
        if not (res.column_count == 0)
        then written
        else if is_ok written.0
        then (Rc.done, done env Ending.complete written.1)
        else (Rc.error, written.1)

  -- What follows the query that libdrizzle took; `resend` is the call of send_query.
  unfoldable pub after_header : DbResult → Step → Step
  after_header res resend s =
      let header = output_result_header res s in
      unless_failed header λ s'.
        if is_done header.0
        then if names_pending s
          then resend (set_state State.db_idle (set_has_names s'))
          else (Rc.done, s')
        else recv_cols env resend s'

  unfoldable pub after_query : QueryReply → Step → Step
  after_query (QueryReply.query_ok res) resend s = after_header res resend s
  after_query (QueryReply.query_code n) resend s =
      if n == no_such_table
      then if names_pending s
        then resend (set_has_names s)
        else (Rc.done, done env (Ending.fails 410) s)
      else (Rc.status 500, s)
  after_query QueryReply.query_failed resend s = (Rc.status 500, s)

  -- ngx_http_upstream_drizzle_send_query. The second query of a request is sent by the same function.
  unfoldable pub send_query : List QueryReply → Step
  send_query [] s = (Rc.again, wait_query (start_query s))
  send_query (reply ∷ rest) s =
      let s' = start_query s in
      let taken = record s' { asked = query_text s' ∷ s'.asked } in
      after_query reply (send_query rest) (on_write (timer false) (leave_queries rest taken))

  -- ngx_http_upstream_drizzle_connect
  unfoldable pub connect : List ConReply → Step
  connect [] s = (Rc.again, s)
  connect (reply ∷ rest) s =
      let s' = on_write (timer false) (record s { db = record (s.db) { connects = rest } }) in
      elim reply [
        | ConReply.con_failed ↦ (Rc.error, s')
        | ConReply.con_ok ↦ send_query s'.db.queries s'
      ]

  -- `switch (dp->state)`
  unfoldable pub dispatch : State → Step
  dispatch State.db_connect s = connect s.db.connects s
  dispatch State.db_idle s = send_query s.db.queries s
  dispatch State.db_send_query s = send_query s.db.queries s
  dispatch State.db_recv_cols s = recv_cols env (λ s. send_query s.db.queries s) s
  dispatch State.db_recv_rows s = recv_rows env (λ s. send_query s.db.queries s) s

  -- ngx_http_upstream_drizzle_next, on the session; `reconnect` is ngx_http_upstream_dbd_connect.
  abbrev pub went_on : (Session → Session) → Option Next → Session → Session
  went_on reconnect none s = ended_with none s
  went_on reconnect (some (Next.connects req)) s = reconnect (set_req req s)
  went_on reconnect (some (Next.ends r)) s = ended_with (some r) s

  unfoldable pub upstream_next : (Session → Session) → Failure → Session → Session
  upstream_next reconnect ft s = went_on reconnect (next (context s) ft s.req) s

  -- The end of ngx_http_drizzle_process_events.
  unfoldable pub settle : (Session → Session) → Rc × Session → Rc × Session
  settle reconnect (Rc.error, s) = (Rc.error, upstream_next reconnect Failure.ft_error s)
  settle reconnect (Rc.again, s) =
      if s.out.output_paused
      then (Rc.again, s)
      else let flushed = lift (output_bufs env.client env.conf.enable_module_header) s in
        if is_error flushed.0 || is_positive flushed.0
        then (Rc.error, finalize (Rc.status 500) flushed.1)
        else flushed
  settle reconnect (Rc.status n, s) =
      if is_special (Rc.status n) then (Rc.error, finalize (Rc.status n) s) else (Rc.status n, s)
  settle reconnect (Rc.ok, s) = (Rc.ok, s)
  settle reconnect (Rc.busy, s) = (Rc.busy, s)
  settle reconnect (Rc.done, s) = (Rc.done, s)
  settle reconnect (Rc.declined, s) = (Rc.declined, s)

  -- ngx_http_drizzle_process_events
  unfoldable pub process_events : (Session → Session) → Step
  process_events reconnect s =
      if s.out.output_paused then (Rc.again, s) else settle reconnect (dispatch s.req.state s)
