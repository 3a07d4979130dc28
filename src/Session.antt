-- ===== src/Session.antt =====
-- A request while it talks to the database: the fields of `dp`, `u` and `r` that src/ngx_http_drizzle_processor.c works on,
-- what libdrizzle answers, the end of a request (ngx_http_upstream_drizzle_done), and the gate that stops the reading
-- while the client is behind (ngx_http_drizzle_output_ready of src/ngx_http_drizzle_output.c).
pub mod Flow
pub mod Done
pub mod Gate
use drizzle_nginx_module.Prelude.{
  ℕ, ◌+◌, max, Bool, true, false, not, ◌&&◌, List, [], ◌∷◌, ◌++◌, Option, none, some, ltb, ◌==◌,
  if◌then◌else◌,
}
use mathlib.Core.Option
use drizzle_nginx_module.Nginx.{Rc, Event, Connection, Upstream, is_failure}
use drizzle_nginx_module.Peer.{Request, State}
use drizzle_nginx_module.Connect.{Answer, Context, finalize_request, is_ok}
use drizzle_nginx_module.Output.Buffers.{
  Conf, Client, Output, Action, pending_output, queue_buf, output_bufs, or_error, ◌>>◌, next_call,
}
use drizzle_nginx_module.Output.Atoms.{DbResult, Column}

-- What libdrizzle's calls return, other than DRIZZLE_RETURN_IO_WAIT: `drizzle_con_connect`, `drizzle_query`,
-- `drizzle_column_read` (NULL after the last column), `drizzle_row_read` (0 after the last row) and
-- `drizzle_field_read`, with its offset, length, total and bytes.
pub data ConReply : Type 0 where
  con_ok con_failed : ConReply

pub data QueryReply : Type 0 where
  query_ok : DbResult → QueryReply
  query_code : ℕ → QueryReply
  query_failed : QueryReply

pub data ColumnReply : Type 0 where
  one_column : Column → ColumnReply
  last_column column_failed : ColumnReply

pub data RowReply : Type 0 where
  one_row : ℕ → RowReply
  row_failed : RowReply

pub data FieldReply : Type 0 where
  one_piece : ℕ → ℕ → ℕ → Option (List ℕ) → FieldReply
  row_end field_failed : FieldReply

-- What each call will return until it would block: where the list is empty it returns DRIZZLE_RETURN_IO_WAIT.
pub record Db : Type 0 where
  pub connects : List ConReply
  pub queries : List QueryReply
  pub columns : List ColumnReply
  pub rows : List RowReply
  pub fields : List FieldReply

-- What the database delivered of the request's own result.
pub data Seen : Type 0 where
  seen_header : DbResult → Seen
  seen_column : Column → Seen
  seen_row : ℕ → Seen
  seen_piece : ℕ → ℕ → ℕ → Option (List ℕ) → Seen

-- `r->connection->write`
pub record ClientWrite : Type 0 where
  pub delayed : Bool
  pub timedout : Bool
  pub timer_set : Bool

-- `status_n` and `length` are `u->headers_in.status_n` and `u->length`; `draining` is whether `r->write_event_handler` is
-- `ngx_http_drizzle_drain_output`; `client_error` and `client_timedout` are fields of `r->connection`; `thread_id` is the value of
-- $drizzle_thread_id. Three fields are histories: the queries that libdrizzle took, what the database delivered, oldest
-- first, and how the request was finalized, newest first (`none`: a fault, of the pool on two empty queues or of
-- ngx_http_upstream_dbd_connect on a NULL connection).
pub record Session : Type 0 where
  pub req : Request
  pub out : Output
  pub db : Db
  pub query : List ℕ
  pub row : ℕ
  pub read_timeout : ℕ
  pub status_n : ℕ
  pub length : ℕ
  pub client_error : Bool
  pub client_timedout : Bool
  pub client_write : ClientWrite
  pub draining : Bool
  pub request_sent : Bool
  pub thread_id : Option (List ℕ)
  pub asked : List (List ℕ)
  pub seen : List Seen
  pub ended : List (Option Answer)

-- nginx's answers, by the number of the call: those of `Client`, and whether `ngx_del_event` and
-- `ngx_handle_write_event` or `ngx_handle_read_event` succeed; `time_left` is what a timer has left, in milliseconds.
pub record Env : Type 0 where
  pub client : Client
  pub conf : Conf
  pub del_read : ℕ → Bool
  pub del_write : ℕ → Bool
  pub handle_write : ℕ → Bool
  pub handle_read : ℕ → Bool
  pub time_left : ℕ → ℕ

abbrev pub set_out : Output → Session → Session
set_out o s = record s { out = o }

abbrev pub set_req : Request → Session → Session
set_req req s = record s { req = req }

-- `dp->state`
abbrev pub set_state : State → Session → Session
set_state st s = record s { req = record (s.req) { state = st } }

-- The connection to the database, which the source reads through `u->peer.connection`.
abbrev pub connection_of : Session → Option Connection
connection_of s = s.req.link.pc.connection

abbrev pub set_connection_of : Option Connection → Session → Session
set_connection_of c s = record s {
  req = record (s.req) {
    link = record (s.req.link) { pc = record (s.req.link.pc) { connection = c } };
  };
}

abbrev pub on_read : (Event → Event) → Session → Session
on_read f s =
    set_connection_of
      (Option.map (λ (c : Connection). record c { read = f c.read }) (connection_of s)) s

abbrev pub on_write : (Event → Event) → Session → Session
on_write f s =
    set_connection_of
      (Option.map (λ (c : Connection). record c { write = f c.write }) (connection_of s)) s

abbrev pub timer : Bool → Event → Event
timer b e = record e { timer_set = b }

abbrev pub inactive : Event → Event
inactive e = record e { active = false }

abbrev pub test_connection : (Connection → Bool) → Option Connection → Bool
test_connection p none = false
test_connection p (some c) = p c

abbrev pub set_has_names : Session → Session
set_has_names s = record s {
  req = record (s.req) {
    link = record (s.req.link) { dp = record (s.req.link.dp) { has_set_names = true } };
  };
}

-- `dp->enable_charset && ! dp->has_set_names`
abbrev pub names_pending : Session → Bool
names_pending s = s.req.enable_charset && not s.req.link.dp.has_set_names

abbrev pub context : Session → Context
context s = record {
  upstream = record { status_n = s.status_n; header_sent = s.out.header_sent; length = s.length };
  client_error = s.client_error;
}

-- ngx_http_upstream_drizzle_finalize_request, on the session.
abbrev pub ended_with : Option (Answer × Request) → Session → Session
ended_with none s = record s { ended = none ∷ s.ended }
ended_with (some r) s = record s { req = r.1; ended = some r.0 ∷ s.ended }

unfoldable pub finalize : Rc → Session → Session
finalize rc s = ended_with (finalize_request (context s) rc s.req) s

-- With what `ngx_http_upstream_drizzle_done` is called: NGX_DONE, or an HTTP status.
pub data Ending : Type 0 where
  complete : Ending
  fails : ℕ → Ending

abbrev pub ending_rc : Ending → Rc
ending_rc complete = Rc.ok
ending_rc (fails n) = Rc.status n

abbrev pub mark_ending : Ending → Session → Session
mark_ending complete s = record s { out = record (s.out) { header_sent = true }; status_n = 200 }
mark_ending (fails n) s = record s { out = record (s.out) { status = n }; status_n = n }

-- A step of the session.
abbrev pub Step : Type 0
Step = Session → Rc × Session

-- An output step on the session.
abbrev pub lift : Action → Step
lift f s = ((f s.out).0, set_out (f s.out).1 s)

module _ (env : Env) where
  -- ngx_http_upstream_drizzle_done
  unfoldable pub done : Ending → Session → Session
  unfolding finalize
  done how s =
      let flushed = set_out (output_bufs env.client env.conf.enable_module_header s.out).1 s in
      finalize (ending_rc how)
        (set_state State.db_idle (mark_ending how (record flushed { length = 0 })))

  -- `!dp->output_blocked && ngx_http_drizzle_pending_output(dp) < dp->loc_conf->max_buffered`
  unfoldable pub is_open : Output → Bool
  is_open o = not o.output_blocked && ltb (pending_output o) env.conf.max_buffered

  -- `queue_buf` and `output_bufs`, any failure of which is NGX_ERROR.
  unfoldable pub flush : Action
  flush =
      or_error (queue_buf env.client)
      >> or_error (output_bufs env.client env.conf.enable_module_header)

  -- What is left to do where the gate stays shut, after the events of the database's connection are removed.
  unfoldable pub suspend : Session → Session
  suspend s =
      let quiet = on_write (timer false) (on_read (timer false) s) in
      record quiet {
        out = record (next_call s.out) { output_paused = true };
        read_timeout =
            if test_connection (λ (c : Connection). c.read.timer_set) (connection_of s)
            then max 1 (env.time_left s.out.calls)
            else s.read_timeout;
        draining = true;
        client_write =
            if s.client_write.delayed
            then s.client_write
            else record (s.client_write) { timer_set = true };
      }

  -- From `c = dp->upstream->peer.connection` to the end of ngx_http_drizzle_output_ready.
  unfoldable pub pause : Step
  unfolding suspend
  pause s =
      let n = s.out.calls in
      let reads = test_connection (λ (c : Connection). c.read.active) (connection_of s) in
      let writes = test_connection (λ (c : Connection). c.write.active) (connection_of s) in
      if reads && not (env.del_read n)
      then (Rc.error, s)
      else if writes && not (env.del_write n)
      then (Rc.error, on_read inactive s)
      else let s' = suspend (on_write inactive (on_read inactive s)) in
        (if env.handle_write n then Rc.again else Rc.error, s')

  unfoldable pub after_flush : Rc × Session → Rc × Session
  after_flush flushed =
      if not (is_ok flushed.0)
      then flushed
      else if is_open flushed.1.out
      then flushed
      else pause flushed.1

  -- ngx_http_drizzle_output_ready
  unfoldable pub output_ready : Step
  output_ready s = if is_open s.out then (Rc.ok, s) else after_flush (lift flush s)

  -- `rc = ngx_http_drizzle_output_ready(r, dp); if (rc != NGX_OK) return rc;`
  abbrev pub when_ready : Step → Step
  when_ready k s = let ready = output_ready s in if is_ok ready.0 then k ready.1 else ready
