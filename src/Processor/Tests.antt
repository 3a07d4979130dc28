-- ===== src/Processor/Tests.antt =====
-- Runs of a request through src/ngx_http_drizzle_processor.c, its gate and the handlers of its events.
use drizzle_nginx_module.Prelude.{
  ℕ, ◌≡◌, refl, inl, Bool, true, false, List, [], ◌∷◌, ◌++◌, none, some, codes, arith,
}
use drizzle_nginx_module.Nginx.{
  Rc, Event, Connection, Handler, Log, is_failure, is_error, is_special,
}
use drizzle_nginx_module.Keepalive.{Overflow}
use drizzle_nginx_module.Peer.{Request, State}
use drizzle_nginx_module.Connect.{is_ok}
use drizzle_nginx_module.Output.Buffers.{
  Client, Output, emit, output_bufs, request_mem, has_room, queue_buf, new_buf, check_size,
  submit_mem, fill_buf, next_call, start_buf, mark_end, flush_stream_end, send_header,
  filter_if_sent, set_type, name_module, ask_header, filter_bufs, enqueue, pending_output, bytes_of,
}
use drizzle_nginx_module.Output.Bytes.{le_bytes}
use drizzle_nginx_module.Output.Stream.{IsStream, held}
use drizzle_nginx_module.Output.Succeeds.{IsWilling}
use drizzle_nginx_module.Output.Atoms.{
  DbResult, ColumnType, header_bytes, header_size, col_bytes, col_size, field_bytes, field_size,
  output_col, output_row, write_header, output_field, rds_code, std_col_type,
}
use drizzle_nginx_module.Status.Tests.{printer}
use drizzle_nginx_module.Session.{
  QueryReply, ColumnReply, RowReply, FieldReply, Db, Session, Env, is_open, flush, after_flush,
  output_ready,
}
use drizzle_nginx_module.Session.Flow.{encode}
use drizzle_nginx_module.Session.Gate.{Gate}
use drizzle_nginx_module.Reception.{
  enter_cols, enter_rows, recv_fields, finish_row, after_row, recv_rows_from, recv_rows,
  recv_cols_from, recv_cols,
}
use drizzle_nginx_module.Reception.Flow.{IsSession}
use drizzle_nginx_module.Processor.{
  query_text, wait_query, is_done, is_positive, output_result_header, after_header, after_query,
  send_query, dispatch, settle, process_events,
}
use drizzle_nginx_module.Processor.Query.{NamesFirst, send_query-NamesFirst}
use drizzle_nginx_module.Processor.Once.{EndsOnce, process_events-EndsOnce}
use drizzle_nginx_module.Drain.Run.{Reach, Moves, reach-wire, reach-delivers}
use drizzle_nginx_module.Handler.{Wakeup, handle_event}
use drizzle_nginx_module.Handler.Same.{handle_event-same}

abbrev client : Client
client = record {
  alloc = λ _. true;
  header = λ _. Rc.ok;
  filter = λ _. Rc.ok;
  buffered = λ _. false;
  sent = λ _. 1;
}

client-IsWilling : IsWilling client
unfolding is_failure
client-IsWilling = record { alloc = λ _. refl; header = λ _. refl; filter = λ _. refl }

abbrev env : Env
env = record {
  client = client;
  conf = record { buf_size = 64; max_buffered = 4; enable_module_header = false };
  del_read = λ _. true;
  del_write = λ _. true;
  handle_write = λ _. true;
  handle_read = λ _. true;
  time_left = λ _. 9;
}

-- Nothing was output; `calls` are the answers of nginx that were used up.
abbrev output : Output
output = record {
  out_buf = none;
  avail_out = 0;
  buffered_output = 0;
  output_blocked = false;
  output_paused = false;
  seen_stream_end = false;
  out_bufs = [];
  busy_bufs = [];
  free_bufs = [];
  header_sent = false;
  status = 0;
  headers = [];
  content_type = [];
  calls = 0;
  wire = [];
}

output-IsStream : IsStream output
output-IsStream = record {
  room = refl;
  counted = refl;
  out_sound = tt;
  busy_sound = tt;
  free_sound = tt;
}

abbrev event : Event
event = record {
  timer_set = true;
  active = true;
  disabled = false;
  posted = false;
  closed = false;
  ready = true;
  handler = Handler.no_handler;
  log = Log.cycle_log;
}

abbrev connection : Connection
connection = record {
  fd = 5;
  close = false;
  idle = false;
  read = event;
  write = event;
  log = Log.cycle_log;
}

-- A request on a connection that is not kept; the character set is to be chosen first where `names` holds.
abbrev request : Bool → Request
request names = record {
  link = record {
    pc = record { connection = some connection; cached = false; sockaddr = [] };
    dp = record { name = []; drizzle_con = none; has_set_names = false; used = 0; failed = false };
    pool = record {
      single = false;
      free = [];
      cache = [];
      active_conns = 1;
      max_cached = 0;
      overflow = Overflow.overflow_ignore;
      closed = [];
      freed = [];
    };
  };
  peers = [];
  current = 0;
  next_peer = 0;
  remaining_peers = 0;
  enable_charset = names;
  set_names_query = codes "set names";
  dbname = [];
  state = State.db_send_query;
  query_started = true;
}

abbrev silent : Db
silent = record { connects = []; queries = []; columns = []; rows = []; fields = [] }

abbrev session : Bool → Session
session names = record {
  req = request names;
  out = output;
  db = silent;
  query = codes "select";
  row = 0;
  read_timeout = 7;
  status_n = 0;
  length = 0;
  client_error = false;
  client_timedout = false;
  client_write = record { delayed = false; timedout = false; timer_set = false };
  draining = false;
  request_sent = true;
  thread_id = none;
  asked = [];
  seen = [];
  ended = [];
}

session-IsSession : (names : Bool) → IsSession (session names)
session-IsSession names = (record { stream = output-IsStream; same = refl; fits = tt }, refl)

abbrev result : ℕ → DbResult
result columns = record {
  error_code = 0;
  error = [];
  affected_rows = 300;
  insert_id = 5;
  column_count = columns;
}

-- A result of one column, one row and one field, of which two bytes come.
abbrev replies : Db
replies = record {
  connects = [];
  queries = QueryReply.query_ok (result 1) ∷ [];
  columns =
      ColumnReply.one_column
        (record { type = ColumnType.t_long; type_number = 3; name = codes "id" })
      ∷ (ColumnReply.last_column ∷ []);
  rows = RowReply.one_row 1 ∷ (RowReply.one_row 0 ∷ []);
  fields = FieldReply.one_piece 0 2 2 (some (codes "42")) ∷ (FieldReply.row_end ∷ []);
}

-- The database answers nothing of a retry.
abbrev stay : Session → Session
stay s = s

-- First only the query is taken, then the whole result comes.
abbrev asked : Session
asked = record (session false) {
  db = record silent { queries = QueryReply.query_ok (result 1) ∷ [] };
}

abbrev handled : Session
handled = (process_events env stay asked).1

abbrev answered : Session
answered = record handled { db = record replies { queries = [] } }

asked-ok : (process_events env stay asked).0 ≡ Rc.ok
unfolding process_events settle dispatch send_query query_text wait_query after_query after_header
    output_result_header recv_cols enter_cols recv_cols_from recv_rows enter_rows recv_rows_from
    after_row finish_row recv_fields is_done is_positive is_ok is_failure is_error is_special
    output_ready after_flush is_open flush pending_output output_col output_row output_field
    write_header emit request_mem has_room mark_end submit_mem fill_buf check_size header_size
    header_bytes col_size col_bytes rds_code std_col_type field_size field_bytes queue_buf
    output_bufs new_buf flush_stream_end send_header filter_if_sent set_type name_module ask_header
    filter_bufs enqueue next_call start_buf le_bytes
asked-ok = refl

answered-done : (process_events env stay answered).0 ≡ Rc.done
unfolding process_events settle dispatch send_query query_text wait_query after_query after_header
    output_result_header recv_cols enter_cols recv_cols_from recv_rows enter_rows recv_rows_from
    after_row finish_row recv_fields is_done is_positive is_ok is_failure is_error is_special
    output_ready after_flush is_open flush pending_output output_col output_row output_field
    write_header emit request_mem has_room mark_end submit_mem fill_buf check_size header_size
    header_bytes col_size col_bytes rds_code std_col_type field_size field_bytes queue_buf
    output_bufs new_buf flush_stream_end send_header filter_if_sent set_type name_module ask_header
    filter_bufs enqueue next_call start_buf le_bytes
answered-done = refl

handled-Started : handled.req.query_started ≡ true
unfolding process_events settle dispatch send_query query_text wait_query after_query after_header
    output_result_header recv_cols enter_cols recv_cols_from recv_rows enter_rows recv_rows_from
    after_row finish_row recv_fields is_done is_positive is_ok is_failure is_error is_special
    output_ready after_flush is_open flush pending_output output_col output_row output_field
    write_header emit request_mem has_room mark_end submit_mem fill_buf check_size header_size
    header_bytes col_size col_bytes rds_code std_col_type field_size field_bytes queue_buf
    output_bufs new_buf flush_stream_end send_header filter_if_sent set_type name_module ask_header
    filter_bufs enqueue next_call start_buf le_bytes
handled-Started = refl

run : Reach env stay (session false) answered
run =
    let here = Reach.here (session false) in
    let first =
      Reach.after (session false) (session false) asked here
        (Moves.arrives (session false) asked.db tt) in
    let second =
      Reach.after (session false) asked handled first (Moves.handles asked (inl asked-ok)) in
    Reach.after (session false) handled answered second
      (Moves.arrives handled (record replies { queries = [] }) ((refl, omega arith), (tt, tt)))

reach-wire_example :
    answered.out.wire ++ (bytes_of answered.out.out_bufs ++ held answered.out.out_buf)
    ≡ encode answered.seen
reach-wire_example =
    reach-wire env (omega arith) stay (session false) answered (session-IsSession false) run

reach-delivers_example : let r = process_events env stay answered in r.1.out.wire ≡ encode r.1.seen
reach-delivers_example =
    reach-delivers env (omega arith) stay (session false) answered (session-IsSession false) run
      client-IsWilling answered-done

process_events-EndsOnce_example : EndsOnce env answered (process_events env stay answered)
process_events-EndsOnce_example = process_events-EndsOnce env stay answered handled-Started

-- The character set is chosen, and then the query fails with "no such table".
abbrev outcomes : List QueryReply
outcomes = QueryReply.query_ok (result 0) ∷ (QueryReply.query_code 1146 ∷ [])

send_query-NamesFirst_example : NamesFirst (session true) (send_query env outcomes (session true)).1
send_query-NamesFirst_example = send_query-NamesFirst env outcomes (session true) refl

abbrev blocked : Session
blocked = record (session false) { out = record output { output_blocked = true } }

abbrev paused : Session
paused = record blocked { out = record (blocked.out) { output_paused = true }; draining = true }

abbrev timed_out : Wakeup
timed_out = record {
  timed_out = true;
  socket = record {
    kqueue = false;
    pending_eof = false;
    getsockopt_fails = false;
    errno = 0;
    error = 0;
  };
  thread = some 4096;
  has_variable = true;
}

abbrev forget : Session → Session
forget s = session false

handle_event-same_example :
    handle_event printer env stay timed_out (session false)
    ≡ handle_event printer env forget timed_out (session false)
handle_event-same_example = handle_event-same printer env stay forget timed_out (session false) refl
