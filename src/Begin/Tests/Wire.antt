-- ===== src/Begin/Tests/Wire.antt =====
-- Runs of a request that goes on from its first connection, and of the watch over its client.
use drizzle_nginx_module.Prelude.{
  ◌+◌, ◌≡◌, refl, true, false, [], ◌∷◌, ◌++◌, some, codes, extract, inl, arith,
}
use drizzle_nginx_module.Nginx.{Rc, is_failure, is_error, is_special}
use drizzle_nginx_module.Keepalive.{Overflow, get_peer_multi}
use drizzle_nginx_module.Peer.{
  Request, State, get_peer, round_robin, draw, open_or_reject, open_connection, register, attach,
  is_full, rejects, use_log, is_declined,
}
use drizzle_nginx_module.Connect.{Result, is_ok, dbd_connect, after_get_peer}
use drizzle_nginx_module.Upstream.InitPeer.{
  Started, InitPeer, new_request, init_peer, request_dbname, request_query,
}
use drizzle_nginx_module.Upstream.Tests.{pool, peer, get_conf}
use drizzle_nginx_module.LocConf.Query.{choose_query, find_query}
use drizzle_nginx_module.Output.Buffers.{
  emit, output_bufs, request_mem, has_room, queue_buf, new_buf, check_size, submit_mem, fill_buf,
  next_call, start_buf, mark_end, flush_stream_end, send_header, filter_if_sent, set_type,
  name_module, ask_header, filter_bufs, enqueue, pending_output, bytes_of,
}
use drizzle_nginx_module.Output.Bytes.{le_bytes}
use drizzle_nginx_module.Output.Atoms.{
  DbResult, ColumnType, header_bytes, header_size, col_bytes, col_size, field_bytes, field_size,
  output_col, output_row, write_header, output_field, rds_code, std_col_type,
}
use drizzle_nginx_module.Reception.{
  enter_cols, enter_rows, recv_fields, finish_row, after_row, recv_rows_from, recv_rows,
  recv_cols_from, recv_cols,
}
use drizzle_nginx_module.Processor.{
  query_text, wait_query, is_done, is_positive, output_result_header, after_header, after_query,
  send_query, connect, dispatch, settle, process_events,
}
use drizzle_nginx_module.Output.Stream.{IsStream, held}
use drizzle_nginx_module.Session.{
  ConReply, QueryReply, ColumnReply, RowReply, FieldReply, Db, Session, context, output_ready,
  after_flush, is_open, flush,
}
use drizzle_nginx_module.Session.Flow.{encode}
use drizzle_nginx_module.Drain.Run.{Lives, Reach, Moves}
use drizzle_nginx_module.Handler.Client.{ClientEvent, Peeked}
use drizzle_nginx_module.Begin.{new_session, connect_session, resume, wait_or_process, is_again}
use drizzle_nginx_module.Begin.Serve.{new_pc}
use drizzle_nginx_module.Begin.Stream.{request-wire}
use drizzle_nginx_module.Begin.Tests.{
  connection_on, attempts, setup, conf_with, env, host, output, arrival, stay,
}

abbrev started : Started
started = record {
  request = new_request (conf_with Overflow.overflow_reject 0) 0 new_pc [];
  query = codes "select 1";
}

-- Its first connection is being opened, on descriptor 5.
abbrev opening : Request
opening = record {
  link = record {
    pc = record {
      connection = some (use_log (connection_on 5));
      cached = false;
      sockaddr = 7 ∷ [];
    };
    dp = record {
      name = codes "db";
      drizzle_con = some 11;
      has_set_names = false;
      used = 0;
      failed = false;
    };
    pool = pool Overflow.overflow_reject 1;
  };
  peers = peer ∷ [];
  current = 0;
  next_peer = 0;
  remaining_peers = 0;
  enable_charset = false;
  set_names_query = [];
  dbname = [];
  state = State.db_connect;
  query_started = false;
}

opens :
    dbd_connect
      (started.request.remaining_peers + 1)
      attempts
      (context (new_session arrival started))
      0
      started.request
    ≡ some (Result.connected Rc.again opening)
unfolding dbd_connect after_get_peer get_peer round_robin draw open_or_reject open_connection
    register attach is_full rejects new_request new_session is_declined get_peer_multi extract
opens = refl

started-ok :
    init_peer setup get_conf 2 (conf_with Overflow.overflow_reject 0) 0 new_pc
    ≡ InitPeer.init_ok started
unfolding init_peer request_dbname request_query choose_query find_query new_request
started-ok = refl

-- The session that waits for its first connection.
abbrev waiting : Session
waiting = connect_session env host stay attempts (new_session arrival started)

abbrev result : DbResult
result = record { error_code = 0; error = []; affected_rows = 0; insert_id = 0; column_count = 1 }

-- The database accepts the connection and the query, and of its result come one column, one row and one field.
abbrev replies : Db
replies = record {
  connects = ConReply.con_ok ∷ [];
  queries = QueryReply.query_ok result ∷ [];
  columns =
      ColumnReply.one_column
        (record { type = ColumnType.t_long; type_number = 3; name = codes "id" })
      ∷ (ColumnReply.last_column ∷ []);
  rows = RowReply.one_row 1 ∷ [];
  fields = FieldReply.one_piece 0 2 2 (some (codes "42")) ∷ [];
}

abbrev asked : Session
asked = record waiting { db = replies }

abbrev received : Session
received = (process_events env stay asked).1

received-ok : Lives (process_events env stay asked)
unfolding process_events settle dispatch connect send_query query_text wait_query after_query
    after_header output_result_header recv_cols enter_cols recv_cols_from recv_rows enter_rows
    recv_rows_from after_row finish_row recv_fields is_done is_positive is_ok is_failure is_error
    is_special output_ready after_flush is_open flush pending_output output_col output_row
    output_field write_header emit request_mem has_room mark_end submit_mem fill_buf check_size
    header_size header_bytes col_size col_bytes rds_code std_col_type field_size field_bytes
    queue_buf output_bufs new_buf flush_stream_end send_header filter_if_sent set_type name_module
    ask_header filter_bufs enqueue next_call start_buf le_bytes connect_session resume
    wait_or_process is_again new_session new_request dbd_connect after_get_peer get_peer round_robin
    draw open_or_reject open_connection register attach is_full rejects is_declined get_peer_multi
    extract
received-ok = inl refl

output-IsStream : IsStream output
output-IsStream = record {
  room = refl;
  counted = refl;
  out_sound = tt;
  busy_sound = tt;
  free_sound = tt;
}

run : Reach env stay waiting received
run =
    Reach.after waiting asked received
      (Reach.after waiting waiting asked (Reach.here waiting)
        (Moves.arrives waiting replies ((refl, omega arith), tt)))
      (Moves.handles asked received-ok)

request-wire_example :
    received.out.wire ++ (bytes_of received.out.out_bufs ++ held received.out.out_buf)
    ≡ encode received.seen
unfolding new_request
request-wire_example =
    request-wire env host stay (omega arith) setup get_conf 2 (conf_with Overflow.overflow_reject 0)
      0 new_pc arrival started attempts Rc.again opening (use_log (connection_on 5)) received
      (output-IsStream, refl, tt) started-ok opens refl refl (inl refl) run

-- A client that closed its connection while the request waits.
abbrev closes : ClientEvent
closes = record {
  write = false;
  active = true;
  pending_eof = false;
  level = true;
  kqueue = false;
  deleted = true;
  peeked = Peeked.end_of_stream;
}
