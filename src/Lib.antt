-- ===== src/Lib.antt =====
-- drizzle-nginx-module: an nginx upstream module that sends an SQL query to a MySQL or Drizzle server through
-- libdrizzle and streams the result to the client in the RDS format. Paths below start at the repository's root.
--
-- A request is admitted by a handler (src/ngx_http_drizzle_handler.c), which finds its upstream, its query and its
-- database in the configuration that the directives made (src/ngx_http_drizzle_module.c). It then takes a
-- connection: from the pool of idle ones, or by opening one to the next server of the upstream
-- (src/ngx_http_drizzle_upstream.c, src/ngx_http_drizzle_keepalive.c); failures are retried on the next server
-- (src/ngx_http_drizzle_util.c). On the connection, a state machine sends the query, after one for the character
-- set if that is configured, and reads the result (src/ngx_http_drizzle_processor.c). The result's header, columns,
-- rows and fields are written as atoms into buffers that go through nginx's output filter
-- (src/ngx_http_drizzle_output.c); before each read a gate stops the reading while the client is behind, until
-- nginx's write handler has drained the output. At its end the connection returns to the pool or is closed. A
-- second handler shows the state of the pools (src/ngx_http_drizzle_handler.c).
--
--   Prelude, Nginx     shared helpers (Bits: masks); the fields of nginx's events, connections and return codes that are used
--   Keepalive          the pool: ngx_http_drizzle_keepalive_init, _get_peer_single, _get_peer_multi, _free_peer and the
--                      close handler, and ngx_http_upstream_drizzle_free_connection. Both queues are lists, head first.
--                      Invariant has its well-formedness, History any sequence of calls, Reuse the single operations;
--                      Directive is the directive drizzle_keepalive
--   Peer               ngx_http_upstream_drizzle_get_peer and _free_peer, with the round robin. Outcome has the cases of
--                      get_peer, Balance the count of active connections, Rounds the order of the peers
--   Upstream           ngx_http_upstream_drizzle_init: the peers from the directives; InitPeer: ngx_http_upstream_drizzle_init_peer,
--                      the start of a request; Directive: ngx_http_upstream_drizzle_server, with what its settings are
--                      (Written) and what comes of them at libdrizzle's connections (Accepted, Targets)
--   Connect            ngx_http_upstream_drizzle_finalize_request, _next and ngx_http_upstream_dbd_connect up to the peer's
--                      connection
--   Begin              the rest of ngx_http_upstream_dbd_connect, ngx_http_upstream_dbd_init, _dbd_init_request and _dbd_reinit;
--                      Serve: ngx_http_drizzle_handler. Aims, Starts, Connects, Stands and Handled are about every
--                      request, Resume and
--                      Rejected about one for which the pool is full, Early and Stream about the bytes from the start on
--   Output             Buffers: ngx_http_drizzle_request_mem, _submit_mem, _queue_buf, _output_bufs; Headers:
--                      ngx_http_drizzle_set_header; Atoms: ngx_http_drizzle_output_result_header, _output_col, _output_row,
--                      _output_field and _std_col_type. Stream, Succeeds and Deliver are about the bytes that
--                      leave; Reader is a reader after the README that shares no code with the writer
--   Session            the fields that a request has while it talks to the database, what libdrizzle returns, the end of a
--                      request (ngx_http_upstream_drizzle_done) and the gate (ngx_http_drizzle_output_ready)
--   Reception          ngx_http_upstream_drizzle_recv_cols and _recv_rows; Keeps has what they leave alone
--   Processor          ngx_http_drizzle_process_events, ngx_http_upstream_drizzle_connect and _send_query, and
--                      ngx_http_drizzle_output_result_header. Flow and Events are about the bytes, Query about the queries that are
--                      sent, Resend and Once about how a request ends
--   Drain              ngx_http_drizzle_drain_output; Run is any sequence of events of a request
--   Handler            ngx_http_drizzle_wev_handler and _rev_handler, ngx_http_drizzle_output_filter,
--                      ngx_http_upstream_drizzle_test_connect and ngx_http_drizzle_set_thread_id_variable; Client:
--                      ngx_http_upstream_dbd_check_broken_connection and _dbd_cleanup
--   Status             ngx_http_drizzle_status_handler, ngx_http_drizzle_get_num_size and _queue_size
--   LocConf            ngx_http_drizzle_create_loc_conf and _merge_loc_conf; Query: ngx_http_drizzle_query and the choice of a
--                      request's query, with Built and Choice about what the directives make of it and Merged
--                      about what is left of it after the merge; Pass: ngx_http_drizzle_pass, _enable_status, _set_complex_value_slot and ngx_http_upstream_drizzle_add
--
-- Counters are natural numbers that wrap at 2^64 (ngx_uint_t, size_t) or are cut to 32 and 16 bits where the source casts.
-- Pointers to objects are the objects; a connection has its descriptor and a libdrizzle handle its number. Functions return
-- their code and the new state; where the source would read outside an array or an empty queue, they return `none`. The
-- mutual recursion of dbd_connect and next runs on fuel: each further round has drawn a peer, so one more than the
-- peers that remain is enough. What the calls of libdrizzle return is a list for each of them, and the end of a list is
-- DRIZZLE_RETURN_IO_WAIT, so the loops that read a result recurse on these lists and need no fuel; an event may bring new
-- lists at any time. A session records what the database delivered, which queries were taken and how the request
-- was finalized; the source keeps no such history, and no step reads it, but for the cleanup of a request, which its end
-- takes away. What ngx_http_upstream_dbd_connect makes of a request that is retried while its events are handled is an
-- argument of the processor.
--
-- nginx and libdrizzle are not modelled: what they answer (allocations, event registration, the output filter, the
-- result of connecting, the value of a script, the address of a server, the text of a number) is a parameter. Not modelled
-- either: the branch of ngx_http_upstream_dbd_init_request for `u->resolved`, which nothing of the module sets;
-- ngx_http_upstream_dbd_handler, which only calls the handlers of Handler; libdrizzle's own memory (drizzle_result_free,
-- drizzle_column_free, ngx_http_drizzle_set_libdrizzle_ready); the values of timers; logging; and the code for nginx before
-- 0.8.17, and before 1.11.6 in ngx_http_upstream_drizzle_add. src/ngx_http_drizzle_checker.c and
-- src/ngx_http_drizzle_quoting.c are stubs.
pub mod Prelude
pub mod Nginx
pub mod Keepalive
pub mod Output
pub mod Status
pub mod Peer
pub mod LocConf
pub mod Connect
pub mod Session
pub mod Reception
pub mod Processor
pub mod Drain
pub mod Handler
pub mod Upstream
pub mod Begin
