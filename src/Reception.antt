-- ===== src/Reception.antt =====
-- src/ngx_http_drizzle_processor.c, the receiving of a result: ngx_http_upstream_drizzle_recv_cols and _recv_rows. They call
-- ngx_http_upstream_drizzle_send_query again, which is passed to them.
pub mod Flow
pub mod Rows
pub mod Keeps
use drizzle_nginx_module.Prelude.{
  ℕ, Bool, true, false, not, ◌&&◌, ◌||◌, List, [], ◌∷◌, ◌++◌, Option, none, some, ◌==◌,
  if◌then◌else◌,
}
use drizzle_nginx_module.Nginx.{Rc, is_failure, is_special, is_error}
use drizzle_nginx_module.Peer.{Request, State}
use drizzle_nginx_module.Connect.{Failure, Next, next, is_ok}
use drizzle_nginx_module.Output.Buffers.{Client, Output, output_bufs}
use drizzle_nginx_module.Output.Atoms.{
  DbResult, Column, write_header, output_col, output_row, output_field,
}
use drizzle_nginx_module.Session.{
  ConReply, QueryReply, ColumnReply, RowReply, FieldReply, Db, Seen, Session, Env, Step, lift,
  set_out, set_req, set_state, on_read, on_write, timer, set_has_names, names_pending, context,
  ended_with, finalize, Ending, done, output_ready, when_ready,
}

abbrev pub see : Seen → Session → Session
see x s = record s { seen = s.seen ++ (x ∷ []) }

abbrev pub leave_queries : List QueryReply → Session → Session
leave_queries rest s = record s { db = record (s.db) { queries = rest } }

abbrev pub leave_columns : List ColumnReply → Session → Session
leave_columns rest s = record s { db = record (s.db) { columns = rest } }

abbrev pub leave_rows : List RowReply → Session → Session
leave_rows rest s = record s { db = record (s.db) { rows = rest } }

abbrev pub leave_fields : List FieldReply → Session → Session
leave_fields rest s = record s { db = record (s.db) { fields = rest } }

abbrev pub is_recv_cols : State → Bool
is_recv_cols State.db_recv_cols = true
is_recv_cols _ = false

abbrev pub is_recv_rows : State → Bool
is_recv_rows State.db_recv_rows = true
is_recv_rows _ = false

-- The entries of ngx_http_upstream_drizzle_recv_cols and _recv_rows.
unfoldable pub enter_cols : Session → Session
enter_cols s =
    if is_recv_cols s.req.state then s else on_read (timer true) (set_state State.db_recv_cols s)

unfoldable pub enter_rows : Session → Session
enter_rows s =
    if is_recv_rows s.req.state then s else on_read (timer true) (set_state State.db_recv_rows s)

-- `if (rc == NGX_ERROR || rc >= NGX_HTTP_SPECIAL_RESPONSE) return rc;`
abbrev pub unless_failed : Rc × Session → Step → Rc × Session
unless_failed r k = if is_failure r.0 then r else k r.1

module _ (env : Env) where
  -- The fields of a row, up to its end; `next_row` is the outer loop.
  unfoldable pub recv_fields : Step → List FieldReply → Step
  recv_fields next_row [] s = when_ready env (λ s. (Rc.again, s)) s
  recv_fields next_row (FieldReply.row_end ∷ rest) s =
      when_ready env (λ s. next_row (record (leave_fields rest s) { row = 0 })) s
  recv_fields next_row (FieldReply.field_failed ∷ rest) s =
      when_ready env (λ s. (Rc.error, leave_fields rest s)) s
  recv_fields next_row (FieldReply.one_piece offset len total field ∷ rest) s =
      when_ready env
        (λ s.
          unless_failed
            (lift (output_field env.client env.conf offset len total field)
              (see (Seen.seen_piece offset len total field) (leave_fields rest s)))
            (recv_fields next_row rest))
        s

  -- After a row's flag was output: its fields, or the end of the result, which is row 0.
  unfoldable pub finish_row : ℕ → Step → Step → Step
  finish_row n resend fields s =
      if not (n == 0)
      then fields s
      else let quiet = on_read (timer false) s in
        if names_pending quiet
        then resend (set_has_names quiet)
        else (Rc.done, done env Ending.complete quiet)

  -- After a row was read: its flag is output.
  unfoldable pub after_row : ℕ → Step → Step → Step
  after_row n resend fields s =
      unless_failed
        (lift (output_row env.client env.conf n) (see (Seen.seen_row n) (record s { row = n })))
        (finish_row n resend fields)

  -- The loop over the rows, at the start of a row; `resend` is the call of send_query at its end.
  unfoldable pub recv_rows_from : Step → List RowReply → Step
  recv_rows_from resend [] s = when_ready env (λ s. (Rc.again, s)) s
  recv_rows_from resend (RowReply.row_failed ∷ rest) s =
      when_ready env (λ s. (Rc.error, leave_rows rest s)) s
  recv_rows_from resend (RowReply.one_row n ∷ rest) s =
      when_ready env
        (λ s.
          after_row n resend (λ s. recv_fields (recv_rows_from resend rest) s.db.fields s)
            (leave_rows rest s))
        s

  -- ngx_http_upstream_drizzle_recv_rows: a row that was begun goes on.
  unfoldable pub recv_rows : Step → Step
  recv_rows resend s =
      let s' = enter_rows s in
      if s'.row == 0
      then recv_rows_from resend s'.db.rows s'
      else when_ready env (λ s. recv_fields (λ s. recv_rows_from resend s.db.rows s) s.db.fields s)
          s'

  -- The loop of ngx_http_upstream_drizzle_recv_cols.
  unfoldable pub recv_cols_from : Step → List ColumnReply → Step
  recv_cols_from resend [] s = when_ready env (λ s. (Rc.again, s)) s
  recv_cols_from resend (ColumnReply.column_failed ∷ rest) s =
      when_ready env (λ s. (Rc.error, leave_columns rest s)) s
  recv_cols_from resend (ColumnReply.last_column ∷ rest) s =
      when_ready env (λ s. recv_rows resend (on_read (timer false) (leave_columns rest s))) s
  recv_cols_from resend (ColumnReply.one_column col ∷ rest) s =
      when_ready env
        (λ s.
          unless_failed
            (lift (output_col env.client env.conf (some col))
              (see (Seen.seen_column col) (leave_columns rest s)))
            (recv_cols_from resend rest))
        s

  -- ngx_http_upstream_drizzle_recv_cols
  unfoldable pub recv_cols : Step → Step
  recv_cols resend s = let s' = enter_cols s in recv_cols_from resend s'.db.columns s'
