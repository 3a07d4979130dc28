-- ===== src/Reception/Keeps.antt =====
-- What the receiving of a result leaves alone (src/ngx_http_drizzle_processor.c): any property that no primitive
-- step of it changes.
use drizzle_nginx_module.Prelude.{
  ℕ, ◌≡◌, refl, ap, inl, inr, ◌⊎◌, arith, Bool, true, false, not, ◌&&◌, List, [], ◌∷◌, some, ◌==◌,
  if◌then◌else◌,
}
use drizzle_nginx_module.Nginx.{Rc, Event, Connection, is_failure, is_error}
use drizzle_nginx_module.Connect.{is_ok}
use drizzle_nginx_module.Peer.{State}
use drizzle_nginx_module.Output.Buffers.{Output}
use drizzle_nginx_module.Output.Atoms.{output_col, output_field}
use drizzle_nginx_module.Session.{
  FieldReply, RowReply, ColumnReply, Db, ClientWrite, Seen, Session, Env, Step, lift, set_out,
  set_state, on_read, on_write, timer, names_pending, set_has_names, Ending, done, is_open, suspend,
  pause, after_flush, output_ready, when_ready, flush, test_connection, connection_of, inactive,
}
use drizzle_nginx_module.Session.Flow.{flush-OkOrError}
use drizzle_nginx_module.Reception.{
  see, unless_failed, leave_rows, leave_columns, leave_fields, is_recv_cols, is_recv_rows,
  enter_rows, enter_cols, recv_fields, finish_row, after_row, recv_rows_from, recv_rows,
  recv_cols_from, recv_cols,
}

-- NGX_AGAIN, or a failure.
abbrev pub Stops : Rc → Type 0
Stops rc = (rc ≡ Rc.again) ⊎ (is_failure rc ≡ true)

-- `P` holds while the result is received, and `Q` holds of what a step returns.
pub record Kept (env : Env) (resend : Step) (P : Session → Type 0) (Q : Rc × Session → Type 0)
    : Type 0 where
  pub out : (s : Session) (o : Output) → P s → P (set_out o s)
  pub saw : (s : Session) (x : Seen) → P s → P (see x s)
  pub read : (s : Session) (f : Event → Event) → P s → P (on_read f s)
  pub write : (s : Session) (f : Event → Event) → P s → P (on_write f s)
  pub state : (s : Session) (st : State) → P s → P (set_state st s)
  pub row : (s : Session) (n : ℕ) → P s → P (record s { row = n })
  pub db : (s : Session) (db : Db) → P s → P (record s { db = db })
  pub pauses :
      (s : Session) (o : Output) (t : ℕ) (b : Bool) (w : ClientWrite)
      → P s
      → P (record s { out = o; read_timeout = t; draining = b; client_write = w })
  pub result : (rc : Rc) (s : Session) → Stops rc → P s → Q (rc, s)
  pub ends : (s : Session) → P s → Q (Rc.done, done env Ending.complete s)
  pub again : (s : Session) → names_pending s ≡ true → P s → Q (resend (set_has_names s))

module _ (env : Env) (resend : Step) (P : Session → Type 0) (Q : Rc × Session → Type 0)
    (k : Kept env resend P Q) where
  abbrev Keeps : Step → Type 0
  Keeps f = (s : Session) → P s → Q (f s)

  suspend-keeps : (s : Session) → P s → P (suspend env s)
  unfolding suspend
  suspend-keeps s p =
      k.pauses (on_write (timer false) (on_read (timer false) s)) _ _ _ _
        (k.write _ _ (k.read _ _ p))

  -- A step that leaves `P` alone and does not end the request.
  abbrev Runs : Rc × Session → Type 0
  Runs r = ((r.0 ≡ Rc.ok) ⊎ Stops r.0) × P r.1

  error-Stops : Stops Rc.error
  unfolding is_failure is_error
  error-Stops = inr refl

  again-Stops : Stops Rc.again
  again-Stops = inl refl

  stops : (rc : Rc) → (rc ≡ Rc.ok) ⊎ (rc ≡ Rc.error) → (rc ≡ Rc.ok) ⊎ Stops rc
  unfolding is_failure is_error
  stops rc (inl e) = inl e
  stops rc (inr e) = inr (inr (ap is_failure e))

  pause-Runs : (s : Session) → P s → Runs (pause env s)
  unfolding pause
  pause-Runs s p =
      go
        (test_connection (λ (c : Connection). c.read.active) (connection_of s)
          && not (env.del_read s.out.calls))
        (test_connection (λ (c : Connection). c.write.active) (connection_of s)
          && not (env.del_write s.out.calls))
        (env.handle_write s.out.calls)
    where
      last : Session
      last = suspend env (on_write inactive (on_read inactive s))

      kept : P last
      kept = suspend-keeps _ (k.write _ _ (k.read _ _ p))

      go :
          (a b c : Bool)
          → let r : Rc × Session =
              if a
              then (Rc.error, s)
              else if b
              then (Rc.error, on_read inactive s)
              else (if c then Rc.again else Rc.error, last) in
            Runs r
      go true b c = (inr error-Stops, p)
      go false true c = (inr error-Stops, k.read _ _ p)
      go false false true = (inr again-Stops, kept)
      go false false false = (inr error-Stops, kept)

  output_ready-Runs : (s : Session) → P s → Runs (output_ready env s)
  unfolding output_ready after_flush
  output_ready-Runs s p = go (is_open env s.out) (is_ok flushed.0) (is_open env flushed.1.out)
    where
      flushed : Rc × Session
      flushed = lift (flush env) s

      kept : Runs flushed
      kept = (stops flushed.0 (flush-OkOrError env s.out), k.out _ _ p)

      go :
          (a b c : Bool)
          → let r : Rc × Session =
              if a
              then (Rc.ok, s)
              else if not b
              then flushed
              else if c
              then flushed
              else pause env flushed.1 in
            Runs r
      go true b c = (inl refl, p)
      go false false c = kept
      go false true true = kept
      go false true false = pause-Runs flushed.1 kept.1

  when_ready-Keeps : (f : Step) → Keeps f → Keeps (when_ready env f)
  unfolding is_ok
  when_ready-Keeps f h s p = go (is_ok ready.0) refl
    where
      ready : Rc × Session
      ready = output_ready env s

      kept : Runs ready
      kept = output_ready-Runs s p

      go : (b : Bool) → is_ok ready.0 ≡ b → Q (if b then f ready.1 else ready)
      go true e = h ready.1 kept.1
      go false e = elim kept.0 [
        | inl ok ↦ absurd (ground (arith, e, ap is_ok ok))
        | inr stop ↦ k.result ready.0 ready.1 stop kept.1
      ]

  unless_failed-keeps : (r : Rc × Session) (f : Step) → Keeps f → P r.1 → Q (unless_failed r f)
  unless_failed-keeps r f h p = go (is_failure r.0) refl
    where
      go : (b : Bool) → is_failure r.0 ≡ b → Q (if b then r else f r.1)
      go true e = k.result r.0 r.1 (inr e) p
      go false e = h r.1 p

  returns-Keeps : (rc : Rc) → Stops rc → Keeps (when_ready env (λ s. (rc, s)))
  returns-Keeps rc e = when_ready-Keeps (λ s. (rc, s)) (λ s p. k.result rc s e p)

  recv_fields-Keeps :
      (next_row : Step)
      → Keeps next_row
      → (fs : List FieldReply) → Keeps (recv_fields env next_row fs)
  unfolding recv_fields
  recv_fields-Keeps next_row h [] = returns-Keeps Rc.again again-Stops
  recv_fields-Keeps next_row h (FieldReply.row_end ∷ rest) =
      when_ready-Keeps (λ s. next_row (record (leave_fields rest s) { row = 0 }))
        (λ s p. h _ (k.row (leave_fields rest s) 0 (k.db s _ p)))
  recv_fields-Keeps next_row h (FieldReply.field_failed ∷ rest) =
      when_ready-Keeps (λ s. (Rc.error, leave_fields rest s))
        (λ s p. k.result _ _ error-Stops (k.db s _ p))
  recv_fields-Keeps next_row h (FieldReply.one_piece offset len total field ∷ rest) =
      when_ready-Keeps
        (λ s.
          unless_failed
            (lift (output_field env.client env.conf offset len total field)
              (see (Seen.seen_piece offset len total field) (leave_fields rest s)))
            (recv_fields env next_row rest))
        (λ s p.
          unless_failed-keeps _ (recv_fields env next_row rest) (recv_fields-Keeps next_row h rest)
            (k.out _ _ (k.saw _ _ (k.db s _ p))))

  finish_row-Keeps : (n : ℕ) (fields : Step) → Keeps fields → Keeps (finish_row env n resend fields)
  unfolding finish_row
  finish_row-Keeps n fields h s p = go (not (n == 0)) (names_pending quiet) refl
    where
      quiet : Session
      quiet = on_read (timer false) s

      go :
          (a b : Bool)
          → names_pending quiet ≡ b
          → let r : Rc × Session =
              if a
              then fields s
              else if b
              then resend (set_has_names quiet)
              else (Rc.done, done env Ending.complete quiet) in
            Q r
      go true b e = h s p
      go false true e = k.again quiet e (k.read _ _ p)
      go false false e = k.ends quiet (k.read _ _ p)

  after_row-Keeps : (n : ℕ) (fields : Step) → Keeps fields → Keeps (after_row env n resend fields)
  unfolding after_row
  after_row-Keeps n fields h s p =
      unless_failed-keeps _ (finish_row env n resend fields) (finish_row-Keeps n fields h)
        (k.out _ _ (k.saw _ _ (k.row _ _ p)))

  recv_rows_from-Keeps : (rs : List RowReply) → Keeps (recv_rows_from env resend rs)
  unfolding recv_rows_from
  recv_rows_from-Keeps [] = returns-Keeps Rc.again again-Stops
  recv_rows_from-Keeps (RowReply.row_failed ∷ rest) =
      when_ready-Keeps (λ s. (Rc.error, leave_rows rest s))
        (λ s p. k.result _ _ error-Stops (k.db s _ p))
  recv_rows_from-Keeps (RowReply.one_row n ∷ rest) =
      let fields : Step = λ s. recv_fields env (recv_rows_from env resend rest) s.db.fields s in
      when_ready-Keeps (λ s. after_row env n resend fields (leave_rows rest s))
        (λ s p.
          after_row-Keeps n fields
            (λ t. recv_fields-Keeps _ (recv_rows_from-Keeps rest) t.db.fields t) _ (k.db s _ p))

  pub recv_rows-Keeps : Keeps (recv_rows env resend)
  unfolding recv_rows enter_rows
  recv_rows-Keeps s p = entered (is_recv_rows s.req.state)
    where
      continued : Step
      continued s = recv_fields env (λ s. recv_rows_from env resend s.db.rows s) s.db.fields s

      continued-Keeps : Keeps continued
      continued-Keeps t =
          recv_fields-Keeps (λ s. recv_rows_from env resend s.db.rows s)
            (λ u. recv_rows_from-Keeps u.db.rows u) t.db.fields t

      go :
          (b : Bool) (t : Session)
          → P t
          → Q (if b then recv_rows_from env resend t.db.rows t else when_ready env continued t)
      go true t q = recv_rows_from-Keeps t.db.rows t q
      go false t q = when_ready-Keeps continued continued-Keeps t q

      entered :
          (b : Bool)
          → let t = if b then s else on_read (timer true) (set_state State.db_recv_rows s) in
            Q (
              if t.row == 0
              then recv_rows_from env resend t.db.rows t
              else when_ready env continued t)
      entered true = go (s.row == 0) s p
      entered false = go (s.row == 0) _ (k.read _ _ (k.state _ _ p))

  recv_cols_from-Keeps : (cs : List ColumnReply) → Keeps (recv_cols_from env resend cs)
  unfolding recv_cols_from
  recv_cols_from-Keeps [] = returns-Keeps Rc.again again-Stops
  recv_cols_from-Keeps (ColumnReply.column_failed ∷ rest) =
      when_ready-Keeps (λ s. (Rc.error, leave_columns rest s))
        (λ s p. k.result _ _ error-Stops (k.db s _ p))
  recv_cols_from-Keeps (ColumnReply.last_column ∷ rest) =
      when_ready-Keeps (λ s. recv_rows env resend (on_read (timer false) (leave_columns rest s)))
        (λ s p. recv_rows-Keeps _ (k.read _ _ (k.db s _ p)))
  recv_cols_from-Keeps (ColumnReply.one_column col ∷ rest) =
      when_ready-Keeps
        (λ s.
          unless_failed
            (lift (output_col env.client env.conf (some col))
              (see (Seen.seen_column col) (leave_columns rest s)))
            (recv_cols_from env resend rest))
        (λ s p.
          unless_failed-keeps _ (recv_cols_from env resend rest) (recv_cols_from-Keeps rest)
            (k.out _ _ (k.saw _ _ (k.db s _ p))))

  pub recv_cols-Keeps : Keeps (recv_cols env resend)
  unfolding recv_cols enter_cols
  recv_cols-Keeps s p = entered (is_recv_cols s.req.state)
    where
      entered :
          (b : Bool)
          → let t = if b then s else on_read (timer true) (set_state State.db_recv_cols s) in
            Q (recv_cols_from env resend t.db.columns t)
      entered true = recv_cols_from-Keeps s.db.columns s p
      entered false = recv_cols_from-Keeps s.db.columns _ (k.read _ _ (k.state _ _ p))
