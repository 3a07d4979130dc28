-- ===== src/Reception/Rows.antt =====
-- The loops of ngx_http_upstream_drizzle_recv_rows and _recv_cols in src/ngx_http_drizzle_processor.c, as a flow of bytes.
use drizzle_nginx_module.Prelude.{
  ℕ, ◌^◌, ◌<◌, ◌≡◌, refl, sym, subst, inl, inr, ◌⊎◌, Bool, true, false, not, List, [], ◌∷◌, some,
  ◌==◌, if◌then◌else◌, arith,
}
use drizzle_nginx_module.Nginx.{Rc, is_failure, is_error}
use drizzle_nginx_module.Peer.{State}
use drizzle_nginx_module.Output.Atoms.{output_col, output_row}
use drizzle_nginx_module.Output.Codes.{output_row-OkOrError}
use drizzle_nginx_module.Output.Drained.{output_row-end}
use drizzle_nginx_module.Session.{
  Session, Env, Step, Seen, RowReply, ColumnReply, lift, set_state, on_read, timer, names_pending,
  set_has_names, Ending, done, when_ready,
}
use drizzle_nginx_module.Session.Flow.{Flows}
use drizzle_nginx_module.Session.Done.{done-Finished}
use drizzle_nginx_module.Reception.{
  see, unless_failed, leave_rows, leave_columns, is_recv_cols, is_recv_rows, enter_rows, enter_cols,
  recv_fields, finish_row, after_row, recv_rows_from, recv_rows, recv_cols_from, recv_cols,
}
use drizzle_nginx_module.Reception.Flow.{
  In, In-IsSession, Claim, error-Claim, again-Claim, when_ready-Claim, output-Claim, row-Outputs,
  col-Outputs, recv_fields-Claim,
}

not_failed-ok : (rc : Rc) → (rc ≡ Rc.ok) ⊎ (rc ≡ Rc.error) → is_failure rc ≡ false → rc ≡ Rc.ok
unfolding is_failure is_error
not_failed-ok rc (inl e) h = e
not_failed-ok rc (inr e) h = absurd (ground (arith, e, h))

module _ (env : Env) (small : env.conf.buf_size < 2 ^ 64) where
  -- The end of a result. The character set is not pending, so that no further query is sent.
  end-Claim :
      (resend : Step) (s : Session)
      → In State.db_recv_rows s
      → s.out.seen_stream_end ≡ true
      → let quiet = on_read (timer false) s in
        Claim env (
          if names_pending quiet
          then resend (set_has_names quiet)
          else (Rc.done, done env Ending.complete quiet))
  end-Claim resend s u e =
      let quiet = on_read (timer false) s in
      subst
        (λ b.
          Claim env
            (if b then resend (set_has_names quiet) else (Rc.done, done env Ending.complete quiet)))
        (sym u.named)
        (record {
          waits = λ h. absurd (ground (arith, h));
          delivers = λ _ w. done-Finished env quiet w u.flows.stream u.flows.same e;
        })

  finish_row-Claim :
      (n : ℕ) (resend fields : Step) (s : Session)
      → In State.db_recv_rows s
      → ((n == 0) ≡ true → s.out.seen_stream_end ≡ true)
      → ((s' : Session) → In State.db_recv_rows s' → Claim env (fields s'))
      → Claim env (finish_row env n resend fields s)
  unfolding finish_row
  finish_row-Claim n resend fields s u ended next = ends (n == 0) refl
    where
      ends :
          (b : Bool)
          → (n == 0) ≡ b
          → Claim env (
              if not b
              then fields s
              else let quiet = on_read (timer false) s in
                if names_pending quiet
                then resend (set_has_names quiet)
                else (Rc.done, done env Ending.complete quiet))
      ends false e = next s u
      ends true e = end-Claim resend s u (ended e)

  after_row-Claim :
      (n : ℕ) (resend fields : Step) (s : Session)
      → In State.db_recv_rows s
      → ((s' : Session) → In State.db_recv_rows s' → Claim env (fields s'))
      → Claim env (after_row env n resend fields s)
  unfolding after_row
  after_row-Claim n resend fields s v next =
      output-Claim env State.db_recv_rows (output_row env.client env.conf n) (Seen.seen_row n)
        (finish_row env n resend fields) (record s { row = n })
        (record {
          flows = record { stream = v.flows.stream; same = v.flows.same; fits = v.flows.fits };
          state = v.state;
          named = v.named;
        })
        (row-Outputs env small n s.out v.flows.stream)
        (λ ok u.
          finish_row-Claim n resend fields _ u
            (λ e.
              output_row-end env.client env.conf n s.out e
                (not_failed-ok _ (output_row-OkOrError env.client env.conf n s.out) ok))
            next)

  recv_rows_from-Claim :
      (resend : Step) (rs : List RowReply) (s : Session)
      → In State.db_recv_rows s
      → Claim env (recv_rows_from env resend rs s)
  unfolding recv_rows_from
  recv_rows_from-Claim resend [] s v =
      when_ready-Claim env State.db_recv_rows (λ s. (Rc.again, s)) s tt v
        (λ s' w. again-Claim env s' (In-IsSession State.db_recv_rows s' tt w))
  recv_rows_from-Claim resend (RowReply.row_failed ∷ rest) s v =
      when_ready-Claim env State.db_recv_rows (λ s. (Rc.error, leave_rows rest s)) s tt v
        (λ s' w. error-Claim env (leave_rows rest s'))
  recv_rows_from-Claim resend (RowReply.one_row n ∷ rest) s v =
      let more = recv_rows_from-Claim resend rest in
      when_ready-Claim env State.db_recv_rows
        (λ s.
          after_row env n resend
            (λ s. recv_fields env (recv_rows_from env resend rest) s.db.fields s)
            (leave_rows rest s))
        s tt v
        (λ s' w.
          after_row-Claim n resend
            (λ s. recv_fields env (recv_rows_from env resend rest) s.db.fields s)
            (leave_rows rest s')
            (record {
              flows = record { stream = w.flows.stream; same = w.flows.same; fits = w.flows.fits };
              state = w.state;
              named = w.named;
            })
            (λ s'' u.
              recv_fields-Claim env small (recv_rows_from env resend rest) s''.db.fields s'' u
                u.flows.fits more))

  -- A session that enters a state of the reception.
  enter_rows-In :
      (s : Session) → Flows s → names_pending s ≡ false → In State.db_recv_rows (enter_rows s)
  unfolding enter_rows
  enter_rows-In s v e = go s.req.state refl
    where
      entered : Session
      entered = on_read (timer true) (set_state State.db_recv_rows s)

      fresh : In State.db_recv_rows entered
      fresh = record {
        flows = record { stream = v.stream; same = v.same; fits = v.fits };
        state = refl;
        named = e;
      }

      go :
          (st : State)
          → s.req.state ≡ st
          → In State.db_recv_rows (if is_recv_rows st then s else entered)
      go State.db_connect h = fresh
      go State.db_send_query h = fresh
      go State.db_recv_cols h = fresh
      go State.db_recv_rows h = record { flows = v; state = h; named = e }
      go State.db_idle h = fresh

  pub recv_rows-Claim :
      (resend : Step) (s : Session)
      → Flows s
      → names_pending s ≡ false
      → Claim env (recv_rows env resend s)
  unfolding recv_rows
  recv_rows-Claim resend s v e = go (s'.row == 0)
    where
      s' : Session
      s' = enter_rows s

      u : In State.db_recv_rows s'
      u = enter_rows-In s v e

      go :
          (b : Bool)
          → Claim env (
              if b
              then recv_rows_from env resend s'.db.rows s'
              else when_ready env
                  (λ s. recv_fields env (λ s. recv_rows_from env resend s.db.rows s) s.db.fields s)
                  s')
      go true = recv_rows_from-Claim resend s'.db.rows s' u
      go false =
          when_ready-Claim env State.db_recv_rows
            (λ s. recv_fields env (λ s. recv_rows_from env resend s.db.rows s) s.db.fields s) s' tt
            u
            (λ t w.
              recv_fields-Claim env small (λ s. recv_rows_from env resend s.db.rows s) t.db.fields t
                w w.flows.fits (λ t' w'. recv_rows_from-Claim resend t'.db.rows t' w'))

  enter_cols-In :
      (s : Session) → Flows s → names_pending s ≡ false → In State.db_recv_cols (enter_cols s)
  unfolding enter_cols
  enter_cols-In s v e = go s.req.state refl
    where
      entered : Session
      entered = on_read (timer true) (set_state State.db_recv_cols s)

      fresh : In State.db_recv_cols entered
      fresh = record {
        flows = record { stream = v.stream; same = v.same; fits = v.fits };
        state = refl;
        named = e;
      }

      go :
          (st : State)
          → s.req.state ≡ st
          → In State.db_recv_cols (if is_recv_cols st then s else entered)
      go State.db_connect h = fresh
      go State.db_send_query h = fresh
      go State.db_recv_cols h = record { flows = v; state = h; named = e }
      go State.db_recv_rows h = fresh
      go State.db_idle h = fresh

  recv_cols_from-Claim :
      (resend : Step) (cs : List ColumnReply) (s : Session)
      → In State.db_recv_cols s
      → Claim env (recv_cols_from env resend cs s)
  unfolding recv_cols_from
  recv_cols_from-Claim resend [] s v =
      when_ready-Claim env State.db_recv_cols (λ s. (Rc.again, s)) s tt v
        (λ s' w. again-Claim env s' (In-IsSession State.db_recv_cols s' tt w))
  recv_cols_from-Claim resend (ColumnReply.column_failed ∷ rest) s v =
      when_ready-Claim env State.db_recv_cols (λ s. (Rc.error, leave_columns rest s)) s tt v
        (λ s' w. error-Claim env (leave_columns rest s'))
  recv_cols_from-Claim resend (ColumnReply.last_column ∷ rest) s v =
      when_ready-Claim env State.db_recv_cols
        (λ s. recv_rows env resend (on_read (timer false) (leave_columns rest s))) s tt v
        (λ s' w.
          recv_rows-Claim resend (on_read (timer false) (leave_columns rest s'))
            (record { stream = w.flows.stream; same = w.flows.same; fits = w.flows.fits }) w.named)
  recv_cols_from-Claim resend (ColumnReply.one_column col ∷ rest) s v =
      when_ready-Claim env State.db_recv_cols
        (λ s.
          unless_failed
            (lift (output_col env.client env.conf (some col))
              (see (Seen.seen_column col) (leave_columns rest s)))
            (recv_cols_from env resend rest))
        s tt v
        (λ s' w.
          output-Claim env State.db_recv_cols (output_col env.client env.conf (some col))
            (Seen.seen_column col) (recv_cols_from env resend rest) (leave_columns rest s')
            (record {
              flows = record { stream = w.flows.stream; same = w.flows.same; fits = w.flows.fits };
              state = w.state;
              named = w.named;
            })
            (col-Outputs env small col s'.out w.flows.stream)
            (λ _ u. recv_cols_from-Claim resend rest _ u))

  -- The columns of a result, and what follows them.
  pub recv_cols-Claim :
      (resend : Step) (s : Session)
      → Flows s
      → names_pending s ≡ false
      → Claim env (recv_cols env resend s)
  unfolding recv_cols
  recv_cols-Claim resend s v e =
      recv_cols_from-Claim resend (enter_cols s).db.columns (enter_cols s) (enter_cols-In s v e)
