-- ===== src/Processor/Flow.antt =====
-- src/ngx_http_drizzle_processor.c as a flow of bytes: the query, the result's header, and what follows them.
use drizzle_nginx_module.Prelude.{
  ℕ, ◌^◌, ◌<◌, ◌≡◌, refl, sym, subst, ◌⊎◌, Bool, true, false, not, List, [], ◌∷◌, ◌==◌,
  if◌then◌else◌, arith,
}
use drizzle_nginx_module.Nginx.{Rc, is_failure, is_error, is_special}
use drizzle_nginx_module.Peer.{State}
use drizzle_nginx_module.Connect.{is_ok}
use drizzle_nginx_module.Output.Atoms.{DbResult, write_header}
use drizzle_nginx_module.Output.Codes.{write_header-OkOrError}
use drizzle_nginx_module.Output.Drained.{write_header-end}
use drizzle_nginx_module.Output.Deliver.{write_header-Adds}
use drizzle_nginx_module.Session.{
  QueryReply, Session, Env, Step, Seen, lift, set_state, on_write, timer, names_pending,
  set_has_names, Ending, done,
}
use drizzle_nginx_module.Session.Flow.{ok_of_is_ok, Flows, Phase}
use drizzle_nginx_module.Session.Done.{done-Finished, failed-Finished}
use drizzle_nginx_module.Reception.{see, unless_failed, recv_cols}
use drizzle_nginx_module.Reception.Flow.{
  Claim, error-Claim, again-Claim, Outputs, see-In, output-Claim, ok-Outputs,
}
use drizzle_nginx_module.Reception.Rows.{recv_cols-Claim}
use drizzle_nginx_module.Processor.{
  start_query, is_send_query, wait_query, is_done, no_such_table, output_result_header,
  after_header, after_query, send_query,
}

-- Nothing of the result has come yet.
abbrev pub Early : Session → Type 0
Early s = Flows s × (s.seen ≡ [])

module _ (env : Env) (small : env.conf.buf_size < 2 ^ 64) where
  written : DbResult → Session → Rc × Session
  written res s = lift (write_header env.client env.conf res) (see (Seen.seen_header res) s)

  header-Outputs :
      (res : DbResult) (s : Session)
      → Flows s
      → Outputs env (write_header env.client env.conf res) (Seen.seen_header res) s.out
  header-Outputs res s v =
      ok-Outputs env (write_header env.client env.conf res) (Seen.seen_header res) s.out
        (write_header-OkOrError env.client env.conf res s.out)
        (write_header-Adds env.client env.conf res s.out small v.stream)

  -- A result without columns ends with its header.
  no_columns-Claim :
      (res : DbResult) (k : Rc → Step) (s : Session)
      → Flows s
      → names_pending s ≡ false
      → (res.column_count == 0) ≡ true
      → ((s' : Session) → k Rc.done s' ≡ (Rc.done, s'))
      → let w = written res s in
        let header : Rc × Session =
          if is_ok w.0 then (Rc.done, done env Ending.complete w.1) else (Rc.error, w.1) in
        Claim env (unless_failed header (k header.0))
  unfolding is_failure is_error is_special written
  no_columns-Claim res k s v named empty last = go (is_ok w.0) refl
    where
      w : Rc × Session
      w = written res s

      go :
          (b : Bool)
          → is_ok w.0 ≡ b
          → let header : Rc × Session =
              if b then (Rc.done, done env Ending.complete w.1) else (Rc.error, w.1) in
            Claim env (unless_failed header (k header.0))
      go false e = error-Claim env w.1
      go true e =
          let ok = ok_of_is_ok w.0 e in
          let ends =
            see-In env s.req.state (write_header env.client env.conf res) (Seen.seen_header res) s
              (record { flows = v; state = refl; named = named })
              (write_header-Adds env.client env.conf res s.out small v.stream ok) in
          subst (Claim env) (sym (last (done env Ending.complete w.1))) (record {
            waits = λ h. absurd (ground (arith, h));
            delivers = λ _ willing.
                done-Finished env w.1 willing ends.flows.stream ends.flows.same
                  (write_header-end env.client env.conf res s.out empty ok);
          })

  columns-Claim :
      (res : DbResult) (resend k : Step) (s : Session)
      → Flows s
      → names_pending s ≡ false
      → let w = written res s in
        Claim env (unless_failed w (λ s'. if is_done w.0 then k s' else recv_cols env resend s'))
  unfolding is_done is_failure is_error is_special written
  columns-Claim res resend k s v named =
      output-Claim env s.req.state (write_header env.client env.conf res) (Seen.seen_header res)
        (λ s'. if is_done w.0 then k s' else recv_cols env resend s') s
        (record { flows = v; state = refl; named = named }) (header-Outputs res s v)
        (λ ok u.
          go w.0 w.1 (write_header-OkOrError env.client env.conf res s.out) ok
            (recv_cols-Claim env small resend w.1 u.flows u.named))
    where
      w : Rc × Session
      w = written res s

      go :
          (rc : Rc) (s' : Session)
          → (rc ≡ Rc.ok) ⊎ (rc ≡ Rc.error)
          → is_failure rc ≡ false
          → Claim env (recv_cols env resend s')
          → Claim env (if is_done rc then k s' else recv_cols env resend s')
      go Rc.ok s' o h c = c
      go Rc.error s' o h c = absurd (ground (arith, h))
      go _ s' o h c = absurd (ground (arith, o))

  pub status-Claim : (s : Session) (n : ℕ) → Claim env (Rc.status n, s)
  status-Claim s n = record {
    waits = λ h. absurd (ground (arith, h));
    delivers = λ h. absurd (ground (arith, h));
  }

  -- The second query of a request starts as the first one did.
  abbrev pub Sends : Step → Type 0
  Sends resend = (s : Session) → Early s → Claim env (resend s)

  after_header-Claim :
      (res : DbResult) (resend : Step) (s : Session)
      → Early s
      → Sends resend
      → Claim env (after_header env res resend s)
  unfolding after_header output_result_header is_done is_failure is_error is_special written
  after_header-Claim res resend s v next = by_names (names_pending s) refl
    where
      again : Session → Session
      again s' = set_state State.db_idle (set_has_names s')

      header : Bool → Bool → Rc × Session
      header names columns =
          if names
          then (if res.error_code == 0 then Rc.done else Rc.error, s)
          else let w = written res s in
            if columns
            then w
            else if is_ok w.0
            then (Rc.done, done env Ending.complete w.1)
            else (Rc.error, w.1)

      k : Bool → Rc → Step
      k names rc s' =
          if is_done rc
          then if names then resend (again s') else (Rc.done, s')
          else recv_cols env resend s'

      by_error :
          (b : Bool)
          → let rc = if b then Rc.done else Rc.error in
            Claim env (unless_failed (rc, s) (k true rc))
      by_error true =
          next (again s) (record { stream = v.0.stream; same = v.0.same; fits = v.0.fits }, v.1)
      by_error false = error-Claim env s

      by_columns :
          (b : Bool)
          → names_pending s ≡ false
          → not (res.column_count == 0) ≡ b
          → Claim env (unless_failed (header false b) (k false (header false b).0))
      by_columns true named e = columns-Claim res resend (λ s'. (Rc.done, s')) s v.0 named
      by_columns false named e =
          no_columns-Claim res (k false) s v.0 named (ground (arith, e)) (λ _. refl)

      by_names :
          (b : Bool)
          → names_pending s ≡ b
          → let h = header b (not (res.column_count == 0)) in Claim env (unless_failed h (k b h.0))
      by_names true e = by_error (res.error_code == 0)
      by_names false e = by_columns (not (res.column_count == 0)) e refl

  after_query-Claim :
      (reply : QueryReply) (resend : Step) (s : Session)
      → Early s
      → Sends resend
      → Claim env (after_query env reply resend s)
  unfolding after_query
  after_query-Claim (QueryReply.query_ok res) resend s v next =
      after_header-Claim res resend s v next
  after_query-Claim QueryReply.query_failed resend s v next = status-Claim s 500
  after_query-Claim (QueryReply.query_code n) resend s v next =
      by_code (n == no_such_table) (names_pending s)
    where
      gone : Claim env (Rc.done, done env (Ending.fails 410) s)
      gone = record {
        waits = λ h. absurd (ground (arith, h));
        delivers = λ _ willing. failed-Finished env 410 s willing v.0.stream v.0.same v.1;
      }

      by_code :
          (b c : Bool)
          → Claim env (
              if b
              then if c then resend (set_has_names s) else (Rc.done, done env (Ending.fails 410) s)
              else (Rc.status 500, s))
      by_code true true =
          next (set_has_names s)
            (record { stream = v.0.stream; same = v.0.same; fits = v.0.fits }, v.1)
      by_code true false = gone
      by_code false c = status-Claim s 500

  pub send_query-Claim : (qs : List QueryReply) → Sends (send_query env qs)
  unfolding send_query wait_query
  send_query-Claim [] s v = by_state s.req.state refl
    where
      begun : Session
      begun = start_query s

      waiting : Session
      waiting = on_write (timer true) (set_state State.db_send_query begun)

      flows : Flows begun
      flows = record { stream = v.0.stream; same = v.0.same; fits = v.0.fits }

      fresh : Claim env (Rc.again, waiting)
      fresh =
          again-Claim env waiting
            (record { stream = v.0.stream; same = v.0.same; fits = v.0.fits }, v.1)

      by_state :
          (st : State)
          → s.req.state ≡ st
          → Claim env (Rc.again, if is_send_query st then begun else waiting)
      by_state State.db_connect e = fresh
      by_state State.db_send_query e =
          again-Claim env begun (flows, subst (λ x. Phase x begun) (sym e) v.1)
      by_state State.db_recv_cols e = fresh
      by_state State.db_recv_rows e = fresh
      by_state State.db_idle e = fresh
  send_query-Claim (reply ∷ rest) s v =
      after_query-Claim reply (send_query env rest) _
        (record { stream = v.0.stream; same = v.0.same; fits = v.0.fits }, v.1)
        (send_query-Claim rest)
