-- ===== src/Processor/Resend.antt =====
-- src/ngx_http_drizzle_processor.c: a request whose query was started stays with its connection.
use drizzle_nginx_module.Prelude.{
  ◌≡◌, refl, ap, ◌∙◌, Bool, true, false, not, List, [], ◌∷◌, Option, none, some, ◌==◌,
  if◌then◌else◌, arith,
}
use drizzle_nginx_module.Nginx.{Rc, is_failure}
use drizzle_nginx_module.Peer.{Request, State, free_peer}
use drizzle_nginx_module.Connect.{
  Answer, Context, Failure, Next, next, finalize_request, close_left, is_ok,
}
use drizzle_nginx_module.Connect.Retry.{next-retries}
use drizzle_nginx_module.Output.Atoms.{DbResult, write_header}
use drizzle_nginx_module.Session.{
  on_write, timer, complete, fails, ConReply, QueryReply, Session, Env, Step, Seen, lift, set_state,
  set_has_names, names_pending, context, ended_with, finalize, Ending, done,
}
use drizzle_nginx_module.Reception.{see, recv_cols}
use drizzle_nginx_module.Reception.Keeps.{Kept, recv_cols-Keeps, recv_rows-Keeps}
use drizzle_nginx_module.Processor.{
  start_query, is_send_query, wait_query, is_done, no_such_table, output_result_header,
  after_header, after_query, send_query, connect, dispatch, went_on, upstream_next, settle,
  process_events,
}

abbrev Started : Session → Type 0
Started s = s.req.query_started ≡ true

finalize_request-Started :
    (ctx : Context) (rc : Rc) (s t : Request) (a : Answer)
    → finalize_request ctx rc s ≡ some (a, t)
    → t.query_started ≡ s.query_started
unfolding finalize_request close_left free_peer
finalize_request-Started ctx rc s t a e = ground arith

ended_with-Started :
    (o : Option (Answer × Request)) (s : Session)
    → ((a : Answer) (t : Request) → o ≡ some (a, t) → t.query_started ≡ s.req.query_started)
    → Started s
    → Started (ended_with o s)
ended_with-Started none s k h = h
ended_with-Started (some (a, t)) s k h = k a t refl ∙ h

finalize-Started : (rc : Rc) (s : Session) → Started s → Started (finalize rc s)
unfolding finalize
finalize-Started rc s h =
    ended_with-Started (finalize_request (context s) rc s.req) s
      (λ a t e. finalize_request-Started (context s) rc s.req t a e) h

module _ (env : Env) where
  done-Started : (how : Ending) (s : Session) → Started s → Started (done env how s)
  unfolding done
  done-Started complete s h = finalize-Started _ _ h
  done-Started (fails n) s h = finalize-Started _ _ h

  Started-Kept :
      (resend : Step)
      → ((s : Session) → Started (resend s).1)
      → Kept env resend Started (λ r. Started r.1)
  Started-Kept resend k = record {
    out = λ s o h. h;
    saw = λ s x h. h;
    read = λ s f h. h;
    write = λ s f h. h;
    state = λ s st h. h;
    row = λ s n h. h;
    db = λ s d h. h;
    pauses = λ s o t b w h. h;
    result = λ rc s e h. h;
    ends = λ s h. done-Started Ending.complete s h;
    again = λ s e h. k (set_has_names s);
  }

  header-Started :
      (res : DbResult) (s : Session) → Started s → Started (output_result_header env res s).1
  unfolding output_result_header
  header-Started res s h = go (names_pending s) (not (res.column_count == 0)) (is_ok written.0)
    where
      written : Rc × Session
      written = lift (write_header env.client env.conf res) (see (Seen.seen_header res) s)

      go :
          (a b c : Bool)
          → let r : Rc × Session =
              if a
              then (if res.error_code == 0 then Rc.done else Rc.error, s)
              else if b
              then written
              else if c
              then (Rc.done, done env Ending.complete written.1)
              else (Rc.error, written.1) in
            Started r.1
      go true b c = h
      go false true c = h
      go false false true = done-Started Ending.complete written.1 h
      go false false false = h

  after_header-Started :
      (res : DbResult) (resend : Step) (s : Session)
      → ((t : Session) → Started (resend t).1)
      → Started s
      → Started (after_header env res resend s).1
  unfolding after_header
  after_header-Started res resend s k h =
      go (is_failure header.0) (is_done header.0) (names_pending s)
    where
      header : Rc × Session
      header = output_result_header env res s

      go :
          (a b c : Bool)
          → let r : Rc × Session =
              if a
              then header
              else if b
              then if c
                then resend (set_state State.db_idle (set_has_names header.1))
                else (Rc.done, header.1)
              else recv_cols env resend header.1 in
            Started r.1
      go true b c = header-Started res s h
      go false true true = k _
      go false true false = header-Started res s h
      go false false c =
          recv_cols-Keeps env resend Started (λ r. Started r.1) (Started-Kept resend k) header.1
            (header-Started res s h)

  after_query-Started :
      (reply : QueryReply) (resend : Step) (s : Session)
      → ((t : Session) → Started (resend t).1)
      → Started s
      → Started (after_query env reply resend s).1
  unfolding after_query
  after_query-Started (QueryReply.query_ok res) resend s k h = after_header-Started res resend s k h
  after_query-Started QueryReply.query_failed resend s k h = h
  after_query-Started (QueryReply.query_code n) resend s k h =
      go (n == no_such_table) (names_pending s)
    where
      go :
          (a b : Bool)
          → let r : Rc × Session =
              if a
              then if b then resend (set_has_names s) else (Rc.done, done env (Ending.fails 410) s)
              else (Rc.status 500, s) in
            Started r.1
      go true true = k _
      go true false = done-Started (Ending.fails 410) s h
      go false b = h

  send_query-Started : (qs : List QueryReply) (s : Session) → Started (send_query env qs s).1
  unfolding send_query wait_query
  send_query-Started [] s = go (is_send_query s.req.state)
    where
      go :
          (b : Bool)
          → Started (
              if b
              then start_query s
              else on_write (timer true) (set_state State.db_send_query (start_query s)))
      go true = refl
      go false = refl
  send_query-Started (reply ∷ rest) s =
      after_query-Started reply (send_query env rest) _ (send_query-Started rest) refl

  pub dispatch-Started : (st : State) (s : Session) → Started s → Started (dispatch env st s).1
  unfolding dispatch connect
  dispatch-Started State.db_connect s h = go s.db.connects
    where
      go : (cs : List ConReply) → Started (connect env cs s).1
      go [] = h
      go (ConReply.con_failed ∷ rest) = h
      go (ConReply.con_ok ∷ rest) = send_query-Started s.db.queries _
  dispatch-Started State.db_idle s h = send_query-Started s.db.queries s
  dispatch-Started State.db_send_query s h = send_query-Started s.db.queries s
  dispatch-Started State.db_recv_cols s h =
      let resend : Step = λ s. send_query env s.db.queries s in
      recv_cols-Keeps env resend Started (λ r. Started r.1)
        (Started-Kept resend (λ t. send_query-Started t.db.queries t)) s h
  dispatch-Started State.db_recv_rows s h =
      let resend : Step = λ s. send_query env s.db.queries s in
      recv_rows-Keeps env resend Started (λ r. Started r.1)
        (Started-Kept resend (λ t. send_query-Started t.db.queries t)) s h

module _ (env : Env) (f g : Session → Session) where
  went_on-same :
      (o : Option Next)
      → ((t : Request) → ¬ (o ≡ some (Next.connects t)))
      → (s : Session) → went_on env f o s ≡ went_on env g o s
  went_on-same none k s = refl
  went_on-same (some (Next.connects t)) k s = absurd (k t refl)
  went_on-same (some (Next.ends r)) k s = refl

  pub upstream_next-same :
      (ft : Failure) (s : Session) → Started s → upstream_next env f ft s ≡ upstream_next env g ft s
  unfolding upstream_next
  upstream_next-same ft s h =
      went_on-same (next (context s) ft s.req)
        (λ t e. let r = next-retries (context s) ft s.req t e in ground (arith, r.0, h)) s

  settle-same : (r : Rc × Session) → Started r.1 → settle env f r ≡ settle env g r
  unfolding settle
  settle-same (Rc.error, s) h = ap (λ t. (Rc.error, t)) (upstream_next-same Failure.ft_error s h)
  settle-same (Rc.again, s) h = refl
  settle-same (Rc.ok, s) h = refl
  settle-same (Rc.busy, s) h = refl
  settle-same (Rc.done, s) h = refl
  settle-same (Rc.declined, s) h = refl
  settle-same (Rc.status n, s) h = refl

  -- Once the query of a request was started, even in part, no outcome of its events takes the request to another
  -- connection: the result of handling them does not depend on what ngx_http_upstream_dbd_connect would do.
  pub process_events-same :
      (s : Session) → s.req.query_started ≡ true → process_events env f s ≡ process_events env g s
  unfolding process_events
  process_events-same s h = go s.out.output_paused
    where
      go :
          (b : Bool)
          → let r = dispatch env s.req.state s in
            (if b then (Rc.again, s) else settle env f r)
            ≡ (if b then (Rc.again, s) else settle env g r)
      go true = refl
      go false = settle-same (dispatch env s.req.state s) (dispatch-Started env s.req.state s h)
