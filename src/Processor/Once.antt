-- ===== src/Processor/Once.antt =====
-- src/ngx_http_drizzle_processor.c: how often a request is finalized while its events are handled.
use drizzle_nginx_module.Prelude.{
  ◌≡◌, refl, ap, ◌∙◌, inl, inr, ◌⊎◌, Bool, true, false, not, ◌||◌, List, [], ◌∷◌, Option, none,
  some, ◌==◌, if◌then◌else◌, arith,
}
use drizzle_nginx_module.Nginx.{Rc, is_failure, is_error, is_special}
use drizzle_nginx_module.Peer.{Request, State}
use drizzle_nginx_module.Connect.{Answer, Failure, Next, next, finalize_request, is_ok}
use drizzle_nginx_module.Connect.Retry.{next-retries}
use drizzle_nginx_module.Output.Buffers.{Output, output_bufs}
use drizzle_nginx_module.Output.Atoms.{DbResult, write_header}
use drizzle_nginx_module.Output.Codes.{output_bufs-OkOrFails, write_header-OkOrError}
use drizzle_nginx_module.Session.{
  ConReply, QueryReply, Session, Env, Step, Seen, lift, set_state, set_has_names, names_pending,
  context, ended_with, on_write, timer, complete, fails, finalize, Ending, done,
}
use drizzle_nginx_module.Reception.{see, unless_failed, recv_cols}
use drizzle_nginx_module.Reception.Keeps.{Kept, Stops, recv_cols-Keeps, recv_rows-Keeps}
use drizzle_nginx_module.Processor.Resend.{dispatch-Started}
use drizzle_nginx_module.Processor.{
  start_query, is_send_query, wait_query, is_done, is_positive, no_such_table, output_result_header,
  after_header, after_query, send_query, connect, dispatch, went_on, upstream_next, settle,
  process_events,
}

-- The request was finalized once more than `s`.
abbrev pub Ends : Session → Session → Type 0
Ends s t = (x : Option Answer) × (t.ended ≡ x ∷ s.ended)

-- A step that was not done has finalized nothing, and one that was done has finalized the request once.
abbrev Once : Session → Rc × Session → Type 0
Once s r = (Stops r.0 × (r.1.ended ≡ s.ended)) ⊎ ((r.0 ≡ Rc.done) × Ends s r.1)

ended_with-Ends : (o : Option (Answer × Request)) (s : Session) → Ends s (ended_with o s)
ended_with-Ends none s = (none, refl)
ended_with-Ends (some r) s = (some r.0, refl)

finalize-Ends : (rc : Rc) (s : Session) → Ends s (finalize rc s)
unfolding finalize
finalize-Ends rc s = ended_with-Ends (finalize_request (context s) rc s.req) s

module _ (env : Env) where
  done-Ends : (how : Ending) (s : Session) → Ends s (done env how s)
  unfolding done
  done-Ends complete s = finalize-Ends _ _
  done-Ends (fails n) s = finalize-Ends _ _

  abbrev SameEnds : Session → Session → Type 0
  SameEnds s t = t.ended ≡ s.ended

  -- An end of the request, seen from where its events began.
  done-Once : (how : Ending) (s t : Session) → t.ended ≡ s.ended → Once s (Rc.done, done env how t)
  done-Once how s t e = let (x, h) = done-Ends how t in inr (refl, (x, h ∙ ap (λ xs. x ∷ xs) e))

  Once-Kept :
      (s : Session) (resend : Step)
      → ((t : Session) → t.ended ≡ s.ended → Once s (resend t))
      → Kept env resend (SameEnds s) (Once s)
  Once-Kept s resend k = record {
    out = λ t o h. h;
    saw = λ t x h. h;
    read = λ t f h. h;
    write = λ t f h. h;
    state = λ t st h. h;
    row = λ t n h. h;
    db = λ t d h. h;
    pauses = λ t o m b w h. h;
    result = λ rc t e h. inl (e, h);
    ends = λ t h. done-Once Ending.complete s t h;
    again = λ t e h. k (set_has_names t) h;
  }

  after_header-Once :
      (res : DbResult) (resend : Step) (s t : Session)
      → ((u : Session) → u.ended ≡ s.ended → Once s (resend u))
      → t.ended ≡ s.ended
      → Once s (after_header env res resend t)
  unfolding after_header output_result_header is_done is_failure is_error is_special
  after_header-Once res resend s t k h = by_names (names_pending t)
    where
      w : Rc × Session
      w = lift (write_header env.client env.conf res) (see (Seen.seen_header res) t)

      received : (u : Session) → u.ended ≡ s.ended → Once s (recv_cols env resend u)
      received = recv_cols-Keeps env resend (SameEnds s) (Once s) (Once-Kept s resend k)

      follow : Bool → Rc × Session → Rc × Session
      follow names header = unless_failed header λ u.
          if is_done header.0
          then if names then resend (set_state State.db_idle (set_has_names u)) else (Rc.done, u)
          else recv_cols env resend u

      by_error : (b : Bool) → Once s (follow true (if b then Rc.done else Rc.error, t))
      by_error true = k (set_state State.db_idle (set_has_names t)) h
      by_error false = inl (inr refl, h)

      written :
          (r : Rc × Session)
          → r.1.ended ≡ s.ended
          → (r.0 ≡ Rc.ok) ⊎ (r.0 ≡ Rc.error)
          → Once s (follow false r)
      written (Rc.ok, u) g e = received u g
      written (Rc.error, u) g e = inl (inr refl, g)
      written (_, u) g e = absurd (ground (arith, e))

      by_ok :
          (b : Bool)
          → Once s (
              follow false (if b then (Rc.done, done env Ending.complete w.1) else (Rc.error, w.1)))
      by_ok true = done-Once Ending.complete s w.1 h
      by_ok false = inl (inr refl, h)

      by_columns :
          (b : Bool)
          → Once s (
              follow false (
                if b
                then w
                else if is_ok w.0
                then (Rc.done, done env Ending.complete w.1)
                else (Rc.error, w.1)))
      by_columns true = written w h (write_header-OkOrError env.client env.conf res t.out)
      by_columns false = by_ok (is_ok w.0)

      by_names :
          (b : Bool)
          → Once s (
              follow b (
                if b
                then (if res.error_code == 0 then Rc.done else Rc.error, t)
                else if not (res.column_count == 0)
                then w
                else if is_ok w.0
                then (Rc.done, done env Ending.complete w.1)
                else (Rc.error, w.1)))
      by_names true = by_error (res.error_code == 0)
      by_names false = by_columns (not (res.column_count == 0))

  after_query-Once :
      (reply : QueryReply) (resend : Step) (s t : Session)
      → ((u : Session) → u.ended ≡ s.ended → Once s (resend u))
      → t.ended ≡ s.ended
      → Once s (after_query env reply resend t)
  unfolding after_query is_failure is_error is_special
  after_query-Once (QueryReply.query_ok res) resend s t k h = after_header-Once res resend s t k h
  after_query-Once QueryReply.query_failed resend s t k h = inl (inr refl, h)
  after_query-Once (QueryReply.query_code n) resend s t k h =
      go (n == no_such_table) (names_pending t)
    where
      go :
          (a b : Bool)
          → Once s (
              if a
              then if b then resend (set_has_names t) else (Rc.done, done env (Ending.fails 410) t)
              else (Rc.status 500, t))
      go true true = k (set_has_names t) h
      go true false = done-Once (Ending.fails 410) s t h
      go false b = inl (inr refl, h)

  send_query-Once :
      (qs : List QueryReply) (s t : Session) → t.ended ≡ s.ended → Once s (send_query env qs t)
  unfolding send_query wait_query
  send_query-Once [] s t h = go (is_send_query t.req.state)
    where
      go :
          (b : Bool)
          → Once s (
            Rc.again,
            if b
                then start_query t
                else on_write (timer true) (set_state State.db_send_query (start_query t)),
          )
      go true = inl (inl refl, h)
      go false = inl (inl refl, h)
  send_query-Once (reply ∷ rest) s t h =
      after_query-Once reply (send_query env rest) s _ (send_query-Once rest s) h

  dispatch-Once : (st : State) (s : Session) → Once s (dispatch env st s)
  unfolding dispatch connect is_failure is_error
  dispatch-Once State.db_connect s = go s.db.connects
    where
      go : (cs : List ConReply) → Once s (connect env cs s)
      go [] = inl (inl refl, refl)
      go (ConReply.con_failed ∷ rest) = inl (inr refl, refl)
      go (ConReply.con_ok ∷ rest) = send_query-Once s.db.queries s _ refl
  dispatch-Once State.db_idle s = send_query-Once s.db.queries s s refl
  dispatch-Once State.db_send_query s = send_query-Once s.db.queries s s refl
  dispatch-Once State.db_recv_cols s =
      let resend : Step = λ s. send_query env s.db.queries s in
      recv_cols-Keeps env resend (SameEnds s) (Once s)
        (Once-Kept s resend (λ t. send_query-Once t.db.queries s t)) s refl
  dispatch-Once State.db_recv_rows s =
      let resend : Step = λ s. send_query env s.db.queries s in
      recv_rows-Keeps env resend (SameEnds s) (Once s)
        (Once-Kept s resend (λ t. send_query-Once t.db.queries s t)) s refl

  went_on-Ends :
      (reconnect : Session → Session) (o : Option Next) (s : Session)
      → ((t : Request) → ¬ (o ≡ some (Next.connects t)))
      → Ends s (went_on env reconnect o s)
  went_on-Ends reconnect none s k = ended_with-Ends none s
  went_on-Ends reconnect (some (Next.connects t)) s k = absurd (k t refl)
  went_on-Ends reconnect (some (Next.ends r)) s k = ended_with-Ends (some r) s

  -- The failure of a request whose query was started finalizes it.
  upstream_next-Ends :
      (reconnect : Session → Session) (ft : Failure) (s : Session)
      → s.req.query_started ≡ true
      → Ends s (upstream_next env reconnect ft s)
  unfolding upstream_next
  upstream_next-Ends reconnect ft s h =
      went_on-Ends reconnect (next (context s) ft s.req) s
        (λ t e. let r = next-retries (context s) ft s.req t e in ground (arith, r.0, h))

  -- The request goes on and was not finalized, or it was finalized once, and the code says so.
  abbrev pub EndsOnce : Session → Rc × Session → Type 0
  EndsOnce s r =
      (((r.0 ≡ Rc.ok) ⊎ (r.0 ≡ Rc.again)) × (r.1.ended ≡ s.ended))
      ⊎ (((r.0 ≡ Rc.done) ⊎ (r.0 ≡ Rc.error)) × Ends s r.1)

  Ends-after : (s t u : Session) → t.ended ≡ s.ended → Ends t u → Ends s u
  Ends-after s t u e (x, h) = (x, h ∙ ap (λ xs. x ∷ xs) e)

  wait-EndsOnce :
      (reconnect : Session → Session) (s t : Session)
      → t.ended ≡ s.ended
      → EndsOnce s (settle env reconnect (Rc.again, t))
  unfolding settle is_positive is_failure is_error is_special
  wait-EndsOnce reconnect s t e = by_paused t.out.output_paused
    where
      r : Rc × Output
      r = output_bufs env.client env.conf.enable_module_header t.out

      failed : (u : Session) → u.ended ≡ s.ended → EndsOnce s (Rc.error, finalize (Rc.status 500) u)
      failed u h = inr (
        inr refl,
        Ends-after s u (finalize (Rc.status 500) u) h (finalize-Ends (Rc.status 500) u),
      )

      by_code :
          (rc : Rc) (u : Session)
          → (rc ≡ Rc.ok) ⊎ (is_failure rc ≡ true)
          → u.ended ≡ s.ended
          → EndsOnce s (
              if is_error rc || is_positive rc
              then (Rc.error, finalize (Rc.status 500) u)
              else (rc, u))
      by_code Rc.ok u h g = inl (inl refl, g)
      by_code Rc.error u h g = failed u g
      by_code (Rc.status n) u h g = failed u g
      by_code _ u (inl h) g = absurd (cc)
      by_code _ u (inr h) g = absurd (ground (arith, h))

      by_paused :
          (b : Bool)
          → EndsOnce s (
              if b
              then (Rc.again, t)
              else if is_error r.0 || is_positive r.0
              then (Rc.error, finalize (Rc.status 500) (record t { out = r.1 }))
              else (r.0, record t { out = r.1 }))
      by_paused true = inl (inr refl, e)
      by_paused false =
          by_code r.0 (record t { out = r.1 })
            (output_bufs-OkOrFails env.client env.conf.enable_module_header t.out) e

  settle-EndsOnce :
      (reconnect : Session → Session) (s : Session) (r : Rc × Session)
      → r.1.req.query_started ≡ true
      → Once s r
      → EndsOnce s (settle env reconnect r)
  unfolding settle is_failure is_error
  settle-EndsOnce reconnect s (Rc.error, t) h (inl (_, e)) = inr (
    inr refl,
    Ends-after s t (upstream_next env reconnect Failure.ft_error t) e
        (upstream_next-Ends reconnect Failure.ft_error t h),
  )
  settle-EndsOnce reconnect s (Rc.again, t) h (inl (_, e)) = wait-EndsOnce reconnect s t e
  settle-EndsOnce reconnect s (Rc.status n, t) h (inl (inr f, e)) =
      rw f (
        inr (inr refl, Ends-after s t (finalize (Rc.status n) t) e (finalize-Ends (Rc.status n) t)))
  settle-EndsOnce reconnect s (Rc.done, t) h (inr (_, e)) = inr (inl refl, e)
  settle-EndsOnce reconnect s (_, t) h (inl (inl f, e)) = absurd (cc)
  settle-EndsOnce reconnect s (_, t) h (inl (inr f, e)) = absurd (ground (arith, f))
  settle-EndsOnce reconnect s (_, t) h (inr (f, e)) = absurd (cc)

  -- Handling the events of a request whose query was started finalizes the request exactly when it returns neither
  -- NGX_OK nor NGX_AGAIN, and then exactly once; it returns NGX_OK, NGX_AGAIN, NGX_DONE or NGX_ERROR.
  pub process_events-EndsOnce :
      (reconnect : Session → Session) (s : Session)
      → s.req.query_started ≡ true
      → EndsOnce s (process_events env reconnect s)
  unfolding process_events
  process_events-EndsOnce reconnect s h = go s.out.output_paused
    where
      go :
          (b : Bool)
          → EndsOnce s
              (if b then (Rc.again, s) else settle env reconnect (dispatch env s.req.state s))
      go true = inl (inr refl, refl)
      go false =
          settle-EndsOnce reconnect s (dispatch env s.req.state s)
            (dispatch-Started env s.req.state s h) (dispatch-Once s.req.state s)
