-- ===== src/Processor/Query.antt =====
-- src/ngx_http_drizzle_processor.c: which queries libdrizzle takes for a request, and in which order.
use drizzle_nginx_module.Prelude.{
  ℕ, ◌≡◌, refl, ap, ◌∙◌, inl, inr, ◌⊎◌, Bool, true, false, not, ◌&&◌, List, [], ◌∷◌, Option, none,
  some, ◌==◌, if◌then◌else◌, arith,
}
use drizzle_nginx_module.Nginx.{Rc, is_failure, is_error, is_special}
use drizzle_nginx_module.Peer.{Request, State}
use drizzle_nginx_module.Connect.{Answer, finalize_request, is_ok}
use drizzle_nginx_module.Output.Atoms.{write_header}
use drizzle_nginx_module.Output.Codes.{write_header-OkOrError}
use drizzle_nginx_module.Session.{
  QueryReply, Session, Env, Step, Seen, lift, set_state, set_has_names, names_pending, context,
  ended_with, on_write, timer, complete, fails, finalize, Ending, done,
}
use drizzle_nginx_module.Reception.{see, unless_failed, leave_queries, recv_cols}
use drizzle_nginx_module.Reception.Keeps.{Kept, recv_cols-Keeps}
use drizzle_nginx_module.Processor.{
  query_text, start_query, is_send_query, wait_query, is_done, no_such_table, output_result_header,
  after_header, after_query, send_query,
}

-- Which queries were taken, when the request's own query may be sent and while it may not.
abbrev Asks : Session → Session → Type 0
Asks s t = (t.asked ≡ s.asked) ⊎ (t.asked ≡ s.query ∷ s.asked)

abbrev pub NamesFirst : Session → Session → Type 0
NamesFirst s t =
    (t.asked ≡ s.asked)
    ⊎ ((t.asked ≡ s.req.set_names_query ∷ s.asked)
        ⊎ (t.asked ≡ s.query ∷ (s.req.set_names_query ∷ s.asked)))

ended_with-asked : (o : Option (Answer × Request)) (s : Session) → (ended_with o s).asked ≡ s.asked
ended_with-asked none s = refl
ended_with-asked (some r) s = refl

finalize-asked : (rc : Rc) (s : Session) → (finalize rc s).asked ≡ s.asked
unfolding finalize
finalize-asked rc s = ended_with-asked (finalize_request (context s) rc s.req) s

not_pending : (s : Session) → names_pending (set_has_names s) ≡ false
not_pending s = go s.req.enable_charset
  where
    go : (b : Bool) → (b && not true) ≡ false
    go true = refl
    go false = refl

module _ (env : Env) where
  done-asked : (how : Ending) (s : Session) → (done env how s).asked ≡ s.asked
  unfolding done
  done-asked complete s = finalize-asked _ _
  done-asked (fails n) s = finalize-asked _ _

  abbrev Received : List (List ℕ) → Session → Type 0
  Received a t = (t.asked ≡ a) × (names_pending t ≡ false)

  asked-Kept :
      (a : List (List ℕ)) (resend : Step) → Kept env resend (Received a) (λ r. r.1.asked ≡ a)
  asked-Kept a resend = record {
    out = λ t o h. h;
    saw = λ t x h. h;
    read = λ t f h. h;
    write = λ t f h. h;
    state = λ t st h. h;
    row = λ t n h. h;
    db = λ t d h. h;
    pauses = λ t o m b w h. h;
    result = λ rc t e h. h.0;
    ends = λ t h. done-asked Ending.complete t ∙ h.0;
    again = λ t e h. absurd (ground (arith, e, h.1));
  }

  -- With the character set settled, nothing more is asked after a query.
  after_query-asked :
      (reply : QueryReply) (resend : Step) (s : Session)
      → names_pending s ≡ false
      → (after_query env reply resend s).1.asked ≡ s.asked
  unfolding after_query after_header output_result_header is_done is_failure is_error is_special
  after_query-asked QueryReply.query_failed resend s h = refl
  after_query-asked (QueryReply.query_code n) resend s h =
      go (n == no_such_table) (names_pending s) h
    where
      go :
          (a b : Bool)
          → b ≡ false
          → let r : Rc × Session =
              if a
              then if b then resend (set_has_names s) else (Rc.done, done env (Ending.fails 410) s)
              else (Rc.status 500, s) in
            r.1.asked ≡ s.asked
      go a true e = absurd (cc)
      go true false e = done-asked (Ending.fails 410) s
      go false false e = refl
  after_query-asked (QueryReply.query_ok res) resend s h = by_names (names_pending s) refl
    where
      w : Rc × Session
      w = lift (write_header env.client env.conf res) (see (Seen.seen_header res) s)

      follow : Bool → Rc × Session → Rc × Session
      follow names header = unless_failed header λ u.
          if is_done header.0
          then if names then resend (set_state State.db_idle (set_has_names u)) else (Rc.done, u)
          else recv_cols env resend u

      received : (u : Session) → Received s.asked u → (recv_cols env resend u).1.asked ≡ s.asked
      received =
          recv_cols-Keeps env resend (Received s.asked) (λ r. r.1.asked ≡ s.asked)
            (asked-Kept s.asked resend)

      written :
          (r : Rc × Session)
          → Received s.asked r.1
          → (r.0 ≡ Rc.ok) ⊎ (r.0 ≡ Rc.error)
          → (follow false r).1.asked ≡ s.asked
      written (Rc.ok, u) g e = received u g
      written (Rc.error, u) g e = g.0
      written (_, u) g e = absurd (ground (arith, e))

      by_ok :
          (b : Bool)
          → let header : Rc × Session =
              if b then (Rc.done, done env Ending.complete w.1) else (Rc.error, w.1) in
            (follow false header).1.asked ≡ s.asked
      by_ok true = done-asked Ending.complete w.1
      by_ok false = refl

      by_columns :
          (b : Bool)
          → let header : Rc × Session =
              if b
              then w
              else if is_ok w.0
              then (Rc.done, done env Ending.complete w.1)
              else (Rc.error, w.1) in
            (follow false header).1.asked ≡ s.asked
      by_columns true = written w (refl, h) (write_header-OkOrError env.client env.conf res s.out)
      by_columns false = by_ok (is_ok w.0)

      by_names :
          (b : Bool)
          → names_pending s ≡ b
          → let header : Rc × Session =
              if b
              then (if res.error_code == 0 then Rc.done else Rc.error, s)
              else if not (res.column_count == 0)
              then w
              else if is_ok w.0
              then (Rc.done, done env Ending.complete w.1)
              else (Rc.error, w.1) in
            (follow b header).1.asked ≡ s.asked
      by_names true e = absurd (ground (arith, e, h))
      by_names false e = by_columns (not (res.column_count == 0))

  -- The wait for libdrizzle to take the query.
  wait-asked : (s : Session) → (wait_query (start_query s)).asked ≡ s.asked
  unfolding wait_query
  wait-asked s = go (is_send_query s.req.state)
    where
      go :
          (b : Bool)
          → let t : Session =
              if b
              then start_query s
              else on_write (timer true) (set_state State.db_send_query (start_query s)) in
            t.asked ≡ s.asked
      go true = refl
      go false = refl

  -- Without a character set to choose, the request's query is sent, and only once.
  pub send_query-Asks :
      (qs : List QueryReply) (s : Session)
      → names_pending s ≡ false
      → Asks s (send_query env qs s).1
  unfolding send_query query_text
  send_query-Asks [] s h = inl (wait-asked s)
  send_query-Asks (reply ∷ rest) s h = inr (
      after_query-asked reply (send_query env rest) _ h
      ∙ ap (λ b. (if b then s.req.set_names_query else s.query) ∷ s.asked) h)

  -- While the choice of the character set is pending, the result of its query is no result of the request.
  after_names :
      (reply : QueryReply) (resend : Step) (s t : Session)
      → names_pending t ≡ true
      → NamesFirst s t
      → ((u : Session)
          → names_pending u ≡ false
          → u.asked ≡ t.asked
          → u.query ≡ t.query
          → NamesFirst s (resend u).1)
      → NamesFirst s (after_query env reply resend t).1
  unfolding after_query after_header output_result_header is_done is_failure is_error is_special
  after_names QueryReply.query_failed resend s t h n k = n
  after_names (QueryReply.query_code c) resend s t h n k =
      go (c == no_such_table) (names_pending t) h
    where
      go :
          (a b : Bool)
          → b ≡ true
          → let r : Rc × Session =
              if a
              then if b then resend (set_has_names t) else (Rc.done, done env (Ending.fails 410) t)
              else (Rc.status 500, t) in
            NamesFirst s r.1
      go a false e = absurd (cc)
      go true true e = k (set_has_names t) (not_pending t) refl refl
      go false true e = n
  after_names (QueryReply.query_ok res) resend s t h n k =
      by_names (names_pending t) (not (res.column_count == 0)) h
    where
      w : Rc × Session
      w = lift (write_header env.client env.conf res) (see (Seen.seen_header res) t)

      follow : Bool → Rc × Session → Rc × Session
      follow names header = unless_failed header λ u.
          if is_done header.0
          then if names then resend (set_state State.db_idle (set_has_names u)) else (Rc.done, u)
          else recv_cols env resend u

      by_error : (b : Bool) → NamesFirst s (follow true (if b then Rc.done else Rc.error, t)).1
      by_error true = k (set_state State.db_idle (set_has_names t)) (not_pending t) refl refl
      by_error false = n

      by_names :
          (b c : Bool)
          → b ≡ true
          → let header : Rc × Session =
              if b
              then (if res.error_code == 0 then Rc.done else Rc.error, t)
              else if c
              then w
              else if is_ok w.0
              then (Rc.done, done env Ending.complete w.1)
              else (Rc.error, w.1) in
            NamesFirst s (follow b header).1
      by_names false c e = absurd (cc)
      by_names true c e = by_error (res.error_code == 0)

  -- While the choice of the character set is pending, whatever the database replies, libdrizzle takes nothing, or the
  -- query that sets the character set, or that query and after it the request's own, once; never the request's
  -- query before the character set.
  pub send_query-NamesFirst :
      (qs : List QueryReply) (s : Session)
      → names_pending s ≡ true
      → NamesFirst s (send_query env qs s).1
  unfolding send_query query_text
  send_query-NamesFirst [] s h = inl (wait-asked s)
  send_query-NamesFirst (reply ∷ rest) s h =
      after_names reply (send_query env rest) s taken h (inr (inl asked)) λ u p same query.
        elim (send_query-Asks rest u p) [
          | inl e ↦ inr (inl (e ∙ same ∙ asked))
          | inr e ↦
              inr (inr (e ∙ ap (λ q. q ∷ u.asked) query ∙ ap (λ xs. s.query ∷ xs) (same ∙ asked)))
        ]
    where
      begun : Session
      begun = start_query s

      taken : Session
      taken =
          on_write (timer false)
            (leave_queries rest (record begun { asked = query_text begun ∷ begun.asked }))

      asked : taken.asked ≡ s.req.set_names_query ∷ s.asked
      asked = ap (λ b. (if b then s.req.set_names_query else s.query) ∷ s.asked) h
