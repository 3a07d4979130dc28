-- ===== src/Drain/Run.antt =====
-- The life of a request between its connection and its end: replies of the database arrive, its events are handled
-- (src/ngx_http_drizzle_processor.c), the client takes output or its timers run, and its write handler drains what is
-- pending (src/ngx_http_drizzle_output.c), in any order.
use drizzle_nginx_module.Prelude.{◌^◌, ◌<◌, ◌≡◌, refl, subst, ◌⊎◌, ◌++◌, All}
use drizzle_nginx_module.Nginx.{Rc}
use drizzle_nginx_module.Peer.{State}
use drizzle_nginx_module.Output.Succeeds.{IsWilling}
use drizzle_nginx_module.Output.Buffers.{bytes_of}
use drizzle_nginx_module.Output.Stream.{held}
use drizzle_nginx_module.Session.{Db, Session, Env, ClientWrite}
use drizzle_nginx_module.Session.Flow.{Phase, PieceFits, encode}
use drizzle_nginx_module.Reception.Flow.{IsSession}
use drizzle_nginx_module.Processor.{process_events}
use drizzle_nginx_module.Processor.Events.{process_events-Claim}
use drizzle_nginx_module.Drain.{waits, resumed, set_client_write, drain}
use drizzle_nginx_module.Drain.Flow.{keep-IsSession, Drained, drain-Drained}

-- The request goes on after a call of ngx_http_drizzle_process_events.
abbrev pub Lives : Rc × Session → Type 0
Lives r = (r.0 ≡ Rc.ok) ⊎ (r.0 ≡ Rc.again)

-- A step of a request that goes on. A write event resumes the reading, and then the events are handled.
pub data Moves (env : Env) (reconnect : Session → Session) : Session → Session → Type 0 where
  arrives :
      (s : Session) (db : Db)
      → All PieceFits db.fields
      → Moves env reconnect s (record s { db = db })
  ticks : (s : Session) (w : ClientWrite) → Moves env reconnect s (set_client_write w s)
  handles :
      (s : Session)
      → Lives (process_events env reconnect s)
      → Moves env reconnect s (process_events env reconnect s).1
  keeps_waiting : (s s' : Session) → drain env s ≡ waits s' → Moves env reconnect s s'
  resumes :
      (s s' : Session)
      → drain env s ≡ resumed s'
      → Lives (process_events env reconnect s')
      → Moves env reconnect s (process_events env reconnect s').1

pub data Reach (env : Env) (reconnect : Session → Session) : Session → Session → Type 0 where
  here : (s : Session) → Reach env reconnect s s
  after :
      (s t u : Session)
      → Reach env reconnect s t
      → Moves env reconnect t u
      → Reach env reconnect s u

Phase-db : (st : State) (s : Session) (db : Db) → Phase st s → Phase st (record s { db = db })
Phase-db State.db_connect s db v = v
Phase-db State.db_idle s db v = v
Phase-db State.db_send_query s db v = v
Phase-db State.db_recv_cols s db v = v
Phase-db State.db_recv_rows s db v = v

module _ (env : Env) (small : env.conf.buf_size < 2 ^ 64) (reconnect : Session → Session) where
  Moves-IsSession : (s t : Session) → Moves env reconnect s t → IsSession s → IsSession t
  Moves-IsSession s _ (arrives _ db fits) v =
      (record { stream = v.0.stream; same = v.0.same; fits = fits }, Phase-db s.req.state s db v.1)
  Moves-IsSession s _ (ticks _ w) v =
      keep-IsSession s (set_client_write w s) v.0.stream refl (refl, refl, refl, refl) v
  Moves-IsSession s _ (handles _ l) v = (process_events-Claim env small reconnect s v).waits l
  Moves-IsSession s t (keeps_waiting _ _ e) v = subst (Drained env) e (drain-Drained env s v)
  Moves-IsSession s _ (resumes _ s' e l) v =
      let w = subst (Drained env) e (drain-Drained env s v) in
      (process_events-Claim env small reconnect s' w.0).waits l

  reach-IsSession : (s t : Session) → Reach env reconnect s t → IsSession s → IsSession t
  reach-IsSession s _ (here _) v = v
  reach-IsSession s t (after _ u _ r m) v = Moves-IsSession u t m (reach-IsSession s u r v)

  -- Over every run of a request that goes on and began with its invariant, with buffers smaller than 2^64 bytes and
  -- fields whose pieces have the length that libdrizzle states: what the output filter got, what is queued and what
  -- is in the last buffer are together the RDS encoding of what the database delivered, so the client's bytes are
  -- always a prefix of it.
  pub reach-wire :
      (s t : Session)
      → IsSession s
      → Reach env reconnect s t
      → t.out.wire ++ (bytes_of t.out.out_bufs ++ held t.out.out_buf) ≡ encode t.seen
  reach-wire s t v r = (reach-IsSession s t r v).0.same

  -- Once such a run ends with NGX_DONE and nginx refused nothing, everything that the database delivered has gone to
  -- the output filter, encoded and in order.
  pub reach-delivers :
      (s t : Session)
      → IsSession s
      → Reach env reconnect s t
      → IsWilling env.client
      → let r = process_events env reconnect t in r.0 ≡ Rc.done → r.1.out.wire ≡ encode r.1.seen
  reach-delivers s t v r w h =
      (process_events-Claim env small reconnect t (reach-IsSession s t r v)).delivers h w
