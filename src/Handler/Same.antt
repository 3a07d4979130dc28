-- ===== src/Handler/Same.antt =====
-- The handlers of src/ngx_http_drizzle_handler.c: a request whose query was started stays with its connection.
use drizzle_nginx_module.Prelude.{◌≡◌, ap, Bool, true, false, not, if◌then◌else◌, arith}
use drizzle_nginx_module.Connect.{Failure, is_ok}
use drizzle_nginx_module.Status.{Sprintf}
use drizzle_nginx_module.Session.{Session, Env}
use drizzle_nginx_module.Processor.{upstream_next, process_events}
use drizzle_nginx_module.Processor.Resend.{upstream_next-same, process_events-same}
use drizzle_nginx_module.Handler.{
  Wakeup, test_connect, set_thread_id, set_thread_id_variable, handle_event,
}

module _ (sp : Sprintf) (env : Env) where
  set_thread_id_variable-Started :
      (wake : Wakeup) (s : Session)
      → s.req.query_started ≡ true
      → (set_thread_id_variable sp env wake s).1.req.query_started ≡ true
  unfolding set_thread_id_variable set_thread_id
  set_thread_id_variable-Started wake s h = ground (arith, h)

  -- Once the query of a request was started, even in part, no event of its connection takes the request to another
  -- one, whether it is handled, timed out or found the connection broken: what the handler leaves does not depend on what
  -- ngx_http_upstream_dbd_connect would do.
  pub handle_event-same :
      (f g : Session → Session) (wake : Wakeup) (s : Session)
      → s.req.query_started ≡ true
      → handle_event sp env f wake s ≡ handle_event sp env g wake s
  unfolding handle_event
  handle_event-same f g wake s h = go wake.timed_out (not (is_ok (test_connect wake.socket)))
    where
      s' : Session
      s' = record s { request_sent = true }

      named : Session
      named = (set_thread_id_variable sp env wake s').1

      handled : (Session → Session) → Bool → Bool → Session
      handled k a b =
          if a
          then upstream_next env k Failure.ft_timeout named
          else if b
          then upstream_next env k Failure.ft_error s'
          else (process_events env k s').1

      go : (a b : Bool) → handled f a b ≡ handled g a b
      go true b =
          upstream_next-same env f g Failure.ft_timeout named
            (set_thread_id_variable-Started wake s' h)
      go false true = upstream_next-same env f g Failure.ft_error s' h
      go false false = ap (λ r. r.1) (process_events-same env f g s' h)
