-- ===== src/Processor/Events.antt =====
-- ngx_http_drizzle_process_events of src/ngx_http_drizzle_processor.c as a flow of bytes: the states, and what follows them.
use drizzle_nginx_module.Prelude.{
  ℕ, ◌^◌, ◌<◌, ◌≡◌, refl, sym, ◌∙◌, subst, inl, inr, ◌⊎◌, Bool, true, false, ◌||◌, List, [], ◌∷◌,
  if◌then◌else◌, arith,
}
use drizzle_nginx_module.Nginx.{Rc, is_failure, is_error, is_special}
use drizzle_nginx_module.Peer.{State}
use drizzle_nginx_module.Output.Buffers.{Output, output_bufs}
use drizzle_nginx_module.Output.Stream.Steps.{output_bufs-KeepsOk}
use drizzle_nginx_module.Output.Codes.{output_bufs-OkOrFails}
use drizzle_nginx_module.Session.{ConReply, Session, Env, finalize}
use drizzle_nginx_module.Session.Flow.{Phase}
use drizzle_nginx_module.Reception.Flow.{IsSession, Claim, error-Claim, again-Claim}
use drizzle_nginx_module.Reception.Rows.{recv_cols-Claim, recv_rows-Claim}
use drizzle_nginx_module.Processor.Flow.{send_query-Claim, status-Claim}
use drizzle_nginx_module.Processor.{
  is_positive, send_query, connect, dispatch, settle, process_events,
}

module _ (env : Env) (small : env.conf.buf_size < 2 ^ 64) where
  connect-Claim :
      (cs : List ConReply) (s : Session) → IsSession s → s.seen ≡ [] → Claim env (connect env cs s)
  unfolding connect
  connect-Claim [] s v e = again-Claim env s v
  connect-Claim (ConReply.con_failed ∷ rest) s v e = error-Claim env _
  connect-Claim (ConReply.con_ok ∷ rest) s v e =
      send_query-Claim env small s.db.queries _
        (record { stream = v.0.stream; same = v.0.same; fits = v.0.fits }, e)

  dispatch-Claim :
      (st : State) (s : Session) → s.req.state ≡ st → IsSession s → Claim env (dispatch env st s)
  unfolding dispatch
  dispatch-Claim State.db_connect s e v =
      connect-Claim s.db.connects s v (subst (λ x. Phase x s) e v.1)
  dispatch-Claim State.db_idle s e v =
      send_query-Claim env small s.db.queries s (v.0, subst (λ x. Phase x s) e v.1)
  dispatch-Claim State.db_send_query s e v =
      send_query-Claim env small s.db.queries s (v.0, subst (λ x. Phase x s) e v.1)
  dispatch-Claim State.db_recv_cols s e v =
      recv_cols-Claim env small (λ s. send_query env s.db.queries s) s v.0
        (subst (λ x. Phase x s) e v.1)
  dispatch-Claim State.db_recv_rows s e v =
      recv_rows-Claim env small (λ s. send_query env s.db.queries s) s v.0
        (subst (λ x. Phase x s) e v.1)

  Phase-out : (st : State) (s : Session) (o : Output) → Phase st s → Phase st (record s { out = o })
  Phase-out State.db_connect s o v = v
  Phase-out State.db_idle s o v = v
  Phase-out State.db_send_query s o v = v
  Phase-out State.db_recv_cols s o v = v
  Phase-out State.db_recv_rows s o v = v

  -- The request's wait, with a flush of the output unless the gate is shut.
  wait-Claim :
      (reconnect : Session → Session) (s : Session)
      → IsSession s
      → Claim env (settle env reconnect (Rc.again, s))
  unfolding settle is_positive is_failure is_error is_special
  wait-Claim reconnect s v = by_paused s.out.output_paused
    where
      r : Rc × Output
      r = output_bufs env.client env.conf.enable_module_header s.out

      kept : (rc : Rc) → rc ≡ r.0 → rc ≡ Rc.ok → IsSession (record s { out = r.1 })
      kept rc e ok =
          let k =
            output_bufs-KeepsOk env.client env.conf.enable_module_header s.out v.0.stream
              (sym e ∙ ok) in
          (
            record { stream = k.0; same = k.1 ∙ v.0.same; fits = v.0.fits },
            Phase-out s.req.state s r.1 v.1,
          )

      by_code :
          (rc : Rc) (s' : Session)
          → (rc ≡ Rc.ok) ⊎ (is_failure rc ≡ true)
          → (rc ≡ Rc.ok → IsSession s')
          → Claim env (
              if is_error rc || is_positive rc
              then (Rc.error, finalize (Rc.status 500) s')
              else (rc, s'))
      by_code Rc.ok s' h k = record { waits = λ _. k refl; delivers = λ h. absurd (cc) }
      by_code Rc.error s' h k = error-Claim env _
      by_code (Rc.status n) s' h k = error-Claim env _
      by_code _ s' (inl h) k = absurd (cc)
      by_code _ s' (inr h) k = absurd (ground (arith, h))

      by_paused :
          (b : Bool)
          → Claim env (
              if b
              then (Rc.again, s)
              else if is_error r.0 || is_positive r.0
              then (Rc.error, finalize (Rc.status 500) (record s { out = r.1 }))
              else (r.0, record s { out = r.1 }))
      by_paused true = again-Claim env s v
      by_paused false =
          by_code r.0 (record s { out = r.1 })
            (output_bufs-OkOrFails env.client env.conf.enable_module_header s.out) (kept r.0 refl)

  failed-Claim :
      (reconnect : Session → Session) (s : Session) → Claim env (settle env reconnect (Rc.error, s))
  unfolding settle
  failed-Claim reconnect s = error-Claim env _

  special-Claim :
      (reconnect : Session → Session) (s : Session) (n : ℕ)
      → Claim env (settle env reconnect (Rc.status n, s))
  unfolding settle
  special-Claim reconnect s n = go (is_special (Rc.status n))
    where
      go :
          (b : Bool)
          → Claim env (if b then (Rc.error, finalize (Rc.status n) s) else (Rc.status n, s))
      go true = error-Claim env _
      go false = status-Claim env small s n

  settle-Claim :
      (reconnect : Session → Session) (r : Rc × Session)
      → Claim env r
      → Claim env (settle env reconnect r)
  unfolding settle
  settle-Claim reconnect (Rc.again, s) c = wait-Claim reconnect s (c.waits (inr refl))
  settle-Claim reconnect (Rc.error, s) c = failed-Claim reconnect s
  settle-Claim reconnect (Rc.status n, s) c = special-Claim reconnect s n
  settle-Claim reconnect (Rc.ok, s) c = c
  settle-Claim reconnect (Rc.busy, s) c = c
  settle-Claim reconnect (Rc.done, s) c = c
  settle-Claim reconnect (Rc.declined, s) c = c

  pub process_events-Claim :
      (reconnect : Session → Session) (s : Session)
      → IsSession s
      → Claim env (process_events env reconnect s)
  unfolding process_events
  process_events-Claim reconnect s v = by_paused s.out.output_paused
    where
      by_paused :
          (b : Bool)
          → Claim env
              (if b then (Rc.again, s) else settle env reconnect (dispatch env s.req.state s))
      by_paused true = again-Claim env s v
      by_paused false =
          settle-Claim reconnect (dispatch env s.req.state s) (dispatch-Claim s.req.state s refl v)

  -- A request that goes on after its events were handled, returning NGX_OK or NGX_AGAIN, keeps its invariant if the
  -- buffers are smaller than 2^64 bytes: whatever arrived, and wherever the gate stopped, the bytes submitted to
  -- the output are the RDS encoding of what the database delivered so far, in its order, and the buffers are sound.
  pub process_events-IsSession :
      (reconnect : Session → Session) (s : Session)
      → IsSession s
      → let r = process_events env reconnect s in (r.0 ≡ Rc.ok) ⊎ (r.0 ≡ Rc.again) → IsSession r.1
  process_events-IsSession reconnect s v h = (process_events-Claim reconnect s v).waits h
