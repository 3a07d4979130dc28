-- ===== src/Drain/Flow.antt =====
-- The write handler of a client that fell behind (src/ngx_http_drizzle_output.c), as a flow of bytes.
use drizzle_nginx_module.Prelude.{
  ◌≡◌, refl, sym, ap, ◌∙◌, subst, Bool, true, false, not, ◌&&◌, All, if◌then◌else◌,
}
use drizzle_nginx_module.Nginx.{Rc}
use drizzle_nginx_module.Peer.{State}
use drizzle_nginx_module.Connect.{is_ok}
use drizzle_nginx_module.Output.Buffers.{output_bufs, next_call, pending_output}
use drizzle_nginx_module.Output.Stream.{IsStream, produced}
use drizzle_nginx_module.Output.Stream.Steps.{output_bufs-KeepsOk}
use drizzle_nginx_module.Session.{
  Session, Env, set_out, on_read, timer, finalize, is_open, lift, names_pending,
}
use drizzle_nginx_module.Session.Flow.{ok_of_is_ok, Phase, PieceFits, encode}
use drizzle_nginx_module.Reception.Flow.{IsSession}
use drizzle_nginx_module.Drain.{
  Drain, finalized, waits, resumed, set_client_write, await_client, resume, after_drain, drain,
}

-- The fields besides the output that the request's invariant reads.
abbrev pub SameFlow : Session → Session → Type 0
SameFlow s s' =
    (s'.req.state ≡ s.req.state)
    × (names_pending s' ≡ names_pending s)
    × (s'.seen ≡ s.seen)
    × (s'.db ≡ s.db)

Phase-same : (st : State) (s s' : Session) → SameFlow s s' → Phase st s → Phase st s'
Phase-same State.db_connect s s' (a, b, c, d) v = c ∙ v
Phase-same State.db_idle s s' (a, b, c, d) v = c ∙ v
Phase-same State.db_send_query s s' (a, b, c, d) v = c ∙ v
Phase-same State.db_recv_cols s s' (a, b, c, d) v = b ∙ v
Phase-same State.db_recv_rows s s' (a, b, c, d) v = b ∙ v

pub keep-IsSession :
    (s s' : Session)
    → IsStream s'.out
    → produced s'.out ≡ produced s.out
    → SameFlow s s'
    → IsSession s
    → IsSession s'
keep-IsSession s s' stream same (a, b, c, d) v = (
  record {
    stream = stream;
    same = same ∙ v.0.same ∙ ap encode (sym c);
    fits = subst (λ x. All PieceFits x.fields) (sym d) v.0.fits;
  },
  subst (λ st. Phase st s') (sym a) (Phase-same s.req.state s s' (a, b, c, d) v.1),
)

module _ (env : Env) where
  -- A request that was not finalized goes on as a session; one whose reading resumes has its gate open, and the
  -- read event of the database's connection has its timer again.
  abbrev pub Resumes : Session → Type 0
  Resumes s =
      IsSession s
      × (s.out.output_paused ≡ false)
      × (s.draining ≡ false)
      × (s.client_write.timer_set ≡ false)
      × (is_open env s.out ≡ true)

  abbrev pub Drained : Drain → Type 0
  Drained (finalized s) = Unit
  Drained (waits s) = IsSession s
  Drained (resumed s) = Resumes s

  await_client-Drained : (s : Session) → IsSession s → Drained (await_client env s)
  unfolding await_client next_call
  await_client-Drained s v = go (env.handle_write s.out.calls)
    where
      s' : Session
      s' = set_out (next_call s.out) s

      go : (b : Bool) → Drained (if b then waits s' else finalized (finalize (Rc.status 500) s'))
      go true = keep-IsSession s s' v.0.stream refl (refl, refl, refl, refl) v
      go false = tt

  resume-Drained : (s : Session) → IsSession s → is_open env s.out ≡ true → Drained (resume env s)
  unfolding resume is_open next_call pending_output
  resume-Drained s v gate = go (env.handle_read s.out.calls)
    where
      opened : Session
      opened = record s {
        client_write = record (s.client_write) { timer_set = false };
        out = record (next_call s.out) { output_paused = false };
        draining = false;
      }

      s' : Session
      s' = on_read (λ e. record e { ready = false }) opened

      go :
          (b : Bool)
          → Drained (
              if b
              then resumed (on_read (timer true) s')
              else finalized (finalize (Rc.status 500) s'))
      go true = (
        keep-IsSession s (on_read (timer true) s') v.0.stream refl (refl, refl, refl, refl) v,
        refl,
        refl,
        refl,
        gate,
      )
      go false = tt

  after_drain-Drained :
      (rc : Rc) (s : Session) → (rc ≡ Rc.ok → IsSession s) → Drained (after_drain env (rc, s))
  unfolding after_drain
  after_drain-Drained rc s v = go (is_ok rc) (is_open env s.out) refl refl
    where
      again : Session
      again =
          set_client_write
            (if s.client_write.delayed
              then s.client_write
              else record (s.client_write) { timer_set = true })
            s

      go :
          (a b : Bool)
          → is_ok rc ≡ a
          → is_open env s.out ≡ b
          → Drained (
              if not a
              then finalized (finalize Rc.error s)
              else if b
              then resume env s
              else await_client env again)
      go false b e f = tt
      go true true e f = resume-Drained s (v (ok_of_is_ok rc e)) f
      go true false e f =
          let w = v (ok_of_is_ok rc e) in
          await_client-Drained again
            (keep-IsSession s again w.0.stream refl (refl, refl, refl, refl) w)

  pub drain-Drained : (s : Session) → IsSession s → Drained (drain env s)
  unfolding drain
  drain-Drained s v =
      late (s.client_write.timedout && not s.client_write.delayed) s.client_write.timedout
    where
      fresh : Bool → Session
      fresh b =
          if b
          then set_client_write (record (s.client_write) { timedout = false; delayed = false }) s
          else s

      fresh-IsSession : (b : Bool) → IsSession (fresh b)
      fresh-IsSession true =
          keep-IsSession s (fresh true) v.0.stream refl (refl, refl, refl, refl) v
      fresh-IsSession false = v

      drained : Session → Rc × Session
      drained t = lift (output_bufs env.client env.conf.enable_module_header) t

      by_delay :
          (b : Bool) (t : Session)
          → IsSession t
          → Drained (if b then await_client env t else after_drain env (drained t))
      by_delay true t w = await_client-Drained t w
      by_delay false t w = after_drain-Drained (drained t).0 (drained t).1 (λ ok.
          let k =
            output_bufs-KeepsOk env.client env.conf.enable_module_header t.out w.0.stream ok in
          keep-IsSession t (drained t).1 k.0 k.1 (refl, refl, refl, refl) w)

      late :
          (a b : Bool)
          → Drained (
              if a
              then finalized (finalize (Rc.status 408) (record s { client_timedout = true }))
              else let t = fresh b in
                if t.client_write.delayed then await_client env t else after_drain env (drained t))
      late true b = tt
      late false b = by_delay (fresh b).client_write.delayed (fresh b) (fresh-IsSession b)
