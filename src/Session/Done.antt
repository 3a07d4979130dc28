-- ===== src/Session/Done.antt =====
-- ngx_http_upstream_drizzle_done of src/ngx_http_drizzle_processor.c: what has gone to nginx's output filter when it
-- returns.
use drizzle_nginx_module.Prelude.{
  ℕ, ◌≡◌, refl, sym, ap, ◌∙◌, true, List, [], ◌∷◌, ◌++◌, append-nil, Option, none, some, arith,
}
use drizzle_nginx_module.Nginx.{Rc}
use drizzle_nginx_module.Peer.{Request}
use drizzle_nginx_module.Connect.{Answer, finalize_request}
use drizzle_nginx_module.Output.Buffers.{Output, bytes_of, output_bufs}
use drizzle_nginx_module.Output.Stream.{IsStream, produced, held}
use drizzle_nginx_module.Output.Stream.Steps.{output_bufs-KeepsOk}
use drizzle_nginx_module.Output.Succeeds.{IsWilling, output_bufs-Succeeds}
use drizzle_nginx_module.Output.Drained.{output_bufs-drained}
use drizzle_nginx_module.Session.{Session, Env, Ending, complete, fails, ended_with, finalize, done}
use drizzle_nginx_module.Session.Flow.{encode}

-- The end of a request leaves its output and what it saw alone.
abbrev SameOutput : Session → Session → Type 0
SameOutput s s' = (s'.out.wire ≡ s.out.wire) × (s'.seen ≡ s.seen)

ended_with-same : (o : Option (Answer × Request)) (s : Session) → SameOutput s (ended_with o s)
ended_with-same none s = (refl, refl)
ended_with-same (some r) s = (refl, refl)

pub finalize-same : (rc : Rc) (s : Session) → SameOutput s (finalize rc s)
unfolding finalize
finalize-same rc s = ended_with-same (finalize_request _ rc s.req) s

nil_of_append : (xs ys : List ℕ) → xs ++ ys ≡ [] → xs ≡ []
nil_of_append [] ys h = refl
nil_of_append (x ∷ xs) ys h = absurd (ground (arith, h))

module _ (env : Env) where
  flushed : Session → Output
  flushed s = (output_bufs env.client env.conf.enable_module_header s.out).1

  done-same :
      (how : Ending) (s : Session) → SameOutput (record s { out = flushed s }) (done env how s)
  unfolding done flushed
  done-same complete s = finalize-same _ _
  done-same (fails n) s = finalize-same _ _

  flushed-produced :
      (s : Session) → IsWilling env.client → IsStream s.out → produced (flushed s) ≡ produced s.out
  unfolding flushed
  flushed-produced s w v =
      (output_bufs-KeepsOk env.client env.conf.enable_module_header s.out v
        (output_bufs-Succeeds env.client w env.conf.enable_module_header s.out)).1

  wire-drained : (o : Output) → held o.out_buf ≡ [] → o.out_bufs ≡ [] → produced o ≡ o.wire
  wire-drained o h e =
      ap (λ bs. o.wire ++ (bytes_of bs ++ held o.out_buf)) e
      ∙ ap (λ bs. o.wire ++ bs) h
      ∙ append-nil o.wire

  pub done-Finished :
      (s : Session)
      → IsWilling env.client
      → IsStream s.out
      → produced s.out ≡ encode s.seen
      → s.out.seen_stream_end ≡ true
      → (done env complete s).out.wire ≡ encode (done env complete s).seen
  unfolding flushed
  done-Finished s w v p e =
      let empty = output_bufs-drained env.client w env.conf.enable_module_header s.out e in
      let same = done-same complete s in
      same.0
      ∙ sym (wire-drained (flushed s) empty.0 empty.1)
      ∙ flushed-produced s w v
      ∙ p
      ∙ ap encode (sym same.1)

  -- A request whose query failed has produced nothing.
  pub failed-Finished :
      (n : ℕ) (s : Session)
      → IsWilling env.client
      → IsStream s.out
      → produced s.out ≡ encode s.seen
      → s.seen ≡ []
      → (done env (fails n) s).out.wire ≡ encode (done env (fails n) s).seen
  failed-Finished n s w v p e =
      let same = done-same (fails n) s in
      let nothing : produced (flushed s) ≡ [] = flushed-produced s w v ∙ p ∙ ap encode e in
      same.0 ∙ nil_of_append (flushed s).wire _ nothing ∙ sym (ap encode (same.1 ∙ e))
