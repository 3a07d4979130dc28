-- ===== src/Session/Flow.antt =====
-- The bytes of a result on their way to the client, over the steps of src/ngx_http_drizzle_processor.c: what the database
-- delivered, encoded atom by atom, and the stream of src/ngx_http_drizzle_output.c.
use drizzle_nginx_module.Prelude.{
  ℕ, ◌≡◌, refl, sym, ap, ◌∙◌, inl, inr, ◌⊎◌, Bool, true, false, not, ◌&&◌, List, [], ◌∷◌, ◌++◌,
  append_assoc, append-nil, All, ◌==◌, if◌then◌else◌, arith,
}
use drizzle_nginx_module.Nginx.{Rc, Connection}
use drizzle_nginx_module.Peer.{State}
use drizzle_nginx_module.Connect.{is_ok}
use drizzle_nginx_module.Output.Buffers.{Output, next_call, queue_buf, output_bufs, or_error}
use drizzle_nginx_module.Output.Atoms.{header_bytes, col_bytes, row_bytes, field_bytes}
use drizzle_nginx_module.Output.Stream.{
  IsStream, produced, KeepsOk, then_do-KeepsOk, or_error-KeepsOk,
}
use drizzle_nginx_module.Output.Stream.Steps.{queue_buf-Keeps, output_bufs-KeepsOk}
use drizzle_nginx_module.Output.Codes.{OkOrError, then-OkOrError, or_error-OkOrError}
use drizzle_nginx_module.Output.Deliver.{FieldFits}
use drizzle_nginx_module.Session.{
  after_flush, FieldReply, Seen, Session, Env, lift, names_pending, is_open, flush, suspend, pause,
  test_connection, connection_of, on_read, on_write, inactive, output_ready,
}

-- What the format has for each thing that the database delivers. A first piece without any of a field's bytes is
-- no atom yet.
abbrev pub encode_one : Seen → List ℕ
encode_one (Seen.seen_header res) = header_bytes res
encode_one (Seen.seen_column col) = col_bytes col
encode_one (Seen.seen_row n) = row_bytes n
encode_one (Seen.seen_piece offset len total field) =
    if offset == 0 && (len == 0 && not (total == 0)) then [] else field_bytes offset len total field

abbrev pub encode : List Seen → List ℕ
encode [] = []
encode (x ∷ xs) = encode_one x ++ encode xs

pub encode-snoc : (xs : List Seen) (x : Seen) → encode (xs ++ (x ∷ [])) ≡ encode xs ++ encode_one x
encode-snoc [] x = append-nil (encode_one x)
encode-snoc (y ∷ xs) x =
    ap (◌++◌ (encode_one y)) (encode-snoc xs x)
    ∙ sym (append_assoc (encode_one y) (encode xs) (encode_one x))

-- What libdrizzle promises of the pieces that it will deliver.
abbrev pub PieceFits : FieldReply → Type 0
PieceFits (FieldReply.one_piece offset len total field) = FieldFits len field
PieceFits FieldReply.row_end = Unit
PieceFits FieldReply.field_failed = Unit

-- The stream is sound and is the encoding of what the database delivered.
pub record Flows (s : Session) : Type 0 where
  pub stream : IsStream s.out
  pub same : produced s.out ≡ encode s.seen
  pub fits : All PieceFits s.db.fields

-- Before the result nothing was delivered; from the result on the character set is not pending.
abbrev pub Phase : State → Session → Type 0
Phase State.db_connect s = s.seen ≡ []
Phase State.db_idle s = s.seen ≡ []
Phase State.db_send_query s = s.seen ≡ []
Phase State.db_recv_cols s = names_pending s ≡ false
Phase State.db_recv_rows s = names_pending s ≡ false

-- What the gate does besides: the request's state, its character set and what was delivered stay.
abbrev pub SameRequest : Session → Session → Type 0
SameRequest s s' =
    (s'.req.state ≡ s.req.state)
    × (names_pending s' ≡ names_pending s)
    × (s'.seen ≡ s.seen)
    × (s'.db ≡ s.db)
    × (s'.row ≡ s.row)

pub ok_of_is_ok : (rc : Rc) → is_ok rc ≡ true → rc ≡ Rc.ok
unfolding is_ok
ok_of_is_ok Rc.ok h = refl
ok_of_is_ok _ h = absurd (ground (arith, h))

module _ (env : Env) where
  flush-KeepsOk : (o : Output) → IsStream o → KeepsOk o (flush env o)
  unfolding flush
  flush-KeepsOk o v =
      then_do-KeepsOk o (or_error (queue_buf env.client) o)
        (or_error (output_bufs env.client env.conf.enable_module_header))
        (or_error-KeepsOk o (queue_buf env.client) (λ _. queue_buf-Keeps env.client o v))
        (λ o' v'.
          or_error-KeepsOk o' (output_bufs env.client env.conf.enable_module_header)
            (output_bufs-KeepsOk env.client env.conf.enable_module_header o' v'))

  -- What the gate may give: an error, or the same stream of the same request.
  abbrev pub Good : Session → Session → Type 0
  Good s s' = IsStream s'.out × (produced s'.out ≡ produced s.out) × SameRequest s s'

  abbrev pub Gated : Session → Rc × Session → Type 0
  Gated s r = (r.0 ≡ Rc.error) ⊎ (((r.0 ≡ Rc.ok) ⊎ (r.0 ≡ Rc.again)) × Good s r.1)

  Gated-trans : (s s' : Session) (r : Rc × Session) → Good s s' → Gated s' r → Gated s r
  Gated-trans s s' r g (inl f) = inl f
  Gated-trans s s' r (v, p, (a, b, c, d, e)) (inr (rc, (v', p', (a', b', c', d', e')))) =
      inr (rc, (v', p' ∙ p, (a' ∙ a, b' ∙ b, c' ∙ c, d' ∙ d, e' ∙ e)))

  pause-Gated : (s : Session) → IsStream s.out → Gated s (pause env s)
  unfolding pause suspend next_call
  pause-Gated s v =
      go
        (test_connection (λ (c : Connection). c.read.active) (connection_of s)
          && not (env.del_read s.out.calls))
        (test_connection (λ (c : Connection). c.write.active) (connection_of s)
          && not (env.del_write s.out.calls))
        (env.handle_write s.out.calls)
    where
      last : Session
      last = suspend env (on_write inactive (on_read inactive s))

      go :
          (a b c : Bool)
          → Gated s (
              if a
              then (Rc.error, s)
              else if b
              then (Rc.error, on_read inactive s)
              else (if c then Rc.again else Rc.error, last))
      go true b c = inl refl
      go false true c = inl refl
      go false false false = inl refl
      go false false true = inr (inr refl, (v, refl, (refl, refl, refl, refl, refl)))

  pub flush-OkOrError : OkOrError (flush env)
  unfolding flush
  flush-OkOrError =
      then-OkOrError (or_error (queue_buf env.client))
        (or_error (output_bufs env.client env.conf.enable_module_header))
        (or_error-OkOrError (queue_buf env.client))
        (or_error-OkOrError (output_bufs env.client env.conf.enable_module_header))

  after_flush-Gated :
      (s : Session) (r : Rc × Session)
      → (r.0 ≡ Rc.error) ⊎ ((r.0 ≡ Rc.ok) × Good s r.1)
      → Gated s (after_flush env r)
  unfolding after_flush is_ok
  after_flush-Gated s (Rc.error, s') h = inl refl
  after_flush-Gated s (Rc.ok, s') (inl e) = inl (cc)
  after_flush-Gated s (Rc.ok, s') (inr (e, good)) = go (is_open env s'.out)
    where
      go : (b : Bool) → Gated s (if b then (Rc.ok, s') else pause env s')
      go true = inr (inl refl, good)
      go false = Gated-trans s s' (pause env s') good (pause-Gated s' good.0)
  after_flush-Gated s (rc, s') h = absurd (ground (arith, h))

  -- The gate fails, or it keeps the stream.
  pub output_ready-Gated : (s : Session) → IsStream s.out → Gated s (output_ready env s)
  unfolding output_ready
  output_ready-Gated s v = go (is_open env s.out)
    where
      go : (a : Bool) → Gated s (if a then (Rc.ok, s) else after_flush env (lift (flush env) s))
      go true = inr (inl refl, (v, refl, (refl, refl, refl, refl, refl)))
      go false = after_flush-Gated s (lift (flush env) s) (elim (flush-OkOrError s.out) [
        | inr e ↦ inl e
        | inl e ↦
            let kept = flush-KeepsOk s.out v e in
            inr (e, (kept.0, kept.1, (refl, refl, refl, refl, refl)))
      ])
