-- ===== src/Reception/Flow.antt =====
-- The receiving of a result in src/ngx_http_drizzle_processor.c, as a flow of bytes: columns, rows and fields.
use drizzle_nginx_module.Prelude.{
  ℕ, ◌^◌, ◌<◌, ◌≡◌, refl, sym, ap, ◌∙◌, subst, inl, inr, ◌⊎◌, Bool, true, false, not, ◌&&◌, List,
  [], ◌∷◌, ◌++◌, append-nil, Option, some, All, ◌==◌, if◌then◌else◌, arith,
}
use drizzle_nginx_module.Nginx.{Rc, is_failure, is_error, is_special}
use drizzle_nginx_module.Peer.{State}
use drizzle_nginx_module.Connect.{is_ok}
use drizzle_nginx_module.Output.Buffers.{Output, Action, emit}
use drizzle_nginx_module.Output.Atoms.{
  Column, output_col, output_row, output_field, field_bytes, field_size,
}
use drizzle_nginx_module.Output.Stream.{IsStream, produced}
use drizzle_nginx_module.Output.Codes.{emit-OkOrError, output_row-OkOrError}
use drizzle_nginx_module.Output.Succeeds.{IsWilling}
use drizzle_nginx_module.Output.Deliver.{
  Adds, FieldFits, output_col-Adds, output_row-Adds, output_field-Adds,
}
use drizzle_nginx_module.Session.{
  Session, Env, Step, Seen, FieldReply, lift, names_pending, output_ready, when_ready,
}
use drizzle_nginx_module.Session.Flow.{
  Flows, Phase, Good, PieceFits, encode, encode_one, encode-snoc, output_ready-Gated,
}
use drizzle_nginx_module.Reception.{see, unless_failed, leave_fields, recv_fields}

abbrev pub IsSession : Session → Type 0
IsSession s = Flows s × Phase s.req.state s

-- Everything that the database delivered has gone to the output filter.
abbrev pub Finished : Session → Type 0
Finished s = s.out.wire ≡ encode s.seen

-- The states in which a result is received.
abbrev pub Late : State → Type 0
Late State.db_recv_cols = Unit
Late State.db_recv_rows = Unit
Late _ = ⊥

-- A session that receives, in the given state.
pub record In (st : State) (s : Session) : Type 0 where
  pub flows : Flows s
  pub state : s.req.state ≡ st
  pub named : names_pending s ≡ false

pub In-IsSession : (st : State) (s : Session) → Late st → In st s → IsSession s
In-IsSession State.db_recv_cols s l v = (v.flows, subst (λ x. Phase x s) (sym v.state) v.named)
In-IsSession State.db_recv_rows s l v = (v.flows, subst (λ x. Phase x s) (sym v.state) v.named)
In-IsSession _ s l v = absurd l

In-Good : (env : Env) (st : State) (s s' : Session) → Good env s s' → In st s → In st s'
In-Good env st s s' (v, p, (a, b, c, d, e)) h = record {
  flows = record {
    stream = v;
    same = p ∙ h.flows.same ∙ ap encode (sym c);
    fits = subst (λ x. All PieceFits x.fields) (sym d) h.flows.fits;
  };
  state = a ∙ h.state;
  named = b ∙ h.named;
}

module _ (env : Env) where
  -- What a step may return: the request goes on as a session, or it is done with everything sent, if nginx was
  -- willing; or it failed.
  pub record Claim (r : Rc × Session) : Type 0 where
    pub waits : (r.0 ≡ Rc.ok) ⊎ (r.0 ≡ Rc.again) → IsSession r.1
    pub delivers : r.0 ≡ Rc.done → IsWilling env.client → Finished r.1

  pub error-Claim : (s : Session) → Claim (Rc.error, s)
  error-Claim s = record { waits = λ h. absurd (ground (arith, h)); delivers = λ h. absurd (cc) }

  pub again-Claim : (s : Session) → IsSession s → Claim (Rc.again, s)
  again-Claim s v = record { waits = λ _. v; delivers = λ h. absurd (cc) }

  pub when_ready-Claim :
      (st : State) (k : Step) (s : Session)
      → Late st
      → In st s
      → ((s' : Session) → In st s' → Claim (k s'))
      → Claim (when_ready env k s)
  unfolding is_ok
  when_ready-Claim st k s l v next =
      go (output_ready env s) (output_ready-Gated env s v.flows.stream)
    where
      go :
          (r : Rc × Session)
          → (r.0 ≡ Rc.error) ⊎ (((r.0 ≡ Rc.ok) ⊎ (r.0 ≡ Rc.again)) × Good env s r.1)
          → Claim (if is_ok r.0 then k r.1 else r)
      go (Rc.ok, s') (inl e) = absurd (cc)
      go (Rc.ok, s') (inr (rc, good)) = next s' (In-Good env st s s' good v)
      go (Rc.again, s') (inl e) = absurd (cc)
      go (Rc.again, s') (inr (rc, good)) =
          again-Claim s' (In-IsSession st s' l (In-Good env st s s' good v))
      go (Rc.error, s') h = error-Claim s'
      go (rc, s') h = absurd (ground (arith, h))

  -- An output step for something that the database delivered: it fails, or it adds its encoding.
  abbrev pub Outputs : Action → Seen → Output → Type 0
  Outputs f x o =
      ((f o).0 ≡ Rc.error) ⊎ ((is_failure (f o).0 ≡ false) × Adds o (encode_one x) (f o))

  pub see-In :
      (st : State) (f : Action) (x : Seen) (s : Session)
      → In st s
      → Adds s.out (encode_one x) (f s.out)
      → In st (lift f (see x s)).1
  see-In st f x s v (w, p) = record {
    flows = record {
      stream = w;
      same = p ∙ ap (λ bs. bs ++ encode_one x) v.flows.same ∙ sym (encode-snoc s.seen x);
      fits = v.flows.fits;
    };
    state = v.state;
    named = v.named;
  }

  pub output-Claim :
      (st : State) (f : Action) (x : Seen) (k : Step) (s : Session)
      → In st s
      → Outputs f x s.out
      → (is_failure (f s.out).0 ≡ false
          → In st (lift f (see x s)).1
          → Claim (k (lift f (see x s)).1))
      → Claim (unless_failed (lift f (see x s)) k)
  unfolding is_failure is_error
  output-Claim st f x k s v (inl e) next =
      subst
        (λ rc. Claim (if is_failure rc then (rc, (lift f (see x s)).1) else k (lift f (see x s)).1))
        (sym e) (error-Claim (lift f (see x s)).1)
  output-Claim st f x k s v (inr (e, adds)) next =
      subst (λ b. Claim (if b then lift f (see x s) else k (lift f (see x s)).1)) (sym e)
        (next e (see-In st f x s v adds))

  pub ok-Outputs :
      (f : Action) (x : Seen) (o : Output)
      → ((f o).0 ≡ Rc.ok) ⊎ ((f o).0 ≡ Rc.error)
      → ((f o).0 ≡ Rc.ok → Adds o (encode_one x) (f o))
      → Outputs f x o
  unfolding is_failure is_error is_special
  ok-Outputs f x o (inl e) adds = inr (ap is_failure e, adds e)
  ok-Outputs f x o (inr e) adds = inl e

module _ (env : Env) (small : env.conf.buf_size < 2 ^ 64) where
  pub col-Outputs :
      (col : Column) (o : Output)
      → IsStream o
      → Outputs env (output_col env.client env.conf (some col)) (Seen.seen_column col) o
  unfolding output_col
  col-Outputs col o v =
      ok-Outputs env (output_col env.client env.conf (some col)) (Seen.seen_column col) o
        (emit-OkOrError env.client env.conf _ _ o)
        (output_col-Adds env.client env.conf col o small v)

  pub row-Outputs :
      (n : ℕ) (o : Output)
      → IsStream o
      → Outputs env (output_row env.client env.conf n) (Seen.seen_row n) o
  row-Outputs n o v =
      ok-Outputs env (output_row env.client env.conf n) (Seen.seen_row n) o
        (output_row-OkOrError env.client env.conf n o)
        (output_row-Adds env.client env.conf n o small v)

  field-Outputs :
      (offset len total : ℕ) (field : Option (List ℕ)) (o : Output)
      → FieldFits len field
      → IsStream o
      → Outputs env
          (output_field env.client env.conf offset len total field)
          (Seen.seen_piece offset len total field)
          o
  unfolding output_field is_failure is_error is_special
  field-Outputs offset len total field o fits v =
      go (offset == 0 && (len == 0 && not (total == 0))) refl
    where
      written : Rc × Output
      written =
          emit env.client env.conf (field_size offset len) (field_bytes offset len total field) o

      go :
          (c : Bool)
          → (offset == 0 && (len == 0 && not (total == 0))) ≡ c
          → let r : Rc × Output = if c then (Rc.done, o) else written in
            (r.0 ≡ Rc.error)
            ⊎ ((is_failure r.0 ≡ false)
                × (IsStream r.1
                    × (produced r.1
                        ≡ produced o ++ (if c then [] else field_bytes offset len total field))))
      go true e = inr (refl, (v, sym (append-nil (produced o))))
      go false e =
          let path : output_field env.client env.conf offset len total field o ≡ written =
            ap (λ (c : Bool). let r : Rc × Output = if c then (Rc.done, o) else written in r) e in
          elim (emit-OkOrError env.client env.conf (field_size offset len)
            (field_bytes offset len total field) o) [
              | inr f ↦ inl f
              | inl f ↦
                  let adds =
                    output_field-Adds env.client env.conf offset len total field o small fits v
                      (ap (λ r. r.0) path ∙ f) in
                  inr (
                    ap is_failure f,
                    subst
                        (λ (r : Rc × Output).
                          IsStream r.1
                          × (produced r.1 ≡ produced o ++ field_bytes offset len total field))
                        path adds,
                  )
            ]

  -- The fields of a row.
  pub recv_fields-Claim :
      (next_row : Step) (fs : List FieldReply) (s : Session)
      → In State.db_recv_rows s
      → All PieceFits fs
      → ((s' : Session) → In State.db_recv_rows s' → Claim env (next_row s'))
      → Claim env (recv_fields env next_row fs s)
  unfolding recv_fields
  recv_fields-Claim next_row [] s v fits next =
      when_ready-Claim env State.db_recv_rows (λ s. (Rc.again, s)) s tt v
        (λ s' w. again-Claim env s' (In-IsSession State.db_recv_rows s' tt w))
  recv_fields-Claim next_row (FieldReply.row_end ∷ rest) s v fits next =
      when_ready-Claim env State.db_recv_rows
        (λ s. next_row (record (leave_fields rest s) { row = 0 })) s tt v
        (λ s' w.
          next (record (leave_fields rest s') { row = 0 })
            (record {
              flows = record { stream = w.flows.stream; same = w.flows.same; fits = fits.1 };
              state = w.state;
              named = w.named;
            }))
  recv_fields-Claim next_row (FieldReply.field_failed ∷ rest) s v fits next =
      when_ready-Claim env State.db_recv_rows (λ s. (Rc.error, leave_fields rest s)) s tt v
        (λ s' w. error-Claim env (leave_fields rest s'))
  recv_fields-Claim next_row (FieldReply.one_piece offset len total field ∷ rest) s v fits next =
      when_ready-Claim env State.db_recv_rows
        (λ s.
          unless_failed
            (lift (output_field env.client env.conf offset len total field)
              (see (Seen.seen_piece offset len total field) (leave_fields rest s)))
            (recv_fields env next_row rest))
        s tt v
        (λ s' w.
          output-Claim env State.db_recv_rows
            (output_field env.client env.conf offset len total field)
            (Seen.seen_piece offset len total field) (recv_fields env next_row rest)
            (leave_fields rest s')
            (record {
              flows = record { stream = w.flows.stream; same = w.flows.same; fits = fits.1 };
              state = w.state;
              named = w.named;
            })
            (field-Outputs offset len total field s'.out fits.0 w.flows.stream)
            (λ _ u. recv_fields-Claim next_row rest _ u fits.1 next))
