-- ===== src/Output/Stream/Emit.antt =====
-- `request_mem` and `submit_mem` of src/ngx_http_drizzle_output.c: memory for an atom, and the atom at the end
-- of the stream.
use drizzle_nginx_module.Prelude.{
  ℕ, ◌^◌, ◌≤◌, ◌<◌, max, ◌≡◌, refl, sym, ap, subst, ◌∙◌, inl, inr, Bool, true, false, List, [], ◌∷◌,
  ◌++◌, append_assoc, some, length, length-append, All, ltb, ◌==◌, if◌then◌else◌, Bool-cases,
  Option-cases, arith,
}
use mathlib.Core.Option
use drizzle_nginx_module.Nginx.{Rc}
use drizzle_nginx_module.Output.Buffers.{
  Buf, Conf, Client, Output, sub64, bytes_of, next_call, enqueue, queue_buf, Action, then_do,
  or_error, ◌>>◌, start_buf, fill_buf, append_bytes, check_size, output_bufs, new_buf, has_room,
  request_mem, submit_mem, emit,
}
use drizzle_nginx_module.Output.Stream.{
  Room, IsSound, IsStream, held, produced, Keeps, to_error-ok, then_do-ok,
}
use drizzle_nginx_module.Output.Stream.Steps.{queue_buf_cases, queue_buf-Keeps, output_bufs-KeepsOk}

module _ (cl : Client) where
  pub queue_buf-held :
      (o : Output) → (queue_buf cl o).0 ≡ Rc.ok → held (queue_buf cl o).1.out_buf ≡ []
  unfolding enqueue
  queue_buf-held o h = elim (queue_buf_cases cl o) [
    | inl (e, n) ↦ rw e n
    | inr (inl (b, e, q)) ↦ rw q
    | inr (inr q) ↦ absurd (ground arith)
  ]

  pub start_buf-Keeps :
      (cap : ℕ) (o : Output)
      → cap < 2 ^ 64
      → IsStream o
      → held o.out_buf ≡ []
      → Keeps o (start_buf cap o)
  unfolding start_buf
  start_buf-Keeps cap o s v z = (
    record {
      room = (omega arith, s);
      counted = v.counted;
      out_sound = v.out_sound;
      busy_sound = v.busy_sound;
      free_sound = v.free_sound;
    },
    ap (λ x. o.wire ++ (bytes_of o.out_bufs ++ x)) (sym z),
    λ _. refl,
  )

  -- What a successful `new_buf` and `request_mem` give: a buffer with room for `size` bytes.
  abbrev pub Given : ℕ → Output → Output → Type 0
  Given size o o' = Keeps o o' × (b : Buf) × (o'.out_buf ≡ some b) × (size ≤ o'.avail_out)

  pub start_buf-Given :
      (size cap : ℕ) (o : Output)
      → size ≤ cap
      → cap < 2 ^ 64
      → IsStream o
      → held o.out_buf ≡ []
      → Given size o (start_buf cap o)
  unfolding start_buf
  start_buf-Given size cap o le s v z = (start_buf-Keeps cap o s v z, _, refl, le)

  pub new_buf-Given :
      (size : ℕ) (o : Output)
      → size < 2 ^ 64
      → IsStream o
      → held o.out_buf ≡ []
      → (new_buf cl size o).0 ≡ Rc.ok
      → Given size o (new_buf cl size o).1
  unfolding new_buf next_call
  new_buf-Given size o s v z h = go o.free_bufs refl
    where
      at :
          (o' : Output)
          → new_buf cl size o ≡ (Rc.ok, o')
          → Given size o o'
          → Given size o (new_buf cl size o).1
      at o' e g = subst (λ r. Given size o r.1) (sym e) g

      go : (bs : List Buf) → o.free_bufs ≡ bs → Given size o (new_buf cl size o).1
      go [] e = elim (Bool-cases (cl.alloc o.calls)) [
        | inl a ↦
            at (start_buf size (next_call o)) (ground arith)
              (start_buf-Given size size (next_call o) (omega arith) s v z)
        | inr a ↦ absurd (ground arith)
      ]
      go (b ∷ rest) e =
          let sound = subst (All IsSound) e v.free_sound in
          let popped : Output = record o { free_bufs = rest } in
          let v' : IsStream popped = record {
            room = v.room;
            counted = v.counted;
            out_sound = v.out_sound;
            busy_sound = v.busy_sound;
            free_sound = sound.1;
          } in
          elim (Bool-cases (ltb b.cap size)) [
            | inl l ↦ elim (Bool-cases (cl.alloc o.calls)) [
              | inl a ↦
                  at (start_buf size (next_call popped)) (ground arith)
                    (start_buf-Given size size (next_call popped) (omega arith) s v' z)
              | inr a ↦ absurd (ground arith)
            ]
            | inr l ↦
                at (start_buf b.cap popped) (ground arith)
                  (start_buf-Given size b.cap popped (ground arith) sound.0.1 v' z)
          ]

  pub fill_buf-IsStream :
      (written : List ℕ) (o : Output) (b : Buf)
      → IsStream o
      → o.out_buf ≡ some b
      → length written ≤ o.avail_out
      → IsStream (fill_buf written o) × (produced (fill_buf written o) ≡ produced o ++ written)
  unfolding fill_buf
  fill_buf-IsStream written o b v e l =
      let room : Room (some b) o.avail_out = subst (λ x. Room x o.avail_out) e v.room in
      (
        record {
          room =
              subst
                (λ x.
                  Room (Option.map (append_bytes written) x) (sub64 o.avail_out (length written)))
                (sym e) (omega (arith, room, length-append {0} b.bytes written), room.1);
          counted = v.counted;
          out_sound = v.out_sound;
          busy_sound = v.busy_sound;
          free_sound = v.free_sound;
        },
        subst
            (λ x.
              o.wire ++ (bytes_of o.out_bufs ++ held (Option.map (append_bytes written) x))
              ≡ (o.wire ++ (bytes_of o.out_bufs ++ held x)) ++ written)
            (sym e) (simp append_assoc),
      )

  -- Submitting `written` bytes into room for them: they come last in the stream.
  pub submit_mem-Keeps :
      (written : List ℕ) (o : Output) (b : Buf)
      → IsStream o
      → o.out_buf ≡ some b
      → length written ≤ o.avail_out
      → IsStream (submit_mem cl written o).1
        × (produced (submit_mem cl written o).1 ≡ produced o ++ written)
  unfolding submit_mem
  submit_mem-Keeps written o b v e l =
      let (v', p) = fill_buf-IsStream written o b v e l in
      go v' p ((fill_buf written o).avail_out == 0)
    where
      go :
          IsStream (fill_buf written o)
          → produced (fill_buf written o) ≡ produced o ++ written
          → (c : Bool)
          → let r = if c then queue_buf cl (fill_buf written o) else (Rc.ok, fill_buf written o) in
            IsStream r.1 × (produced r.1 ≡ produced o ++ written)
      go v' p true = let k = queue_buf-Keeps cl (fill_buf written o) v' in (k.0, k.1 ∙ p)
      go v' p false = (v', p)

pub has_room-some :
    (len : ℕ) (o : Output)
    → has_room len o ≡ true
    → (b : Buf) × (o.out_buf ≡ some b) × (len ≤ o.avail_out)
unfolding has_room
has_room-some len o e = elim (Option-cases o.out_buf) [
  | inl n ↦ absurd (ground arith)
  | inr (b, n) ↦ (b, n, ground arith)
]

module _ (cl : Client) (conf : Conf) where
  -- The path of `request_mem` on which there is no room.
  pub refill : ℕ → Action
  refill len =
      or_error (queue_buf cl)
      >> or_error (output_bufs cl conf.enable_module_header)
      >> new_buf cl (max len conf.buf_size)

  pub refill-Given :
      (len : ℕ) (o : Output)
      → len < 2 ^ 64
      → conf.buf_size < 2 ^ 64
      → IsStream o
      → (refill len o).0 ≡ Rc.ok
      → Given cl len o (refill len o).1
  unfolding refill
  refill-Given len o s t v h =
      let r1 : Rc × Output = or_error (queue_buf cl) o in
      let r2 : Rc × Output = then_do (or_error (output_bufs cl conf.enable_module_header)) r1 in
      let (ok2, e3) = then_do-ok (new_buf cl (max len conf.buf_size)) r2 h in
      let (ok1, e2) = then_do-ok (or_error (output_bufs cl conf.enable_module_header)) r1 ok2 in
      let queued = queue_buf-Keeps cl o v in
      let empty = queue_buf-held cl o (to_error-ok (queue_buf cl o).0 ok1) in
      let flushed = output_bufs-KeepsOk cl conf.enable_module_header r1.1 queued.0 (
        to_error-ok (output_bufs cl conf.enable_module_header r1.1).0
          (sym (ap (λ r. r.0) e2) ∙ ok2)) in
      let m : ℕ = max len conf.buf_size in
      let o2 : Output = (output_bufs cl conf.enable_module_header r1.1).1 in
      let path : refill len o ≡ new_buf cl m o2 = e3 ∙ ap (λ r. new_buf cl m r.1) e2 in
      let (k, b, f, l) =
        new_buf-Given cl m o2 (omega arith) flushed.0 (flushed.2 empty)
          (sym (ap (λ r. r.0) path) ∙ h) in
      subst (λ r. Given cl len o r.1) (sym path)
        ((k.0, k.1 ∙ (flushed.1 ∙ queued.1), λ z. k.2 (flushed.2 (queued.2 z))), b, f, omega arith)

  -- A successful request for `len` bytes of memory keeps the stream and gives a buffer with room for them.
  pub request_mem-Given :
      (len : ℕ) (o : Output)
      → len < 2 ^ 64
      → conf.buf_size < 2 ^ 64
      → IsStream o
      → (request_mem cl conf len o).0 ≡ Rc.ok
      → Given cl len o (request_mem cl conf len o).1
  unfolding request_mem refill
  request_mem-Given len o s t v = go (has_room len o) refl
    where
      go :
          (c : Bool)
          → has_room len o ≡ c
          → let r = if c then (Rc.ok, o) else refill len o in r.0 ≡ Rc.ok → Given cl len o r.1
      go true e h = let (b, f, l) = has_room-some len o e in ((v, refl, λ z. z), b, f, l)
      go false e h = refill-Given len o s t v h

  -- Memory, any steps that keep the stream and its room, and the submission: the bytes come last.
  pub deliver :
      (size : ℕ) (written : List ℕ) (g : Action) (o : Output)
      → size < 2 ^ 64
      → conf.buf_size < 2 ^ 64
      → length written ≡ size
      → ((o' : Output) (b : Buf)
          → IsStream o'
          → o'.out_buf ≡ some b
          → size ≤ o'.avail_out
          → (g o').0 ≡ Rc.ok
          → IsStream (g o').1
            × (produced (g o').1 ≡ produced o')
            × ((g o').1.out_buf ≡ some b)
            × (size ≤ (g o').1.avail_out))
      → IsStream o
      → ((request_mem cl conf size >> g >> submit_mem cl written) o).0 ≡ Rc.ok
      → IsStream ((request_mem cl conf size >> g >> submit_mem cl written) o).1
        × (produced ((request_mem cl conf size >> g >> submit_mem cl written) o).1
            ≡ produced o ++ written)
  deliver size written g o s t l keep v h =
      let r : Rc × Output = request_mem cl conf size o in
      let r' : Rc × Output = then_do g r in
      let (ok2, path2) = then_do-ok (submit_mem cl written) r' h in
      let (ok1, path1) = then_do-ok g r ok2 in
      let (k, b, f, room) = request_mem-Given size o s t v ok1 in
      let (v1, p1, f1, room1) = keep r.1 b k.0 f room (sym (ap (λ x. x.0) path1) ∙ ok2) in
      let (v', p) = submit_mem-Keeps cl written (g r.1).1 b v1 f1 (omega arith) in
      subst (λ x. IsStream x.1 × (produced x.1 ≡ produced o ++ written))
        (sym (path2 ∙ ap (λ x. submit_mem cl written x.1) path1))
        (v', p ∙ ap (λ x. x ++ written) (p1 ∙ k.1))

  -- What a step between the two may do: keep the stream and the room that was given.
  abbrev pub KeepsRoom : ℕ → Output → Buf → Rc × Output → Type 0
  KeepsRoom size o b r =
      IsStream r.1 × (produced r.1 ≡ produced o) × (r.1.out_buf ≡ some b) × (size ≤ r.1.avail_out)

  pub check_size-KeepsRoom :
      (size : ℕ) (written : List ℕ) (o : Output) (b : Buf)
      → length written ≡ size
      → IsStream o
      → o.out_buf ≡ some b
      → size ≤ o.avail_out
      → KeepsRoom size o b (check_size size written o)
  unfolding check_size
  check_size-KeepsRoom size written o b e v f l =
      let same : (length written == size) ≡ true = ground arith in
      let path : check_size size written o ≡ (Rc.ok, o) = ground arith in
      subst (KeepsRoom size o b) (sym path) (v, refl, f, l)

  -- An atom of `size` bytes that is output with success to a sound stream comes last in it, whole, and the
  -- counters agree with the buffers again. The sizes fit `size_t`.
  pub emit-Keeps :
      (size : ℕ) (written : List ℕ) (o : Output)
      → size < 2 ^ 64
      → conf.buf_size < 2 ^ 64
      → length written ≡ size
      → IsStream o
      → (emit cl conf size written o).0 ≡ Rc.ok
      → IsStream (emit cl conf size written o).1
        × (produced (emit cl conf size written o).1 ≡ produced o ++ written)
  unfolding emit
  emit-Keeps size written o s t l v h =
      deliver size written (check_size size written) o s t l
        (λ o' b v f r _. check_size-KeepsRoom size written o' b l v f r) v h
