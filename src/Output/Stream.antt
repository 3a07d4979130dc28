-- ===== src/Output/Stream.antt =====
-- The buffers of src/ngx_http_drizzle_output.c as a stream of bytes on its way to nginx's output filter, and
-- the counters of `dp` that belong to them.
pub mod Steps
pub mod Emit
use drizzle_nginx_module.Prelude.{
  ℕ, zero, suc, ◌+◌, ◌-◌, ◌^◌, ◌≤◌, ◌<◌, max, ◌≡◌, not, ◌&&◌, refl, sym, ap, subst, ◌∙◌, ◌⊎◌, inl,
  inr, Bool, true, false, List, [], ◌∷◌, ◌++◌, append_assoc, append-nil, Option, none, some, length,
  length-append, take, drop, All, All-append, ltb, leb, ◌==◌, if◌then◌else◌, Bool-cases,
  Option-cases, arith,
}
use mathlib.Core.Option
use drizzle_nginx_module.Nginx.{Rc, is_failure}
use drizzle_nginx_module.Output.Headers.{set_header}
use drizzle_nginx_module.Output.Buffers.{
  Buf, Conf, Client, Output, sub64, caps, bytes_of, recycle, next_call, enqueue, queue_buf, Action,
  then_do, or_error, ◌>>◌, set_type, name_module, ask_header, rds_content_type, flush_stream_end,
  send_header, to_error, filter_bufs, filter_if_sent, start_buf, fill_buf, append_bytes,
  output_bufs, new_buf, has_room, request_mem, submit_mem, emit, pending_output,
}

-- The counter of the free space of the buffer that is filled.
abbrev pub Room : Option Buf → ℕ → Type 0
Room none avail = avail ≡ 0
Room (some b) avail = (length b.bytes + avail ≡ b.cap) × (b.cap < 2 ^ 64)

-- A buffer holds no more than it has room for.
abbrev pub IsSound : Buf → Type 0
IsSound b = (length b.bytes ≤ b.cap) × (b.cap < 2 ^ 64)

pub record Sound (out_buf : Option Buf) (avail_out buffered_output : ℕ)
    (out_bufs busy_bufs free_bufs : List Buf) : Type 0 where
  pub room : Room out_buf avail_out
  pub counted : buffered_output ≡ caps busy_bufs + caps out_bufs
  pub out_sound : All IsSound out_bufs
  pub busy_sound : All IsSound busy_bufs
  pub free_sound : All IsSound free_bufs

abbrev pub IsStream : Output → Type 0
IsStream o = Sound o.out_buf o.avail_out o.buffered_output o.out_bufs o.busy_bufs o.free_bufs

-- The bytes in the buffer that is filled.
abbrev pub held : Option Buf → List ℕ
held none = []
held (some b) = b.bytes

-- All that the output functions have submitted: given to the filter, queued, or in the last buffer.
abbrev pub produced : Output → List ℕ
produced o = o.wire ++ (bytes_of o.out_bufs ++ held o.out_buf)

pub bytes_of-append : (xs ys : List Buf) → bytes_of (xs ++ ys) ≡ bytes_of xs ++ bytes_of ys
bytes_of-append [] ys = refl
bytes_of-append (x ∷ xs) ys =
    rw (bytes_of-append xs ys) (sym (append_assoc x.bytes (bytes_of xs) (bytes_of ys)))

pub caps-append : (xs ys : List Buf) → caps (xs ++ ys) ≡ caps xs + caps ys
caps-append [] ys = omega arith
caps-append (x ∷ xs) ys = omega (arith, caps-append xs ys)

pub drop-IsSound : (n : ℕ) (xs : List Buf) → All IsSound xs → All IsSound (drop n xs)
drop-IsSound zero xs h = h
drop-IsSound (suc n) [] h = tt
drop-IsSound (suc n) (x ∷ xs) h = drop-IsSound n xs h.1

pub recycle-IsSound :
    (n : ℕ) (xs free : List Buf)
    → All IsSound xs
    → All IsSound free
    → All IsSound (recycle (take n xs) free)
recycle-IsSound zero xs free h k = k
recycle-IsSound (suc n) [] free h k = k
recycle-IsSound (suc n) (x ∷ xs) free h k = recycle-IsSound n xs _ h.1 ((omega arith, h.0.1), k)

-- What an operation that keeps the stream gives: the same bytes, in a sound state, and no bytes in the last
-- buffer if there were none.
abbrev pub Keeps : Output → Output → Type 0
Keeps o o' = IsStream o' × (produced o' ≡ produced o) × (held o.out_buf ≡ [] → held o'.out_buf ≡ [])

pub enqueue-Keeps : (b : Buf) (o : Output) → o.out_buf ≡ some b → IsStream o → Keeps o (enqueue b o)
unfolding enqueue
enqueue-Keeps b o e v = (
  record {
    room = refl;
    counted = omega (arith, v.counted, caps-append o.out_bufs (b ∷ []));
    out_sound =
        All-append IsSound o.out_bufs (b ∷ []) v.out_sound
          (let r = subst (λ x. Room x o.avail_out) e v.room in (omega arith, r.1), tt);
    busy_sound = v.busy_sound;
    free_sound = v.free_sound;
  },
  ap (◌++◌ o.wire) (simp (bytes_of-append, e, append-nil)),
  λ _. refl,
)

-- If the step succeeds, it keeps the stream.
abbrev pub KeepsOk : Output → Rc × Output → Type 0
KeepsOk o r = r.0 ≡ Rc.ok → Keeps o r.1

pub by_eq : (o : Output) {r r' : Rc × Output} → r ≡ r' → KeepsOk o r' → KeepsOk o r
by_eq o e k = subst (KeepsOk o) (sym e) k

pub then_do-KeepsOk :
    (o : Output) (r : Rc × Output) (g : Action)
    → KeepsOk o r
    → ((o' : Output) → IsStream o' → KeepsOk o' (g o'))
    → KeepsOk o (then_do g r)
then_do-KeepsOk o (Rc.ok, o') g k l h =
    let first = k refl in
    let second = l o' first.0 h in (second.0, second.1 ∙ first.1, λ z. second.2 (first.2 z))
then_do-KeepsOk o (Rc.error, o') g k l h = absurd (cc)
then_do-KeepsOk o (rc, o') g k l h = absurd (cc)

pub to_error-ok : (rc : Rc) → to_error rc ≡ Rc.ok → rc ≡ Rc.ok
to_error-ok Rc.ok h = refl
to_error-ok _ h = absurd (cc)

pub or_error-KeepsOk : (o : Output) (f : Action) → KeepsOk o (f o) → KeepsOk o (or_error f o)
or_error-KeepsOk o f k h = k (to_error-ok (f o).0 h)

pub nil_of_length : (xs : List ℕ) → length xs ≡ 0 → xs ≡ []
nil_of_length [] h = refl
nil_of_length (x ∷ xs) h = absurd (omega arith)

-- What a chain of steps that succeeded went through.
pub then_do-ok :
    (g : Action) (r : Rc × Output) → (then_do g r).0 ≡ Rc.ok → (r.0 ≡ Rc.ok) × (then_do g r ≡ g r.1)
then_do-ok g (Rc.ok, o) h = (refl, refl)
then_do-ok g (rc, o) h = absurd (cc)
