-- ===== src/Session/Gate.antt =====
-- ngx_http_drizzle_output_ready of src/ngx_http_drizzle_output.c: when the reading from the database goes on.
use drizzle_nginx_module.Prelude.{◌≡◌, ◌⊎◌, Bool, true, false, not, ◌||◌, Option, none, some}
use mathlib.Core.Option
use drizzle_nginx_module.Nginx.{Rc, Event, Connection}
use drizzle_nginx_module.Session.{Session, Env, is_open, connection_of, inactive, timer}

-- No event and no timer of the connection can wake the request.
abbrev pub is_quiet : Connection → Bool
is_quiet c = not (c.read.active || (c.write.active || (c.read.timer_set || c.write.timer_set)))

abbrev pub Quiet : Option Connection → Type 0
Quiet none = Unit
Quiet (some c) = is_quiet c ≡ true

module _ (env : Env) where
  -- The request may read; or it waits for the client with its connection to the database quiet; or the gate failed.
  abbrev pub Gate : Rc × Session → Type 0
  Gate r =
      ((r.0 ≡ Rc.ok) × (is_open env r.1.out ≡ true))
      ⊎ (((r.0 ≡ Rc.again)
            × (is_open env r.1.out ≡ false)
            × (r.1.out.output_paused ≡ true)
            × (r.1.draining ≡ true)
            × Quiet (connection_of r.1))
          ⊎ (r.0 ≡ Rc.error))

  change_read : (Event → Event) → Option Connection → Option Connection
  change_read f = Option.map (λ (c : Connection). record c { read = f c.read })

  change_write : (Event → Event) → Option Connection → Option Connection
  change_write f = Option.map (λ (c : Connection). record c { write = f c.write })

  -- The changes of the two events, as the source makes them.
  silenced : Option Connection → Option Connection
  silenced c =
      change_write (timer false)
        (change_read (timer false) (change_write inactive (change_read inactive c)))
