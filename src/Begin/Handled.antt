-- ===== src/Begin/Handled.antt =====
-- How ngx_http_drizzle_handler (src/ngx_http_drizzle_handler.c) returns, over every request and every answer of nginx.
use drizzle_nginx_module.Prelude.{ℕ, ◌+◌, ◌≡◌, ◌⊎◌, Bool}
use drizzle_nginx_module.Nginx.{Rc}
use drizzle_nginx_module.Connect.{Attempt}
use drizzle_nginx_module.LocConf.{LocConf}
use drizzle_nginx_module.LocConf.Built.{Built}
use drizzle_nginx_module.Session.{Session, Env}
use drizzle_nginx_module.Begin.{Host}
use drizzle_nginx_module.Begin.Serve.{Served, refused, served}
use drizzle_nginx_module.Begin.Aims.{Aims}
use drizzle_nginx_module.Begin.Starts.{Starts}
use drizzle_nginx_module.Begin.Stands.{Stands}

-- What the handler returns: a code for a request that it does not hold, or NGX_DONE for one that it holds once more.
abbrev pub Handled : Env → Host → (Session → Session) → (ℕ → Attempt) → Bool → ℕ → Served → Type 0
Handled env host reconnect attempts header_sent count (refused rc) =
    (rc ≡ Rc.error) ⊎ ((rc ≡ Rc.status 405) ⊎ (rc ≡ Rc.status 500))
Handled env host reconnect attempts header_sent count (served n loc (w, b)) =
    (n ≡ count + 1) × Stands env host reconnect attempts header_sent b
