-- ===== src/Handler/ThreadId.antt =====
-- $drizzle_thread_id (src/ngx_http_drizzle_util.c) is as long as the number that is printed into it.
use drizzle_nginx_module.Session.{Session}
