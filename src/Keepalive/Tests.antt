-- ===== src/Keepalive/Tests.antt =====
-- Runs of the pool of src/ngx_http_drizzle_keepalive.c on concrete requests.
use drizzle_nginx_module.Prelude.{
  ℕ, ◌-◌, Option, map, codes, ◌≡◌, ◌≢◌, refl, subst, ◌⊎◌, true, false, List, [], ◌∷◌, ◌++◌, none,
  some, take, All, arith,
}
use mathlib.Core.Option
use drizzle_nginx_module.Nginx.{
  Rc, Event, Connection, Upstream, PeerConnection, Handler, Log, pred64,
}
use drizzle_nginx_module.Keepalive.{
  Item, Pool, Overflow, PeerData, Peering, add_option, fresh_item, fresh_items, keepalive_init,
  wake, rest, same_address, get_peer_multi, take_item, fill, save, Peek, close_handler,
}
use drizzle_nginx_module.Keepalive.Directive.{
  Setting, Directive, keepalive, written, with_settings, keepalive-written,
}
use drizzle_nginx_module.Keepalive.Invariant.{IsPool, save-IsPool, keepalive_init-IsPool}
use drizzle_nginx_module.Keepalive.History.{Call, run, run-IsPool}
use drizzle_nginx_module.Keepalive.Reuse.{
  get_peer_multi_cases, connections, ClosesNothing, ClosesOldest, save_keeps_most_recent,
  close_handler_cases,
}

abbrev event : Event
event = record {
  timer_set = true;
  active = true;
  disabled = false;
  posted = false;
  closed = false;
  ready = true;
  handler = Handler.dbd_handler;
  log = Log.request_log;
}

abbrev connection : Connection
connection = record {
  fd = 7;
  close = false;
  idle = false;
  read = event;
  write = event;
  log = Log.request_log;
}

abbrev empty_pool : Pool
empty_pool = record {
  single = true;
  free = [];
  cache = [];
  active_conns = 1;
  max_cached = 2;
  overflow = Overflow.overflow_ignore;
  closed = [];
  freed = [];
}

abbrev fresh_pool : Pool
fresh_pool = record empty_pool { free = fresh_item 1 ∷ (fresh_item 0 ∷ []) }

fresh_pool-init : keepalive_init true empty_pool ≡ some fresh_pool
unfolding keepalive_init fresh_items
fresh_pool-init = refl

abbrev peer : PeerConnection
peer = record { connection = some connection; cached = false; sockaddr = 127 ∷ (1 ∷ []) }

abbrev data_of : PeerData
data_of = record {
  name = 100 ∷ [];
  drizzle_con = some 31;
  has_set_names = true;
  used = 4;
  failed = false;
}

abbrev finished : Upstream
finished = record { status_n = 200; header_sent = true; length = 0 }

abbrev peering : Peering
peering = record { pc = peer; dp = data_of; pool = fresh_pool }

abbrev calls : List Call
calls =
    Call.gives finished false peer data_of
    ∷ (Call.gives finished false peer data_of
        ∷ (Call.gives finished false peer data_of
            ∷ (Call.takes_multi peer data_of ∷ (Call.wakes Peek.peek_eof false 1 ∷ []))))

run-IsPool_example :
    (pool' : Pool) × (run fresh_pool calls ≡ some pool') × IsPool pool' × (pool'.max_cached ≡ 2)
run-IsPool_example = run-IsPool empty_pool calls (omega arith) fresh_pool-init

abbrev saved_item : Item
saved_item = fill peer data_of connection (fresh_item 1)

abbrev saved_pool : Pool
saved_pool = record fresh_pool { free = fresh_item 0 ∷ []; cache = saved_item ∷ [] }

abbrev saved : Peering
saved = record {
  pc = record peer { connection = none };
  dp = record data_of { used = 5 };
  pool = saved_pool;
}

saved-save : save peering connection ≡ some saved
unfolding save take_item
saved-save = refl

save_keeps_most_recent_example :
    (connections saved_pool.cache ≡ take 2 (some (rest connection) ∷ connections fresh_pool.cache))
    × (ClosesNothing fresh_pool saved_pool ⊎ ClosesOldest fresh_pool saved_pool)
save_keeps_most_recent_example =
    save_keeps_most_recent peering connection (keepalive_init-IsPool empty_pool fresh_pool-init)
      saved-save

saved_pool-IsPool : IsPool saved_pool
saved_pool-IsPool =
    let (s, e, v) =
      save-IsPool peering connection (keepalive_init-IsPool empty_pool fresh_pool-init)
        (omega arith) in
    let same : s ≡ saved = ground (arith, e, saved-save) in
    subst (λ (x : Peering). IsPool x.pool) same v

abbrev visiting : Peering
visiting = record {
  pc = record peer { connection = none };
  dp = data_of;
  pool = record saved_pool { single = false };
}

get_peer_multi_cases_example :
    (All (λ item. same_address visiting.pc.sockaddr item ≡ false) visiting.pool.cache
      × (get_peer_multi visiting ≡ (Rc.declined, visiting)))
    ⊎ ((item : Item) × (before : List Item) × (after : List Item) × (visiting.pool.cache
          ≡ before ++ (item ∷ after))
        × (item.sockaddr ≡ visiting.pc.sockaddr)
        × All (λ i. same_address visiting.pc.sockaddr i ≡ false) before
        × ((get_peer_multi visiting).0 ≡ Rc.done)
        × ((get_peer_multi visiting).1.pc.connection ≡ Option.map wake item.connection)
        × ((get_peer_multi visiting).1.dp.drizzle_con ≡ item.drizzle_con)
        × ((get_peer_multi visiting).1.pool
            ≡ record (visiting.pool) { cache = before ++ after; free = item ∷ visiting.pool.free }))
get_peer_multi_cases_example = get_peer_multi_cases visiting

close_handler_cases_example :
    let pool' = close_handler Peek.peek_eof false saved_item.slot saved_pool in
    ((false ≡ false) × (Peek.peek_eof ≡ Peek.peek_again) × (pool' ≡ saved_pool))
    ⊎ (((false ≡ true) ⊎ (Peek.peek_eof ≢ Peek.peek_again))
        × (pool'.cache ≡ [] ++ [])
        × (pool'.free ≡ saved_item ∷ saved_pool.free)
        × (pool'.closed
            ≡ add_option
                (Option.map (λ (d : Connection). d.fd) saved_item.connection)
                saved_pool.closed)
        × (pool'.freed ≡ add_option saved_item.drizzle_con saved_pool.freed)
        × (pool'.active_conns ≡ pred64 saved_pool.active_conns))
close_handler_cases_example =
    close_handler_cases Peek.peek_eof false saved_pool saved_item [] [] saved_pool-IsPool refl

-- A reader of one digit.
abbrev digit : List ℕ → Option ℕ
digit [] = none
digit (d ∷ ds) = some (d - 48)

digit_two : digit (codes "2") ≡ some 2
digit_two = refl

abbrev settings : List Setting
settings =
    Setting.mode_is false
    ∷ (Setting.max_is (codes "2") 2 ∷ (Setting.overflow_is Overflow.overflow_reject ∷ []))

abbrev unset_pool : Pool
unset_pool = record empty_pool { max_cached = 0 }

keepalive-written_example :
    ((unset_pool.max_cached ≡ 0)
      × (keepalive digit (map written settings) unset_pool
          ≡ Directive.conf_ok (with_settings settings unset_pool)))
    ⊎ ((unset_pool.max_cached ≢ 0)
        × (keepalive digit (map written settings) unset_pool ≡ Directive.is_duplicate))
keepalive-written_example = keepalive-written digit settings unset_pool (tt, (digit_two, (tt, tt)))
