-- ===== src/Upstream/Peers.antt =====
-- The peers that ngx_http_upstream_drizzle_init (src/ngx_http_drizzle_upstream.c) sets up.
use drizzle_nginx_module.Prelude.{
  ℕ, ◌+◌, ◌≤◌, ◌<◌, ◌≡◌, refl, sym, ap, Bool, true, false, List, [], ◌∷◌, ◌++◌, append_assoc,
  append-nil, none, some, length, length-append, map, ◌==◌, if◌then◌else◌, arith,
}
use drizzle_nginx_module.Keepalive.{Pool, keepalive_init, fresh_items}
use drizzle_nginx_module.Peer.{Peer}
use drizzle_nginx_module.Upstream.{
  Addr, Server, Setup, count_addrs, peer_of, Filling, filled, fill_addrs, fill_servers, PeersConf,
  Init, init_error, init_ok, init_pool, init,
}

-- Each address of each server, in the order of the directives.
abbrev pub all_peers : Setup → List Server → List Peer
all_peers setup [] = []
all_peers setup (server ∷ servers) =
    map (peer_of setup server) server.addrs ++ all_peers setup servers

abbrev Fills : Filling → List Peer → Type 0
Fills f peers = f ≡ filled peers

length-map : {A B : Type 0} (f : A → B) (xs : List A) → length (map f xs) ≡ length xs
length-map f [] = refl
length-map f (x ∷ xs) = omega (arith, length-map f xs)

count_addrs-eq :
    (setup : Setup) (n : ℕ) (servers : List Server)
    → count_addrs n servers ≡ n + length (all_peers setup servers)
unfolding count_addrs
count_addrs-eq setup n [] = omega arith
count_addrs-eq setup n (server ∷ servers) = omega (
  arith,
  count_addrs-eq setup (n + length server.addrs) servers,
  length-append (map (peer_of setup server) server.addrs) (all_peers setup servers),
  length-map (peer_of setup server) server.addrs,
)

module _ (setup : Setup) (number : ℕ) (memory : (n : ℕ) → setup.host_memory n ≡ true) where
  fill_addrs-Fills :
      (server : Server) (addrs : List Addr) (peers : List Peer)
      → length peers + length addrs ≤ number
      → Fills
          (fill_addrs setup number server addrs peers)
          (peers ++ map (peer_of setup server) addrs)
  unfolding fill_addrs
  fill_addrs-Fills server [] peers h = ap filled (sym (append-nil peers))
  fill_addrs-Fills server (addr ∷ addrs) peers h =
      let next = peers ++ (peer_of setup server addr ∷ []) in
      let rest =
        fill_addrs-Fills server addrs next
          (omega (arith, h, length-append peers (peer_of setup server addr ∷ []))) in
      let same =
        append_assoc peers (peer_of setup server addr ∷ []) (map (peer_of setup server) addrs) in
      ground (arith, h, rest, same, memory (length peers))

  fill_servers-Fills :
      (servers : List Server) (peers : List Peer)
      → length peers + length (all_peers setup servers) ≤ number
      → Fills (fill_servers setup number servers peers) (peers ++ all_peers setup servers)
  unfolding fill_servers
  fill_servers-Fills [] peers h = ap filled (sym (append-nil peers))
  fill_servers-Fills (server ∷ servers) peers h =
      let here = map (peer_of setup server) server.addrs in
      let later = all_peers setup servers in
      let measured = length-append here later in
      let one =
        fill_addrs-Fills server server.addrs peers
          (omega (arith, h, measured, length-map (peer_of setup server) server.addrs)) in
      let rest =
        fill_servers-Fills servers (peers ++ here)
          (omega (arith, h, measured, length-append peers here)) in
      let same = append_assoc peers here later in ground (arith, one, rest, same)

-- The peers as they should be.
abbrev pub Complete : Setup → List Server → Init → Type 0
Complete setup servers i =
    (conf : PeersConf) × (i ≡ init_ok conf)
    × (conf.peers ≡ all_peers setup servers)
    × (conf.number ≡ length (all_peers setup servers))
    × (conf.single ≡ (length (all_peers setup servers) == 1))
    × (conf.pool.active_conns ≡ 0)

init_pool-Complete :
    (setup : Setup) (servers : List Server) (number : ℕ) (pool : Pool)
    → setup.items_memory ≡ true
    → number ≡ length (all_peers setup servers)
    → pool.active_conns ≡ 0
    → Complete setup servers (init_pool setup (number == 1) number (all_peers setup servers) pool)
unfolding init_pool keepalive_init
init_pool-Complete setup servers number pool memory e none_active =
    go (pool.max_cached == 0) setup.items_memory memory
  where
    all : List Peer
    all = all_peers setup servers

    conf_with : Pool → PeersConf
    conf_with pool = record { single = number == 1; number = number; peers = all; pool = pool }

    go :
        (a b : Bool)
        → b ≡ true
        → let i =
            if a
            then init_ok (conf_with pool)
            else elim (if b
                then some (record pool { cache = []; free = fresh_items pool.max_cached })
                else none) [ none ↦ init_error | some pool' ↦ init_ok (conf_with pool') ] in
          Complete setup servers i
    go true b h = (conf_with pool, refl, refl, e, ap (λ n. n == 1) e, none_active)
    go false true h =
        let stocked = record pool { cache = []; free = fresh_items pool.max_cached } in
        (conf_with stocked, refl, refl, e, ap (λ n. n == 1) e, none_active)
    go false false h = absurd (cc)

-- If nginx has the memory and there is a drizzle_server directive, the set-up succeeds: the array of peers has room for
-- every address of every server and holds them in the order of the directives, nothing is written past its end,
-- `number` is how many they are, `single` whether there is one, and no connection is counted.
pub init-Complete :
    (setup : Setup) (servers : List Server) (pool : Pool)
    → setup.peers_memory ≡ true
    → ((n : ℕ) → setup.host_memory n ≡ true)
    → setup.items_memory ≡ true
    → 0 < length servers
    → Complete setup servers (init setup servers pool)
unfolding init
init-Complete setup servers pool room hosts items some_server =
    let number = count_addrs 0 servers in
    let count : number ≡ length (all_peers setup servers) =
      omega (arith, count_addrs-eq setup 0 servers) in
    let fresh = record pool { active_conns = 0 } in
    let fills = fill_servers-Fills setup number hosts servers [] (omega (arith, count)) in
    let stocked = init_pool-Complete setup servers number fresh items count refl in
    ground (arith, room, some_server, fills, stocked)
