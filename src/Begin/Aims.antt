-- ===== src/Begin/Aims.antt =====
-- The upstream of a request: the target of ngx_http_drizzle_handler (src/ngx_http_drizzle_handler.c).
use drizzle_nginx_module.Prelude.{
  ℕ, ◌^◌, ◌<◌, ◌≡◌, refl, sym, subst, ◌⊎◌, inl, inr, Bool, true, false, List, ◌∷◌, Option, none,
  some, length, ◌==◌, if◌then◌else◌, All, All-split,
}
use drizzle_nginx_module.Nginx.{Rc}
use drizzle_nginx_module.Connect.Retry.{AllHeld}
use drizzle_nginx_module.LocConf.Pass.{
  UpstreamConf, Location, drizzle_add, IsTargeted, drizzle_add-Found,
}
use drizzle_nginx_module.Upstream.InitPeer.{PeerSetup}
use drizzle_nginx_module.Begin.Serve.{
  Incoming, Targeted, no_target, targets, with_found, with_target, find_target,
}

-- The upstream has a peer, and as many as it states; its count of connections fits a word, and each cached item has a
-- connection.
pub record HasPeers (u : UpstreamConf) : Type 0 where
  pub some_peer : 0 < u.peers.number
  pub complete : u.peers.number ≡ length u.peers.peers
  pub bounded : u.peers.pool.active_conns < 2 ^ 64
  pub cached : AllHeld u.peers.pool.cache

abbrev pub AnyHasPeers : Option UpstreamConf → Type 0
AnyHasPeers none = Unit
AnyHasPeers (some u) = HasPeers u

module _ (setup : PeerSetup) where
  -- The location that the target gives has an upstream, and the configuration that it had.
  abbrev pub Aims : Location → Targeted → Type 0
  Aims loc (no_target rc) = (rc ≡ Rc.error) ⊎ (rc ≡ Rc.status 500)
  Aims loc (targets loc') =
      (loc'.conf ≡ loc.conf) × (u : UpstreamConf) × (loc'.upstream ≡ some u) × HasPeers u

  with_found-Aims :
      (r : Incoming) (loc : Location) (text : List ℕ)
      → All HasPeers r.upstreams
      → Aims loc (with_found loc (drizzle_add r.casecmp text 0 r.upstreams))
  with_found-Aims r loc text all = elim (drizzle_add-Found r.casecmp text 0 r.upstreams) [
    | inr (e, _) ↦ subst (λ o. Aims loc (with_found loc o)) (sym e) (inr refl)
    | inl (u, e, (before, after, same, _, _)) ↦
        let pos = (All-split HasPeers before (u ∷ after) (subst (All HasPeers) same all)).1.0 in
        subst (λ o. Aims loc (with_found loc o)) (sym e) (refl, u, refl, pos)
  ]

  with_target-Aims :
      (r : Incoming) (loc : Location) (o : Option (List ℕ))
      → All HasPeers r.upstreams
      → Aims loc (with_target r loc o)
  with_target-Aims r loc none all = inl refl
  with_target-Aims r loc (some text) all = go (length text == 0)
    where
      go :
          (b : Bool)
          → Aims loc (
              if b
              then no_target (Rc.status 500)
              else with_found loc (drizzle_add r.casecmp text 0 r.upstreams))
      go true = inr refl
      go false = with_found-Aims r loc text all

  pub find_target-Aims :
      (r : Incoming) (loc : Location)
      → IsTargeted loc
      → AnyHasPeers loc.upstream
      → All HasPeers r.upstreams
      → Aims loc (find_target r setup loc)
  unfolding find_target
  find_target-Aims r loc (inr (empty, u, e)) own all =
      subst
        (λ o.
          Aims loc
            (elim o [ none ↦ targets loc | some script ↦ with_target r loc (setup.value script) ]))
        (sym empty) (refl, u, e, subst AnyHasPeers e own)
  find_target-Aims r loc (inl (script, e)) own all =
      subst
        (λ o.
          Aims loc
            (elim o [ none ↦ targets loc | some script ↦ with_target r loc (setup.value script) ]))
        (sym e) (with_target-Aims r loc (setup.value script) all)
