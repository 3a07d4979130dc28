-- ===== src/LocConf/Pass.antt =====
-- A location that a directive makes the module's own: ngx_http_drizzle_pass, ngx_http_drizzle_enable_status and
-- ngx_http_drizzle_set_complex_value_slot of src/ngx_http_drizzle_module.c, and ngx_http_upstream_drizzle_add of
-- src/ngx_http_drizzle_upstream.c (nginx 1.11.6 or later).
use drizzle_nginx_module.Prelude.{
  ℕ, ◌≡◌, refl, ap, ◌⊎◌, inl, inr, Bool, true, false, not, ◌||◌, List, [], ◌∷◌, ◌++◌, Option, none,
  some, length, ltb, ◌==◌, if◌then◌else◌, All, Bool-cases, Option-cases, arith,
}
use drizzle_nginx_module.LocConf.{LocConf, is_null}
use drizzle_nginx_module.LocConf.Query.{ConfResult, conf_ok, is_duplicate, conf_error}
use drizzle_nginx_module.Upstream.{PeersConf}

-- `ngx_http_upstream_srv_conf_t`, of a block whose peers ngx_http_upstream_drizzle_init sets up, and `dscf->current`.
pub record UpstreamConf : Type 0 where
  pub host : List ℕ
  pub port : ℕ
  pub peers : PeersConf
  pub current : ℕ

-- `clcf->handler`
pub data ContentHandler : Type 0 where
  no_content drizzle_handler status_handler : ContentHandler

-- `ngx_http_drizzle_loc_conf_t` with the fields that are not merged, `complex_target` and `upstream.upstream`, and what the module
-- sets of `ngx_http_core_loc_conf_t`. The complex value is the text that was compiled.
pub record Location : Type 0 where
  pub conf : LocConf
  pub complex_target : Option (List ℕ)
  pub upstream : Option UpstreamConf
  pub handler : ContentHandler
  pub auto_redirect : Bool
  pub name : List ℕ

-- nginx's answers: `ngx_http_add_variable`, `ngx_http_get_variable_index`, `ngx_http_script_variables_count`, memory,
-- `ngx_http_compile_complex_value`, and `ngx_http_upstream_add`.
pub record PassParser : Type 0 where
  pub add_variable : Bool
  pub variable_index : Option ℕ
  pub count_variables : List ℕ → ℕ
  pub memory : Bool
  pub compiles : List ℕ → Bool
  pub add_upstream : List ℕ → Option UpstreamConf

-- `clcf->name.data[clcf->name.len - 1] == '/'`; a location's name is not empty.
unfoldable pub ends_in_slash : List ℕ → Bool
ends_in_slash [] = false
ends_in_slash (c ∷ []) = c == 47
ends_in_slash (c ∷ (d ∷ cs)) = ends_in_slash (d ∷ cs)

-- The target with variables is compiled; that without is an upstream.
unfoldable pub set_target : PassParser → List ℕ → Location → ConfResult Location
set_target nginx target loc =
    if ltb 0 (nginx.count_variables target)
    then if not nginx.memory
      then conf_error
      else if not (nginx.compiles target)
      then conf_error
      else conf_ok (record loc { complex_target = some target })
    else elim (nginx.add_upstream target) [
      | none ↦ conf_error
      | some u ↦ conf_ok (record loc { complex_target = none; upstream = some u })
    ]

-- ngx_http_drizzle_pass, with its argument. The module has one variable to add, $drizzle_thread_id.
unfoldable pub drizzle_pass : PassParser → List ℕ → Location → ConfResult Location
unfolding ends_in_slash set_target
drizzle_pass nginx target loc =
    if not (is_null loc.upstream)
    then is_duplicate
    else if not nginx.add_variable
    then conf_error
    else elim nginx.variable_index [
      | none ↦ conf_error
      | some i ↦ set_target nginx target (record loc {
        conf = record (loc.conf) { tid_var_index = some i };
        handler = ContentHandler.drizzle_handler;
        auto_redirect = if ends_in_slash loc.name then true else loc.auto_redirect;
      })
    ]

-- ngx_http_drizzle_enable_status
unfoldable pub enable_status : Location → ConfResult Location
enable_status loc = conf_ok (record loc { handler = ContentHandler.status_handler })

-- ngx_http_drizzle_set_complex_value_slot on the field of drizzle_dbname. The value of an empty text is zeroed and evaluates to
-- an empty text.
unfoldable pub set_dbname_slot : PassParser → List ℕ → LocConf → ConfResult LocConf
set_dbname_slot nginx text conf =
    if not (is_null conf.dbname)
    then is_duplicate
    else if not nginx.memory
    then conf_error
    else if length text == 0
    then conf_ok (record conf { dbname = some [] })
    else if not (nginx.compiles text)
    then conf_error
    else conf_ok (record conf { dbname = some text })

-- ngx_http_upstream_drizzle_add: the upstream block of a host and a port; `casecmp` is `ngx_strncasecmp(...) == 0`.
unfoldable pub drizzle_add :
    (List ℕ → List ℕ → Bool) → List ℕ → ℕ → List UpstreamConf → Option UpstreamConf
drizzle_add casecmp host port [] = none
drizzle_add casecmp host port (u ∷ us) =
    let later = drizzle_add casecmp host port us in
    if not (length u.host == length host) || not (casecmp u.host host)
    then later
    else if not (u.port == port)
    then later
    else some u

-- A location that the handler serves knows how to find its upstream.
abbrev pub IsTargeted : Location → Type 0
IsTargeted loc =
    ((script : List ℕ) × (loc.complex_target ≡ some script))
    ⊎ ((loc.complex_target ≡ none) × (u : UpstreamConf) × (loc.upstream ≡ some u))

set_target-IsTargeted :
    (nginx : PassParser) (target : List ℕ) (loc loc' : Location)
    → set_target nginx target loc ≡ conf_ok loc'
    → (loc'.handler ≡ loc.handler) × IsTargeted loc'
unfolding set_target
set_target-IsTargeted nginx target loc loc' e =
    elim (Bool-cases (ltb 0 (nginx.count_variables target))) [
      | inl v ↦ (ground (arith, e, v), inl (target, ground (arith, e, v)))
      | inr v ↦ elim (Option-cases (nginx.add_upstream target)) [
        | inl w ↦ absurd (ground (arith, e, v, w))
        | inr (u, w) ↦
            (ground (arith, e, v, w), inr (ground (arith, e, v, w), u, ground (arith, e, v, w)))
      ]
    ]

pub drizzle_pass-IsTargeted :
    (nginx : PassParser) (target : List ℕ) (loc loc' : Location)
    → drizzle_pass nginx target loc ≡ conf_ok loc'
    → (loc'.handler ≡ ContentHandler.drizzle_handler) × IsTargeted loc'
unfolding drizzle_pass
drizzle_pass-IsTargeted nginx target loc loc' e =
    go (not (is_null loc.upstream)) (not nginx.add_variable) nginx.variable_index e
  where
    ready : ℕ → Location
    ready i = record loc {
      conf = record (loc.conf) { tid_var_index = some i };
      handler = ContentHandler.drizzle_handler;
      auto_redirect = if ends_in_slash loc.name then true else loc.auto_redirect;
    }

    go :
        (a b : Bool) (o : Option ℕ)
        → (if a
            then is_duplicate
            else if b
            then conf_error
            else elim o [ none ↦ conf_error | some i ↦ set_target nginx target (ready i) ])
          ≡ conf_ok loc'
        → (loc'.handler ≡ ContentHandler.drizzle_handler) × IsTargeted loc'
    go true b o f = absurd (ground (arith, f))
    go false true o f = absurd (ground (arith, f))
    go false false none f = absurd (ground (arith, f))
    go false false (some i) f = set_target-IsTargeted nginx target (ready i) loc' f

-- The block stands in the list, has the port and a host that is the same text but for the case, and none before it has.
abbrev pub Matches : (List ℕ → List ℕ → Bool) → List ℕ → ℕ → UpstreamConf → Type 0
Matches casecmp host port u =
    (length u.host ≡ length host) × (casecmp u.host host ≡ true) × (u.port ≡ port)

abbrev pub Found : (List ℕ → List ℕ → Bool) → List ℕ → ℕ → List UpstreamConf → UpstreamConf → Type 0
Found casecmp host port us u =
    (before : List UpstreamConf) × (after : List UpstreamConf) × (us ≡ before ++ (u ∷ after))
    × Matches casecmp host port u
    × All (λ v. ¬ Matches casecmp host port v) before

-- The blocks of upstreams are searched in their order: the first that has the port and whose host is the same but for
-- the case is found, and if nothing is found, none matches.
pub drizzle_add-Found :
    (casecmp : List ℕ → List ℕ → Bool) (host : List ℕ) (port : ℕ) (us : List UpstreamConf)
    → ((u : UpstreamConf) × (drizzle_add casecmp host port us ≡ some u)
        × Found casecmp host port us u)
      ⊎ ((drizzle_add casecmp host port us ≡ none) × All (λ v. ¬ Matches casecmp host port v) us)
unfolding drizzle_add
drizzle_add-Found casecmp host port [] = inr (refl, tt)
drizzle_add-Found casecmp host port (u ∷ us) =
    go (length u.host == length host) refl (casecmp u.host host) refl (u.port == port) refl
      (drizzle_add-Found casecmp host port us)
  where
    Result : Option UpstreamConf → List UpstreamConf → Type 0
    Result o vs =
        ((v : UpstreamConf) × (o ≡ some v) × Found casecmp host port vs v)
        ⊎ ((o ≡ none) × All (λ v. ¬ Matches casecmp host port v) vs)

    later : Option UpstreamConf
    later = drizzle_add casecmp host port us

    pass_over : ¬ Matches casecmp host port u → Result later us → Result later (u ∷ us)
    pass_over miss (inl (v, e, (before, after, same, fits, misses))) =
        inl (v, e, (u ∷ before, after, ap (◌∷◌ u) same, fits, (miss, misses)))
    pass_over miss (inr (e, misses)) = inr (e, (miss, misses))

    go :
        (a : Bool)
        → (length u.host == length host) ≡ a
        → (b : Bool) → casecmp u.host host ≡ b
        → (c : Bool) → (u.port == port) ≡ c
        → Result later us
        → Result (if not a || not b then later else if not c then later else some u) (u ∷ us)
    go false ea b eb c ec r = pass_over (λ m. ground (arith, ea, m.0)) r
    go true ea false eb c ec r = pass_over (λ m. ground (arith, eb, m.1)) r
    go true ea true eb false ec r = pass_over (λ m. ground (arith, ec, m.2)) r
    go true ea true eb true ec r =
        inl (u, refl, ([], us, refl, (ground (arith, ea), eb, ground (arith, ec)), tt))
