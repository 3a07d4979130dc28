-- ===== src/Keepalive/Directive.antt =====
-- The directive drizzle_keepalive: ngx_http_upstream_drizzle_keepalive of src/ngx_http_drizzle_keepalive.c.
use drizzle_nginx_module.Prelude.{
  ℕ, ◌≡◌, ◌∙◌, refl, Bool, true, false, List, [], ◌∷◌, ◌++◌, map, Option, none, some, bytes_eq,
  ◌==◌, codes, All, ◌⊎◌, ◌≢◌, inl, inr, Bool-cases, if◌then◌else◌, arith,
}
use drizzle_nginx_module.Keepalive.{Overflow, overflow_ignore, overflow_reject, Pool}

-- `ngx_http_drizzle_strcmp_const(arg, prefix) == 0`, and the bytes after the prefix.
unfoldable pub after_prefix : List ℕ → List ℕ → Option (List ℕ)
after_prefix [] arg = some arg
after_prefix (p ∷ ps) [] = none
after_prefix (p ∷ ps) (a ∷ arg) = if a == p then after_prefix ps arg else none

-- "mode=": `true` is single.
unfoldable pub parse_mode : List ℕ → Option Bool
parse_mode text =
    if bytes_eq text (codes "single")
    then some true
    else if bytes_eq text (codes "multi")
    then some false
    else none

-- "overflow="
unfoldable pub parse_overflow : List ℕ → Option Overflow
parse_overflow text =
    if bytes_eq text (codes "reject")
    then some overflow_reject
    else if bytes_eq text (codes "ignore")
    then some overflow_ignore
    else none

-- One turn of the loop; `none` is NGX_CONF_ERROR. `atoi` is `ngx_atoi`, `none` for NGX_ERROR.
unfoldable pub set_argument : (List ℕ → Option ℕ) → List ℕ → Pool → Option Pool
unfolding after_prefix parse_mode parse_overflow
set_argument atoi arg pool = elim (after_prefix (codes "max=") arg) [
  | some text ↦ elim (atoi text) [ some n ↦ some (record pool { max_cached = n }) | none ↦ none ]
  | none ↦ elim (after_prefix (codes "mode=") arg) [
    | some text ↦ elim (parse_mode text) [
      | some b ↦ some (record pool { single = b })
      | none ↦ none
    ]
    | none ↦ elim (after_prefix (codes "overflow=") arg) [
      | some text ↦ elim (parse_overflow text) [
        | some o ↦ some (record pool { overflow = o })
        | none ↦ none
      ]
      | none ↦ none
    ]
  ]
]

unfoldable pub set_arguments : (List ℕ → Option ℕ) → List (List ℕ) → Pool → Option Pool
set_arguments atoi [] pool = some pool
set_arguments atoi (arg ∷ args) pool = elim (set_argument atoi arg pool) [
  | none ↦ none
  | some pool' ↦ set_arguments atoi args pool'
]

-- What the directive returns: NGX_CONF_OK, "is duplicate", or NGX_CONF_ERROR.
pub data Directive : Type 0 where
  conf_ok : Pool → Directive
  is_duplicate conf_error : Directive

abbrev pub directive_of : Option Pool → Directive
directive_of none = conf_error
directive_of (some pool) = conf_ok pool

unfoldable pub keepalive : (List ℕ → Option ℕ) → List (List ℕ) → Pool → Directive
keepalive atoi args pool =
    if pool.max_cached == 0 then directive_of (set_arguments atoi args pool) else is_duplicate

-- What a user may ask for, as README documents it: `max` is written as any text for the number.
pub data Setting : Type 0 where
  max_is : List ℕ → ℕ → Setting
  mode_is : Bool → Setting
  overflow_is : Overflow → Setting

abbrev pub written : Setting → List ℕ
written (max_is text n) = codes "max=" ++ text
written (mode_is true) = codes "mode=single"
written (mode_is false) = codes "mode=multi"
written (overflow_is overflow_reject) = codes "overflow=reject"
written (overflow_is overflow_ignore) = codes "overflow=ignore"

-- The text of `max` is one that `ngx_atoi` reads as the number.
abbrev pub IsRead : (List ℕ → Option ℕ) → Setting → Type 0
IsRead atoi (max_is text n) = atoi text ≡ some n
IsRead atoi (mode_is b) = Unit
IsRead atoi (overflow_is o) = Unit

abbrev pub with_setting : Setting → Pool → Pool
with_setting (max_is text n) pool = record pool { max_cached = n }
with_setting (mode_is b) pool = record pool { single = b }
with_setting (overflow_is o) pool = record pool { overflow = o }

abbrev pub with_settings : List Setting → Pool → Pool
with_settings [] pool = pool
with_settings (s ∷ ss) pool = with_settings ss (with_setting s pool)

set_argument-written :
    (atoi : List ℕ → Option ℕ) (s : Setting) (pool : Pool)
    → IsRead atoi s
    → set_argument atoi (written s) pool ≡ some (with_setting s pool)
unfolding set_argument after_prefix parse_mode parse_overflow bytes_eq
set_argument-written atoi (max_is text n) pool h = simp h refl
set_argument-written atoi (mode_is true) pool h = refl
set_argument-written atoi (mode_is false) pool h = refl
set_argument-written atoi (overflow_is overflow_reject) pool h = refl
set_argument-written atoi (overflow_is overflow_ignore) pool h = refl

set_arguments-some :
    (atoi : List ℕ → Option ℕ) (arg : List ℕ) (args : List (List ℕ)) (pool pool' : Pool)
    → set_argument atoi arg pool ≡ some pool'
    → set_arguments atoi (arg ∷ args) pool ≡ set_arguments atoi args pool'
unfolding set_arguments
set_arguments-some atoi arg args pool pool' e = ground (arith, e)

set_arguments-written :
    (atoi : List ℕ → Option ℕ) (ss : List Setting) (pool : Pool)
    → All (IsRead atoi) ss
    → set_arguments atoi (map written ss) pool ≡ some (with_settings ss pool)
unfolding set_arguments
set_arguments-written atoi [] pool h = refl
set_arguments-written atoi (s ∷ ss) pool h =
    set_arguments-some atoi (written s) (map written ss) pool (with_setting s pool)
      (set_argument-written atoi s pool h.0)
    ∙ set_arguments-written atoi ss (with_setting s pool) h.1

-- Any settings, in any order and also repeated, written as the directive's arguments, are accepted in a block whose
-- capacity is not set, and each takes effect, a later one over an earlier one. With the capacity set the directive is
-- a duplicate.
pub keepalive-written :
    (atoi : List ℕ → Option ℕ) (ss : List Setting) (pool : Pool)
    → All (IsRead atoi) ss
    → ((pool.max_cached ≡ 0)
        × (keepalive atoi (map written ss) pool ≡ conf_ok (with_settings ss pool)))
      ⊎ ((pool.max_cached ≢ 0) × (keepalive atoi (map written ss) pool ≡ is_duplicate))
unfolding keepalive
keepalive-written atoi ss pool h = elim (Bool-cases (pool.max_cached == 0)) [
  | inl e ↦ inl (ground (arith, e), ground (arith, e, set_arguments-written atoi ss pool h))
  | inr e ↦ inr (ground (arith, e), ground (arith, e))
]
