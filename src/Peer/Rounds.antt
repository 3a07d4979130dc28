-- ===== src/Peer/Rounds.antt =====
-- The round robin of src/ngx_http_drizzle_upstream.c over one request: the peers that its calls of
-- ngx_http_upstream_drizzle_get_peer draw.
use drizzle_nginx_module.Prelude.{
  ℕ, zero, suc, ◌+◌, ◌-◌, ◌%◌, ◌<◌, ◌≤◌, ◌≡◌, refl, sym, subst, ap, ◌∙◌, List, [], ◌∷◌, Option,
  none, some, length, get_elem?, get_elem?-some, drop, take, map, ◌++◌, arith,
}
use mathlib.Core.List.{map-append}
use mathlib.Core.Logic.{inl, inr}
use drizzle_nginx_module.Prelude.{Option-cases, Bool-cases, ◌==◌, if◌then◌else◌}
use native.Mathlib.Nat.{mod-eq_of_lt, mod-lt, mod_self}
use drizzle_nginx_module.Peer.{Peer, Request, draw}

-- The peers of up to `k` draws, and none once none remain.
unfoldable pub draws : ℕ → Request → List (Option Peer)
draws zero s = []
draws (suc k) s =
    if s.remaining_peers == 0
    then []
    else elim (draw s) [ none ↦ none ∷ [] | some (peer, s') ↦ some peer ∷ draws k s' ]

next_within : (n i : ℕ) → i + 1 < n → (i + 1) % n ≡ suc i
next_within n i h = omega (arith, mod-eq_of_lt {n = i + 1} {m = n} h)

next_wraps : (n i : ℕ) → i + 1 ≡ n → (i + 1) % n ≡ 0
next_wraps n i h = subst (λ k. (i + 1) % k ≡ 0) h (mod_self (i + 1))

module _ {ℓ} {A : Type ℓ} where
  abbrev cycle : List A → ℕ → ℕ → List (Option A)
  cycle ps zero i = []
  cycle ps (suc m) i = get_elem? ps i ∷ cycle ps m ((i + 1) % length ps)

  drop-get :
      (xs : List A) (i : ℕ) (x : A) → get_elem? xs i ≡ some x → drop i xs ≡ x ∷ drop (suc i) xs
  drop-get [] i x e = ground arith
  drop-get (y ∷ xs) zero x e = ground arith
  drop-get (y ∷ xs) (suc i) x e = drop-get xs i x e

  drop-all : (xs : List A) (i : ℕ) → length xs ≤ i → drop i xs ≡ []
  drop-all [] zero h = refl
  drop-all [] (suc i) h = refl
  drop-all (x ∷ xs) zero h = absurd (omega arith)
  drop-all (x ∷ xs) (suc i) h = drop-all xs i (omega arith)

  -- From index `i` to the end of the list, and on from its head.
  cycle-wraps :
      (ps : List A) (d m k i : ℕ)
      → i + suc d ≡ length ps
      → k ≡ suc d + m
      → cycle ps k i ≡ map some (drop i ps) ++ cycle ps m 0
  cycle-wraps ps d m zero i h r = absurd (omega arith)
  cycle-wraps ps zero m (suc k) i h r =
      let (x, e) = get_elem?-some ps i (omega arith) in
      let last : k ≡ m = omega arith in
      simp
        (
          e,
          drop-get ps i x e,
          drop-all ps (suc i) (omega arith),
          next_wraps (length ps) i (omega arith),
          last,
        )
        refl
  cycle-wraps ps (suc d) m (suc k) i h r =
      let (x, e) = get_elem?-some ps i (omega arith) in
      simp
        (
          e,
          drop-get ps i x e,
          next_within (length ps) i (omega arith),
          cycle-wraps ps d m k (suc i) (omega arith) (omega arith),
        )
        refl

  cycle-within :
      (ps : List A) (m i : ℕ) → i + m < length ps → cycle ps m i ≡ map some (take m (drop i ps))
  cycle-within ps zero i h = refl
  cycle-within ps (suc m) i h =
      let (x, e) = get_elem?-some ps i (omega arith) in
      simp
        (
          e,
          drop-get ps i x e,
          next_within (length ps) i (omega arith),
          cycle-within ps m (suc i) (omega arith),
        )
        refl

  -- The whole round: the list from index `i` on, and then its head.
  cycle-round :
      (ps : List A) (i : ℕ)
      → i < length ps
      → cycle ps (length ps) i ≡ map some (drop i ps ++ take i ps)
  cycle-round ps i h =
      cycle-wraps ps (length ps - i - 1) i (length ps) i (omega arith) (omega arith)
      ∙ ap (λ l. map some (drop i ps) ++ l) (cycle-within ps i 0 (omega arith))
      ∙ sym (map-append some (drop i ps) (take i ps))

draw-some :
    (s : Request)
    → s.next_peer < length s.peers
    → (peer : Peer) × (s' : Request) × (draw s ≡ some (peer, s'))
      × (get_elem? s.peers s.next_peer ≡ some peer)
      × (s'.peers ≡ s.peers)
      × (s'.remaining_peers ≡ s.remaining_peers - 1)
      × (s'.next_peer ≡ (s.next_peer + 1) % length s.peers)
unfolding draw
draw-some s h =
    let (peer, f) = get_elem?-some s.peers s.next_peer h in
    elim (Option-cases (draw s)) [
      | inl n ↦ absurd (ground (arith, n, f))
      | inr (r, e) ↦ (
        r.0,
        r.1,
        e,
        ground (arith, e, f),
        ground (arith, e, f),
        ground (arith, e, f),
        ground (arith, e, f),
      )
    ]

draws-cycle :
    (k : ℕ) (s : Request)
    → s.remaining_peers ≤ k
    → s.next_peer < length s.peers
    → draws k s ≡ cycle s.peers s.remaining_peers s.next_peer
unfolding draws
draws-cycle zero s le h =
    ap (λ m. cycle s.peers m s.next_peer) (let z : 0 ≡ s.remaining_peers = omega arith in z)
draws-cycle (suc k) s le h =
    let (peer, s', d, f, same, left, next) = draw-some s h in
    let within : s'.next_peer < length s'.peers =
      subst (λ ps. s'.next_peer < length ps) (sym same)
        (omega (arith, next, mod-lt (s.next_peer + 1) {m = length s.peers} (omega (arith, h)))) in
    let more = draws-cycle k s' (omega (arith, left, le)) within in
    elim (Bool-cases (s.remaining_peers == 0)) [
      | inl z ↦
          let e : 0 ≡ s.remaining_peers = ground (arith, z) in
          let first : draws (suc k) s ≡ [] = ground (arith, z) in
          first ∙ ap (λ m. cycle s.peers m s.next_peer) e
      | inr z ↦
          let e : suc (s.remaining_peers - 1) ≡ s.remaining_peers = ground (arith, z) in
          let first : draws (suc k) s ≡ some peer ∷ draws k s' = ground (arith, z, d) in
          let second : some peer ∷ cycle s'.peers s'.remaining_peers s'.next_peer
              ≡ cycle s.peers (suc (s.remaining_peers - 1)) s.next_peer =
            simp (same, left, next, f) refl in
          first ∙ ap (◌∷◌ (some peer)) more ∙ second ∙ ap (λ m. cycle s.peers m s.next_peer) e
    ]

-- A request that begins with all of its peers remaining, and `next_peer` in range, draws each of them once in
-- as many draws or more: from `next_peer` to the last one, and then from the first. After that none is drawn.
pub draws-round :
    (k : ℕ) (s : Request)
    → s.remaining_peers ≡ length s.peers
    → length s.peers ≤ k
    → s.next_peer < length s.peers
    → draws k s ≡ map some (drop s.next_peer s.peers ++ take s.next_peer s.peers)
draws-round k s all le h =
    draws-cycle k s (omega arith) h
    ∙ ap (λ m. cycle s.peers m s.next_peer) all
    ∙ cycle-round s.peers s.next_peer h
