-- ===== src/Fallback/Cache/Runs.antt =====
-- Runs of the cache, call by call, against the specification.
use sveltego.Fallback.Cache.{Entry, Cache, new_lru_cache, get, put}
use sveltego.Fallback.Cache.Linked.{IsWellFormed, new-IsLinked}
use sveltego.Fallback.Cache.Refines.{Recent, view, recent_get, recent_put}
use sveltego.Base.{
  ℕ, ◌≤◌, ◌≡◌, refl, sym, ap, ◌∙◌, subst, Option, List, [], ◌∷◌, arith, length, Str,
}
use sveltego.Fallback.Cache.Calls.{get-Refines, put-Refines}

-- A call, with the instant at which it reads the clock.
pub data Call : Type 0 where
  get_call : ℕ → Str → Call
  put_call : ℕ → Str → Entry → Call

-- The cache after the calls, and the answers of the lookups.
unfoldable pub run : Cache → List Call → Cache × List (Option Entry)
unfolding get put
run c [] = (c, [])
run c (get_call now key ∷ calls) =
    let (d, answers) = run (get c now key).0 calls in (d, (get c now key).1 ∷ answers)
run c (put_call now key v ∷ calls) = run (put c now key v) calls

unfoldable pub recent_run : ℕ → ℕ → Recent → List Call → Recent × List (Option Entry)
unfolding recent_get recent_put
recent_run capacity ttl r [] = (r, [])
recent_run capacity ttl r (get_call now key ∷ calls) =
    let (q, answers) = recent_run capacity ttl (recent_get ttl now key r).0 calls in
    (q, (recent_get ttl now key r).1 ∷ answers)
recent_run capacity ttl r (put_call now key v ∷ calls) =
    recent_run capacity ttl (recent_put capacity ttl now key v r) calls

run_lem :
    (capacity ttl : ℕ) (c : Cache) (calls : List Call)
    → IsWellFormed c
    → c.capacity ≡ capacity
    → c.ttl ≡ ttl
    → 1 ≤ capacity
    → length c.order ≤ capacity
    → (recent_run capacity ttl (view c.order) calls ≡ (view (run c calls).0.order, (run c calls).1))
      × (length (run c calls).0.order ≤ capacity)
unfolding run recent_run
run_lem capacity ttl c [] w k t room small = (refl, small)
run_lem capacity ttl c (get_call now key ∷ calls) w k t room small =
    let g = get-Refines c now key w in
    let step : recent_get ttl now key (view c.order)
        ≡ (view (get c now key).0.order, (get c now key).1) =
      subst
        (λ x.
          recent_get x now key (view c.order) ≡ (view (get c now key).0.order, (get c now key).1))
        t g.refines in
    let (same, bound) =
      run_lem capacity ttl (get c now key).0 calls g.well_formed (g.capacity ∙ k) (g.ttl ∙ t) room
        (let b = g.bounded in omega arith) in
    (
      ap (λ q. ((recent_run capacity ttl q.0 calls).0, q.1 ∷ (recent_run capacity ttl q.0 calls).1))
            step
          ∙ ap (λ p. (p.0, (get c now key).1 ∷ p.1)) same,
      bound,
    )
run_lem capacity ttl c (put_call now key v ∷ calls) w k t room small =
    let p = put-Refines c now key v w (subst (λ n. 1 ≤ n) (sym k) room) in
    let step : recent_put capacity ttl now key v (view c.order) ≡ view (put c now key v).order =
      subst (λ x. recent_put x ttl now key v (view c.order) ≡ view (put c now key v).order) k
        (subst
          (λ x. recent_put c.capacity x now key v (view c.order) ≡ view (put c now key v).order) t
          p.refines) in
    let (same, bound) =
      run_lem capacity ttl (put c now key v) calls p.well_formed (p.capacity ∙ k) (p.ttl ∙ t) room (
        subst (λ n. length (put c now key v).order ≤ n) k
          (p.bounded (subst (λ n. length c.order ≤ n) (sym k) small))) in
    (ap (λ r. recent_run capacity ttl r calls) step ∙ same, bound)

-- A new cache answers every sequence of lookups and insertions as the specification does, which
-- keeps the entries in the order of their last use, drops what a lookup finds expired, and cuts the
-- least recent ones off at the capacity, of which there is one at least. It never holds more.
pub run-refines :
    (capacity ttl : ℕ) (calls : List Call)
    → (let c = new_lru_cache capacity ttl in
        (recent_run c.capacity ttl [] calls ≡ (view (run c calls).0.order, (run c calls).1))
        × (length (run c calls).0.order ≤ c.capacity))
run-refines capacity ttl calls =
    run_lem (new_lru_cache capacity ttl).capacity ttl (new_lru_cache capacity ttl) calls
      new-IsLinked refl refl (ground arith) (omega arith)
