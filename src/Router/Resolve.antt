-- ===== src/Router/Resolve.antt =====
-- runtime/router/match.go: `Match`.
pub mod Bindings
pub mod Sound
use sveltego.Base.Map.{insert}
use sveltego.Router.Segment.{Route}
use sveltego.Router.Table.{Tree}
use sveltego.Router.State.{Capture, MatchState, zero_state, at}
use sveltego.Router.Match.{Outcome, match_node}
use sveltego.Router.Split.{split_and_decode}
use sveltego.Base.{ℕ, zero, suc, ◌+◌, Option, none, some, List, [], Str}

abbrev pub Params : Type 0
Params = List (Str × Str)

-- `for i := 0; i < st.n; i++ { params[c.name] = c.value }`, with the rounds left
unfoldable pub params_from : ℕ → ℕ → MatchState → Params → Params
params_from zero i st m = m
params_from (suc k) i st m = params_from k (i + 1) st (insert (at st i).name (at st i).value m)

-- The map is nil if there are no captures; a nil map reads as an empty one.
unfoldable pub result_of : Outcome → Option (Route × Params)
unfolding params_from
result_of (none, st) = none
result_of (some r, st) = some (r, params_from st.n 0 st [])

unfoldable pub match : Tree → Str → Option (Route × Params)
unfolding result_of
match t path = elim (split_and_decode path) [
  | none ↦ none
  | some segs ↦ result_of (match_node t.matchers t.root segs zero_state)
]
