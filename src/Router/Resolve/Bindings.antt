-- ===== src/Router/Resolve/Bindings.antt =====
-- The map of parameters is that of the captures, in the order of the pushes.
use sveltego.Base.Map.{insert}
use sveltego.Router.State.{
  Capture, MatchState, at, captures, IsValid, length-captures, max_stack_params,
}
use sveltego.Router.Resolve.{Params, params_from}
use mathlib.Core.Path.{ap₂}
use Prim.Native.Nat.{min}
use native.Mathlib.Numerals.{add-one}
use sveltego.Base.{
  ℕ, zero, suc, ◌+◌, ◌-◌, ◌≤◌, ◌<◌, ◌≡◌, refl, sym, ap, ◌∙◌, inl, inr, List, [], ◌∷◌, ◌++◌, arith,
  ltb, Bool-cases, length, get_or, take, drop, length-take,
}

abbrev pub bindings_onto : List Capture → Params → Params
bindings_onto [] m = m
bindings_onto (c ∷ cs) m = bindings_onto cs (insert c.name c.value m)

-- The captures as a map: of two with one name, the later counts.
abbrev pub bindings : List Capture → Params
bindings cs = bindings_onto cs []

get_or-take :
    (n i : ℕ) (xs : List Capture) (d : Capture) → i < n → get_or (take n xs) i d ≡ get_or xs i d
get_or-take zero i xs d h = elim h [ ]
get_or-take (suc n) i [] d h = refl
get_or-take (suc n) zero (x ∷ xs) d h = refl
get_or-take (suc n) (suc i) (x ∷ xs) d h = get_or-take n i xs d (omega arith)

get_or-append_left :
    (i : ℕ) (xs ys : List Capture) (d : Capture)
    → i < length xs
    → get_or (xs ++ ys) i d ≡ get_or xs i d
get_or-append_left i [] ys d h = elim h [ ]
get_or-append_left zero (x ∷ xs) ys d h = refl
get_or-append_left (suc i) (x ∷ xs) ys d h = get_or-append_left i xs ys d (omega arith)

get_or-append_right :
    (i : ℕ) (xs ys : List Capture) (d : Capture)
    → length xs ≤ i
    → get_or (xs ++ ys) i d ≡ get_or ys (i - length xs) d
get_or-append_right i [] ys d h = ap (λ k. get_or ys k d) (let e : i ≡ i - 0 = omega arith in e)
get_or-append_right zero (x ∷ xs) ys d h = absurd (omega arith)
get_or-append_right (suc i) (x ∷ xs) ys d h =
    let same : i - length xs ≡ suc i - suc (length xs) = omega arith in
    get_or-append_right i xs ys d (omega arith) ∙ ap (λ k. get_or ys k d) same

at-captures :
    (st : MatchState) (i : ℕ)
    → IsValid st
    → i < st.n
    → at st i ≡ get_or (captures st) i (record { name = []; value = [] })
unfolding at captures
at-captures st i v h =
    let d : Capture = record { name = []; value = [] } in
    let size : length (take st.n st.caps) ≡ min st.n (length st.caps) = length-take st.n st.caps in
    elim (Bool-cases (ltb i max_stack_params)) [
      | inl inside ↦
          let low : i < max_stack_params = ground arith in
          rw inside (
            sym (get_or-take st.n i st.caps d h)
            ∙ sym (
                get_or-append_left i (take st.n st.caps) st.over d
                  (omega (arith, size, v.array, low))))
      | inr beyond ↦
          let high : max_stack_params ≤ i = ground arith in
          let eight : length (take st.n st.caps) ≡ max_stack_params =
            omega (arith, size, v.array, high) in
          rw beyond (
            ap (λ k. get_or st.over (i - k) d) (sym eight)
            ∙ sym
                (get_or-append_right i (take st.n st.caps) st.over d (omega (arith, eight, high))))
    ]

drop-get_or :
    (i : ℕ) (xs : List Capture) (d : Capture)
    → i < length xs
    → drop i xs ≡ get_or xs i d ∷ drop (suc i) xs
drop-get_or i [] d h = elim h [ ]
drop-get_or zero (x ∷ xs) d h = refl
drop-get_or (suc i) (x ∷ xs) d h = drop-get_or i xs d (omega arith)

drop_all : (xs : List Capture) (n : ℕ) → length xs ≤ n → drop n xs ≡ []
drop_all [] zero h = refl
drop_all [] (suc n) h = refl
drop_all (x ∷ xs) zero h = absurd (omega arith)
drop_all (x ∷ xs) (suc n) h = drop_all xs n (omega arith)

params_from-bindings_onto :
    (k i : ℕ) (st : MatchState) (m : Params)
    → IsValid st
    → i + k ≡ st.n
    → params_from k i st m ≡ bindings_onto (drop i (captures st)) m
unfolding params_from
params_from-bindings_onto zero i st m v e =
    ap (λ cs. bindings_onto cs m)
      (sym (drop_all (captures st) i (omega (arith, length-captures st v))))
params_from-bindings_onto (suc k) i st m v e =
    let size = length-captures st v in
    let c = at st i in
    let split : drop i (captures st) ≡ c ∷ drop (i + 1) (captures st) =
      drop-get_or i (captures st) (record { name = []; value = [] }) (omega (arith, size, e))
      ∙ ap₂ ◌∷◌ (sym (at-captures st i v (omega (arith, e))))
          (ap (λ j. drop j (captures st)) (sym (add-one i))) in
    params_from-bindings_onto k (i + 1) st (insert c.name c.value m) v (omega (arith, e))
    ∙ ap (λ cs. bindings_onto cs m) (sym split)

pub params_from-bindings :
    (st : MatchState) → IsValid st → params_from st.n 0 st [] ≡ bindings (captures st)
params_from-bindings st v = params_from-bindings_onto st.n 0 st [] v (omega arith)
