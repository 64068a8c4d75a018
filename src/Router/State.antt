-- ===== src/Router/State.antt =====
-- runtime/router/match.go: the stack of captures, of which eight stand in a fixed array, and its
-- refinement of a list.
use native.Mathlib.Numerals.{add-one}
use sveltego.Base.{
  take-append, take-take_of_le, nil_of_length, cut, ℕ, ◌+◌, ◌-◌, ◌≤◌, ◌≡◌, refl, sym, ap, ◌∙◌, inl,
  inr, List, [], ◌∷◌, ◌++◌, append_assoc, append-nil, arith, ltb, if◌then◌else◌, Bool-cases, length,
  get_or, set, take, length-append, length-set, length-take, take_all, take-suc-set, Str,
}

pub record Capture : Type 0 where
  pub name : Str
  pub value : Str

abbrev pub max_stack_params : ℕ
max_stack_params = 8

pub record MatchState : Type 0 where
  pub caps : List Capture
  pub n : ℕ
  pub over : List Capture

abbrev no_capture : Capture
no_capture = record { name = []; value = [] }

-- `var st matchState`
abbrev pub zero_state : MatchState
zero_state = record {
  caps =
      no_capture ∷ no_capture ∷ no_capture ∷ no_capture ∷ no_capture ∷ no_capture ∷ no_capture
      ∷ no_capture ∷ [];
  n = 0;
  over = [];
}

unfoldable pub push : MatchState → Capture → MatchState
push s c =
    if ltb s.n max_stack_params
    then record s { caps = set s.caps s.n c; n = s.n + 1 }
    else record s { over = s.over ++ c ∷ []; n = s.n + 1 }

unfoldable pub truncate : MatchState → ℕ → MatchState
truncate s to =
    let over = to - max_stack_params in
    record s { over = if ltb over (length s.over) then take over s.over else s.over; n = to }

-- An index at or above `n` is not read.
unfoldable pub at : MatchState → ℕ → Capture
at s i =
    if ltb i max_stack_params
    then get_or s.caps i no_capture
    else get_or s.over (i - max_stack_params) no_capture

-- the captures held, in the order of the pushes
unfoldable pub captures : MatchState → List Capture
captures s = take s.n s.caps ++ s.over

-- The invariant that the source states for `truncate`, and the size of the array.
pub record IsValid (s : MatchState) : Type 0 where
  pub array : length s.caps ≡ max_stack_params
  pub overflow : length s.over ≡ s.n - max_stack_params

pub zero_state-IsValid : IsValid zero_state
zero_state-IsValid = record { array = refl; overflow = refl }

pub push-IsValid : (s : MatchState) (c : Capture) → IsValid s → IsValid (push s c)
unfolding push
push-IsValid s c v = ground (arith, length-set s.caps s.n c, length-append s.over (c ∷ []))

pub length-captures : (s : MatchState) → IsValid s → length (captures s) ≡ s.n
unfolding captures
length-captures s v =
    omega
      (arith, length-append (take s.n s.caps) s.over, length-take s.n s.caps, v.array, v.overflow)

pub captures-push :
    (s : MatchState) (c : Capture) → IsValid s → captures (push s c) ≡ captures s ++ c ∷ []
unfolding captures push
captures-push s c v = elim (Bool-cases (ltb s.n max_stack_params)) [
  | inl inside ↦
      let empty : s.over ≡ [] = nil_of_length s.over (ground arith) in
      rw (inside, empty, add-one, append-nil, append-nil) (take-suc-set s.n s.caps c (ground arith))
  | inr full ↦ rw full (
      ap (λ xs. xs ++ (s.over ++ c ∷ [])) (take_all (s.n + 1) s.caps (ground arith))
      ∙ sym (append_assoc s.caps s.over (c ∷ []))
      ∙ ap (λ xs. (xs ++ s.over) ++ c ∷ []) (sym (take_all s.n s.caps (ground arith))))
]

pub truncate-IsValid : (s : MatchState) (to : ℕ) → IsValid s → to ≤ s.n → IsValid (truncate s to)
unfolding truncate
truncate-IsValid s to v h = ground (arith, length-take (to - max_stack_params) s.over)

pub captures-truncate :
    (s : MatchState) (to : ℕ)
    → IsValid s
    → to ≤ s.n
    → captures (truncate s to) ≡ take to (captures s)
unfolding captures truncate
captures-truncate s to v h =
    ap (◌++◌ (take to s.caps)) (cut (to - max_stack_params) s.over)
    ∙ ap (λ k. take to s.caps ++ take k s.over)
        (omega (arith, length-take s.n s.caps, v.array, v.overflow))
    ∙ ap (λ xs. xs ++ take (to - length (take s.n s.caps)) s.over)
        (sym (take-take_of_le to s.n s.caps h))
    ∙ sym (take-append to (take s.n s.caps) s.over)
