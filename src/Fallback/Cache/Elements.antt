-- ===== src/Fallback/Cache/Elements.antt =====
-- Lists of elements with different numbers.
use sveltego.Fallback.Cache.{Entry, Elem, find_elem, remove_elem, back, move_to_front, set_entry}
use mathlib.Core.Option.{some-injective}
use sveltego.Base.{
  ==_iff, ℕ, suc, ◌-◌, ◌≤◌, ◌≡◌, refl, ap, ◌∙◌, subst, inl, inr, false, none, some, List, [], ◌∷◌,
  arith, if◌then◌else◌, ◌==◌, Bool-cases, length, take, All,
}

abbrev pub Distinct : List Elem → Type 0
Distinct [] = Unit
Distinct (e ∷ es) = (find_elem e.number es ≡ none) × Distinct es

pub find_elem-number : (i : ℕ) (es : List Elem) (e : Elem) → find_elem i es ≡ some e → e.number ≡ i
unfolding find_elem
find_elem-number i [] e h = cc
find_elem-number i (d ∷ es) e h = elim (Bool-cases (d.number == i)) [
  | inl hit ↦ let same : some d ≡ some e = rw hit at h in ground (arith, same)
  | inr miss ↦ find_elem-number i es e (rw miss at h)
]

pub find-remove_elem :
    (i j : ℕ) (es : List Elem)
    → Distinct es
    → find_elem j (remove_elem i es) ≡ (if i == j then none else find_elem j es)
unfolding find_elem remove_elem
find-remove_elem i j [] d = ground arith
find-remove_elem i j (e ∷ es) (new, d) = ground (arith, find-remove_elem i j es d)

pub remove_elem-Distinct : (i : ℕ) (es : List Elem) → Distinct es → Distinct (remove_elem i es)
unfolding remove_elem
remove_elem-Distinct i [] d = tt
remove_elem-Distinct i (e ∷ es) (new, d) =
    ground (arith, find-remove_elem i e.number es d, remove_elem-Distinct i es d)

-- Each element of the list is the one that its number finds.
pub find-own : (es : List Elem) → Distinct es → All (λ e. find_elem e.number es ≡ some e) es
unfolding find_elem
find-own [] d = tt
find-own (e ∷ es) (new, d) = (ground arith, later es (find-own es d))
  where
    later :
        (fs : List Elem)
        → All (λ f. find_elem f.number es ≡ some f) fs
        → All (λ f. find_elem f.number (e ∷ es) ≡ some f) fs
    later [] h = tt
    later (f ∷ fs) (h, hs) = (ground (arith, new), later fs hs)

-- All but the last.
abbrev pub init {ℓ} : {A : Type ℓ} → List A → List A
init [] = []
init (e ∷ []) = []
init (e ∷ f ∷ es) = e ∷ init (f ∷ es)

differ :
    (i j : ℕ) (es : List Elem) (e : Elem)
    → find_elem i es ≡ none
    → find_elem j es ≡ some e
    → (i == j) ≡ false
differ i j es e gone found = elim (Bool-cases (i == j)) [
  | inr no_match ↦ no_match
  | inl same ↦
      let gone' : find_elem j es ≡ none =
        subst (λ k. find_elem k es ≡ none) ((==_iff i j).0 same) gone in
      cc
]

pub back-last :
    (es : List Elem) (e : Elem)
    → Distinct es
    → back es ≡ some e
    → (find_elem e.number es ≡ some e) × (remove_elem e.number es ≡ init es)
unfolding back find_elem remove_elem
back-last [] e d h = cc
back-last (f ∷ []) e d h =
    let same : f ≡ e = cc in
    subst (λ x. (find_elem x.number (f ∷ []) ≡ some x) × (remove_elem x.number (f ∷ []) ≡ [])) same
      (ground arith)
back-last (f ∷ g ∷ es) e (new, d) h =
    let (found, rest) = back-last (g ∷ es) e d h in
    let apart = differ f.number e.number (g ∷ es) e new found in
    (rw apart found, rw apart (ap (◌∷◌ f) rest))

pub length-back : (es : List Elem) → 1 ≤ length es → (e : Elem) × (back es ≡ some e)
unfolding back
length-back [] h = absurd (omega arith)
length-back (e ∷ []) h = (e, refl)
length-back (e ∷ f ∷ es) h = length-back (f ∷ es) (omega arith)

pub find-set_entry :
    (i : ℕ) (v : Entry) (es : List Elem) (e : Elem)
    → find_elem i es ≡ some e
    → move_to_front i (set_entry i v es) ≡ record e { entry = v } ∷ remove_elem i es
unfolding move_to_front set_entry find_elem remove_elem
find-set_entry i v es e h = rw (move_to_front, found es h, removed es) refl
  where
    found :
        (es : List Elem)
        → find_elem i es ≡ some e
        → find_elem i (set_entry i v es) ≡ some (record e { entry = v })
    found [] h = cc
    found (d ∷ es) h = elim (Bool-cases (d.number == i)) [
      | inl hit ↦
          let same : d ≡ e = some-injective d e (rw hit at h) in
          let updated : Elem → Elem = λ x. record x { entry = v } in
          rw (hit, hit) (ap (λ x. some (updated x)) same)
      | inr miss ↦ rw (miss, miss) (found es (rw miss at h))
    ]

    removed : (es : List Elem) → remove_elem i (set_entry i v es) ≡ remove_elem i es
    removed [] = refl
    removed (d ∷ es) = ground (arith, removed es)

pub init-take {ℓ} : {A : Type ℓ} (es : List A) → init es ≡ take (length es - 1) es
init-take [] = refl
init-take (e ∷ []) = refl
init-take (e ∷ f ∷ es) =
    let n = length es in
    let same : suc (suc n - 1) ≡ suc (suc n) - 1 = omega arith in
    ap (◌∷◌ e) (init-take (f ∷ es)) ∙ ap (λ k. take k (e ∷ f ∷ es)) same
