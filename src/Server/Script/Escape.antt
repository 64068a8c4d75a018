-- ===== src/Server/Script/Escape.antt =====
-- The escapes of server/pipeline.go for `<script>`, against a reference byte by byte.
use sveltego.Server.Script.{special_at, escape, write_escape}
use sveltego.Server.Script.{
  index_from, index_script_special, escape_loop, escape_script_special, write_loop,
  write_escaped_script_json,
}
use sveltego.Base.{
  ℕ, zero, suc, ◌+◌, ◌-◌, ◌≤◌, ◌<◌, ◌≡◌, refl, sym, ap, ◌∙◌, inl, inr, true, false, none, some, [],
  ◌∷◌, ◌++◌, append_assoc, append-nil, arith, ltb, if◌then◌else◌, Bool-cases, Option-cases, length,
  get_or, take, drop, take-append-drop, take-suc, drop-suc, drop-drop, drop_all, take_all,
  length-drop, Str,
}
use sveltego.Server.Script.Reference.{special-follows, escape_each-clean}
unfoldable use sveltego.Server.Script.Reference.{escape_each, is_clean}

escape_at_end : (raw : Str) (i : ℕ) → length raw ≤ i → raw ≡ take i raw ++ escape_each (drop i raw)
unfolding escape_each
escape_at_end raw i h = rw (take_all i raw h, drop_all i raw h) (sym (append-nil raw))

-- One byte of what is left, escaped or not.
escape_step :
    (raw : Str) (i : ℕ)
    → i < length raw
    → escape_each (drop i raw) ≡ (
        if special_at raw i
        then escape ++ escape_each (drop (suc i) raw)
        else get_or raw i 0 ∷ escape_each (drop (suc i) raw))
unfolding escape_each
escape_step raw i h = rw (drop-suc i raw 0 h, special-follows raw i h) refl

escape_loop_lem :
    (n : ℕ) (out raw : Str) (i : ℕ)
    → length raw ≤ n + i
    → escape_loop n out raw i ≡ out ++ (take i raw ++ escape_each (drop i raw))
unfolding escape_loop
escape_loop_lem zero out raw i h = ap (λ k. out ++ k) (escape_at_end raw i (omega arith))
escape_loop_lem (suc n) out raw i h = elim (Bool-cases (ltb i (length raw))) [
  | inr e ↦ rw (escape_loop, e) (ap (λ k. out ++ k) (escape_at_end raw i (ground (arith, e))))
  | inl e ↦
      let low : i < length raw = ground (arith, e) in
      let one : i + 1 ≡ suc i = omega arith in
      let step = escape_step raw i low in
      elim (Bool-cases (special_at raw i)) [
        | inl s ↦
            let left = take i raw in
            let rest = escape_each (drop (suc i) raw) in
            let ih =
              escape_loop_lem n (out ++ (left ++ escape)) (drop (suc i) raw) 0
                (omega (arith, length-drop (suc i) raw)) in
            let here : escape_each (drop i raw) ≡ escape ++ rest = step ∙ rw s refl in
            rw (escape_loop, e, s, one)
              (ih
                ∙ append_assoc out (left ++ escape) rest
                ∙ ap (λ k. out ++ k) (append_assoc left escape rest)
                ∙ ap (λ k. out ++ (left ++ k)) (sym here))
        | inr s ↦
            let rest = escape_each (drop (suc i) raw) in
            let here : escape_each (drop i raw) ≡ get_or raw i 0 ∷ rest = step ∙ rw s refl in
            rw (escape_loop, e, s, one)
              (escape_loop_lem n out raw (suc i) (omega arith)
                ∙ ap (λ k. out ++ (k ++ rest)) (take-suc i raw 0 low)
                ∙ ap (λ k. out ++ k) (append_assoc (take i raw) (get_or raw i 0 ∷ []) rest)
                ∙ ap (λ k. out ++ (take i raw ++ k)) (sym here))
      ]
]

-- Where a byte is not special, the reference keeps it.
kept_at :
    (p : Str) (i : ℕ)
    → special_at p i ≡ false
    → escape_each (drop (suc i) p) ≡ drop (suc i) p
    → escape_each (drop i p) ≡ drop i p
unfolding escape_each
kept_at p i s rest = elim (Bool-cases (ltb i (length p))) [
  | inr e ↦ rw (drop_all i p (ground (arith, e))) refl
  | inl e ↦
      let low : i < length p = ground (arith, e) in
      let here : escape_each (drop i p) ≡ get_or p i 0 ∷ escape_each (drop (suc i) p) =
        escape_step p i low ∙ rw s refl in
      here ∙ ap (λ k. get_or p i 0 ∷ k) rest ∙ sym (drop-suc i p 0 low)
]

nothing_left : (p : Str) (i : ℕ) → length p ≤ i → escape_each (drop i p) ≡ drop i p
unfolding escape_each
nothing_left p i h = rw (drop_all i p h) refl

index_none :
    (n : ℕ) (p : Str) (i : ℕ)
    → length p ≤ suc (n + i)
    → index_from n p i ≡ none
    → escape_each (drop i p) ≡ drop i p
unfolding index_from
index_none zero p i h e = kept_at p i (ground (arith, h)) (nothing_left p (suc i) (omega arith))
index_none (suc n) p i h e = elim (Bool-cases (special_at p i)) [
  | inl s ↦
      let found : index_from (suc n) p i ≡ some i = rw (index_from, s) refl in
      absurd (ground (arith, found, e))
  | inr s ↦
      let on : index_from (suc n) p i ≡ index_from n p (suc i) = rw (index_from, s) refl in
      kept_at p i s (index_none n p (suc i) (omega arith) (sym on ∙ e))
]

-- A round of the second escape appends what it takes out: the bytes before a `<`, and a `<`.
write_round :
    (buf tail : Str) (j start : ℕ)
    → start ≤ j
    → special_at tail j ≡ true
    → (if ltb start j then buf ++ take (j - start) (drop start tail) else buf)
        ++ (write_escape ++ drop (suc j) tail)
      ≡ buf ++ drop start tail
write_round buf tail j start h s =
    let low : j < length tail = ground (arith, s) in
    let angle : get_or tail j 0 ≡ b'<' = ground (arith, s) in
    let gap = take (j - start) (drop start tail) in
    let sum : start + (j - start) ≡ j = omega arith in
    let rest : drop (j - start) (drop start tail) ≡ write_escape ++ drop (suc j) tail =
      drop-drop start (j - start) tail
      ∙ ap (λ k. drop k tail) sum
      ∙ drop-suc j tail 0 low
      ∙ ap (λ k. k ∷ drop (suc j) tail) angle in
    let whole : gap ++ (write_escape ++ drop (suc j) tail) ≡ drop start tail =
      ap (λ k. gap ++ k) (sym rest) ∙ take-append-drop (j - start) (drop start tail) in
    elim (Bool-cases (ltb start j)) [
      | inl e ↦
          rw e (append_assoc buf gap (write_escape ++ drop (suc j) tail) ∙ ap (λ k. buf ++ k) whole)
      | inr e ↦
          let none_between : j - start ≡ 0 = ground (arith, e, h) in
          rw e (
            ap (λ k. buf ++ (take k (drop start tail) ++ (write_escape ++ drop (suc j) tail)))
              (sym none_between)
            ∙ ap (λ k. buf ++ k) whole)
    ]

write_loop_lem :
    (n : ℕ) (buf tail : Str) (j start : ℕ)
    → start ≤ j
    → write_loop n buf tail j start ≡ buf ++ drop start tail
unfolding write_loop
write_loop_lem zero buf tail j start h = elim (Bool-cases (ltb start (length tail))) [
  | inl e ↦ rw (write_loop, e) refl
  | inr e ↦ rw (write_loop, e, drop_all start tail (ground (arith, e))) (sym (append-nil buf))
]
write_loop_lem (suc n) buf tail j start h = elim (Bool-cases (special_at tail j)) [
  | inr e ↦ rw (write_loop, e) (write_loop_lem n buf tail (suc j) start (omega arith))
  | inl e ↦
      let before = if ltb start j then buf ++ take (j - start) (drop start tail) else buf in
      rw (write_loop, e)
        (write_loop_lem n (before ++ write_escape) tail (suc j) (suc j) (omega arith)
          ∙ append_assoc before write_escape (drop (suc j) tail)
          ∙ write_round buf tail j start h e)
]

-- Before a payload goes into its `<script>`, every `<` that a `/` or a `!` follows is replaced by
-- the six bytes `\u003c`, and nothing else is changed: the result has no `</` and no `<!`. This
-- holds of the fast path, where nothing is found, as well.
pub escape_script_special-escape_each :
    (raw : Str)
    → (escape_script_special raw ≡ escape_each raw) × (is_clean (escape_script_special raw) ≡ true)
unfolding escape_script_special index_script_special
escape_script_special-escape_each raw = (same, rw same (escape_each-clean raw))
  where
    same : escape_script_special raw ≡ escape_each raw
    same = elim (Option-cases (index_script_special raw)) [
      | inl e ↦
          rw (escape_script_special, e) (sym (index_none (length raw - 1) raw 0 (omega arith) e))
      | inr (i, e) ↦
          rw (escape_script_special, e) (escape_loop_lem (length raw) [] raw 0 (omega arith))
    ]

-- The second escape changes no text: what it appends for `p` is `p`, since the constant that it
-- writes for a `<` is a `<`.
pub write_escaped_script_json-same : (p : Str) → write_escaped_script_json p ≡ p
unfolding write_escaped_script_json
write_escaped_script_json-same p = elim (Option-cases (index_script_special p)) [
  | inl e ↦ rw (write_escaped_script_json, e) refl
  | inr (i, e) ↦
      rw (write_escaped_script_json, e)
        (write_loop_lem (length (drop i p) - 1) (take i p) (drop i p) 0 0 (omega arith)
          ∙ take-append-drop i p)
]
