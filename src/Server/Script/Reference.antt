-- ===== src/Server/Script/Reference.antt =====
-- The escapes of server/pipeline.go for `<script>`: the reference byte by byte.
use sveltego.Server.Script.{special_at, escape}
use sveltego.Base.{
  ℕ, zero, suc, ◌+◌, ◌<◌, ◌≡◌, refl, ◌∙◌, inl, inr, Bool, true, false, ◌&&◌, ◌||◌, [], ◌∷◌, ◌++◌,
  arith, if◌then◌else◌, ◌==◌, Bool-cases, length, get_or, drop, Str,
}

-- Whether a text starts with a byte that makes a `<` before it special.
unfoldable pub follows : Str → Bool
follows [] = false
follows (c ∷ _) = c == b'/' || c == b'!'

-- The reference: every `<` with such a byte behind it is escaped, and no other byte changes.
unfoldable pub escape_each : Str → Str
unfolding follows
escape_each [] = []
escape_each (c ∷ s) =
    let rest = escape_each s in if c == b'<' && follows s then escape ++ rest else c ∷ rest

-- A text is free of `</` and `<!`.
unfoldable pub is_clean : Str → Bool
unfolding follows
is_clean [] = true
is_clean (c ∷ s) = let rest = is_clean s in if c == b'<' && follows s then false else rest

pub special-suc : (c : ℕ) (s : Str) (i : ℕ) → special_at (c ∷ s) (suc i) ≡ special_at s i
special-suc c s i = let e : suc i + 1 ≡ suc (i + 1) = omega arith in rw e (ground arith)

-- The test of the loops is that of the reference on what is left.
pub special-follows :
    (p : Str) (i : ℕ)
    → i < length p
    → special_at p i ≡ (get_or p i 0 == b'<' && follows (drop (suc i) p))
unfolding follows
special-follows [] i h = absurd (omega arith)
special-follows (c ∷ []) zero h = ground arith
special-follows (c ∷ d ∷ s) zero h = ground arith
special-follows (c ∷ s) (suc i) h = special-suc c s i ∙ special-follows s i (omega arith)

pub escape_special :
    (c : ℕ) (s : Str)
    → (c == b'<' && follows s) ≡ true
    → escape_each (c ∷ s) ≡ escape ++ escape_each s
unfolding escape_each
escape_special c s h = rw (escape_each, h) refl

pub escape_plain :
    (c : ℕ) (s : Str) → (c == b'<' && follows s) ≡ false → escape_each (c ∷ s) ≡ c ∷ escape_each s
unfolding escape_each
escape_plain c s h = rw (escape_each, h) refl

pub follows-escape_each : (s : Str) → follows (escape_each s) ≡ true → follows s ≡ true
follows-escape_each [] = unfold escape_each in λ h. h
follows-escape_each (c ∷ s) = elim (Bool-cases (c == b'<' && follows s)) [
  | inl e ↦ rw (escape_special c s e) (unfold follows in λ h. absurd (ground (arith, h)))
  | inr e ↦ rw (escape_plain c s e) (unfold follows in λ h. h)
]

pub escape_each-clean : (s : Str) → is_clean (escape_each s) ≡ true
unfolding is_clean
escape_each-clean [] = unfold escape_each in refl
escape_each-clean (c ∷ s) = elim (Bool-cases (c == b'<' && follows s)) [
  | inl e ↦ rw (escape_special c s e) (escape_each-clean s)
  | inr e ↦ rw (escape_plain c s e) (ground (arith, e, follows-escape_each s, escape_each-clean s))
]
