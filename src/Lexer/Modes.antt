-- ===== src/Lexer/Modes.antt =====
-- internal/lexer: how one call changes the mode stack, whose last mode is that of text.
use sveltego.Lexer.Tokens.{
  Mode, mode_text, mode_tag, mode_attr_value, mode_mustache, mode_mustache_close, mode_script,
  mode_style,
}
use sveltego.Lexer.State.{popped}
use sveltego.Base.{ℕ, suc, ◌+◌, ◌≤◌, ◌≡◌, List, [], ◌∷◌, arith}

pub data Turn (ms : List Mode) : List Mode → Type 0 where
  keep : Turn ms ms
  pushed : (m : Mode) → Turn ms (m ∷ ms)
  pop : Turn ms (popped ms)
  swap : (m : Mode) → Turn ms (m ∷ popped ms)

unfoldable pub Based : List Mode → Type 0
Based [] = ⊥
Based (m ∷ []) = m ≡ mode_text
Based (m ∷ n ∷ ms) = Based (n ∷ ms)

-- One more call for the modes whose token can be empty.
abbrev pub weight : Mode → ℕ
weight mode_attr_value = 1
weight mode_mustache = 1
weight _ = 0

unfoldable pub weights : List Mode → ℕ
weights [] = 0
weights (m ∷ ms) = weight m + weights ms

pub weight_le : (m : Mode) → weight m ≤ 1
weight_le mode_text = omega arith
weight_le mode_tag = omega arith
weight_le mode_attr_value = omega arith
weight_le mode_mustache = omega arith
weight_le mode_mustache_close = omega arith
weight_le mode_script = omega arith
weight_le mode_style = omega arith

popped-Based : (ms : List Mode) → Based ms → Based (popped ms)
unfolding popped Based
popped-Based [] b = b
popped-Based (m ∷ []) b = b
popped-Based (m ∷ n ∷ ms) b = b

push-Based : (m : Mode) (ms : List Mode) → Based ms → Based (m ∷ ms)
unfolding Based
push-Based m [] b = elim b [ ]
push-Based m (n ∷ ms) b = b

pub Turn-Based : {ms ns : List Mode} → Turn ms ns → Based ms → Based ns
Turn-Based keep b = b
Turn-Based (pushed m) b = push-Based m _ b
Turn-Based {ms} pop b = popped-Based ms b
Turn-Based {ms} (swap m) b = push-Based m _ (popped-Based ms b)

popped-weights : (ms : List Mode) → weights (popped ms) ≤ weights ms
unfolding popped weights
popped-weights [] = omega arith
popped-weights (m ∷ []) = omega arith
popped-weights (m ∷ n ∷ ms) = omega arith

-- At most one more.
pub Turn-weights : {ms ns : List Mode} → Turn ms ns → weights ns ≤ suc (weights ms)
unfolding weights
Turn-weights keep = omega arith
Turn-weights {ms} (pushed m) = omega (arith, weight_le m)
Turn-weights {ms} pop = omega (arith, popped-weights ms)
Turn-weights {ms} (swap m) = omega (arith, weight_le m, popped-weights ms)

-- Above the last mode a pop takes the mode away with its weight.
pub weight-popped :
    (m : Mode) (ms : List Mode)
    → Based (m ∷ ms)
    → weight m + weights (popped (m ∷ ms)) ≤ weights (m ∷ ms)
unfolding Based popped weights
weight-popped m [] b = rw b (omega arith)
weight-popped m (n ∷ ms) b = omega arith
