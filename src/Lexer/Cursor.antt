-- ===== src/Lexer/Cursor.antt =====
-- internal/lexer/lexer.go, where the lexer stands in its source and how it looks and moves there.
-- `Cursor` is the fields `src`, `pos`, `line` and `col` of `Lexer`; a byte is a number.
use sveltego.Base.{
  ℕ, zero, suc, ◌+◌, ◌-◌, Bool, true, false, ◌&&◌, ◌||◌, [], ◌∷◌, ltb, leb, if◌then◌else◌, ◌==◌,
  length, get_or, take, drop, Str, str,
}
unfoldable use sveltego.Base.{str_eq}

pub record Cursor : Type 0 where
  pub src : Str
  pub pos : ℕ
  pub line : ℕ
  pub col : ℕ

-- `l.pos < len(l.src)`
abbrev pub has_more : Cursor → Bool
has_more c = ltb c.pos (length c.src)

-- `l.src[i:j]`
abbrev pub slice : Str → ℕ → ℕ → Str
slice s i j = take (j - i) (drop i s)

-- `peek`: a byte past the end reads as zero.
abbrev pub peek : ℕ → Cursor → ℕ
peek n c = get_or c.src (c.pos + n) 0

-- One round of the loop of `advance`.
unfoldable pub step_byte : Cursor → Cursor
step_byte c =
    if peek 0 c == 10
    then record c { pos = suc c.pos; line = suc c.line; col = 1 }
    else record c { pos = suc c.pos; col = suc c.col }

unfoldable pub advance : ℕ → Cursor → Cursor
unfolding step_byte
advance zero c = c
advance (suc n) c = elim (has_more c) [ true ↦ advance n (step_byte c) | false ↦ c ]

unfoldable pub lower : ℕ → ℕ
lower c = if leb b'A' c && leb c b'Z' then c + (b'a' - b'A') else c

unfoldable pub starts_with : Str → Cursor → Bool
unfolding str_eq
starts_with s c =
    if ltb (length c.src) (c.pos + length s)
    then false
    else str_eq (slice c.src c.pos (c.pos + length s)) s

-- The loop of `startsWithFold`, whose bound is checked before it.
unfoldable pub folds : Str → Str → Bool
unfolding lower
folds xs [] = true
folds [] (y ∷ ys) = false
folds (x ∷ xs) (y ∷ ys) = lower x == lower y && folds xs ys

unfoldable pub starts_with_fold : Str → Cursor → Bool
unfolding folds
starts_with_fold s c =
    if ltb (length c.src) (c.pos + length s) then false else folds (drop c.pos c.src) s

abbrev pub is_white : ℕ → Bool
is_white c = c == b' ' || c == 9 || c == 10 || c == 13

unfoldable pub is_tag_name_start : ℕ → Bool
is_tag_name_start c = (leb b'a' c && leb c b'z') || (leb b'A' c && leb c b'Z') || c == b'_'

unfoldable pub is_tag_name_cont : ℕ → Bool
unfolding is_tag_name_start
is_tag_name_cont c =
    is_tag_name_start c || (leb b'0' c && leb c b'9') || c == b'-' || c == b':' || c == b'.'

unfoldable pub is_tag_open_boundary : Str → ℕ → Bool
is_tag_open_boundary src zero = false
is_tag_open_boundary src (suc zero) = get_or src 0 0 == b'<'
is_tag_open_boundary src (suc (suc i)) =
    get_or src (suc i) 0 == b'<' || (get_or src i 0 == b'<' && get_or src (suc i) 0 == b'/')

unfoldable pub tag_boundary_at : Str → ℕ → Bool
tag_boundary_at src i =
    if leb (length src) i
    then true
    else let c = get_or src i 0 in
      c == b'>' || c == b'/' || c == b' ' || c == 9 || c == 10 || c == 13

unfoldable pub hex_char : ℕ → ℕ
hex_char n = get_or (str "0123456789abcdef") n 0
