-- ===== src/Server/Script.antt =====
-- server/pipeline.go, what is written into a `<script>`: the two functions that look for `</` and
-- `<!`. What a buffer is written is a text; an index is an option where the code has -1 for none.
pub mod Escape
pub mod Reference
mod Tests
use sveltego.Base.{
  ℕ, zero, suc, ◌+◌, ◌-◌, Bool, true, false, ◌&&◌, ◌||◌, Option, none, some, [], ◌∷◌, ◌++◌, ltb,
  if◌then◌else◌, ◌==◌, length, get_or, take, drop, Str,
}

-- `p[i] == '<' && (p[i+1] == '/' || p[i+1] == '!')`, where both bytes are there.
abbrev pub special_at : Str → ℕ → Bool
special_at p i =
    ltb (i + 1) (length p)
    && get_or p i 0 == b'<'
    && (get_or p (i + 1) 0 == b'/' || get_or p (i + 1) 0 == b'!')

-- The loop of `indexScriptSpecial` from `i`, with a count of the rounds left.
unfoldable pub index_from : ℕ → Str → ℕ → Option ℕ
index_from zero p i = none
index_from (suc n) p i =
    let rest = index_from n p (suc i) in if special_at p i then some i else rest

unfoldable pub index_script_special : Str → Option ℕ
unfolding index_from
index_script_special p = index_from (length p - 1) p 0

-- The six bytes that the loop of `escapeScriptSpecial` appends.
abbrev pub escape : Str
escape = b'\\' ∷ b'u' ∷ b'0' ∷ b'0' ∷ b'3' ∷ b'c' ∷ []

-- The loop of `escapeScriptSpecial`: each round takes one byte out of `raw[i:]`.
unfoldable pub escape_loop : ℕ → Str → Str → ℕ → Str
escape_loop zero out raw i = out ++ raw
escape_loop (suc n) out raw i = elim (ltb i (length raw)) [
  | false ↦ out ++ raw
  | true ↦ elim (special_at raw i) [
    | true ↦ escape_loop n (out ++ (take i raw ++ escape)) (drop (i + 1) raw) 0
    | false ↦ escape_loop n out raw (i + 1)
  ]
]

unfoldable pub escape_script_special : Str → Str
unfolding index_script_special escape_loop
escape_script_special raw = elim (index_script_special raw) [
  | none ↦ raw
  | some _ ↦ escape_loop (length raw) [] raw 0
]

-- The constant of `writeEscapedScriptJSON`, one byte.
abbrev pub write_escape : Str
write_escape = b'<' ∷ []

-- Its loop, from `j` with `start`, to the end.
unfoldable pub write_loop : ℕ → Str → Str → ℕ → ℕ → Str
write_loop zero buf tail j start = if ltb start (length tail) then buf ++ drop start tail else buf
write_loop (suc n) buf tail j start = elim (special_at tail j) [
  | true ↦
      let before = if ltb start j then buf ++ take (j - start) (drop start tail) else buf in
      write_loop n (before ++ write_escape) tail (suc j) (suc j)
  | false ↦ write_loop n buf tail (suc j) start
]

-- What is appended to the buffer.
unfoldable pub write_escaped_script_json : Str → Str
unfolding index_script_special write_loop
write_escaped_script_json p = elim (index_script_special p) [
  | none ↦ p
  | some i ↦ (let tail = drop i p in write_loop (length tail - 1) (take i p) tail 0 0)
]
