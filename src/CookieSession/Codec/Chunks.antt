-- ===== src/CookieSession/Codec/Chunks.antt =====
-- Chunks of a wire: how long they are, how many, and that they join to the wire.
use sveltego.CookieSession.Codec.{max_chunk_bytes, chunks_from, split_chunks, join_chunks}
use sveltego.Base.{
  nil_of_length, ℕ, zero, suc, ◌≤◌, ◌≡◌, refl, ap, ◌∙◌, subst, ◌≢◌, inl, inr, Bool, true, false,
  ◌&&◌, List, [], ◌∷◌, ◌++◌, append-nil, arith, ltb, leb, if◌then◌else◌, ◌==◌, Bool-cases,
  and_parts, length, take, drop, length-append, length-take, length-drop, take-append-drop,
  take_all, Str,
}

-- Each chunk but the last is full, and none is empty.
unfoldable pub all_full : List Str → Bool
all_full [] = true
all_full (c ∷ []) = leb 1 (length c) && leb (length c) max_chunk_bytes
all_full (c ∷ d ∷ cs) = length c == max_chunk_bytes && all_full (d ∷ cs)

all_full-cons :
    (c : Str) (cs : List Str)
    → 1 ≤ length c
    → length c ≤ max_chunk_bytes
    → (cs ≢ [] → length c ≡ max_chunk_bytes)
    → all_full cs ≡ true
    → all_full (c ∷ cs) ≡ true
unfolding all_full
all_full-cons c [] low high full rest = ground arith
all_full-cons c (d ∷ cs) low high full rest = let f = full (λ e. cc) in ground arith

join-chunks_from :
    (fuel : ℕ) (wire : Str) → length wire ≤ fuel → join_chunks (chunks_from fuel wire) ≡ wire
unfolding chunks_from join_chunks
join-chunks_from fuel [] h = refl
join-chunks_from zero (b ∷ wire) h = absurd (omega arith)
join-chunks_from (suc fuel) (b ∷ wire) h =
    let n =
      if ltb (length (b ∷ wire)) max_chunk_bytes then length (b ∷ wire) else max_chunk_bytes in
    let shorter : length (drop n (b ∷ wire)) ≤ fuel =
      rw (length-drop n (b ∷ wire)) (ground arith) in
    ap (◌++◌ (take n (b ∷ wire))) (join-chunks_from fuel (drop n (b ∷ wire)) shorter)
    ∙ take-append-drop n (b ∷ wire)

drop_all : (s : Str) → drop (length s) s ≡ []
drop_all s = nil_of_length (drop (length s) s) (rw (length-drop (length s) s) (omega arith))

chunks_from-all_full :
    (fuel : ℕ) (wire : Str) → length wire ≤ fuel → all_full (chunks_from fuel wire) ≡ true
unfolding chunks_from all_full
chunks_from-all_full fuel [] h = refl
chunks_from-all_full zero (b ∷ wire) h = absurd (omega arith)
chunks_from-all_full (suc fuel) (b ∷ wire) h =
    elim (Bool-cases (ltb (length (b ∷ wire)) max_chunk_bytes)) [
      | inl short ↦
          rw (short, take_all (length (b ∷ wire)) (b ∷ wire) (omega arith), drop_all (b ∷ wire))
            (ground arith)
      | inr long ↦
          let full : length (take max_chunk_bytes (b ∷ wire)) ≡ max_chunk_bytes =
            length-take max_chunk_bytes (b ∷ wire) ∙ (ground arith) in
          let shorter : length (drop max_chunk_bytes (b ∷ wire)) ≤ fuel =
            rw (length-drop max_chunk_bytes (b ∷ wire)) (ground arith) in
          rw long (
            all_full-cons (take max_chunk_bytes (b ∷ wire))
              (chunks_from fuel (drop max_chunk_bytes (b ∷ wire))) (omega (arith, full))
              (omega (arith, full)) (λ _. full)
              (chunks_from-all_full fuel (drop max_chunk_bytes (b ∷ wire)) shorter))
    ]

-- Splitting is lossless, whatever the length of the wire. Every chunk but the last is full and no
-- chunk is longer than a cookie may be; only the empty wire has an empty chunk.
pub join-split_chunks :
    (wire : Str)
    → (join_chunks (split_chunks wire) ≡ wire) × (wire ≢ [] → all_full (split_chunks wire) ≡ true)
unfolding split_chunks join_chunks all_full
join-split_chunks wire = elim (Bool-cases (leb (length wire) max_chunk_bytes)) [
  | inl short ↦ rw short (append-nil wire, λ ne. one wire short ne)
  | inr long ↦ rw long (
    join-chunks_from (length wire) wire (omega arith),
    λ _. chunks_from-all_full (length wire) wire (omega arith),
  )
]
  where
    one :
        (wire : Str)
        → leb (length wire) max_chunk_bytes ≡ true
        → wire ≢ []
        → (leb 1 (length wire) && leb (length wire) max_chunk_bytes) ≡ true
    one [] short ne = absurd (ne refl)
    one (b ∷ wire) short ne = ground arith

-- A wire that one cookie cannot hold has two chunks or more.
pub split_chunks-long :
    (wire : Str) → leb (length wire) max_chunk_bytes ≡ false → 2 ≤ length (split_chunks wire)
unfolding split_chunks chunks_from
split_chunks-long [] long = absurd (ground arith)
split_chunks-long (b ∷ wire) long =
    let top : ltb (length (b ∷ wire)) max_chunk_bytes ≡ false = ground arith in
    rw (long, top)
      (two (drop max_chunk_bytes (b ∷ wire))
        (rw (length-drop max_chunk_bytes (b ∷ wire)) (ground arith)) wire long)
  where
    two :
        (rest : Str)
        → 1 ≤ length rest
        → (wire : Str) → leb (suc (length wire)) max_chunk_bytes ≡ false
        → 2 ≤ suc (length (chunks_from (length wire) rest))
    two [] low wire long = absurd (omega arith)
    two (c ∷ rest) low [] long = absurd (ground arith)
    two (c ∷ rest) low (d ∷ wire) long = omega arith

all_full-count : (cs : List Str) → all_full cs ≡ true → length cs ≤ length (join_chunks cs)
unfolding all_full join_chunks
all_full-count [] h = omega arith
all_full-count (c ∷ []) h =
    let size = length-append c [] in let some_byte : 1 ≤ length c = ground arith in omega arith
all_full-count (c ∷ d ∷ cs) h =
    let (full, rest) = and_parts (length c == max_chunk_bytes) (all_full (d ∷ cs)) h in
    let size = length-append c (join_chunks (d ∷ cs)) in
    let some_byte : 1 ≤ length c = ground (arith, full) in
    let more = all_full-count (d ∷ cs) rest in omega arith

-- There are no more chunks than bytes.
pub length-split_chunks : (wire : Str) → wire ≢ [] → length (split_chunks wire) ≤ length wire
length-split_chunks wire ne =
    let (joined, full) = join-split_chunks wire in
    let count = all_full-count (split_chunks wire) (full ne) in
    subst (λ w. length (split_chunks wire) ≤ length w) joined count
