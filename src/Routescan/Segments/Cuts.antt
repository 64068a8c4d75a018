-- ===== src/Routescan/Segments/Cuts.antt =====
-- internal/routescan/segments.go: cutting a text at a byte, and off its ends.
use sveltego.Routescan.Segments.{has, trim_ends}
use sveltego.Routescan.Segments.{cut_prefix, cut}
use sveltego.Base.{
  ℕ, ◌+◌, ◌-◌, ◌≡◌, refl, true, false, ◌||◌, none, some, [], ◌∷◌, ◌++◌, arith, ◌==◌, length,
  length-append, take-length-append, Str, drop-length-append,
}

pub has-append : (b : ℕ) (s t : Str) → has b (s ++ t) ≡ (has b s || has b t)
has-append b [] t = refl
has-append b (c ∷ s) t = ground (arith, has-append b s t)

-- The text between two of the same number of bytes.
pub trim-around :
    (n : ℕ) (left u right : Str)
    → length left ≡ n
    → length right ≡ n
    → trim_ends n (left ++ (u ++ right)) ≡ u
trim-around n left u right l r =
    let whole : length (left ++ (u ++ right)) ≡ n + (length u + n) =
      omega (arith, length-append left (u ++ right), length-append u right, l, r) in
    let inner : length (left ++ (u ++ right)) - n - n ≡ length u = omega (arith, whole) in
    rw (inner, ← l, drop-length-append left (u ++ right)) (take-length-append u right)

pub cut-none : (b : ℕ) (s : Str) → has b s ≡ false → cut b s ≡ none
unfolding cut
cut-none b [] h = refl
cut-none b (c ∷ s) h =
    let first : (c == b) ≡ false = ground (arith, h) in
    rw (cut, first, cut-none b s (ground (arith, h))) refl

pub cut_at : (b : ℕ) (s t : Str) → has b s ≡ false → cut b (s ++ b ∷ t) ≡ some (s, t)
unfolding cut
cut_at b [] t h = let same : (b == b) ≡ true = ground arith in rw (cut, same) refl
cut_at b (c ∷ s) t h =
    let first : (c == b) ≡ false = ground (arith, h) in
    rw (cut, first, cut_at b s t (ground (arith, h))) refl

pub cut_prefix-none : (c b : ℕ) (s p : Str) → (c == b) ≡ false → cut_prefix (c ∷ s) (b ∷ p) ≡ none
unfolding cut_prefix
cut_prefix-none c b s p h = rw (cut_prefix, h) refl
