-- ===== src/Base/Decimal.antt =====
-- strconv.Itoa, strconv.Atoi and strings.TrimSpace on ASCII text.
use Prim.Native.Nat.{ℕ, zero, suc, ◌+◌, ◌-◌, ◌*◌, ◌/◌, ◌%◌, ◌^◌, ◌<◌}
use mathlib.Core.Path.{◌≡◌, refl, ap, ◌∙◌, sym, subst}
use mathlib.Core.Logic.{inl, inr}
use mathlib.Core.Bool.{Bool, true, false, ◌&&◌, ◌||◌}
use mathlib.Core.List.{[], ◌∷◌, ◌++◌}
use mathlib.Core.Option.{Option, none, some}
use native.Mathlib.Omega.{arith}
use sveltego.Base.Tests.{if◌then◌else◌, ltb, leb, ◌==◌, Bool-cases}
use sveltego.Base.Strings.{Str}
use sveltego.Base.Lists.{All}

-- The decimal digits of a number below `10 ^ fuel`.
unfoldable pub digits : ℕ → ℕ → Str
digits zero n = []
digits (suc fuel) n =
    let high = digits fuel (n / 10) in
    if ltb n 10 then (48 + n) ∷ [] else high ++ (48 + n % 10) ∷ []

unfoldable pub itoa : ℕ → Str
unfolding digits
itoa n = digits (suc n) n

abbrev pub is_digit : ℕ → Bool
is_digit b = leb 48 b && ltb b 58

unfoldable pub read_digits : ℕ → Str → Option ℕ
read_digits acc [] = some acc
read_digits acc (b ∷ s) =
    let rest = read_digits (acc * 10 + (b - 48)) s in if is_digit b then rest else none

-- A signed 64-bit number out of range is an error. A number below zero, which has no caller that
-- tells it from zero, reads as zero.
unfoldable pub atoi_unsigned : Str → Option ℕ
unfolding read_digits
atoi_unsigned [] = none
atoi_unsigned (b ∷ s) = elim (read_digits 0 (b ∷ s)) [
  | none ↦ none
  | some n ↦ if ltb n (2 ^ 63) then some n else none
]

unfoldable pub atoi : Str → Option ℕ
unfolding atoi_unsigned
atoi [] = none
atoi (b ∷ s) =
    if b == 43
    then atoi_unsigned s
    else if b == 45
    then elim (atoi_unsigned s) [ none ↦ none | some n ↦ some 0 ]
    else atoi_unsigned (b ∷ s)

abbrev pub is_space : ℕ → Bool
is_space b = b == 32 || (leb 9 b && leb b 13)

unfoldable pub trim_left : Str → Str
trim_left [] = []
trim_left (b ∷ s) = let rest = trim_left s in if is_space b then rest else b ∷ s

abbrev pub glue : ℕ → Str → Str
glue b [] = if is_space b then [] else b ∷ []
glue b (c ∷ s) = b ∷ c ∷ s

unfoldable pub trim_right : Str → Str
trim_right [] = []
trim_right (b ∷ s) = glue b (trim_right s)

unfoldable pub trim_space : Str → Str
unfolding trim_left trim_right
trim_space s = trim_right (trim_left s)

abbrev pub AllDigits : Str → Type 0
AllDigits s = All (λ b. is_digit b ≡ true) s

AllDigits-append : (s t : Str) → AllDigits s → AllDigits t → AllDigits (s ++ t)
AllDigits-append [] t h k = k
AllDigits-append (b ∷ s) t (d, h) k = (d, AllDigits-append s t h k)

digits-AllDigits : (fuel n : ℕ) → AllDigits (digits fuel n)
unfolding digits
digits-AllDigits zero n = tt
digits-AllDigits (suc fuel) n = ground (
  arith,
  AllDigits-append (digits fuel (n / 10)) ((48 + n % 10) ∷ []) (digits-AllDigits fuel (n / 10)),
)

pub itoa-AllDigits : (n : ℕ) → AllDigits (itoa n)
unfolding itoa
itoa-AllDigits n = digits-AllDigits (suc n) n

read_digits-append :
    (acc n : ℕ) (s : Str) (b : ℕ)
    → read_digits acc s ≡ some n
    → is_digit b ≡ true
    → read_digits acc (s ++ b ∷ []) ≡ some (n * 10 + (b - 48))
unfolding read_digits
read_digits-append acc n [] b h d = ground arith
read_digits-append acc n (c ∷ s) b h d =
    ground (arith, read_digits-append (acc * 10 + (c - 48)) n s b)

read_digits-digits : (fuel n : ℕ) → n < fuel → read_digits 0 (digits fuel n) ≡ some n
unfolding digits read_digits
read_digits-digits zero n h = absurd (omega arith)
read_digits-digits (suc fuel) n h = elim (Bool-cases (ltb n 10)) [
  | inl small ↦ rw small (ground arith)
  | inr big ↦
      let last : is_digit (48 + n % 10) ≡ true = ground arith in
      let whole : n / 10 * 10 + (48 + n % 10 - 48) ≡ n = ground arith in
      let high = read_digits-digits fuel (n / 10) (ground arith) in
      rw big (
        read_digits-append 0 (n / 10) (digits fuel (n / 10)) (48 + n % 10) high last
        ∙ ap some whole)
]

-- Text of digits starts with no sign and no space.
digits_not_nil : (fuel n : ℕ) → (b : ℕ) × (s : Str) × (digits (suc fuel) n ≡ b ∷ s)
unfolding digits
digits_not_nil fuel n = elim (Bool-cases (ltb n 10)) [
  | inl small ↦ (48 + n, [], rw small refl)
  | inr big ↦ starts (digits fuel (n / 10)) big
]
  where
    starts :
        (high : Str)
        → ltb n 10 ≡ false
        → (b : ℕ) × (s : Str) × ((if ltb n 10 then (48 + n) ∷ [] else high ++ (48 + n % 10) ∷ [])
            ≡ b ∷ s)
    starts [] big = (48 + n % 10, [], rw big refl)
    starts (c ∷ high) big = (c, high ++ (48 + n % 10) ∷ [], rw big refl)

pub itoa_not_nil : (n : ℕ) → (b : ℕ) × (s : Str) × (itoa n ≡ b ∷ s)
unfolding itoa
itoa_not_nil n = digits_not_nil n n

atoi_lem :
    (b n : ℕ) (s : Str)
    → is_digit b ≡ true
    → read_digits 0 (b ∷ s) ≡ some n
    → n < 2 ^ 63
    → atoi (b ∷ s) ≡ some n
unfolding atoi atoi_unsigned
atoi_lem b n s d r h =
    let top : ltb n (2 ^ 63) ≡ true = ground arith in
    let not_plus : (b == 43) ≡ false = ground (arith, d) in
    let not_minus : (b == 45) ≡ false = ground (arith, d) in
    let read : atoi_unsigned (b ∷ s) ≡ some n = rw (atoi_unsigned, r, top) refl in
    rw (not_plus, not_minus) read

pub atoi-itoa : (n : ℕ) → n < 2 ^ 63 → atoi (itoa n) ≡ some n
unfolding itoa
atoi-itoa n h =
    let (b, s, e) = itoa_not_nil n in
    let d : AllDigits (b ∷ s) = subst AllDigits e (itoa-AllDigits n) in
    let r : read_digits 0 (b ∷ s) ≡ some n =
      subst (λ t. read_digits 0 t ≡ some n) e (read_digits-digits (suc n) n (omega arith)) in
    ap atoi e ∙ atoi_lem b n s d.0 r h

trim_right-AllDigits : (s : Str) → AllDigits s → trim_right s ≡ s
unfolding trim_right
trim_right-AllDigits [] h = refl
trim_right-AllDigits (b ∷ []) (d, _) = ground arith
trim_right-AllDigits (b ∷ c ∷ s) (d, h) = rw (trim_right-AllDigits (c ∷ s) h) refl

trim_left-AllDigits : (s : Str) → AllDigits s → trim_left s ≡ s
unfolding trim_left
trim_left-AllDigits [] h = refl
trim_left-AllDigits (b ∷ s) (d, h) = ground arith

pub trim_space-itoa : (n : ℕ) → trim_space (itoa n) ≡ itoa n
unfolding trim_space
trim_space-itoa n =
    ap trim_right (trim_left-AllDigits (itoa n) (itoa-AllDigits n))
    ∙ trim_right-AllDigits (itoa n) (itoa-AllDigits n)

-- Itoa gives different numbers different texts.
pub itoa-injective : (m n : ℕ) → itoa m ≡ itoa n → m ≡ n
unfolding itoa
itoa-injective m n e =
    let a : some m ≡ some n =
      sym (read_digits-digits (suc m) m (omega arith))
      ∙ ap (read_digits 0) e
      ∙ read_digits-digits (suc n) n (omega arith) in
    cc
