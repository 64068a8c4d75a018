-- ===== src/Kit/PageOptions/Equality.antt =====
-- `Equal` decides equality, image widths included.
use sveltego.Kit.PageOptions.{
  TrailingSlash, default, never, always, ignore, PageOptions, slash_code, bool_eq, widths_equal,
  equal,
}
use sveltego.Base.{
  ℕ, ◌≡◌, refl, subst, ◌↔◌, Bool, true, false, List, ◌∷◌, arith, ◌==◌, and_parts, str_eq_iff,
}

bool_eq_iff : (a b : Bool) → (bool_eq a b ≡ true) ↔ (a ≡ b)
unfolding bool_eq
bool_eq_iff true true = ground arith
bool_eq_iff true false = ground arith
bool_eq_iff false true = ground arith
bool_eq_iff false false = ground arith

slash_code_iff : (a b : TrailingSlash) → ((slash_code a == slash_code b) ≡ true) ↔ (a ≡ b)
slash_code_iff default default = ground arith
slash_code_iff never never = ground arith
slash_code_iff always always = ground arith
slash_code_iff ignore ignore = ground arith
slash_code_iff _ _ = ground arith

widths_equal_iff : (a b : List ℕ) → (widths_equal a b ≡ true) ↔ (a ≡ b)
unfolding widths_equal
widths_equal_iff (w ∷ ws) (v ∷ vs) = ground (arith, widths_equal_iff ws vs)
widths_equal_iff _ _ = ground arith

-- `Equal` answers true exactly on options that agree in every field.
pub equal_iff : (a b : PageOptions) → (equal a b ≡ true) ↔ (a ≡ b)
unfolding equal
equal_iff a b = (
  to,
  λ e.
      subst (λ x. equal a x ≡ true) e
        (rw
          (
            (bool_eq_iff a.prerender a.prerender).1 refl,
            (bool_eq_iff a.prerender_auto a.prerender_auto).1 refl,
            (bool_eq_iff a.prerender_protected a.prerender_protected).1 refl,
            (bool_eq_iff a.ssr a.ssr).1 refl,
            (bool_eq_iff a.csr a.csr).1 refl,
            (bool_eq_iff a.ssr_only a.ssr_only).1 refl,
            (bool_eq_iff a.csrf a.csrf).1 refl,
            (slash_code_iff a.trailing_slash a.trailing_slash).1 refl,
            (str_eq_iff a.templates a.templates).1 refl,
            (widths_equal_iff a.image_widths a.image_widths).1 refl,
          )
          refl),
)
  where
    to : equal a b ≡ true → a ≡ b
    to h =
        let (t9, h9) = and_parts _ _ h in
        let (t8, h8) = and_parts _ _ t9 in
        let (t7, h7) = and_parts _ _ t8 in
        let (t6, h6) = and_parts _ _ t7 in
        let (t5, h5) = and_parts _ _ t6 in
        let (t4, h4) = and_parts _ _ t5 in
        let (t3, h3) = and_parts _ _ t4 in
        let (t2, h2) = and_parts _ _ t3 in
        let (t1, h1) = and_parts _ _ t2 in
        let e0 = (bool_eq_iff a.prerender b.prerender).0 t1 in
        let e1 = (bool_eq_iff a.prerender_auto b.prerender_auto).0 h1 in
        let e2 = (bool_eq_iff a.prerender_protected b.prerender_protected).0 h2 in
        let e3 = (bool_eq_iff a.ssr b.ssr).0 h3 in
        let e4 = (bool_eq_iff a.csr b.csr).0 h4 in
        let e5 = (bool_eq_iff a.ssr_only b.ssr_only).0 h5 in
        let e6 = (bool_eq_iff a.csrf b.csrf).0 h6 in
        let e7 = (slash_code_iff a.trailing_slash b.trailing_slash).0 h7 in
        let e8 = (str_eq_iff a.templates b.templates).0 h8 in
        let e9 = (widths_equal_iff a.image_widths b.image_widths).0 h9 in cc
