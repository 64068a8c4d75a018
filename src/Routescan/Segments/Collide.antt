-- ===== src/Routescan/Segments/Collide.antt =====
-- internal/routescan: siblings that differ in their matcher, as the check for conflicts and the
-- package names see them.
use sveltego.Router.Segment.{Segment, SegmentKind, static, param, optional, rest}
use sveltego.Routescan.Segments.{matcher_tag}
use sveltego.Routescan.Segments.{
  shape_of, shapes, pattern_shape, encode_segment, encode_package_name,
}
use mathlib.Core.List.{tail-eq_of_cons-eq}
use sveltego.Base.{◌≡◌, refl, ◌≢◌, sym, ◌∙◌, false, [], ◌∷◌, append-nil, Str}

tag-injective : (m n : Str) → matcher_tag m ≡ matcher_tag n → m ≡ n
tag-injective [] [] h = refl
tag-injective [] (c ∷ n) h = absurd (cc)
tag-injective (c ∷ m) [] h = absurd (cc)
tag-injective (c ∷ m) (d ∷ n) h = tail-eq_of_cons-eq h

shapes_differ :
    (kind : SegmentKind) (s : Segment) (m : Str)
    → kind ≢ static
    → s.matcher ≢ m
    → shape_of kind s ≢ shape_of kind (record s { matcher = m })
unfolding shape_of
shapes_differ static s m p d = absurd (p refl)
shapes_differ param s m p d = λ h.
    d (tag-injective s.matcher m (tail-eq_of_cons-eq (tail-eq_of_cons-eq (tail-eq_of_cons-eq h))))
shapes_differ optional s m p d = λ h. d (
    tag-injective s.matcher m (
      tail-eq_of_cons-eq
        (tail-eq_of_cons-eq (tail-eq_of_cons-eq (tail-eq_of_cons-eq (tail-eq_of_cons-eq h))))))
shapes_differ rest s m p d = λ h. d (
    tag-injective s.matcher m (
      tail-eq_of_cons-eq (
        tail-eq_of_cons-eq
          (tail-eq_of_cons-eq (tail-eq_of_cons-eq (tail-eq_of_cons-eq (tail-eq_of_cons-eq h)))))))

encoded_same :
    (kind : SegmentKind) (s : Segment) (m : Str)
    → encode_segment kind s ≡ encode_segment kind (record s { matcher = m })
unfolding encode_segment
encoded_same static s m = refl
encoded_same param s m = refl
encoded_same optional s m = refl
encoded_same rest s m = refl

-- Two dynamic segments of one kind and name with different matchers have different shapes, so that
-- directories named for them do not conflict; their package names are the same.
pub encode_package_name-matcher :
    (s : Segment) (m raw raw' : Str)
    → s.kind ≢ static
    → s.matcher ≢ m
    → (pattern_shape (s ∷ []) ≢ pattern_shape (record s { matcher = m } ∷ []))
      × (encode_package_name raw s false
          ≡ encode_package_name raw' (record s { matcher = m }) false)
unfolding pattern_shape shapes encode_package_name encode_segment
encode_package_name-matcher s m raw raw' dynamic d = (differ, encoded_same s.kind s m)
  where
    differ : pattern_shape (s ∷ []) ≢ pattern_shape (record s { matcher = m } ∷ [])
    differ h =
        let ends = tail-eq_of_cons-eq h in
        shapes_differ s.kind s m dynamic d (
          sym (append-nil (shape_of s.kind s))
          ∙ ends
          ∙ append-nil (shape_of s.kind (record s { matcher = m })))
