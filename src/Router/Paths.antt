-- ===== src/Router/Paths.antt =====
-- The specification of the route table: which paths of labels lead to a route in a tree, and when
-- the segments of a pattern fit the segments of a path.
use sveltego.Router.Segment.{Segment, SegmentKind, static, param, optional, rest, Route}
use sveltego.Router.Tree.{
  Node, node, Nodes, nil, cons, MaybeNode, absent, present, label, route, label_in,
}
use sveltego.Router.Table.{Matchers}
use sveltego.Router.State.{Capture}
use sveltego.Router.Match.{accepts, join_segs}
use sveltego.Base.{◌≡◌, ◌⊎◌, true, Option, some, List, [], ◌∷◌, Str}

abbrev pub In : Node → Nodes → Type 0
In c nil = ⊥
In c (cons d ds) = (c ≡ d) ⊎ In c ds

abbrev pub Is : Node → MaybeNode → Type 0
Is c absent = ⊥
Is c (present d) = c ≡ d

abbrev pub Child : SegmentKind → Node → Node → Type 0
Child static (node ss ps o r l rt b) c = In c ss
Child param (node ss ps o r l rt b) c = In c ps
Child optional (node ss ps o r l rt b) c = Is c o
Child rest (node ss ps o r l rt b) c = Is c r

-- A path of labels from the node to a node that carries the route.
abbrev pub Leads : Node → List Segment → Route → Type 0
Leads n [] q = route n ≡ some q
Leads n (s ∷ path) q =
    (c : Node) × Child s.kind n c × (s ≡ label_in s.kind (label c)) × Leads c path q

abbrev pub bound : Segment → Str → Capture
bound s v = record { name = s.name; value = v }

module _ (matchers : Option Matchers) where
  -- The pattern fits the path's segments, and binds these captures.
  pub data Fits : List Segment → List Str → List Capture → Type 0 where
    done : Fits [] [] []
    literal :
        {s : Segment} {segs : List Segment} {v : Str} {vs : List Str} {cs : List Capture}
        → s.kind ≡ static
        → s.value ≡ v
        → Fits segs vs cs
        → Fits (s ∷ segs) (v ∷ vs) cs
    required :
        {s : Segment} {segs : List Segment} {v : Str} {vs : List Str} {cs : List Capture}
        → s.kind ≡ param
        → accepts matchers s.matcher v ≡ true
        → Fits segs vs cs
        → Fits (s ∷ segs) (v ∷ vs) (bound s v ∷ cs)
    given :
        {s : Segment} {segs : List Segment} {v : Str} {vs : List Str} {cs : List Capture}
        → s.kind ≡ optional
        → accepts matchers s.matcher v ≡ true
        → Fits segs vs cs
        → Fits (s ∷ segs) (v ∷ vs) (bound s v ∷ cs)
    omitted :
        {s : Segment} {segs : List Segment} {vs : List Str} {cs : List Capture}
        → s.kind ≡ optional
        → Fits segs vs cs
        → Fits (s ∷ segs) vs (bound s [] ∷ cs)
    remainder :
        {s : Segment} {v : Str} {vs : List Str}
        → s.kind ≡ rest
        → accepts matchers s.matcher (join_segs (v ∷ vs)) ≡ true
        → Fits (s ∷ []) (v ∷ vs) (bound s (join_segs (v ∷ vs)) ∷ [])
    no_remainder : {s : Segment} → s.kind ≡ rest → Fits (s ∷ []) [] (bound s [] ∷ [])
