-- ===== src/Router/Tree.antt =====
-- runtime/router/tree.go: building the route tree. Nodes are reached by one path only, so the
-- tree is a value; `insert` rebuilds the path that Go mutates in place.
pub mod Children
pub mod Insert
use sveltego.Router.Segment.{Segment, SegmentKind, static, param, optional, rest, Route, is_empty}
use sveltego.Base.{
  ◌>>=◌, Result, ok, err, ℕ, Bool, ◌&&◌, Option, none, some, List, [], ◌∷◌, if◌then◌else◌, Str,
  str_eq,
}

-- `node`: static children, param children, the optional and the rest child, the label (kind,
-- value, name, matcher), the route, and the best specificity vector, nil until it is computed.
mutual
  pub data Node : Type 0 where
    node : Nodes → Nodes → MaybeNode → MaybeNode → Segment → Option Route → Option (List ℕ) → Node

  pub data Nodes : Type 0 where
    nil : Nodes
    cons : Node → Nodes → Nodes

  pub data MaybeNode : Type 0 where
    absent : MaybeNode
    present : Node → MaybeNode

pub data Error : Type 0 where
  empty_pattern : Error
  duplicate_pattern : Str → Error
  missing_matcher : Str → Str → Error

abbrev pub label : Node → Segment
label (node _ _ _ _ l _ _) = l

abbrev pub route : Node → Option Route
route (node _ _ _ _ _ r _) = r

abbrev pub best_spec : Node → Option (List ℕ)
best_spec (node _ _ _ _ _ _ b) = b

abbrev pub leaf : Segment → Node
leaf l = node nil nil absent absent l none none

abbrev pub root_label : Segment
root_label = record { kind = static; name = []; value = []; matcher = [] }

-- The fields that `childFor` copies into a new node.
abbrev pub label_in : SegmentKind → Segment → Segment
label_in static s = record root_label { value = s.value }
label_in k s = record s { kind = k; value = [] }

abbrev pub label_of : Segment → Segment
label_of s = label_in s.kind s

-- the test by which `childFor` finds a child
abbrev pub same_child : SegmentKind → Segment → Segment → Bool
same_child static s l = str_eq l.value s.value
same_child _ s l = str_eq l.name s.name && str_eq l.matcher s.matcher

-- the loop over a child list: the first child that passes, else a new one at the end
unfoldable pub in_nodes :
    (Segment → Bool) → Segment → (Node → Result Error Node) → Nodes → Result Error Nodes
in_nodes test fresh k nil = do n ← k (leaf fresh); ok (cons n nil)
in_nodes test fresh k (cons c cs) =
    if test (label c)
    then (do c' ← k c; ok (cons c' cs))
    else (do cs' ← in_nodes test fresh k cs; ok (cons c cs'))

-- the single child: reused if it passes, else replaced by a new one
unfoldable pub in_maybe :
    (Segment → Bool) → Segment → (Node → Result Error Node) → MaybeNode → Result Error MaybeNode
in_maybe test fresh k absent = do n ← k (leaf fresh); ok (present n)
in_maybe test fresh k (present c) =
    if test (label c)
    then (do c' ← k c; ok (present c'))
    else (do n ← k (leaf fresh); ok (present n))

-- `childFor` for a segment of the given kind: what `k` makes of the child stands in its place
unfoldable pub child_for :
    SegmentKind → Segment → (Node → Result Error Node) → Node → Result Error Node
unfolding in_nodes in_maybe
child_for static s k (node ss ps o r l rt b) = do
  ss' ← in_nodes (same_child static s) (label_of s) k ss
  ok (node ss' ps o r l rt b)
child_for param s k (node ss ps o r l rt b) = do
  ps' ← in_nodes (same_child param s) (label_of s) k ps
  ok (node ss ps' o r l rt b)
child_for optional s k (node ss ps o r l rt b) = do
  o' ← in_maybe (same_child optional s) (label_of s) k o
  ok (node ss ps o' r l rt b)
child_for rest s k (node ss ps o r l rt b) = do
  r' ← in_maybe (same_child rest s) (label_of s) k r
  ok (node ss ps o r' l rt b)

-- the end of the walk: `if cur.route != nil { … }; cur.route = r`
unfoldable pub set_route : Route → Node → Result Error Node
set_route q (node ss ps o r l none b) = ok (node ss ps o r l (some q) b)
set_route q (node ss ps o r l (some _) b) = err (duplicate_pattern q.pattern)

unfoldable pub insert_at : List Segment → Route → Node → Result Error Node
insert_at [] q n = set_route q n
insert_at (s ∷ segs) q n = child_for s.kind s (insert_at segs q) n

unfoldable pub insert : Route → Node → Result Error Node
insert q n = if is_empty q.pattern then err empty_pattern else insert_at q.segments q n

unfoldable pub insert_all : List Route → Node → Result Error Node
insert_all [] n = ok n
insert_all (q ∷ qs) n = do n' ← insert q n; insert_all qs n'
