-- ===== src/Router/Segment.antt =====
-- runtime/router/segment.go, and `Route` of route.go. The router never calls a handler, so a
-- handler field is modelled by whether it is set.
use sveltego.Kit.PageOptions.{PageOptions}
use sveltego.Base.{Bool, true, false, List, [], ◌∷◌, ◌++◌, if◌then◌else◌, Str}

pub data SegmentKind : Type 0 where
  static param optional rest : SegmentKind

pub record Segment : Type 0 where
  pub kind : SegmentKind
  pub name : Str
  pub value : Str
  pub matcher : Str

pub record Route : Type 0 where
  pub id : Str
  pub pattern : Str
  pub segments : List Segment
  pub page : Bool
  pub server : List Str
  pub load : Bool
  pub actions : Bool
  pub options : PageOptions

abbrev pub is_empty : Str → Bool
is_empty [] = true
is_empty _ = false

-- `name` or `name=matcher`
abbrev pub named : Segment → Str
named s = if is_empty s.matcher then s.name else s.name ++ (b'=' ∷ s.matcher)

-- `Segment.String`
unfoldable pub string_of : SegmentKind → Segment → Str
string_of static s = s.value
string_of param s = b'[' ∷ (named s ++ (b']' ∷ []))
string_of optional s = b'[' ∷ b'[' ∷ (named s ++ (b']' ∷ b']' ∷ []))
string_of rest s = b'[' ∷ b'.' ∷ b'.' ∷ b'.' ∷ (named s ++ (b']' ∷ []))

abbrev pub string : Segment → Str
string s = string_of s.kind s
