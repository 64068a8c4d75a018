-- ===== src/Http.antt =====
-- What the code uses of Go's net/http: the cookies that a response sets.
use sveltego.Base.{ℕ, Bool, Option, Str}

-- http.Cookie's MaxAge: zero, below zero, above.
pub data MaxAge : Type 0 where
  unset delete_now : MaxAge
  seconds : ℕ → MaxAge

-- http.Cookie; no expiry is Go's zero time.
pub record SetCookie : Type 0 where
  pub name : Str
  pub value : Str
  pub path : Str
  pub domain : Str
  pub max_age : MaxAge
  pub expires : Option ℕ
  pub http_only : Bool
  pub secure : Bool
  pub same_site : ℕ
