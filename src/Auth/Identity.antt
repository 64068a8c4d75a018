-- ===== src/Auth/Identity.antt =====
-- packages/auth/identity.go and the sentinel errors of packages/auth/errors.go. An instant is a
-- number of nanoseconds.
use sveltego.Base.{ℕ, Bool, Option, Str}

abbrev pub Time : Type 0
Time = ℕ

pub record User : Type 0 where
  pub id : Str
  pub email : Str
  pub email_verified : Bool
  pub name : Str
  pub image : Str
  pub created_at : Time
  pub updated_at : Time

pub record Account : Type 0 where
  pub id : Str
  pub user_id : Str
  pub provider : Str
  pub provider_account_id : Str
  pub access_token : Str
  pub refresh_token : Str
  pub expires_at : Option Time
  pub created_at : Time
  pub updated_at : Time

pub record Session : Type 0 where
  pub id : Str
  pub user_id : Str
  pub token : Str
  pub expires_at : Time
  pub fresh_until : Time
  pub ip_address : Str
  pub user_agent : Str
  pub created_at : Time
  pub updated_at : Time

pub record Verification : Type 0 where
  pub id : Str
  pub user_id : Str
  pub kind : Str
  pub token : Str
  pub expires_at : Time
  pub created_at : Time

-- The sentinel errors that the store returns, and the panic of a nil pointer.
pub data Error : Type 0 where
  not_found conflict session_expired nil_dereference : Error
