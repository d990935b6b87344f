-- ===== src/Domain/Entities.antt =====
-- domain/entities.py
use aegisclaims_ai.Prelude.{ℕ, String, Bool, true, false, List, any}
use aegisclaims_ai.Domain.Enums.{RoleName, admin}

-- A UUID is a number, since the program only compares it.
pub record Actor : Type 0 where
  pub user_id : ℕ
  pub tenant_id : ℕ
  pub subject : String
  pub display_name : String
  pub roles : List RoleName

abbrev pub is_admin_role : RoleName → Bool
is_admin_role admin = true
is_admin_role _ = false

abbrev pub is_admin : Actor → Bool
is_admin a = any is_admin_role a.roles
