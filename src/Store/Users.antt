-- ===== src/Store/Users.antt =====
-- infrastructure/repositories.py: `UserRepository`, and `actor_from_user`.
use aegisclaims_ai.Prelude.{
  Bool, List, Option, String, filter, find, none, some, str_eq, str_lt, true, ℕ, ◌&&◌, ◌==◌,
}
use aegisclaims_ai.Domain.{Actor}
use aegisclaims_ai.Store.{Db, User}
use aegisclaims_ai.Store.Claims.{sort_by}

-- `get_active`
unfoldable pub get_active : Db → ℕ → Option ℕ → Option User
get_active db user_id tenant_id =
    find
      (λ (u : User).
        u.id == user_id
        && (u.is_active && elim tenant_id [ none ↦ true | some t ↦ u.tenant_id == t ]))
      db.users

-- `get`
unfoldable pub get_user : Db → ℕ → ℕ → Option User
get_user db user_id tenant_id =
    find (λ (u : User). u.id == user_id && u.tenant_id == tenant_id) db.users

-- The query of `get_by_subject`.
abbrev pub is_subject : String → ℕ → User → Bool
is_subject subject tenant u =
    str_eq u.subject subject
    && (u.tenant_id == tenant && (u.is_active && str_eq u.account_status "active"))

-- `get_by_subject`
unfoldable pub get_by_subject : Db → String → ℕ → Option User
get_by_subject db subject tenant_id = find (is_subject subject tenant_id) db.users

-- `list_active`
unfoldable pub list_active : Db → List User
list_active db =
    sort_by (λ (a : User) (b : User). str_lt a.display_name b.display_name)
      (filter (λ (u : User). u.is_active) db.users)

-- `actor_from_user`
abbrev pub actor_from_user : User → Actor
actor_from_user u = record {
  user_id = u.id;
  tenant_id = u.tenant_id;
  subject = u.subject;
  display_name = u.display_name;
  roles = u.roles;
}
