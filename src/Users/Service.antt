-- ===== src/Users/Service.antt =====
-- src/modules/users/users.service.ts, over the table of users that the authentication keeps.
-- `findByEmail` is `find_by_email` of Auth/Service.antt.
use Prim.Native.String.{◌++◌}
use transact_go.Auth.Service.{AuthDb, update_user}
use transact_go.Outcome.{Exec, gets, not_found, or_throw, pure, user_not_found, ◌>>=◌}
use transact_go.Prelude.{Bool, Option, String, ℕ}
use transact_go.Prelude.Rows.{find_row}
use transact_go.Users.Entities.{User, is_locked}

unfoldable pub find_by_id : ℕ → AuthDb → Option User
find_by_id id db = find_row User.id id db.users

unfoldable pub update_refresh_token : ℕ → Option String → Exec AuthDb (Unit {0})
update_refresh_token user_id hash =
    update_user user_id (λ u. record u { refresh_token_hash = hash })

-- `{ ...user, fullName, isLocked }`: every column of the row is in it.
pub record Profile : Type 0 where
  pub user : User
  pub full_name : String
  pub locked : Bool

abbrev pub profile_of : ℕ → User → Profile
profile_of now u = record {
  user = u;
  full_name = u.first_name ++ (" " ++ u.last_name);
  locked = is_locked now u;
}

unfoldable pub get_profile : ℕ → Exec AuthDb Profile
get_profile user_id = do
  found ← gets (find_by_id user_id)
  user ← or_throw found (not_found user_not_found)
  now ← gets AuthDb.now
  pure (profile_of now user)
