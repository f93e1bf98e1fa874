-- ===== src/Users/Calls.antt =====
-- The calls of RbacService that write, as the steps of a history.
use gas_guard.Prelude.{ℕ, String, Bool, Option, List, [], ◌∷◌}
use gas_guard.Users.User.{UserRepository}
use gas_guard.Users.Service.{
  CreateUserDto, UpdateUserDto, UpdateUserRoleDto, create_user, update_user, update_user_role,
  delete_user, record_login, record_failed_login, unlock_user, set_user_active_status,
}

pub data Call : Type 0 where
  creates : CreateUserDto → Call
  updates : UpdateUserDto → Call
  changes_role : UpdateUserRoleDto → Call
  deletes : String → Call
  logs_in : Option String → Call
  fails_login : Call
  unlocks : Call
  sets_active : Bool → Call

module _ (repo : UserRepository) where
  open repo use {Db}

  -- The table after a call at time `now` about the user with key `id`, whether it returns or throws.
  unfoldable pub step : ℕ → String → Call → Db → Db
  step now id (creates dto) db = (create_user repo now id dto db).1
  step now id (updates dto) db = (update_user repo now id dto db).1
  step now id (changes_role dto) db = (update_user_role repo now id dto db).1
  step now id (deletes by) db = (delete_user repo id by db).1
  step now id (logs_in ip) db = (record_login repo now id ip db).1
  step now id fails_login db = (record_failed_login repo now id db).1
  step now id unlocks db = (unlock_user repo now id db).1
  step now id (sets_active b) db = (set_user_active_status repo now id b db).1

  unfoldable pub run : List (ℕ × String × Call) → Db → Db
  run [] db = db
  run ((now, id, c) ∷ cs) db = run cs (step now id c db)
