-- ===== src/Proto/UserService/User.antt =====
-- The message `User` of app/web/src/types/proto/api/v1/user_service.ts.
use collab_notes_ecs.Proto.Codec.{
  Bytes, Kind, Option, OptionAll, Read, Runs, Text, Wire, [], enum_field, eqb, field, if◌then◌else◌,
  message, none, on, optional, optional-Runs, refl, some, text_field, unknown, unless, ℕ, ◌++◌,
  ◌==◌, ◌>>◌,
}
use collab_notes_ecs.Proto.UserService.UserRole.{
  UserRole, eq_of_is_role_unspecified, is_role_unspecified, user_role, user_role-Valid,
}
use collab_notes_ecs.Proto.Common.State.{
  State, eq_of_is_state_unspecified, is_state_unspecified, state, state-Valid,
}
use collab_notes_ecs.Proto.Google.Dates.{Date, date}

pub record User : Type 0 where
  pub name : Text
  pub role : UserRole
  pub username : Text
  pub email : Text
  pub display_name : Text
  pub avatar_url : Text
  pub description : Text
  pub password : Text
  pub state : State
  pub create_time : Option Date
  pub update_time : Option Date

abbrev pub base : User
base = record {
  name = [];
  role = UserRole.role_unspecified;
  username = [];
  email = [];
  display_name = [];
  avatar_url = [];
  description = [];
  password = [];
  state = State.state_unspecified;
  create_time = none;
  update_time = none;
}

module _ (wire : Wire) where
  unfoldable pub encode : User → Bytes
  encode m =
      unless wire (m.name == []) (field wire 10 wire.string m.name)
      ++ unless wire (is_role_unspecified m.role) (field wire 16 (user_role wire) m.role)
      ++ unless wire (m.username == []) (field wire 26 wire.string m.username)
      ++ unless wire (m.email == []) (field wire 34 wire.string m.email)
      ++ unless wire (m.display_name == []) (field wire 42 wire.string m.display_name)
      ++ unless wire (m.avatar_url == []) (field wire 50 wire.string m.avatar_url)
      ++ unless wire (m.description == []) (field wire 58 wire.string m.description)
      ++ unless wire (m.password == []) (field wire 66 wire.string m.password)
      ++ unless wire (is_state_unspecified m.state) (field wire 72 (state wire) m.state)
      ++ optional wire 82 (date wire) m.create_time
      ++ optional wire 90 (date wire) m.update_time

  unfoldable pub switch : ℕ → User → Bytes → Read User
  switch tag m bytes =
      if eqb tag 10
      then on (wire.string.get bytes) (λ v. record m { name = v })
      else if eqb tag 16
      then on ((user_role wire).get bytes) (λ v. record m { role = v })
      else if eqb tag 26
      then on (wire.string.get bytes) (λ v. record m { username = v })
      else if eqb tag 34
      then on (wire.string.get bytes) (λ v. record m { email = v })
      else if eqb tag 42
      then on (wire.string.get bytes) (λ v. record m { display_name = v })
      else if eqb tag 50
      then on (wire.string.get bytes) (λ v. record m { avatar_url = v })
      else if eqb tag 58
      then on (wire.string.get bytes) (λ v. record m { description = v })
      else if eqb tag 66
      then on (wire.string.get bytes) (λ v. record m { password = v })
      else if eqb tag 72
      then on ((state wire).get bytes) (λ v. record m { state = v })
      else if eqb tag 82
      then on ((date wire).get bytes) (λ v. record m { create_time = some v })
      else if eqb tag 90
      then on ((date wire).get bytes) (λ v. record m { update_time = some v })
      else unknown

  abbrev pub Valid : User → Type 0
  Valid m =
      wire.string.Valid m.name
      × wire.string.Valid m.username
      × wire.string.Valid m.email
      × wire.string.Valid m.display_name
      × wire.string.Valid m.avatar_url
      × wire.string.Valid m.description
      × wire.string.Valid m.password
      × OptionAll (date wire).Valid m.create_time
      × OptionAll (date wire).Valid m.update_time

  pub encode-Runs : (m : User) → Valid m → Runs wire switch base (encode m) m
  unfolding encode switch
  encode-Runs m valid =
      let m9 : User = record base {
        name = m.name;
        role = m.role;
        username = m.username;
        email = m.email;
        display_name = m.display_name;
        avatar_url = m.avatar_url;
        description = m.description;
        password = m.password;
        state = m.state;
      } in
      let m10 : User = record m9 { create_time = m.create_time } in
      text_field wire switch 10 refl _ (λ bytes. refl) refl m.name valid.0
      >> enum_field wire switch 16 refl (user_role wire) is_role_unspecified _
          eq_of_is_role_unspecified _ (λ bytes. refl) refl m.role (user_role-Valid wire m.role)
      >> text_field wire switch 26 refl _ (λ bytes. refl) refl m.username valid.1
      >> text_field wire switch 34 refl _ (λ bytes. refl) refl m.email valid.2
      >> text_field wire switch 42 refl _ (λ bytes. refl) refl m.display_name valid.3
      >> text_field wire switch 50 refl _ (λ bytes. refl) refl m.avatar_url valid.4
      >> text_field wire switch 58 refl _ (λ bytes. refl) refl m.description valid.5
      >> text_field wire switch 66 refl _ (λ bytes. refl) refl m.password valid.6
      >> enum_field wire switch 72 refl (state wire) is_state_unspecified _
          eq_of_is_state_unspecified _ (λ bytes. refl) refl m.state (state-Valid wire m.state)
      >> optional-Runs wire switch 82 refl (date wire) (λ v. record m9 { create_time = v })
          (λ bytes. refl) refl m.create_time valid.7
      >> optional-Runs wire switch 90 refl (date wire) (λ v. record m10 { update_time = v })
          (λ bytes. refl) refl m.update_time valid.8

  unfoldable pub user : Kind User
  user = message wire switch base encode Valid encode-Runs
