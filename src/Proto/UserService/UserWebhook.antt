-- ===== src/Proto/UserService/UserWebhook.antt =====
-- The message `UserWebhook` of app/web/src/types/proto/api/v1/user_service.ts.
use collab_notes_ecs.Proto.Codec.{
  Bytes, Kind, Option, OptionAll, Read, Runs, Text, Wire, [], eqb, field, if◌then◌else◌, message,
  none, on, optional, optional-Runs, refl, some, text_field, unknown, unless, ℕ, ◌++◌, ◌==◌, ◌>>◌,
}
use collab_notes_ecs.Proto.Google.Dates.{Date, date}

pub record UserWebhook : Type 0 where
  pub name : Text
  pub url : Text
  pub display_name : Text
  pub create_time : Option Date
  pub update_time : Option Date

abbrev pub base : UserWebhook
base = record { name = []; url = []; display_name = []; create_time = none; update_time = none }

module _ (wire : Wire) where
  unfoldable pub encode : UserWebhook → Bytes
  encode m =
      unless wire (m.name == []) (field wire 10 wire.string m.name)
      ++ unless wire (m.url == []) (field wire 18 wire.string m.url)
      ++ unless wire (m.display_name == []) (field wire 26 wire.string m.display_name)
      ++ optional wire 34 (date wire) m.create_time
      ++ optional wire 42 (date wire) m.update_time

  unfoldable pub switch : ℕ → UserWebhook → Bytes → Read UserWebhook
  switch tag m bytes =
      if eqb tag 10
      then on (wire.string.get bytes) (λ v. record m { name = v })
      else if eqb tag 18
      then on (wire.string.get bytes) (λ v. record m { url = v })
      else if eqb tag 26
      then on (wire.string.get bytes) (λ v. record m { display_name = v })
      else if eqb tag 34
      then on ((date wire).get bytes) (λ v. record m { create_time = some v })
      else if eqb tag 42
      then on ((date wire).get bytes) (λ v. record m { update_time = some v })
      else unknown

  abbrev pub Valid : UserWebhook → Type 0
  Valid m =
      wire.string.Valid m.name
      × wire.string.Valid m.url
      × wire.string.Valid m.display_name
      × OptionAll (date wire).Valid m.create_time
      × OptionAll (date wire).Valid m.update_time

  pub encode-Runs : (m : UserWebhook) → Valid m → Runs wire switch base (encode m) m
  unfolding encode switch
  encode-Runs m valid =
      let m3 : UserWebhook = record base {
        name = m.name;
        url = m.url;
        display_name = m.display_name;
      } in
      let m4 : UserWebhook = record m3 { create_time = m.create_time } in
      text_field wire switch 10 refl _ (λ bytes. refl) refl m.name valid.0
      >> text_field wire switch 18 refl _ (λ bytes. refl) refl m.url valid.1
      >> text_field wire switch 26 refl _ (λ bytes. refl) refl m.display_name valid.2
      >> optional-Runs wire switch 34 refl (date wire) (λ v. record m3 { create_time = v })
          (λ bytes. refl) refl m.create_time valid.3
      >> optional-Runs wire switch 42 refl (date wire) (λ v. record m4 { update_time = v })
          (λ bytes. refl) refl m.update_time valid.4

  unfoldable pub user_webhook : Kind UserWebhook
  user_webhook = message wire switch base encode Valid encode-Runs
