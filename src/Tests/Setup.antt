-- ===== src/Tests/Setup.antt =====
-- Witnesses for the theorems on the configuration and on organizations.
use attendance_tracker.Prelude.{
  ◌≡◌, ◌↔◌, refl, Text, Option, none, some, true, false, List, [], ◌∷◌, codes, arith, text_eq, All,
}
use attendance_tracker.Database.Rows.{Db, User, superadmin, string}
use attendance_tracker.Database.Session.{request}
use attendance_tracker.Config
use attendance_tracker.Config.{Environment, production}
use attendance_tracker.Config.Production.{IsSafe, IsNamed, Names, load_settings_production}
use attendance_tracker.Organizations
use attendance_tracker.Organizations.Slugs.{
  SlugsValid, create, update, here, next, reach-SlugsValid,
}
use attendance_tracker.Tests.{ann, demo, tables}

abbrev server : Environment
server = record {
  env = codes "production";
  debug = false;
  jwt_secret = codes "0123456789abcdef0123456789abcdef";
  jwt_secret_explicitly_set = true;
  cors_origins = codes "https://a.b,https://c.d";
  device = codes "cpu";
  log_level = codes "INFO";
}

abbrev no_json : Text → Option (List Text)
no_json s = none

abbrev hosts : List Text
hosts = codes "https://a.b" ∷ codes "https://c.d" ∷ []

load_settings_production_example :
    (Config.load_settings demo (λ s. s) no_json server ≡ some (production, hosts)) ↔ (
      (text_eq (codes "production") (codes "production") ≡ true)
      × Names demo (λ s. s) no_json server hosts
      × All (λ o. Config.is_web o ≡ true) hosts
      × IsSafe demo (λ s. s) no_json server
      × IsNamed demo (λ s. s) no_json server)
load_settings_production_example = load_settings_production demo (λ s. s) no_json server hosts

server_starts : Config.load_settings demo (λ s. s) no_json server ≡ some (production, hosts)
unfolding Config.load_settings Config.load_checked text_eq
server_starts = refl

abbrev root : User
root = record ann { role = superadmin }

abbrev globex : Organizations.OrganizationCreate
globex = record { name = codes "Globex"; slug = codes "globex-1"; max_users = 5; settings = [] }

abbrev renamed : Organizations.OrganizationUpdate
renamed = record {
  name = some (codes "Acme Ltd");
  max_users = none;
  is_active = none;
  settings = some ((codes "working_hours_start", string (codes "08:00")) ∷ []);
}

one_slug : SlugsValid tables.organizations
unfolding Organizations.is_slug text_eq
one_slug = record { well_formed = (refl, tt); unique = λ s. ground arith; keyed = (refl, tt) }

abbrev grown : Db
grown = (request (Organizations.create_organization demo 2 root globex) tables).1

reach-SlugsValid_example :
    SlugsValid
      (request (Organizations.update_organization demo 1 root renamed) grown).1.organizations
reach-SlugsValid_example =
    reach-SlugsValid demo
      (next (next here (create 2 root globex tables refl)) (update 1 root renamed grown)) one_slug
