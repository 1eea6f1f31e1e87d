-- ===== src/Examples/Names.antt =====
-- The theorems on names, passwords, quoting and validation, at concrete values.
use kopia_operator.Prelude.{
  ◌⊎◌, ℕ, String, ◌<>◌, ◌≡◌, ◌≢◌, refl, ap, ◌↔◌, ◌≤◌, true, List, [], ◌∷◌, arith,
}
use kopia_operator.Prelude.Lists.{length}
use kopia_operator.Prelude.Text
use kopia_operator.Prelude.Text.{join}
use kopia_operator.Exec.{ok}
use kopia_operator.Naming.{cron_job_name, username}
use kopia_operator.Naming.Length.{length-cron_job_name}
use kopia_operator.Naming.Collisions.{CutAlike, cron_job_name_collides, username_collides}
use kopia_operator.Users.Redactor.{new_redactor}
use kopia_operator.Users.Password.{alphabet, password_of}
use kopia_operator.Users.Alphabet.{all_occur, password_of-IsWord}
use kopia_operator.Webhook.{validate_cron_schedule, validate_kopia_repository}
use kopia_operator.Webhook.Fields.{fields}
use kopia_operator.Prelude.Space.{is_space}
use kopia_operator.Webhook.Schedule.{AreWords, validate_cron_schedule_iff}
use kopia_operator.Webhook.Storage.{IsComplete, validate_kopia_repository_iff}
use kopia_operator.Examples.Data.{with_server}

-- 43 characters
abbrev long_name : String
long_name = "datadatadatadatadatadatadatadatadatadata-01"

abbrev longer_name : String
longer_name = "datadatadatadatadatadatadatadatadatadata-0-old-1"

length-cron_job_name_example :
    (Text.length (cron_job_name long_name) ≤ 53)
    × ((Text.length (cron_job_name long_name) ≤ 52) ↔ (Text.length long_name ≤ 42))
length-cron_job_name_example = length-cron_job_name long_name

a_name_that_is_cut : Text.length (cron_job_name long_name) ≡ 53
unfolding cron_job_name
a_name_that_is_cut = refl

cron_job_name_collides_example :
    (cron_job_name long_name ≡ cron_job_name longer_name)
    ↔ ((long_name ≡ longer_name) ⊎ CutAlike long_name longer_name)
cron_job_name_collides_example =
    cron_job_name_collides long_name longer_name (λ e. omega (arith, ap Text.length e))
      (λ e. omega (arith, ap Text.length e))

-- Another backup of the same namespace would have this CronJob.
names_that_collide : cron_job_name long_name ≡ cron_job_name longer_name
unfolding cron_job_name
names_that_collide = refl

username_collides_example :
    username ("web" <> ("-" <> "app")) "data" "h" ≡ username "web" ("app" <> ("-" <> "data")) "h"
username_collides_example = username_collides "web" "app" "data" "h"

abbrev random_bytes : List ℕ
random_bytes =
    0 ∷ 1 ∷ 2 ∷ 3 ∷ 254 ∷ 255 ∷ 16 ∷ 17 ∷ 18 ∷ 19 ∷ 20 ∷ 21 ∷ 22 ∷ 23 ∷ 24 ∷ 25 ∷ 26 ∷ 27 ∷ 28 ∷ 29
    ∷ 30 ∷ 31 ∷ 32 ∷ 33 ∷ []

password_of-IsWord_example :
    (Text.length (password_of random_bytes) ≡ 32)
    × (all_occur (password_of random_bytes) alphabet ≡ true)
password_of-IsWord_example = password_of-IsWord random_bytes refl (omega arith)

abbrev nightly : List String
nightly = "0" ∷ "3" ∷ "*" ∷ "*" ∷ "*" ∷ []

set : (w : String) → Text.length w ≡ 1 → w ≢ ""
set w h e = omega (arith, h, ap Text.length e)

nightly-AreWords : AreWords nightly
unfolding is_space
nightly-AreWords = (
  set "0" refl,
  (refl, tt),
  (
    set "3" refl,
    (refl, tt),
    (set "*" refl, (refl, tt), (set "*" refl, (refl, tt), (set "*" refl, (refl, tt), tt))),
  ),
)

validate_cron_schedule_iff_example :
    (fields (join " " nightly) ≡ nightly)
    × ((validate_cron_schedule (join " " nightly) ≡ ok tt) ↔ (length nightly ≡ 5))
validate_cron_schedule_iff_example = validate_cron_schedule_iff nightly nightly-AreWords

validate_kopia_repository_iff_example :
    ((validate_kopia_repository with_server).1 ≡ ok tt) ↔ IsComplete with_server
validate_kopia_repository_iff_example = validate_kopia_repository_iff with_server

redacts : new_redactor ("" ∷ "pw" ∷ []) "a pwpw b" ≡ "a [REDACTED][REDACTED] b"
unfolding new_redactor
redacts = refl
