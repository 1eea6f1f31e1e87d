-- ===== src/Examples/Scripts.antt =====
-- The theorems on the scripts of the server's container, at concrete repositories.
use kopia_operator.Prelude.{String, ◌≡◌, refl, some, [], ◌∷◌, List}
use kopia_operator.Prelude.Decimal.{decimal_int}
use kopia_operator.Api.Repository.{Repository}
use kopia_operator.Server.Script.{sftp_command}
use kopia_operator.Server.Reader.{in_double_quotes, read_quoted, expansion, feed, next_quoted}
use kopia_operator.Server.Shell.{replace_all}
use kopia_operator.Server.SftpLine.{
  evaluated_words, evaluated_words-sftp_command, sftp_command-expands,
}
use kopia_operator.Examples.Data.{with_server}

abbrev with_arguments : List String → Repository
with_arguments args = record with_server {
  spec = record with_server.spec { server = record with_server.spec.server { extra_args = args } };
}

abbrev on_sftp : String → String → Repository
on_sftp host path = record with_server {
  spec = record with_server.spec {
    sftp_options = record with_server.spec.sftp_options { host = host; path = path };
  };
}

abbrev words_to_nas : String → List String
words_to_nas verb =
    "kopia" ∷ "repository" ∷ verb ∷ "sftp" ∷ "--host=nas.local" ∷ "--port=22"
    ∷ "--path=/srv/it's; here" ∷ []

evaluated_words-sftp_command_example :
    (evaluated_words (sftp_command "connect" (on_sftp "nas.local" "/srv/it's; here"))
      ≡ some (words_to_nas "connect"))
    × (evaluated_words (sftp_command "create" (on_sftp "nas.local" "/srv/it's; here"))
        ≡ some (words_to_nas "create"))
unfolding decimal_int
evaluated_words-sftp_command_example =
    evaluated_words-sftp_command (on_sftp "nas.local" "/srv/it's; here") refl refl

sftp_command-expands_example :
    (read_quoted (sftp_command "connect" (on_sftp "nas$(id)" "/srv"))
      ≡ some (expansion "kopia repository connect sftp --host='nas"))
    × (read_quoted (sftp_command "create" (on_sftp "nas$(id)" "/srv"))
        ≡ some (expansion "kopia repository create sftp --host='nas"))
unfolding replace_all
sftp_command-expands_example =
    sftp_command-expands (on_sftp "nas$(id)" "/srv") "nas" "$(id)" refl refl refl

dollar_that_stays : in_double_quotes "nas$.local$" ≡ some "nas$.local$"
unfolding feed next_quoted
dollar_that_stays = refl
