-- ===== src/Server/SftpLine.antt =====
-- What the shell makes of the command in SFTP_CMD, which stands in double quotes and is read again by eval.
use Prim.Native.String.{◌++◌ as ◌<>◌}
use kopia_operator.Prelude.{
  ℕ, zero, suc, String, Char, true, ◌≡◌, refl, ap, ◌∙◌, Option, none, some, List, [], ◌∷◌, arith,
}
use kopia_operator.Prelude.Text.{every, every_mono, every-append}
use kopia_operator.Prelude.Int.{ℤ, pos, negsuc}
use kopia_operator.Prelude.Decimal.{digit, decimal, decimal_int, every-decimal}
use kopia_operator.Api.Repository.{Repository}
use kopia_operator.Server.Shell.{replace_all, shell_quote}
use kopia_operator.Server.Script.{sftp_command, sftp_port}
use kopia_operator.Server.Reader.{
  read_quoted, expansion, feed, feed-concat, between, bare, is_plain, next_word, command_words,
  next_quoted, in_double_quotes,
}
use kopia_operator.Server.DoubleQuotes.{
  is_inert, AllClear, inert-IsClear, shell_quote-IsClear, in_double_quotes-clear, begins_expansion,
  shell_quote-expands, feed_all-expansion,
}
use kopia_operator.Server.ShellLine.{feed-plain, feed-shell_quote}

digit-IsPlain : (n : ℕ) → every is_plain (digit n) ≡ true
unfolding digit
digit-IsPlain zero = refl
digit-IsPlain (suc zero) = refl
digit-IsPlain (suc (suc zero)) = refl
digit-IsPlain (suc (suc (suc zero))) = refl
digit-IsPlain (suc (suc (suc (suc zero)))) = refl
digit-IsPlain (suc (suc (suc (suc (suc zero))))) = refl
digit-IsPlain (suc (suc (suc (suc (suc (suc zero)))))) = refl
digit-IsPlain (suc (suc (suc (suc (suc (suc (suc zero))))))) = refl
digit-IsPlain (suc (suc (suc (suc (suc (suc (suc (suc zero)))))))) = refl
digit-IsPlain (suc (suc (suc (suc (suc (suc (suc (suc (suc n))))))))) = refl

every-decimal_int : (n : ℤ) → every is_plain (decimal_int n) ≡ true
unfolding decimal_int
every-decimal_int (pos n) = every-decimal is_plain digit-IsPlain n
every-decimal_int (negsuc n) =
    every-append is_plain "-" (decimal (suc n)) refl (every-decimal is_plain digit-IsPlain (suc n))

-- What eval makes of a command that is assigned in double quotes.
abbrev words_then : Option String → Option (List String)
words_then none = none
words_then (some s) = command_words s

abbrev pub evaluated_words : String → Option (List String)
evaluated_words command = words_then (in_double_quotes command)

-- The words that the command is meant to have.
abbrev pub sftp_words : String → Repository → List String
sftp_words verb repo =
    "kopia"
    ∷ "repository"
    ∷ verb
    ∷ "sftp"
    ∷ ("--host=" <> repo.spec.sftp_options.host)
    ∷ ("--port=" <> decimal_int (sftp_port repo.spec.sftp_options.port))
    ∷ ("--path=" <> repo.spec.sftp_options.path)
    ∷ []

abbrev before_verb : List String
before_verb = "kopia" ∷ "repository" ∷ []

command_words-sftp_command :
    (verb : String) (repo : Repository)
    → feed next_word (some (between before_verb)) verb ≡ some (bare verb before_verb)
    → command_words (sftp_command verb repo) ≡ some (sftp_words verb repo)
unfolding feed next_word sftp_command
command_words-sftp_command verb repo h =
    rw
      (
        feed-concat next_word,
        h,
        feed-shell_quote,
        feed-plain "--port=" _ _ (every-decimal_int (sftp_port repo.spec.sftp_options.port)),
        feed-shell_quote,
      )
      refl

plain→inert : (c : Char) → is_plain c ≡ true → is_inert c ≡ true
plain→inert c h = ground arith

sftp_command-clear :
    (verb : String) (repo : Repository)
    → every is_inert verb ≡ true
    → every is_inert repo.spec.sftp_options.host ≡ true
    → every is_inert repo.spec.sftp_options.path ≡ true
    → in_double_quotes (sftp_command verb repo) ≡ some (sftp_command verb repo)
unfolding sftp_command AllClear
sftp_command-clear verb repo hv hh hp =
    let port = decimal_int (sftp_port repo.spec.sftp_options.port) in
    in_double_quotes-clear _ (
      inert-IsClear "kopia repository " refl,
      (
        inert-IsClear verb hv,
        (
          inert-IsClear " sftp --host=" refl,
          (
            shell_quote-IsClear _ hh,
            (
              inert-IsClear " --port=" refl,
              (
                inert-IsClear port
                    (every_mono is_plain is_inert plain→inert port (every-decimal_int _)),
                (inert-IsClear " --path=" refl, (shell_quote-IsClear _ hp, tt)),
              ),
            ),
          ),
        ),
      ),
    )

evaluated_words-verb :
    (verb : String) (repo : Repository)
    → every is_inert verb ≡ true
    → feed next_word (some (between before_verb)) verb ≡ some (bare verb before_verb)
    → every is_inert repo.spec.sftp_options.host ≡ true
    → every is_inert repo.spec.sftp_options.path ≡ true
    → evaluated_words (sftp_command verb repo) ≡ some (sftp_words verb repo)
evaluated_words-verb verb repo hv h hh hp =
    ap words_then (sftp_command-clear verb repo hv hh hp) ∙ (command_words-sftp_command verb repo h)

-- A host and a path with no dollar sign, backquote, double quote or backslash, whatever else they
-- have, reach `kopia repository connect sftp` and `kopia repository create sftp` as one argument
-- each, as they are: the double quotes of the assignment leave the command as it is, and eval reads
-- the wanted words.
pub evaluated_words-sftp_command :
    (repo : Repository)
    → every is_inert repo.spec.sftp_options.host ≡ true
    → every is_inert repo.spec.sftp_options.path ≡ true
    → (evaluated_words (sftp_command "connect" repo) ≡ some (sftp_words "connect" repo))
      × (evaluated_words (sftp_command "create" repo) ≡ some (sftp_words "create" repo))
unfolding feed next_word
evaluated_words-sftp_command repo hh hp = (
  evaluated_words-verb "connect" repo refl refl hh hp,
  evaluated_words-verb "create" repo refl refl hh hp,
)

sftp_command-at_host :
    (verb : String) (repo : Repository) (a r : String)
    → every is_inert verb ≡ true
    → every is_inert a ≡ true
    → begins_expansion r ≡ true
    → repo.spec.sftp_options.host ≡ a <> r
    → read_quoted (sftp_command verb repo)
      ≡ some (
          expansion
            ((((("" <> "kopia repository ") <> verb) <> " sftp --host=") <> "'") <> replace_all a))
unfolding sftp_command
sftp_command-at_host verb repo a r hv ha k e =
    let port = decimal_int (sftp_port repo.spec.sftp_options.port) in
    rw
      (
        e,
        feed-concat next_quoted,
        inert-IsClear "kopia repository " refl,
        inert-IsClear verb hv,
        inert-IsClear " sftp --host=" refl,
        shell_quote-expands _ a r ha k,
      )
      (feed_all-expansion _
        (" --port=" ∷ port ∷ " --path=" ∷ shell_quote repo.spec.sftp_options.path ∷ []))

-- A host with a backquote, or with a dollar sign before what makes it an expansion, and nothing of
-- meaning in double quotes before that: when SFTP_CMD and SFTP_CREATE_CMD are assigned, the shell
-- reads as far as that place of the host, and there an expansion begins, although it stands in the
-- single quotes of shellQuote.
pub sftp_command-expands :
    (repo : Repository) (a r : String)
    → every is_inert a ≡ true
    → begins_expansion r ≡ true
    → repo.spec.sftp_options.host ≡ a <> r
    → (read_quoted (sftp_command "connect" repo)
        ≡ some (expansion ("kopia repository connect sftp --host='" <> replace_all a)))
      × (read_quoted (sftp_command "create" repo)
          ≡ some (expansion ("kopia repository create sftp --host='" <> replace_all a)))
sftp_command-expands repo a r ha k e = (
  sftp_command-at_host "connect" repo a r refl ha k e,
  sftp_command-at_host "create" repo a r refl ha k e,
)
