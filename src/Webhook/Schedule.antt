-- ===== src/Webhook/Schedule.antt =====
-- Schedules: the words that `fields` finds, and what is accepted.
use mathlib.Core.List.{List, [], ◌∷◌}
use text.Mathlib.TextLemmas.{append_assoc, nil-append, cons-append, append-nil}
use kopia_operator.Prelude.{String, ◌<>◌, ◌≡◌, ◌≢◌, ◌↔◌, refl, false, arith, ap, sym, ◌∙◌}
use kopia_operator.Prelude.Text.{join, ne→eq_false}
use kopia_operator.Prelude.Lists.{length}
use kopia_operator.Exec.{ok}
use kopia_operator.Webhook.{validate_cron_schedule}
use kopia_operator.Webhook.Fields.{fields_from, fields}
use kopia_operator.Prelude.Space.{is_space}

-- A text with no white space.
abbrev pub IsSolid : String → Type 0
IsSolid String.[] = Unit
IsSolid (String.◌∷◌ c s) = (is_space c ≡ false) × IsSolid s

abbrev pub AreWords : List String → Type 0
AreWords [] = Unit
AreWords (w ∷ ws) = (w ≢ "") × IsSolid w × AreWords ws

-- A solid text is read into the current word.
fields_from-append :
    (w rest word : String) → IsSolid w → fields_from (w <> rest) word ≡ fields_from rest (word <> w)
unfolding fields_from
fields_from-append String.[] rest word h = rw (nil-append, append-nil)
fields_from-append (String.◌∷◌ c w) rest word (h, hs) =
    rw (cons-append, fields_from)
      (rw h (
        fields_from-append w rest (word <> String.◌∷◌ c String.[]) hs
        ∙ rw (append_assoc, cons-append, nil-append)))

-- A space ends a word.
fields_from-space :
    (rest word : String) → word ≢ "" → fields_from (" " <> rest) word ≡ word ∷ fields_from rest ""
unfolding fields_from is_space
fields_from-space rest word h = rw (cons-append, nil-append, ne→eq_false word "" h)

fields_from-join :
    (w : String) (ws : List String)
    → AreWords (w ∷ ws)
    → fields_from (join " " (w ∷ ws)) "" ≡ w ∷ ws
unfolding join
fields_from-join w [] (set, solid, _) =
    ap (λ t. fields_from t "") (sym (append-nil w))
    ∙ fields_from-append w "" "" solid
    ∙ rw nil-append (unfold fields_from in rw (ne→eq_false w "" set))
fields_from-join w (v ∷ ws) (set, solid, words) =
    fields_from-append w (" " <> join " " (v ∷ ws)) "" solid
    ∙ rw nil-append (fields_from-space (join " " (v ∷ ws)) w set)
    ∙ ap (λ rest. w ∷ rest) (fields_from-join v ws words)

fields-join : (ws : List String) → AreWords ws → fields (join " " ws) ≡ ws
unfolding fields join
fields-join [] h = refl
fields-join (w ∷ ws) h = fields_from-join w ws h

-- Words with single spaces between them are read back as they are, and they make a schedule that the
-- webhook accepts exactly when there are five of them.
pub validate_cron_schedule_iff :
    (ws : List String)
    → AreWords ws
    → (fields (join " " ws) ≡ ws)
      × ((validate_cron_schedule (join " " ws) ≡ ok tt) ↔ (length ws ≡ 5))
unfolding validate_cron_schedule
validate_cron_schedule_iff ws h = (fields-join ws h, rw (fields-join ws h) (ground arith))
