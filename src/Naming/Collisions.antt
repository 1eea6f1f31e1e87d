-- ===== src/Naming/Collisions.antt =====
-- Which names can be the same.
use text.Mathlib.TextLemmas.{append_cancel_left, append_assoc}
use native.Mathlib.Decide.{dec_le}
use kopia_operator.Prelude.{
  ap, inl, inr, ◌⊎◌, arith, ◌≤◌, ◌<◌, String, ◌<>◌, ◌≡◌, ◌≢◌, ◌↔◌, sym, subst, ◌∙◌,
}
use kopia_operator.Prelude.Text
use kopia_operator.Prelude.Text.{length-take, append-take_inj}
use kopia_operator.Naming.{cron_job_prefix, cron_job_name, username}
use kopia_operator.Naming.Length.{
  cron_job_name_of_long, cron_job_name_of_short, length-cron_job_name,
}

cron_job_name_inj :
    (p q : String)
    → p ≢ ""
    → q ≢ ""
    → Text.length p ≤ 42
    → Text.length q ≤ 42
    → cron_job_name p ≡ cron_job_name q
    → p ≡ q
cron_job_name_inj p q p_set q_set hp hq e =
    append_cancel_left cron_job_prefix p q
      (sym (cron_job_name_of_short p p_set hp) ∙ e ∙ cron_job_name_of_short q q_set hq)

same_parts :
    (p q : String)
    → 42 < Text.length p
    → 42 < Text.length q
    → cron_job_name p ≡ cron_job_name q
    → (Text.take 42 p ≡ Text.take 42 q) × (Text.last p ≡ Text.last q)
same_parts p q hp hq e =
    let cut =
      append_cancel_left cron_job_prefix _ _
        (sym (cron_job_name_of_long p hp) ∙ e ∙ cron_job_name_of_long q hq) in
    let front : Text.take 42 p ≡ Text.take 42 q =
      append-take_inj (Text.take 42 p) (Text.take 42 q) _ _
        (length-take 42 p (omega arith) ∙ sym (length-take 42 q (omega arith))) cut in
    (
      front,
      append_cancel_left "-" _ _ (
          append_cancel_left (Text.take 42 q) _ _ (
            subst (λ t. t <> ("-" <> Text.last p) ≡ Text.take 42 q <> ("-" <> Text.last q)) front
              cut)),
    )

-- A name that is cut is too long to be one that is not.
short_of_same :
    (p q : String) → cron_job_name p ≡ cron_job_name q → Text.length p ≤ 42 → Text.length q ≤ 42
short_of_same p q e h =
    (length-cron_job_name q).1.0
      (subst (λ n. Text.length n ≤ 52) e ((length-cron_job_name p).1.1 h))

-- Both names are cut, at the same first 42 characters and before the same last one.
abbrev pub CutAlike : String → String → Type 0
CutAlike p q =
    (42 < Text.length p)
    × (42 < Text.length q)
    × (Text.take 42 p ≡ Text.take 42 q)
    × (Text.last p ≡ Text.last q)

same_of_CutAlike : (p q : String) → CutAlike p q → cron_job_name p ≡ cron_job_name q
same_of_CutAlike p q (hp, hq, front, back) =
    rw (cron_job_name_of_long p hp, cron_job_name_of_long q hq, front, back)

-- Two PVC names, neither of them empty, have one CronJob name exactly when they are the same name, or
-- both have more than 42 characters and they agree in the first 42 and in the last one.
pub cron_job_name_collides :
    (p q : String)
    → p ≢ ""
    → q ≢ ""
    → (cron_job_name p ≡ cron_job_name q) ↔ ((p ≡ q) ⊎ CutAlike p q)
cron_job_name_collides p q p_set q_set = (
  λ e. elim (dec_le (Text.length p) 42) [
    | yes h ↦ inl (cron_job_name_inj p q p_set q_set h (short_of_same p q e h) e)
    | no h ↦ elim (dec_le (Text.length q) 42) [
      | yes k ↦ absurd (h (short_of_same q p (sym e) k))
      | no k ↦
          let (front, back) = same_parts p q (omega arith) (omega arith) e in
          inr (omega arith, omega arith, front, back)
    ]
  ],
  λ alike. elim alike [ inl same ↦ ap cron_job_name same | inr cut ↦ same_of_CutAlike p q cut ],
)

-- The user names of two backups in different namespaces are the same whenever a dash can be read as
-- the end of either namespace: PVC c of namespace a-b and PVC b-c of namespace a.
pub username_collides :
    (a b c h : String) → username (a <> ("-" <> b)) c h ≡ username a (b <> ("-" <> c)) h
unfolding username
username_collides a b c h = simp append_assoc
