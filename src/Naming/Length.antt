-- ===== src/Naming/Length.antt =====
-- How long the names of CronJobs are. Kubernetes admits 52 characters.
use native.Mathlib.Decide.{dec_le}
use kopia_operator.Prelude.{
  ◌≤◌, ◌<◌, String, ◌<>◌, ◌≡◌, ◌≢◌, ◌↔◌, ap, inl, inr, arith, lt→ltb, le→ltb, ◌==◌, Bool-cases,
}
use kopia_operator.Prelude.Text
use kopia_operator.Prelude.Text.{length-append, length-take, length-last, ne→eq_false}
use kopia_operator.Naming.{cron_job_prefix, cron_job_name}

ne-nil_of_long : (p : String) → 42 < Text.length p → p ≢ ""
ne-nil_of_long p h e = omega (arith, ap Text.length e)

pub cron_job_name_of_long :
    (p : String)
    → 42 < Text.length p
    → cron_job_name p ≡ cron_job_prefix <> (Text.take 42 p <> ("-" <> Text.last p))
unfolding cron_job_name
cron_job_name_of_long p h = rw (ne→eq_false p "" (ne-nil_of_long p h), lt→ltb 42 (Text.length p) h)

pub cron_job_name_of_short :
    (p : String) → p ≢ "" → Text.length p ≤ 42 → cron_job_name p ≡ cron_job_prefix <> p
unfolding cron_job_name
cron_job_name_of_short p ne h = rw (ne→eq_false p "" ne, le→ltb (Text.length p) 42 h)

length-cron_job_name_long : (p : String) → 42 < Text.length p → Text.length (cron_job_name p) ≡ 53
length-cron_job_name_long p h =
    rw (cron_job_name_of_long p h, length-append, length-append)
      (omega (
        arith,
        length-take 42 p (omega arith),
        length-last p (omega arith),
        length-append "-" (Text.last p),
      ))

length-cron_job_name_short : (p : String) → Text.length p ≤ 42 → Text.length (cron_job_name p) ≤ 51
unfolding cron_job_name
length-cron_job_name_short p h = elim (Bool-cases (p == "")) [
  | inl e ↦ rw (e, cron_job_name) (omega arith)
  | inr e ↦ rw (e, le→ltb (Text.length p) 42 h) (omega (arith, length-append cron_job_prefix p))
]

-- The name of a CronJob is never longer than 53 characters. It has the at most 52 characters that
-- Kubernetes admits exactly when the PVC's name has at most 42: a name that is cut stays too long.
pub length-cron_job_name :
    (p : String)
    → (Text.length (cron_job_name p) ≤ 53)
      × ((Text.length (cron_job_name p) ≤ 52) ↔ (Text.length p ≤ 42))
length-cron_job_name p = elim (dec_le (Text.length p) 42) [
  | yes h ↦ omega (arith, length-cron_job_name_short p h)
  | no h ↦ omega (arith, length-cron_job_name_long p (omega arith))
]
