-- ===== src/BackupController/JobPods.antt =====
-- The pods of the operator's own backup jobs, whose names begin with the name of their CronJob
-- (internal/naming/names.go), in the two places that look at pods.
use kopia_operator.Prelude.{
  String, ◌<>◌, ◌≡◌, true, false, inl, inr, Bool-cases, ◌==◌, ltb, ◌∙◌, ap, starts_with, arith, [],
}
use text.Mathlib.TextPositions.{starts_with-append}
use text.Mathlib.TextLemmas.{append_assoc}
use kopia_operator.Prelude.Text
use kopia_operator.Kube.Pods.{Pod}
use kopia_operator.Platform.{Platform}
use kopia_operator.World.{World}
use kopia_operator.Naming.{cron_job_prefix, cron_job_name}
use kopia_operator.BackupController.Placement.{uses_pvc}
use kopia_operator.BackupController.Watches.{find_backups_for_pod}

prefix_of_append : (p s t : String) → starts_with ((p <> s) <> t) p ≡ true
prefix_of_append p s t = rw append_assoc (starts_with-append p (s <> t))

job_pod_prefix :
    (pvc_name suffix : String)
    → starts_with (cron_job_name pvc_name <> suffix) cron_job_prefix ≡ true
unfolding cron_job_name
job_pod_prefix pvc_name suffix = elim (Bool-cases (pvc_name == "")) [
  | inl e ↦ rw (e, cron_job_name) (prefix_of_append cron_job_prefix "unknown" suffix)
  | inr e ↦ elim (Bool-cases (ltb 42 (Text.length pvc_name))) [
    | inl l ↦
        rw (e, l, cron_job_name)
          (prefix_of_append cron_job_prefix (Text.take 42 pvc_name <> ("-" <> Text.last pvc_name))
            suffix)
    | inr l ↦ rw (e, l, cron_job_name) (prefix_of_append cron_job_prefix pvc_name suffix)
  ]
]

-- A pod whose name is the CronJob's name of any PVC and a suffix, as the pods of a backup's jobs are
-- named, never counts as the pod that uses a PVC, and never triggers a reconcile of a backup.
pub job_pods_are_ignored :
    (P : Platform) (pod : Pod) (pvc_name suffix claim : String) (w : World P.State)
    → pod.metadata.name ≡ cron_job_name pvc_name <> suffix
    → (uses_pvc claim pod ≡ false) × (find_backups_for_pod P pod w ≡ ([], w))
unfolding uses_pvc find_backups_for_pod
job_pods_are_ignored P pod pvc_name suffix claim w named =
    let own : starts_with pod.metadata.name cron_job_prefix ≡ true =
      ap (λ s. starts_with s cron_job_prefix) named ∙ job_pod_prefix pvc_name suffix in
    (ground (arith, own), rw own)
