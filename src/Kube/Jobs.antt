-- ===== src/Kube/Jobs.antt =====
-- batchv1: CronJobs.
use kopia_operator.Prelude.{String, Bool, Option}
use kopia_operator.Prelude.Lists.{Dict}
use kopia_operator.Prelude.Int.{ℤ}
use kopia_operator.Kube.Meta.{ObjectMeta}
use kopia_operator.Kube.Pods.{PodSpec}

pub record JobSpec : Type 0 where
  pub ttl_seconds_after_finished : Option ℤ
  pub active_deadline_seconds : Option ℤ
  pub backoff_limit : Option ℤ
  -- Template.ObjectMeta.Labels and Template.Spec
  pub template_labels : Dict String
  pub template_spec : PodSpec
  pub suspend : Option Bool
  -- the fields that the operator does not set
  pub parallelism : Option ℤ
  pub completions : Option ℤ

pub record CronJobSpec : Type 0 where
  pub schedule : String
  pub concurrency_policy : String
  pub suspend : Option Bool
  pub successful_jobs_history_limit : Option ℤ
  pub failed_jobs_history_limit : Option ℤ
  -- JobTemplate.ObjectMeta.Labels and JobTemplate.Spec
  pub job_labels : Dict String
  pub job_spec : JobSpec
  -- fields that the operator does not set
  pub time_zone : Option String
  pub starting_deadline_seconds : Option ℤ

pub record CronJob : Type 0 where
  pub metadata : ObjectMeta
  pub spec : CronJobSpec
