-- ===== src/Metrics.antt =====
-- internal/metrics/metrics.go: the metrics and their registration. The calls on them are effects of
-- World.
use kopia_operator.Prelude.{String, List, [], ◌∷◌}

pub data MetricType : Type 0 where
  gauge counter : MetricType

-- prometheus.GaugeOpts or CounterOpts, with the names of the labels.
pub record Metric : Type 0 where
  pub type : MetricType
  pub namespace : String
  pub name : String
  pub help : String
  pub labels : List String

abbrev pub backups_per_repository : Metric
backups_per_repository = record {
  type = gauge;
  namespace = "kopia_operator";
  name = "backups_per_repository";
  help = "Number of KopiaBackup resources per repository";
  labels = "repository" ∷ "namespace" ∷ [];
}

abbrev pub last_successful_backup : Metric
last_successful_backup = record {
  type = gauge;
  namespace = "kopia_operator";
  name = "last_successful_backup_timestamp";
  help = "Unix timestamp of the last successful backup";
  labels = "backup" ∷ "namespace" ∷ "pvc" ∷ [];
}

abbrev pub reconcile_errors : Metric
reconcile_errors = record {
  type = counter;
  namespace = "kopia_operator";
  name = "reconcile_errors_total";
  help = "Total number of reconcile errors";
  labels = "controller" ∷ [];
}

abbrev pub server_ready : Metric
server_ready = record {
  type = gauge;
  namespace = "kopia_operator";
  name = "server_ready";
  help = "Whether the Kopia Server is ready (1=ready, 0=not ready)";
  labels = "repository" ∷ "namespace" ∷ [];
}

-- What init registers.
abbrev pub registered : List Metric
registered = backups_per_repository ∷ last_successful_backup ∷ reconcile_errors ∷ server_ready ∷ []
