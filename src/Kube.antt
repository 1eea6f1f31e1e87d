-- ===== src/Kube.antt =====
-- The Kubernetes types whose values the operator reads and builds (k8s.io/api), with the fields that
-- it uses. Times are seconds, quantities are their values, and a map of Go is an association list.
pub mod Meta
pub mod Pods
pub mod Jobs
pub mod Objects
pub mod Deployments
