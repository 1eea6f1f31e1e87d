-- ===== src/Server/Drift.antt =====
-- When EnsureServerService updates a Service that is there.
use kopia_operator.Prelude.{◌≡◌, ◌≢◌, ap, false, [], inl, inr, Bool-cases}
use kopia_operator.Exec.{ok, then_pure}
use kopia_operator.Kube.Meta.{ObjectMeta}
use kopia_operator.Kube.Objects.{Service, ServiceSpec}
use kopia_operator.Api.Repository.{Repository}
use kopia_operator.Platform.{Platform}
use kopia_operator.Platform.Laws.{IsSemanticEqual}
use kopia_operator.World.{World, api_write, update, core_service, emit, write}
use kopia_operator.Naming.{server_service_name}
use kopia_operator.Server.Tls.{Crypto}
use kopia_operator.Server.Service.{construct_server_service}
use kopia_operator.Server.Manager.{
  in_namespace, merge_service_spec, with_service, ensure_server_service,
}

module _ (P : Platform) (C : Crypto P) (E : IsSemanticEqual P) where
  open P use {State, services, set_controller_reference}

  unequal : (s t : ServiceSpec) → s.rest ≢ t.rest → P.service_spec_equal s t ≡ false
  unequal s t differ = elim (Bool-cases (P.service_spec_equal s t)) [
    | inl e ↦ absurd (differ (E.same_service s t e))
    | inr e ↦ e
  ]

  -- For a Service that is there with a field that the API server filled in, an update is sent, also
  -- when its ports, its type and its selector are the wanted ones already.
  pub ensure_server_service-always_updates :
      (repo : Repository) (w : World State) (existing : Service) (metadata : ObjectMeta) (s : State)
      → (let desired = construct_server_service repo (server_service_name repo.metadata.name) in
          set_controller_reference "KopiaRepository" repo.metadata desired.metadata ≡ ok metadata)
      → services.get (in_namespace repo (server_service_name repo.metadata.name)) w.api
        ≡ (ok existing, s)
      → existing.spec.rest ≢ []
      → (ensure_server_service P C repo w).1.trace
        ≡ (emit
            (api_write update core_service existing.metadata.name existing.metadata.namespace)
            w).trace
  unfolding ensure_server_service with_service construct_server_service
  ensure_server_service-always_updates repo w existing metadata s owned got filled =
      let desired = construct_server_service repo (server_service_name repo.metadata.name) in
      let merged = merge_service_spec existing.spec desired.spec in
      let updates : P.service_spec_equal merged desired.spec ≡ false =
        unequal merged desired.spec filled in
      let sent =
        write update core_service existing.metadata
          (services.update (record existing { spec = merged })) in
      rw (owned, got, updates) (ap (λ v. v.trace) (then_pure sent (record w { api = s })))
