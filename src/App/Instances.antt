-- ===== src/App/Instances.antt =====
-- Application instances (appinstance.go: LinkTenantWithNewAppInstance, CreateAppInstance,
-- DeleteAppInstance, SetAppInstance).
--
-- `xid` is the fresh id that `New` uses where the configuration has no group; the fresh identifier
-- of an instance goes only into the request.
use cloud_sdk_go.Base.{
  String, false, Option, none, some, List, [], Failure, message, Result, ok, err, ◌>>=◌,
}
use cloud_sdk_go.App.Config.{new_app_config}
use cloud_sdk_go.App.Tenants.{
  Tenant, DeviceResponse, get_error, Reply, failed, error_status, success, Registry, reply_result,
}
use cloud_sdk_go.App.Linking.{Outcome, panics, returns, set_tenant}
use cloud_sdk_go.App.Start.{App, new_app}

pub record AppInstanceResponse : Type 0 where
  pub app_id : String
  pub app_api_key : String
  pub tenant_token : String
  pub tenant_id : String
  pub tenant_name : String

pub record CreateAppInstanceResponse : Type 0 where
  pub id : String
  pub api_key : String

-- The maps of a new application.
abbrev pub new_registry : Registry
new_registry = record { tenants = []; devices = []; connecting = false }

unfoldable pub set_app_instance : String → (app_id app_api_key : String) → App → Result App
unfolding new_app_config new_app
set_app_instance xid app_id app_api_key app =
    new_app xid (new_app_config app.config app.log_each_message app_id app_api_key)

unfoldable pub create_app_instance : String → Reply CreateAppInstanceResponse → App → Result App
unfolding reply_result set_app_instance
create_app_instance xid reply app =
    reply_result reply >>= λ resp. set_app_instance xid resp.id resp.api_key app

unfoldable pub delete_app_instance : Reply (Unit {0}) → Option Failure
unfolding get_error
delete_app_instance (failed e) = some e
delete_app_instance (error_status code e) = some (message (get_error e))
delete_app_instance (success _) = none

-- The child with its maps and its tenant, if `SetTenant` has no error.
abbrev pub linked_child :
    App → Registry × Outcome (Tenant × Option Failure) → Outcome (Result (App × Registry × Tenant))
linked_child child (r, panics) = panics
linked_child child (r, returns (tenant, some e)) = returns (err e)
linked_child child (r, returns (tenant, none)) = returns (ok (child, r, tenant))

-- The replies are those to the redemption and to the fetch of the devices.
unfoldable pub link_tenant_with_new_app_instance :
    String
    → Reply AppInstanceResponse
    → Reply (List DeviceResponse)
    → App
    → Outcome (Result (App × Registry × Tenant))
unfolding reply_result set_app_instance set_tenant
link_tenant_with_new_app_instance xid reply fetched app = elim (reply_result reply) [
  | err e ↦ returns (err e)
  | ok resp ↦ elim (set_app_instance xid resp.app_id resp.app_api_key app) [
    | err e ↦ returns (err e)
    | ok child ↦ linked_child child (
        set_tenant child.config resp.tenant_id resp.tenant_name resp.tenant_token fetched
          new_registry)
  ]
]
