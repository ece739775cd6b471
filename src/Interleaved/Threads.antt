-- ===== src/Interleaved/Threads.antt =====
-- The calls that use the maps, as goroutines that are suspended between two accesses (app.go:
-- controlMsgHandler, dataMsgHandler, UnlinkTenant, setTenant, loadTenantsDevices).
--
-- One step is one access of a map, one request or one callback. What the cloud answers may change
-- from step to step. The callback of a message handler and the log of its error come last.
--
-- A call of `setTenant` has a transport, and the one by which `LinkTenant` unlinks after a failure is
-- a call of its own; the request of `UnlinkTenant` uses no map.
use cloud_sdk_go.Base.{
  ℕ, zero, suc, String, true, none, some, List, [], ◌∷◌, ◌++◌, Dict, lookup, insert, erase, ok, err,
  str_eq, is_empty, if◌then◌else◌,
}
use cloud_sdk_go.App.Config.{Handlers}
use cloud_sdk_go.App.Tenants.{
  Tenant, Device, DeviceResponse, Reply, fetch_devices, get_device_by_id,
}
use cloud_sdk_go.App.Messages.{
  ControlPayload, Effect, activated, deactivated, unlinked, header, when, deliver,
}
use cloud_sdk_go.Interleaved.Store.{Address, Store, write, store_map}

-- What the cloud answers at some moment.
pub record Cloud : Type 0 where
  pub devices : Tenant → Reply (List DeviceResponse)
  pub device : Tenant → String → Reply DeviceResponse

pub data Thread : Type 0 where
  done : Thread
  -- the callbacks that are left
  calls : List Effect → Thread
  -- `controlMsgHandler`: at its start, with the tenant, with the tenant's map
  control : ControlPayload → Thread
  control_known : ControlPayload → Tenant → Thread
  control_mapped : ControlPayload → Tenant → Address → Thread
  activating : Device → Address → Thread
  removing : (device_id : String) → Device → Address → Thread
  fetching_removed : ControlPayload → Tenant → Thread
  disconnecting : ControlPayload → Tenant → Thread
  -- `dataMsgHandler`
  data_message : (headers : Dict String) → (payload : String) → Thread
  data_known : (headers : Dict String) → (payload : String) → Tenant → Thread
  data_mapped : (headers : Dict String) → (payload : String) → Tenant → Address → Thread
  data_fetching : (headers : Dict String) → (payload : String) → Tenant → Address → Thread
  data_storing : (headers : Dict String) → (payload : String) → Device → Address → Thread
  -- `UnlinkTenant`
  unlinking : Tenant → Thread
  unlinking_devices : Tenant → Thread
  -- `setTenant`
  linking : Tenant → Thread
  link_fetching : Tenant → Thread
  link_storing : Tenant → List Device → Thread
  -- `loadTenantsDevices`, with the keys that the range has yet to visit
  loading : List String → Thread
  load_fetching : Tenant → List String → Thread
  load_calling : Tenant → (all left : List Device) → List String → Thread

abbrev pub Stepped : Type 0
Stepped = Store × Thread × List Effect

-- A step without a callback.
abbrev pub quiet : Store → Thread → Stepped
quiet s th = (s, th, [])

module _ (handlers : Handlers) where
  open handlers use {device_activation, device_deactivation, tenant_unlinked}

  -- The chain of tests of the message's type, up to the next access.
  unfoldable pub control_step : Cloud → ControlPayload → Tenant → Address → Store → Stepped
  unfolding get_device_by_id
  control_step cloud p t a s =
      if str_eq p.kind "device:activate"
      then elim (get_device_by_id t (cloud.device t p.device)) [
        | err e ↦ quiet s done
        | ok d ↦ quiet s (activating d a)
      ]
      else if str_eq p.kind "device:deactivate"
      then elim (lookup p.device (s.memory a)) [
        | some d ↦ quiet s (removing p.device d a)
        | none ↦ quiet s (fetching_removed p t)
      ]
      else if str_eq p.kind "app:connect"
      then quiet s done
      else if str_eq p.kind "app:disconnect"
      then quiet (record s { tenants = erase p.tenant s.tenants }) (disconnecting p t)
      else quiet s done

  unfoldable pub step : Cloud → Thread → Store → Stepped
  unfolding control_step fetch_devices get_device_by_id deliver store_map
  step cloud done s = quiet s done
  step cloud (calls []) s = quiet s done
  step cloud (calls (e ∷ es)) s = (s, calls es, e ∷ [])
  step cloud (control p) s = elim (lookup p.tenant s.tenants) [
    | none ↦ quiet s done
    | some t ↦ quiet s (control_known p t)
  ]
  step cloud (control_known p t) s = elim (lookup p.tenant s.maps) [
    | none ↦ quiet s done
    | some a ↦ quiet s (control_mapped p t a)
  ]
  step cloud (control_mapped p t a) s = control_step cloud p t a s
  step cloud (activating d a) s =
      quiet (write a (insert d.id d (s.memory a)) s) (calls (when device_activation (activated d)))
  step cloud (removing device_id d a) s =
      quiet (write a (erase device_id (s.memory a)) s)
        (calls (when device_deactivation (deactivated d)))
  step cloud (fetching_removed p t) s = elim (get_device_by_id t (cloud.device t p.device)) [
    | err e ↦ quiet s done
    | ok d ↦ quiet s (calls (when device_deactivation (deactivated d)))
  ]
  step cloud (disconnecting p t) s =
      quiet (record s { maps = erase p.tenant s.maps }) (calls (when tenant_unlinked (unlinked t)))
  step cloud (data_message headers payload) s =
      if is_empty (header "tenant" headers)
      then quiet s done
      else if is_empty (header "device" headers)
      then quiet s done
      else elim (lookup (header "tenant" headers) s.tenants) [
        | none ↦ quiet s done
        | some t ↦ quiet s (data_known headers payload t)
      ]
  step cloud (data_known headers payload t) s = elim (lookup (header "tenant" headers) s.maps) [
    | none ↦ quiet s done
    | some a ↦ quiet s (data_mapped headers payload t a)
  ]
  step cloud (data_mapped headers payload t a) s =
      elim (lookup (header "device" headers) (s.memory a)) [
        | some d ↦ quiet s (calls (deliver handlers cloud.device headers d payload))
        | none ↦ quiet s (data_fetching headers payload t a)
      ]
  step cloud (data_fetching headers payload t a) s =
      elim (get_device_by_id t (cloud.device t (header "device" headers))) [
        | err e ↦ quiet s done
        | ok d ↦ quiet s (data_storing headers payload d a)
      ]
  step cloud (data_storing headers payload d a) s =
      quiet (write a (insert d.id d (s.memory a)) s)
        (calls (deliver handlers cloud.device headers d payload))
  step cloud (unlinking t) s =
      quiet (record s { tenants = erase t.id s.tenants }) (unlinking_devices t)
  step cloud (unlinking_devices t) s = quiet (record s { maps = erase t.id s.maps }) done
  step cloud (linking t) s =
      quiet (record s { tenants = insert t.id t s.tenants }) (link_fetching t)
  step cloud (link_fetching t) s = elim (fetch_devices t (cloud.devices t)) [
    | err e ↦ quiet s done
    | ok ds ↦ quiet s (link_storing t ds)
  ]
  step cloud (link_storing t ds) s = quiet (record (store_map t ds s) { connecting = true }) done
  step cloud (loading []) s = quiet s done
  step cloud (loading (key ∷ keys)) s = elim (lookup key s.tenants) [
    | none ↦ quiet s done
    | some t ↦ quiet s (load_fetching t keys)
  ]
  step cloud (load_fetching t keys) s = elim (fetch_devices t (cloud.devices t)) [
    | err e ↦ quiet s done
    | ok ds ↦ quiet s (load_calling t ds ds keys)
  ]
  step cloud (load_calling t ds [] keys) s = quiet (store_map t ds s) (loading keys)
  step cloud (load_calling t ds (d ∷ left) keys) s =
      (s, load_calling t ds left keys, when device_activation (activated (record d { tenant = t })))

  -- A step of the goroutine at an index.
  unfoldable pub step_at : Cloud → ℕ → List Thread → Store → Store × List Thread × List Effect
  unfolding step
  step_at cloud i [] s = (s, [], [])
  step_at cloud zero (th ∷ pool) s =
      let (s', th', effects) = step cloud th s in (s', th' ∷ pool, effects)
  step_at cloud (suc i) (th ∷ pool) s =
      let (s', pool', effects) = step_at cloud i pool s in (s', th ∷ pool', effects)

  -- The goroutines in the order in which a schedule lets them run.
  unfoldable pub interleave :
      List (ℕ × Cloud) → List Thread → Store → Store × List Thread × List Effect
  unfolding step_at
  interleave [] pool s = (s, pool, [])
  interleave ((i, cloud) ∷ schedule) pool s =
      let (s', pool', effects) = step_at cloud i pool s in
      let (s'', pool'', more) = interleave schedule pool' s' in (s'', pool'', effects ++ more)
