-- ===== src/Interleaved/Tests.antt =====
-- Instances of the theorems on the interleavings: an application with one tenant and one device.
use cloud_sdk_go.Base.{
  ◌≡◌, refl, ◌≤◌, ℕ, String, true, false, none, List, [], ◌∷◌, Dict, lookup, insert, erase, message,
  ok, err, eq_iff, arith,
}
use cloud_sdk_go.App.Config.{Handlers}
use cloud_sdk_go.App.Tenants.{Tenant, Device, get_devices, get_device, values, success}
use cloud_sdk_go.App.Linking.{index_devices}
use cloud_sdk_go.App.Messages.{ControlPayload, activated, unlinked}
use cloud_sdk_go.Interleaved.Store.{Address, Store, view}
use cloud_sdk_go.Interleaved.Threads.{
  Cloud, Thread, activating, disconnecting, load_calling, control, data_message, data_known,
  unlinking, loading, interleave,
}
use cloud_sdk_go.Interleaved.Isolation.{IsIsolated, AllApart, interleave-AllApart}
use cloud_sdk_go.Interleaved.Drain.{count_for, removed_tenant_drains}
use cloud_sdk_go.Interleaved.Races.{activation_lost, unlinked_devices_return}

abbrev all_handlers : Handlers
all_handlers = record {
  device_activation = true;
  device_deactivation = true;
  tenant_unlinked = true;
  device_message = true;
  read_stream_gap = false;
}

abbrev acme : Tenant
acme = record { id = "t1"; name = "Acme"; api_token = "secret" }

abbrev d1 : Device
d1 = record {
  id = "d1";
  kind = "ise";
  name = "First";
  region = "us";
  status = "enrolled";
  tenant = acme;
  fqdn = "us.example";
}

abbrev d2 : Device
d2 = record d1 { id = "d2"; name = "Second" }

abbrev cloud : Cloud
cloud = record {
  devices = λ t. success [];
  device = λ t id. success (record {
    id = id;
    kind = "ise";
    name = "Found";
    region = "us";
    fqdn = "us.example";
    enrollment_status = "enrolled";
  });
}

abbrev first_map : Address
first_map = record { owner = "t1"; number = 0 }

abbrev no_maps : Store
no_maps = record { tenants = []; maps = []; memory = λ a. []; next = 0; connecting = true }

-- A tenant with an empty map.
abbrev linked : Store
linked = record no_maps { tenants = ("t1", acme) ∷ []; maps = ("t1", first_map) ∷ []; next = 1 }

no_maps-IsIsolated : IsIsolated no_maps
unfolding lookup
no_maps-IsIsolated = record {
  tenants_keyed = λ k t e. ground arith;
  maps_owned = λ k a e. ground arith;
  memory_keyed = λ a id. tt;
}

linked-IsIsolated : IsIsolated linked
unfolding lookup
linked-IsIsolated = record {
  tenants_keyed = λ k t e. ground (arith, eq_iff "t1" k);
  maps_owned = λ k a e. ground (arith, eq_iff "t1" k);
  memory_keyed = λ a id. tt;
}

abbrev headers : Dict String
headers = ("tenant", "t1") ∷ ("device", "d1") ∷ ("stream", "s") ∷ []

abbrev payload : ControlPayload
payload = record { kind = "device:activate"; tenant = "t1"; device = "d2"; streams = [] }

-- A data message, a device activation, an unlinking and a reload at once.
abbrev pool : List Thread
pool = data_message headers "payload" ∷ control payload ∷ unlinking acme ∷ loading ("t1" ∷ []) ∷ []

abbrev schedule : List (ℕ × Cloud)
schedule =
    (3, cloud) ∷ (0, cloud) ∷ (3, cloud) ∷ (1, cloud) ∷ (2, cloud) ∷ (0, cloud) ∷ (3, cloud) ∷ []

interleave-AllApart_example : AllApart (interleave all_handlers schedule pool linked)
interleave-AllApart_example =
    interleave-AllApart all_handlers schedule pool linked linked-IsIsolated
      (tt, (tt, (tt, (tt, tt))))

none_linked : lookup "t1" no_maps.tenants ≡ none
unfolding lookup
none_linked = refl

removed_tenant_drains_example :
    count_for "t1"
      (interleave all_handlers
        ((0, cloud) ∷ (0, cloud) ∷ (1, cloud) ∷ [])
        (data_known headers "payload" acme ∷ data_message headers "payload" ∷ [])
        no_maps).2
    ≤ 1
unfolding lookup
removed_tenant_drains_example =
    removed_tenant_drains all_handlers "t1" ((0, cloud) ∷ (0, cloud) ∷ (1, cloud) ∷ [])
      (data_known headers "payload" acme ∷ data_message headers "payload" ∷ []) no_maps
      no_maps-IsIsolated none_linked (refl, (tt, tt)) (tt, (tt, tt))

abbrev disconnect : ControlPayload
disconnect = record payload { kind = "app:disconnect" }

not_listed : lookup "d2" (index_devices acme (d1 ∷ []) []) ≡ none
unfolding lookup index_devices insert
not_listed = refl

activation_lost_example :
    let (s', pool, effects) =
      interleave all_handlers
        ((1, cloud) ∷ (1, cloud) ∷ (0, cloud) ∷ [])
        (load_calling acme (d1 ∷ []) [] [] ∷ activating d2 first_map ∷ [])
        linked in
    (effects ≡ activated d2 ∷ [])
    × (get_device acme "d2" (view s') ≡ err (message "invalid deviceId"))
activation_lost_example =
    activation_lost all_handlers cloud acme (d1 ∷ []) d2 first_map [] linked not_listed

unlinked_devices_return_example :
    let (s', pool, effects) =
      interleave all_handlers
        ((1, cloud) ∷ (1, cloud) ∷ (0, cloud) ∷ [])
        (load_calling acme (d1 ∷ []) [] [] ∷ disconnecting disconnect acme ∷ [])
        (record linked { tenants = erase "t1" linked.tenants }) in
    (effects ≡ unlinked acme ∷ [])
    × (lookup "t1" s'.tenants ≡ none)
    × (get_devices acme (view s') ≡ ok (values (index_devices acme (d1 ∷ []) [])))
unlinked_devices_return_example =
    unlinked_devices_return all_handlers cloud acme (d1 ∷ []) disconnect first_map [] linked refl
