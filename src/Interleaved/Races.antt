-- ===== src/Interleaved/Races.antt =====
-- What `loadTenantsDevices` overwrites: it lists the devices of a tenant first and stores a new map
-- at the end, while the read stream is already open.
use cloud_sdk_go.Base.{
  ◌≡◌, refl, String, none, some, List, [], ◌∷◌, Dict, lookup, insert, erase, lookup-insert,
  lookup-erase, eq_refl, message, ok, err, Bool-cases, inl, inr,
}
use cloud_sdk_go.App.Config.{Handlers}
use cloud_sdk_go.App.Tenants.{Tenant, Device, Registry, get_devices, get_device, device_of, values}
use cloud_sdk_go.App.Linking.{index_devices}
use cloud_sdk_go.App.Messages.{ControlPayload, activated, unlinked, when}
use cloud_sdk_go.Interleaved.Store.{Address, Store, write, view, view_maps, store_map}
use cloud_sdk_go.Interleaved.Threads.{
  Cloud, activating, disconnecting, load_calling, step, step_at, interleave,
}
use cloud_sdk_go.Interleaved.Alone.{lookup-view_maps, same_address_refl}

-- A map that is stored under a new address is the one that is found.
stored_devices :
    (k : String) (a : Address) (m : Dict Device) (maps : Dict Address) (s : Store)
    → lookup k (view_maps (write a m s).memory (insert k a maps)) ≡ some m
stored_devices k a m maps s =
    rw
      (
        lookup-view_maps k (write a m s).memory (insert k a maps),
        lookup-insert k k a maps,
        eq_refl k,
        same_address_refl a,
      )
      refl

device_missing :
    (t : Tenant) (id : String) (m : Dict Device) (r : Registry)
    → lookup t.id r.devices ≡ some m
    → lookup id m ≡ none
    → get_device t id r ≡ err (message "invalid deviceId")
unfolding get_device device_of
device_missing t id m r e f = rw (get_device, e, f, device_of) refl

devices_found :
    (t : Tenant) (m : Dict Device) (r : Registry)
    → lookup t.id r.devices ≡ some m
    → get_devices t r ≡ ok (values m)
unfolding get_devices
devices_found t m r e = rw (get_devices, e) refl

-- A device that is activated between the moment at which `loadTenantsDevices` lists the tenant's
-- devices and the moment at which it stores them is lost, when the list does not have it: the
-- application's activation handler is called if it is set, but the device is not found afterwards.
pub activation_lost :
    (handlers : Handlers) (cloud : Cloud) (t : Tenant) (listed : List Device) (d : Device)
    (a : Address) (keys : List String) (s : Store)
    → lookup d.id (index_devices t listed []) ≡ none
    → let (s', pool, effects) =
        interleave handlers
          ((1, cloud) ∷ (1, cloud) ∷ (0, cloud) ∷ [])
          (load_calling t listed [] keys ∷ activating d a ∷ [])
          s in
      (effects ≡ when handlers.device_activation (activated d))
      × (get_device t d.id (view s') ≡ err (message "invalid deviceId"))
unfolding interleave step_at step store_map get_device device_of
activation_lost handlers cloud t listed d a keys s missing =
    let s' = write a (insert d.id d (s.memory a)) s in
    let m = index_devices t listed [] in
    let new : Address = record { owner = t.id; number = s.next } in
    let lost =
      device_missing t d.id m (view (store_map t listed s')) (stored_devices t.id new m s.maps s')
        missing in
    elim (Bool-cases handlers.device_activation) [
      | inl b ↦ rw b (refl, lost)
      | inr b ↦ rw b (refl, lost)
    ]

-- A tenant that is unlinked while `loadTenantsDevices` lists its devices is gone from the tenants,
-- with the callback for it if its handler is set, but its devices are back: `GetDevices` of the
-- tenant succeeds with every device that was listed.
pub unlinked_devices_return :
    (handlers : Handlers) (cloud : Cloud) (t : Tenant) (listed : List Device) (p : ControlPayload)
    (a : Address) (keys : List String) (s : Store)
    → p.tenant ≡ t.id
    → let (s', pool, effects) =
        interleave handlers
          ((1, cloud) ∷ (1, cloud) ∷ (0, cloud) ∷ [])
          (load_calling t listed [] keys ∷ disconnecting p t ∷ [])
          (record s { tenants = erase p.tenant s.tenants }) in
      (effects ≡ when handlers.tenant_unlinked (unlinked t))
      × (lookup t.id s'.tenants ≡ none)
      × (get_devices t (view s') ≡ ok (values (index_devices t listed [])))
unfolding interleave step_at step store_map get_devices
unlinked_devices_return handlers cloud t listed p a keys s e =
    let s' : Store = record s {
      tenants = erase p.tenant s.tenants;
      maps = erase p.tenant s.maps;
    } in
    let m = index_devices t listed [] in
    let new : Address = record { owner = t.id; number = s.next } in
    let found =
      devices_found t m (view (store_map t listed s')) (stored_devices t.id new m s'.maps s') in
    let gone : lookup t.id (erase p.tenant s.tenants) ≡ none =
      rw (lookup-erase t.id p.tenant s.tenants, e, eq_refl t.id) refl in
    elim (Bool-cases handlers.tenant_unlinked) [
      | inl b ↦ rw b (refl, gone, found)
      | inr b ↦ rw b (refl, gone, found)
    ]
