-- ===== src/Interleaved/Store.antt =====
-- The maps that the goroutines of an application share (app.go: tenantMap, deviceMap).
--
-- `deviceMap` holds pointers to the maps of the tenants, so that a call may still hold the map that
-- another call has replaced: the maps are kept under addresses. The name of an address is the
-- tenant for whom `setTenant` or `loadTenantsDevices` made the map, with a number.
use cloud_sdk_go.Base.{
  ℕ, ◌+◌, String, Bool, ◌&&◌, ◌==◌, List, [], ◌∷◌, Dict, insert, str_eq, if◌then◌else◌,
}
use cloud_sdk_go.App.Tenants.{Tenant, Device, Registry}
use cloud_sdk_go.App.Linking.{index_devices}

pub record Address : Type 0 where
  pub owner : String
  pub number : ℕ

pub record Store : Type 0 where
  pub tenants : Dict Tenant
  pub maps : Dict Address
  pub memory : Address → Dict Device
  pub next : ℕ
  pub connecting : Bool

abbrev pub same_address : Address → Address → Bool
same_address a b = str_eq a.owner b.owner && (a.number == b.number)

-- The map at an address, changed.
abbrev pub write : Address → Dict Device → Store → Store
write a m s = record s { memory = λ b. if same_address a b then m else s.memory b }

-- `deviceMapInternal := sync.Map{}`, filled and stored for the tenant.
unfoldable pub store_map : Tenant → List Device → Store → Store
store_map t ds s =
    let a : Address = record { owner = t.id; number = s.next } in
    let s' : Store = write a (index_devices t ds []) s in
    record s' { maps = insert t.id a s.maps; next = s.next + 1 }

abbrev pub view_maps : (Address → Dict Device) → Dict Address → Dict (Dict Device)
view_maps memory [] = []
view_maps memory ((k, a) ∷ rest) = (k, memory a) ∷ view_maps memory rest

-- The maps as a single goroutine sees them.
abbrev pub view : Store → Registry
view s = record {
  tenants = s.tenants;
  devices = view_maps s.memory s.maps;
  connecting = s.connecting;
}
