-- ===== src/App/Registry.antt =====
-- The maps of tenants and devices agree, and callbacks concern linked tenants.
use cloud_sdk_go.Base.{
  ◌≡◌, inl, inr, String, Option, none, some, Dict, lookup, insert, erase, lookup-insert,
  lookup-erase, eq_iff, str_eq, Bool-cases,
}
use cloud_sdk_go.App.Tenants.{Tenant, Device, Registry}
use cloud_sdk_go.App.Messages.{Effect, activated, deactivated, unlinked, received, with_devices}

-- A device under its id in the map of a tenant.
abbrev pub Fits : String → String → Option Device → Type 0
Fits k id none = Unit
Fits k id (some d) = (d.id ≡ id) × (d.tenant.id ≡ k)

abbrev pub IsKeyed : String → Dict Device → Type 0
IsKeyed k m = (id : String) → Fits k id (lookup id m)

-- What the two maps hold under one key.
abbrev pub Agrees : String → Option Tenant → Option (Dict Device) → Type 0
Agrees k none none = Unit
Agrees k none (some m) = ⊥
Agrees k (some t) none = t.id ≡ k
Agrees k (some t) (some m) = (t.id ≡ k) × IsKeyed k m

-- Tenants stand under their ids, devices under theirs in the map of their tenant, and there is no
-- device map of a tenant that is not linked.
abbrev pub IsSound : Registry → Type 0
IsSound r = (k : String) → Agrees k (lookup k r.tenants) (lookup k r.devices)

-- The tenant that a callback concerns.
abbrev pub tenant_of : Effect → String
tenant_of (activated d) = d.tenant.id
tenant_of (deactivated d) = d.tenant.id
tenant_of (unlinked t) = t.id
tenant_of (received id d stream payload) = d.tenant.id

pub insert-IsKeyed :
    (k : String) (d : Device) (m : Dict Device)
    → d.tenant.id ≡ k
    → IsKeyed k m
    → IsKeyed k (insert d.id d m)
insert-IsKeyed k d m e h id = rw (lookup-insert id d.id d m) (elim (Bool-cases (str_eq d.id id)) [
  | inl same ↦ rw same ((eq_iff d.id id).0 same, e)
  | inr other ↦ rw other (h id)
])

pub erase-IsKeyed : (k id : String) (m : Dict Device) → IsKeyed k m → IsKeyed k (erase id m)
erase-IsKeyed k id m h j =
    rw (lookup-erase j id m)
      (elim (Bool-cases (str_eq id j)) [ inl same ↦ rw same tt | inr other ↦ rw other (h j) ])

pub devices-IsSound :
    (t : Tenant) (k : String) (m : Dict Device) (r : Registry)
    → lookup k r.tenants ≡ some t
    → t.id ≡ k
    → IsKeyed k m
    → IsSound r
    → IsSound (with_devices t k m r)
devices-IsSound t k m r e i h s j =
    rw (lookup-insert j k m r.devices) (elim (Bool-cases (str_eq k j)) [
      | inl same ↦ let p = (eq_iff k j).0 same in rw (same, ← p, e) (i, h)
      | inr other ↦ rw other (s j)
    ])

pub erase-IsSound :
    (k : String) (r : Registry)
    → IsSound r
    → IsSound (record r { tenants = erase k r.tenants; devices = erase k r.devices })
erase-IsSound k r s j =
    rw (lookup-erase j k r.tenants, lookup-erase j k r.devices)
      (elim (Bool-cases (str_eq k j)) [ inl same ↦ rw same tt | inr other ↦ rw other (s j) ])
