-- ===== src/Interleaved/Isolation.antt =====
-- Tenants stay apart, however the goroutines interleave.
use cloud_sdk_go.Base.{
  ◌≡◌, ◌∙◌, sym, ap, ◌⊎◌, inl, inr, ℕ, zero, suc, String, true, some, List, [], ◌∷◌, All, Dict,
  lookup, insert, erase, lookup-insert, lookup-erase, eq_iff, str_eq, Bool-cases, Option-cases,
  Result, ok, err, arith,
}
use cloud_sdk_go.App.Config.{Handlers}
use cloud_sdk_go.App.Tenants.{Tenant, Device, DeviceResponse, Reply, get_device_by_id}
use cloud_sdk_go.App.Messages.{ControlPayload, Effect, header}
use cloud_sdk_go.App.Registry.{IsKeyed, insert-IsKeyed, erase-IsKeyed}
use cloud_sdk_go.App.Links.{index_devices-IsKeyed, no_devices-IsKeyed}
use cloud_sdk_go.Interleaved.Store.{Address, Store, same_address, write, store_map}
use cloud_sdk_go.Interleaved.Threads.{
  Cloud, Thread, done, calls, control, control_known, control_mapped, activating, removing,
  fetching_removed, disconnecting, data_message, data_known, data_mapped, data_fetching,
  data_storing, unlinking, unlinking_devices, linking, link_fetching, link_storing, loading,
  load_fetching, load_calling, Stepped, control_step, step, step_at, interleave,
}

-- Tenants stand under their ids, a tenant's map was made for that tenant, and the devices of a map
-- belong to the tenant it was made for and stand under their ids.
pub record IsIsolated (s : Store) : Type 0 where
  pub tenants_keyed : (k : String) (t : Tenant) → lookup k s.tenants ≡ some t → t.id ≡ k
  pub maps_owned : (k : String) (a : Address) → lookup k s.maps ≡ some a → a.owner ≡ k
  pub memory_keyed : (a : Address) → IsKeyed a.owner (s.memory a)

-- What a suspended call knows of its tenant, its map and its device.
abbrev pub Knows : Thread → Type 0
Knows (control_known p t) = t.id ≡ p.tenant
Knows (control_mapped p t a) = (t.id ≡ p.tenant) × (a.owner ≡ p.tenant)
Knows (activating d a) = d.tenant.id ≡ a.owner
Knows (removing id d a) = d.tenant.id ≡ a.owner
Knows (data_known headers payload t) = t.id ≡ header "tenant" headers
Knows (data_mapped headers payload t a) =
    (t.id ≡ header "tenant" headers) × (a.owner ≡ header "tenant" headers)
Knows (data_fetching headers payload t a) =
    (t.id ≡ header "tenant" headers) × (a.owner ≡ header "tenant" headers)
Knows (data_storing headers payload d a) = d.tenant.id ≡ a.owner
Knows _ = Unit

abbrev pub IsApart : Stepped → Type 0
IsApart (s, th, effects) = IsIsolated s × Knows th

pub owner_of_same : (a b : Address) → same_address a b ≡ true → a.owner ≡ b.owner
owner_of_same a b e = ground (arith, eq_iff a.owner b.owner)

write-IsIsolated :
    (a : Address) (m : Dict Device) (s : Store)
    → IsKeyed a.owner m
    → IsIsolated s
    → IsIsolated (write a m s)
write-IsIsolated a m s h i = record {
  tenants_keyed = i.tenants_keyed;
  maps_owned = i.maps_owned;
  memory_keyed = λ b. elim (Bool-cases (same_address a b)) [
    | inl same ↦ rw (same, ← owner_of_same a b same) h
    | inr other ↦ rw other (i.memory_keyed b)
  ];
}

-- A binding of a dictionary that one insertion has changed: the new one, or one from before.
inserted-cases :
    {A : Type 0} (j k : String) (v w : A) (m : Dict A)
    → lookup k (insert j v m) ≡ some w
    → ((j ≡ k) × (v ≡ w)) ⊎ (lookup k m ≡ some w)
inserted-cases j k v w m e = elim (Bool-cases (str_eq j k)) [
  | inl same ↦ inl ((eq_iff j k).0 same, ground (arith, lookup-insert k j v m))
  | inr other ↦ inr (ground (arith, lookup-insert k j v m))
]

erased-before :
    {A : Type 0} (j k : String) (w : A) (m : Dict A)
    → lookup k (erase j m) ≡ some w
    → lookup k m ≡ some w
erased-before j k w m e = ground (arith, lookup-erase k j m)

tenant-IsIsolated :
    (t : Tenant) (s : Store)
    → IsIsolated s
    → IsIsolated (record s { tenants = insert t.id t s.tenants })
tenant-IsIsolated t s i = record {
  tenants_keyed = λ k u e. elim (inserted-cases t.id k t u s.tenants e) [
    | inl (p, q) ↦ cc (p, q)
    | inr old ↦ i.tenants_keyed k u old
  ];
  maps_owned = i.maps_owned;
  memory_keyed = i.memory_keyed;
}

no_tenant-IsIsolated :
    (j : String) (s : Store) → IsIsolated s → IsIsolated (record s { tenants = erase j s.tenants })
no_tenant-IsIsolated j s i = record {
  tenants_keyed = λ k u e. i.tenants_keyed k u (erased-before j k u s.tenants e);
  maps_owned = i.maps_owned;
  memory_keyed = i.memory_keyed;
}

no_map-IsIsolated :
    (j : String) (s : Store) → IsIsolated s → IsIsolated (record s { maps = erase j s.maps })
no_map-IsIsolated j s i = record {
  tenants_keyed = i.tenants_keyed;
  maps_owned = λ k a e. i.maps_owned k a (erased-before j k a s.maps e);
  memory_keyed = i.memory_keyed;
}

store_map-IsIsolated :
    (t : Tenant) (ds : List Device) (s : Store) → IsIsolated s → IsIsolated (store_map t ds s)
unfolding store_map
store_map-IsIsolated t ds s i =
    let a : Address = record { owner = t.id; number = s.next } in
    let w = write-IsIsolated a _ s (index_devices-IsKeyed t ds [] (no_devices-IsKeyed t.id)) i in
    record {
      tenants_keyed = i.tenants_keyed;
      maps_owned = λ k b e. elim (inserted-cases t.id k a b s.maps e) [
        | inl (p, q) ↦ sym (ap (λ x. x.owner) q) ∙ p
        | inr old ↦ i.maps_owned k b old
      ];
      memory_keyed = w.memory_keyed;
    }

abbrev pub OfTenant : String → Result Device → Type 0
OfTenant k (err e) = Unit
OfTenant k (ok d) = d.tenant.id ≡ k

-- A device that is fetched belongs to the tenant that asks for it.
pub fetched-OfTenant :
    (t : Tenant) (reply : Reply DeviceResponse) → OfTenant t.id (get_device_by_id t reply)
unfolding get_device_by_id
fetched-OfTenant t reply = ground arith

module _ (handlers : Handlers) (cloud : Cloud) (s : Store) (i : IsIsolated s) where
  control_step-IsApart :
      (p : ControlPayload) (t : Tenant) (a : Address)
      → t.id ≡ p.tenant
      → a.owner ≡ p.tenant
      → IsApart (control_step handlers cloud p t a s)
  unfolding control_step
  control_step-IsApart p t a x y = ground (
    arith,
    i,
    no_tenant-IsIsolated p.tenant s i,
    fetched-OfTenant t (cloud.device t p.device),
    i.memory_keyed a p.device,
  )

  pub step-IsApart : (th : Thread) → Knows th → IsApart (step handlers cloud th s)
  unfolding step
  step-IsApart done h = (i, tt)
  step-IsApart (calls []) h = (i, tt)
  step-IsApart (calls (e ∷ es)) h = (i, tt)
  step-IsApart (control p) h = elim (Option-cases (lookup p.tenant s.tenants)) [
    | inl e ↦ rw (e, step) (i, tt)
    | inr (t, e) ↦ rw (e, step) (i, i.tenants_keyed p.tenant t e)
  ]
  step-IsApart (control_known p t) h = elim (Option-cases (lookup p.tenant s.maps)) [
    | inl e ↦ rw (e, step) (i, tt)
    | inr (a, e) ↦ rw (e, step) (i, (h, i.maps_owned p.tenant a e))
  ]
  step-IsApart (control_mapped p t a) h = control_step-IsApart p t a h.0 h.1
  step-IsApart (activating d a) h =
      (write-IsIsolated a _ s (insert-IsKeyed a.owner d (s.memory a) h (i.memory_keyed a)) i, tt)
  step-IsApart (removing id d a) h =
      (write-IsIsolated a _ s (erase-IsKeyed a.owner id (s.memory a) (i.memory_keyed a)) i, tt)
  step-IsApart (fetching_removed p t) h = ground (arith, i)
  step-IsApart (disconnecting p t) h = (no_map-IsIsolated p.tenant s i, tt)
  step-IsApart (data_message headers payload) h =
      elim (Option-cases (lookup (header "tenant" headers) s.tenants)) [
        | inl e ↦ ground (arith, i, e)
        | inr (t, e) ↦ ground (arith, i, e, i.tenants_keyed (header "tenant" headers) t e)
      ]
  step-IsApart (data_known headers payload t) h =
      elim (Option-cases (lookup (header "tenant" headers) s.maps)) [
        | inl e ↦ rw (e, step) (i, tt)
        | inr (a, e) ↦ rw (e, step) (i, (h, i.maps_owned (header "tenant" headers) a e))
      ]
  step-IsApart (data_mapped headers payload t a) h = ground (arith, i, h)
  step-IsApart (data_fetching headers payload t a) h =
      ground (arith, i, h, fetched-OfTenant t (cloud.device t (header "device" headers)))
  step-IsApart (data_storing headers payload d a) h =
      (write-IsIsolated a _ s (insert-IsKeyed a.owner d (s.memory a) h (i.memory_keyed a)) i, tt)
  step-IsApart (unlinking t) h = (no_tenant-IsIsolated t.id s i, tt)
  step-IsApart (unlinking_devices t) h = (no_map-IsIsolated t.id s i, tt)
  step-IsApart (linking t) h = (tenant-IsIsolated t s i, tt)
  step-IsApart (link_fetching t) h = ground (arith, i)
  step-IsApart (link_storing t ds) h =
      let j = store_map-IsIsolated t ds s i in
      (
        record {
          tenants_keyed = j.tenants_keyed;
          maps_owned = j.maps_owned;
          memory_keyed = j.memory_keyed;
        },
        tt,
      )
  step-IsApart (loading []) h = (i, tt)
  step-IsApart (loading (key ∷ keys)) h = ground (arith, i)
  step-IsApart (load_fetching t keys) h = ground (arith, i)
  step-IsApart (load_calling t ds [] keys) h = (store_map-IsIsolated t ds s i, tt)
  step-IsApart (load_calling t ds (d ∷ left) keys) h = (i, tt)

abbrev pub AllApart : Store × List Thread × List Effect → Type 0
AllApart (s, pool, effects) = IsIsolated s × All Knows pool

pub step_at-AllApart :
    (handlers : Handlers) (cloud : Cloud) (i : ℕ) (pool : List Thread) (s : Store)
    → IsIsolated s
    → All Knows pool
    → AllApart (step_at handlers cloud i pool s)
unfolding step_at
step_at-AllApart handlers cloud i [] s k h = (k, tt)
step_at-AllApart handlers cloud zero (th ∷ pool) s k h =
    let (k', h') = step-IsApart handlers cloud s k th h.0 in (k', (h', h.1))
step_at-AllApart handlers cloud (suc i) (th ∷ pool) s k h =
    let (k', h') = step_at-AllApart handlers cloud i pool s k h.1 in (k', (h.0, h'))

-- However the goroutines that handle messages, link, unlink and load tenants interleave, and
-- whatever the cloud answers at each step, tenants stay apart: tenants stand under their ids, a
-- tenant's device map is one that was made for that tenant, and every device in it belongs to that
-- tenant and stands under its id, given that this holds at the start of what the store and the
-- suspended calls hold.
pub interleave-AllApart :
    (handlers : Handlers) (schedule : List (ℕ × Cloud)) (pool : List Thread) (s : Store)
    → IsIsolated s
    → All Knows pool
    → AllApart (interleave handlers schedule pool s)
unfolding interleave
interleave-AllApart handlers [] pool s k h = (k, h)
interleave-AllApart handlers ((i, cloud) ∷ schedule) pool s k h =
    let (k', h') = step_at-AllApart handlers cloud i pool s k h in
    let (s', pool', effects) = step_at handlers cloud i pool s in
    interleave-AllApart handlers schedule pool' s' k' h'
