-- ===== src/Interleaved/Drain.antt =====
-- What is still called back about a tenant after it was removed.
use cloud_sdk_go.Base.{
  ◌≡◌, ◌∙◌, sym, ap, inl, inr, ℕ, zero, suc, ◌+◌, ◌≤◌, String, false, none, some, List, [], ◌∷◌,
  ◌++◌, All, length, lookup, erase, lookup-insert, lookup-erase, eq_iff, str_eq, Bool-cases,
  Option-cases, arith, if◌then◌else◌,
}
use cloud_sdk_go.App.Config.{Handlers}
use cloud_sdk_go.App.Tenants.{Tenant}
use cloud_sdk_go.App.Messages.{ControlPayload, Effect, header, deliver}
use cloud_sdk_go.App.Registry.{tenant_of}
use cloud_sdk_go.Interleaved.Store.{Address, Store, store_map}
use cloud_sdk_go.Interleaved.Threads.{
  Cloud, Thread, done, calls, control, control_known, control_mapped, activating, removing,
  fetching_removed, disconnecting, data_message, data_known, data_mapped, data_fetching,
  data_storing, unlinking, unlinking_devices, linking, link_fetching, link_storing, loading,
  load_fetching, load_calling, Stepped, control_step, step, step_at, interleave,
}
use cloud_sdk_go.Interleaved.Isolation.{IsIsolated, Knows, fetched-OfTenant, step_at-AllApart}

-- 1 for the tenant in question, and 0 for another.
abbrev pub tally : String → String → ℕ
tally k j = if str_eq j k then 1 else 0

-- The callbacks about a tenant.
abbrev pub count_for : String → List Effect → ℕ
count_for k [] = 0
count_for k (e ∷ es) = tally k (tenant_of e) + count_for k es

-- The callbacks about a tenant that a suspended call may still make, when the tenant is not linked.
abbrev pub pending : String → Thread → ℕ
pending k (calls es) = count_for k es
pending k (control_known p t) = tally k t.id
pending k (control_mapped p t a) = tally k t.id
pending k (activating d a) = tally k d.tenant.id
pending k (removing id d a) = tally k d.tenant.id
pending k (fetching_removed p t) = tally k t.id
pending k (disconnecting p t) = tally k t.id
pending k (data_known headers payload t) = tally k t.id
pending k (data_mapped headers payload t a) = tally k t.id
pending k (data_fetching headers payload t a) = tally k t.id
pending k (data_storing headers payload d a) = tally k d.tenant.id
pending k (load_calling t ds left keys) = if str_eq t.id k then length left else 0
pending k _ = 0

abbrev pub pending_all : String → List Thread → ℕ
pending_all k [] = 0
pending_all k (th ∷ pool) = pending k th + pending_all k pool

-- The call does not put the tenant back, and is not about to receive the list of its devices.
abbrev pub Spares : String → Thread → Type 0
Spares k (linking t) = str_eq t.id k ≡ false
Spares k (load_fetching t keys) = str_eq t.id k ≡ false
Spares k _ = Unit

-- A step keeps the tenant away, and its callbacks are taken from those that were pending.
abbrev Drains : String → ℕ → Stepped → Type 0
Drains k budget (s, th, effects) =
    (lookup k s.tenants ≡ none) × Spares k th × (count_for k effects + pending k th ≤ budget)

-- A tenant that is linked is another one.
other_tenant :
    (k j : String) (t : Tenant) (s : Store)
    → IsIsolated s
    → lookup k s.tenants ≡ none
    → lookup j s.tenants ≡ some t
    → str_eq t.id k ≡ false
other_tenant k j t s i gone e = elim (Bool-cases (str_eq t.id k)) [
  | inl same ↦
      let p = sym (i.tenants_keyed j t e) ∙ (eq_iff t.id k).0 same in
      absurd (cc (e, gone, ap (λ x. lookup x s.tenants) p))
  | inr other ↦ other
]

erased-gone :
    (k j : String) (s : Store) → lookup k s.tenants ≡ none → lookup k (erase j s.tenants) ≡ none
erased-gone k j s gone = ground (arith, lookup-erase k j s.tenants)

module _ (handlers : Handlers) (cloud : Cloud) (k : String) (s : Store) (i : IsIsolated s)
    (gone : lookup k s.tenants ≡ none) where
  control_step-Drains :
      (p : ControlPayload) (t : Tenant) (a : Address)
      → t.id ≡ p.tenant
      → a.owner ≡ p.tenant
      → Drains k (tally k t.id) (control_step handlers cloud p t a s)
  unfolding control_step
  control_step-Drains p t a x y = ground (
    arith,
    gone,
    x,
    y,
    erased-gone k p.tenant s gone,
    fetched-OfTenant t (cloud.device t p.device),
    i.memory_keyed a p.device,
  )

  step-Drains :
      (th : Thread) → Knows th → Spares k th → Drains k (pending k th) (step handlers cloud th s)
  unfolding step deliver store_map
  step-Drains done h q = ground (arith, gone)
  step-Drains (calls []) h q = ground (arith, gone)
  step-Drains (calls (e ∷ es)) h q = (gone, tt, omega arith)
  step-Drains (control p) h q = elim (Option-cases (lookup p.tenant s.tenants)) [
    | inl e ↦ rw (e, step) (gone, tt, omega arith)
    | inr (t, e) ↦ rw (e, step) (gone, tt, ground (arith, other_tenant k p.tenant t s i gone e))
  ]
  step-Drains (control_known p t) h q = ground (arith, gone)
  step-Drains (control_mapped p t a) h q = control_step-Drains p t a h.0 h.1
  step-Drains (activating d a) h q = ground (arith, gone)
  step-Drains (removing id d a) h q = ground (arith, gone)
  step-Drains (fetching_removed p t) h q =
      ground (arith, gone, fetched-OfTenant t (cloud.device t p.device))
  step-Drains (disconnecting p t) h q = ground (arith, gone)
  step-Drains (data_message headers payload) h q =
      elim (Option-cases (lookup (header "tenant" headers) s.tenants)) [
        | inl e ↦ ground (arith, gone, e)
        | inr (t, e) ↦
            ground (arith, gone, e, other_tenant k (header "tenant" headers) t s i gone e)
      ]
  step-Drains (data_known headers payload t) h q = ground (arith, gone)
  step-Drains (data_mapped headers payload t a) h q =
      ground (arith, gone, h, i.memory_keyed a (header "device" headers))
  step-Drains (data_fetching headers payload t a) h q =
      ground (arith, gone, h, fetched-OfTenant t (cloud.device t (header "device" headers)))
  step-Drains (data_storing headers payload d a) h q = ground (arith, gone)
  step-Drains (unlinking t) h q = (erased-gone k t.id s gone, tt, omega arith)
  step-Drains (unlinking_devices t) h q = ground (arith, gone)
  step-Drains (linking t) h q =
      (ground (arith, gone, lookup-insert k t.id t s.tenants), tt, omega arith)
  step-Drains (link_fetching t) h q = ground (arith, gone)
  step-Drains (link_storing t ds) h q = (gone, tt, omega arith)
  step-Drains (loading []) h q = ground (arith, gone)
  step-Drains (loading (key ∷ keys)) h q = elim (Option-cases (lookup key s.tenants)) [
    | inl e ↦ rw (e, step) (gone, tt, omega arith)
    | inr (t, e) ↦ rw (e, step) (gone, other_tenant k key t s i gone e, omega arith)
  ]
  step-Drains (load_fetching t keys) h q = ground (arith, gone)
  step-Drains (load_calling t ds [] keys) h q = (gone, tt, omega arith)
  step-Drains (load_calling t ds (d ∷ left) keys) h q = (gone, tt, ground arith)

-- The same for all goroutines.
abbrev DrainsAll : String → ℕ → Store × List Thread × List Effect → Type 0
DrainsAll k budget (s, pool, effects) =
    (lookup k s.tenants ≡ none)
    × All (Spares k) pool
    × (count_for k effects + pending_all k pool ≤ budget)

step_at-DrainsAll :
    (handlers : Handlers) (cloud : Cloud) (k : String) (i : ℕ) (pool : List Thread) (s : Store)
    → IsIsolated s
    → lookup k s.tenants ≡ none
    → All Knows pool
    → All (Spares k) pool
    → DrainsAll k (pending_all k pool) (step_at handlers cloud i pool s)
unfolding step_at
step_at-DrainsAll handlers cloud k i [] s j gone h q = (gone, tt, omega arith)
step_at-DrainsAll handlers cloud k zero (th ∷ pool) s j gone h q =
    let (gone', q', le) = step-Drains handlers cloud k s j gone th h.0 q.0 in
    (gone', (q', q.1), omega (arith, le))
step_at-DrainsAll handlers cloud k (suc i) (th ∷ pool) s j gone h q =
    let (gone', q', le) = step_at-DrainsAll handlers cloud k i pool s j gone h.1 q.1 in
    (gone', (q.0, q'), omega (arith, le))

count_for-append :
    (k : String) (es more : List Effect)
    → count_for k (es ++ more) ≡ count_for k es + count_for k more
count_for-append k [] more = omega arith
count_for-append k (e ∷ es) more = omega (arith, count_for-append k es more)

interleave-DrainsAll :
    (handlers : Handlers) (k : String) (schedule : List (ℕ × Cloud)) (pool : List Thread)
    (s : Store)
    → IsIsolated s
    → lookup k s.tenants ≡ none
    → All Knows pool
    → All (Spares k) pool
    → DrainsAll k (pending_all k pool) (interleave handlers schedule pool s)
unfolding interleave
interleave-DrainsAll handlers k [] pool s j gone h q = (gone, q, omega arith)
interleave-DrainsAll handlers k ((i, cloud) ∷ schedule) pool s j gone h q =
    let (gone', q', le) = step_at-DrainsAll handlers cloud k i pool s j gone h q in
    let (j', h') = step_at-AllApart handlers cloud i pool s j h in
    let (s', pool', effects) = step_at handlers cloud i pool s in
    let (gone'', q'', le') = interleave-DrainsAll handlers k schedule pool' s' j' gone' h' q' in
    let more = (interleave handlers schedule pool' s').2 in
    (gone'', q'', omega (arith, le, le', count_for-append k effects more))

-- After a tenant was removed, the callbacks about it that are still made are at most those that
-- were pending: one for each call that had loaded the tenant before, and one for each device that
-- `loadTenantsDevices` had still to report for it. Messages that are handled from then on make none.
-- This holds in every interleaving, whatever the cloud answers, given that tenants are apart, that
-- no call is about to link the tenant again, and none waits for the list of its devices.
pub removed_tenant_drains :
    (handlers : Handlers) (k : String) (schedule : List (ℕ × Cloud)) (pool : List Thread)
    (s : Store)
    → IsIsolated s
    → lookup k s.tenants ≡ none
    → All Knows pool
    → All (Spares k) pool
    → count_for k (interleave handlers schedule pool s).2 ≤ pending_all k pool
removed_tenant_drains handlers k schedule pool s j gone h q =
    omega (arith, (interleave-DrainsAll handlers k schedule pool s j gone h q).2)
