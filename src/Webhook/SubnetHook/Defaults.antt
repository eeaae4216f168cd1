-- ===== src/Webhook/SubnetHook/Defaults.antt =====
-- pkg/webhook/subnet/webhook.go: Default, applied again and its labels.
use topohub.Common.{
  ◌≡◌, refl, ap, ap₂, subst, true, Option, none, some, [], ◌∷◌, is_empty, Text, text_eq,
  if◌then◌else◌, Map, lookup, lookup-insert, insert-insert, arith, ℤ, pos, inl, inr, is_some,
  Option-cases, some-injective,
}
use topohub.Api.{
  Subnet, ObjectMeta, FeatureSpec, InterfaceSpec, IPv4SubnetSpec, set_label, text_of,
  label_cluster_name,
}
use topohub.Webhook.SubnetHook.{default}

-- Labels[k]
abbrev pub label : Text → ObjectMeta → Option Text
label k m = elim (m.labels) [ none ↦ none | some l ↦ lookup k l ]

-- the cluster of the synchronised RedfishStatus objects
abbrev pub cluster : Subnet → Option Text
cluster s = elim (s.spec.feature) [
  | none ↦ none
  | some f ↦ some (text_of f.sync_redfishstatus.default_cluster_name)
]

pub label-set_label :
    (k j v : Text) (m : ObjectMeta)
    → label j (set_label k v m) ≡ (if text_eq k j then some v else label j m)
unfolding lookup
label-set_label k j v m = elim (Option-cases (m.labels)) [
  | inl z ↦ rw z (lookup-insert k j v [])
  | inr (l, z) ↦ rw z (lookup-insert k j v l)
]

set_label_idem : (k v : Text) (m : ObjectMeta) → set_label k v (set_label k v m) ≡ set_label k v m
set_label_idem k v m =
    ap (λ (l : Map Text). record m { labels = some l })
      (insert-insert k v (elim (m.labels) [ none ↦ [] | some l ↦ l ]))

interface_idem :
    (a i : Text) → (let j = if is_empty i then a else i in (if is_empty j then a else j) ≡ j)
interface_idem a [] = ground arith
interface_idem a (x ∷ i) = refl

abbrev or_zero : Option ℤ → Option ℤ
or_zero v = elim v [ none ↦ some (pos 0) | some n ↦ some n ]

or_zero_idem : (v : Option ℤ) → (or_zero (or_zero v) ≡ or_zero v) × (is_some (or_zero v) ≡ true)
or_zero_idem none = (refl, refl)
or_zero_idem (some n) = (refl, refl)

-- t is a Subnet that Default does not change, with a VLAN id, with the label of the cluster of s and
-- with the other labels of s
unfoldable pub IsFilled : Text → Subnet → Subnet → Type 0
IsFilled a s t =
    (default a t ≡ some t)
    × (is_some t.spec.interface_spec.vlan_id ≡ true)
    × ((k : Text)
        → label k t.meta ≡ (if text_eq label_cluster_name k then cluster s else label k s.meta))

abbrev subnet_with : ObjectMeta → IPv4SubnetSpec → InterfaceSpec → Option FeatureSpec → Subnet
subnet_with m v4 i f = record {
  meta = m;
  spec = record { ipv4_subnet = v4; interface_spec = i; feature = f };
}

filled :
    (a : Text) (m : ObjectMeta) (v4 : IPv4SubnetSpec) (i : InterfaceSpec) (f : Option FeatureSpec)
    (t : Subnet)
    → default a (subnet_with m v4 i f) ≡ some t
    → IsFilled a (subnet_with m v4 i f) t
unfolding default IsFilled
filled a m v4 i none t h = ground arith
filled a m v4 i (some f) t h =
    let c = text_of f.sync_redfishstatus.default_cluster_name in
    let j =
      ap₂ (λ (n : Text) (v : Option ℤ). record { interface = n; vlan_id = v; ipv4 = i.ipv4 })
        (interface_idem a i.interface) (or_zero_idem i.vlan_id).0 in
    subst (IsFilled a (subnet_with m v4 i (some f))) (some-injective h) (
      ap₂ (λ (n : ObjectMeta) (k : InterfaceSpec). some (subnet_with n v4 k (some f)))
          (set_label_idem label_cluster_name c m) j,
      (or_zero_idem i.vlan_id).1,
      λ k. label-set_label label_cluster_name k c m,
    )

-- What Default makes of a Subnet is complete: to apply it again changes nothing. It has a VLAN id and
-- the label of the cluster of its feature, empty where the feature names none; every other label is
-- the Subnet's own.
pub default-IsFilled : (a : Text) (s t : Subnet) → default a s ≡ some t → IsFilled a s t
default-IsFilled a s t h =
    filled a s.meta s.spec.ipv4_subnet s.spec.interface_spec s.spec.feature t h
