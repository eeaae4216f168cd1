-- ===== src/Redfish/Status/Same.antt =====
-- compareRedfishStatus against the fields that it reads, with the two infos as maps.
use topohub.Common.{
  ◌≡◌, refl, sym, ◌∙◌, ◌↔◌, inl, inr, Bool, true, false, ◌&&◌, none, [], ◌∷◌, arith, Option-cases,
  bool_eq_iff, Text, text_eq_iff, Map, lookup, is_distinct, int_eq_iff,
}
use topohub.Api.{BasicInfo, RedfishStatusStatus}
use topohub.Common.Included.{
  is_included, SameEntries, Included, is_included-lookup, Included-is_included, length_le,
  is_some_key,
}
use topohub.Redfish.Status.{has_keys, same_basic, same_info, compare_redfish_status}

-- the fields of two Basics that compareRedfishStatus reads are equal
abbrev pub SameBasic : BasicInfo → BasicInfo → Type 0
SameBasic a b =
    (a.type ≡ b.type)
    × (a.ip_addr ≡ b.ip_addr)
    × (a.secret_name ≡ b.secret_name)
    × (a.secret_namespace ≡ b.secret_namespace)
    × (a.https ≡ b.https)
    × (a.port ≡ b.port)
    × (a.cluster_name ≡ b.cluster_name)

is_included-has_keys : (a b : Map Text) → is_included a b ≡ true → has_keys a b ≡ true
unfolding is_included has_keys
is_included-has_keys [] b h = refl
is_included-has_keys ((j, w) ∷ a) b h = ground (arith, is_included-has_keys a b)

has_keys-lookup :
    (b a : Map Text) (k : Text) → has_keys b a ≡ true → lookup k a ≡ none → lookup k b ≡ none
unfolding has_keys lookup
has_keys-lookup [] a k h e = refl
has_keys-lookup ((j, w) ∷ b) a k h e =
    ground (arith, text_eq_iff j k, has_keys-lookup b a k, is_some_key j k a)

pub same_info-lookup : (a b : Map Text) → same_info a b ≡ true → SameEntries a b
unfolding same_info
same_info-lookup a b h k = elim (Option-cases (lookup k a)) [
  | inl z ↦ rw (z, has_keys-lookup b a k (ground arith) z) refl
  | inr (v, z) ↦ rw (z, is_included-lookup a b k (ground arith) z) refl
]

same_info-SameEntries :
    (a b : Map Text)
    → is_distinct a ≡ true
    → is_distinct b ≡ true
    → (same_info a b ≡ true) ↔ SameEntries a b
unfolding same_info
same_info-SameEntries a b d d' = (
  same_info-lookup a b,
  λ h.
      let inside : Included a b = λ k v e. sym (h k) ∙ e in
      let around : Included b a = λ k v e. h k ∙ e in
      let e = Included-is_included a b d inside in
      ground (
        arith,
        length_le a b d d' inside,
        length_le b a d' d around,
        e,
        is_included-has_keys b a (Included-is_included b a d' around),
      ),
)

same_basic-fields : (a b : BasicInfo) → (same_basic a b ≡ true) ↔ SameBasic a b
unfolding same_basic
same_basic-fields a b = ground (
  arith,
  text_eq_iff a.type b.type,
  text_eq_iff a.ip_addr b.ip_addr,
  text_eq_iff a.secret_name b.secret_name,
  text_eq_iff a.secret_namespace b.secret_namespace,
  bool_eq_iff a.https b.https,
  int_eq_iff a.port b.port,
  text_eq_iff a.cluster_name b.cluster_name,
)

all_four :
    (p q r s : Bool)
    → ((p && (q && (r && s))) ≡ true) ↔ ((p ≡ true) × (q ≡ true) × (r ≡ true) × (s ≡ true))
all_four true q r s = ground arith
all_four false q r s = ground arith

-- Two statuses whose infos have one entry for each key, as Go maps do, compare as equal exactly if
-- they agree in Healthy, LastUpdateTime, the seven fields of Basic from the type to the cluster's
-- name, and, as maps, in Info. The log and the other fields of Basic are not looked at.
pub compare_redfish_status-fields :
    (a b : RedfishStatusStatus)
    → is_distinct a.info ≡ true
    → is_distinct b.info ≡ true
    → (compare_redfish_status a b ≡ true) ↔ (
        (a.healthy ≡ b.healthy)
        × (a.last_update_time ≡ b.last_update_time)
        × SameBasic a.basic b.basic
        × SameEntries a.info b.info)
unfolding compare_redfish_status
compare_redfish_status-fields a b d d' =
    let basic = same_basic-fields a.basic b.basic in
    let info = same_info-SameEntries a.info b.info d d' in
    let h = bool_eq_iff a.healthy b.healthy in
    let t = text_eq_iff a.last_update_time b.last_update_time in
    let parts = all_four _ _ (same_basic a.basic b.basic) (same_info a.info b.info) in
    (
      λ e. let (p, q, r, i) = parts.0 e in (h.0 p, t.0 q, basic.0 r, info.0 i),
      λ (p, q, r, i). parts.1 (h.1 p, t.1 q, basic.1 r, info.1 i),
    )
