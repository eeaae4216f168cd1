-- ===== src/Webhook/StatusHook/Labels.antt =====
-- pkg/webhook/redfishstatus/webhook.go and pkg/webhook/sshstatus/webhook.go: which labels change.
use topohub.Common.{
  ◌≡◌, refl, inl, inr, true, false, [], ◌∷◌, arith, if◌then◌else◌, Option-cases, Text, text_eq,
  text_eq_iff, is_empty, lookup, lookup-insert,
}
use topohub.Api.{ObjectMeta, set_label, label_ip_addr, label_client_mode, label_cluster_name}
use topohub.Endpoint.{SshStatus, host_type_ssh}
use topohub.Webhook.StatusHook.{label_text, fill_label, make_labels, default_ssh}

label_text-set_label :
    (k j v : Text) (m : ObjectMeta)
    → label_text j (set_label k v m) ≡ (if text_eq k j then v else label_text j m)
unfolding label_text lookup
label_text-set_label k j v m = elim (Option-cases (m.labels)) [
  | inl z ↦ rw z (ground (arith, lookup-insert k j v []))
  | inr (l, z) ↦ rw z (ground (arith, lookup-insert k j v l))
]

label_text-make_labels : (k : Text) (m : ObjectMeta) → label_text k (make_labels m) ≡ label_text k m
unfolding label_text make_labels lookup
label_text-make_labels k m = elim (Option-cases (m.labels)) [
  | inl z ↦ rw z refl
  | inr (l, z) ↦ rw z refl
]

-- v, where there is no text
abbrev pub or_text : Text → Text → Text
or_text old v = if is_empty old then v else old

empty_text : (s : Text) → is_empty s ≡ true → s ≡ []
empty_text [] h = refl
empty_text (c ∷ s) h = cc

label_text-fill_label :
    (k j v : Text) (m : ObjectMeta)
    → label_text j (fill_label k v m)
      ≡ (if text_eq k j then or_text (label_text j m) v else label_text j m)
unfolding fill_label
label_text-fill_label k j v m = ground (
  arith,
  label_text-set_label k j v m,
  text_eq_iff k j,
  empty_text v,
  empty_text (label_text j m),
)

-- what Default proposes for a label of an SSHStatus
abbrev pub proposed : Text → SshStatus → Text
proposed k s =
    if text_eq label_ip_addr k
    then s.status.basic.ip_addr
    else if text_eq label_client_mode k
    then host_type_ssh
    else if text_eq label_cluster_name k
    then s.status.basic.cluster_name
    else []

keys_apart :
    (text_eq label_client_mode label_ip_addr ≡ false)
    × (text_eq label_cluster_name label_ip_addr ≡ false)
    × (text_eq label_cluster_name label_client_mode ≡ false)
unfolding text_eq
keys_apart = (refl, refl, refl)

-- the three fills, on the text of one label
three_fills :
    (k a b c old : Text)
    → (let old1 = if text_eq label_ip_addr k then or_text old a else old in
        let old2 = if text_eq label_client_mode k then or_text old1 b else old1 in
        if text_eq label_cluster_name k then or_text old2 c else old2)
      ≡ or_text old (
          if text_eq label_ip_addr k
          then a
          else if text_eq label_client_mode k
          then b
          else if text_eq label_cluster_name k
          then c
          else [])
three_fills k a b c old = ground (
  arith,
  keys_apart,
  text_eq_iff label_ip_addr k,
  text_eq_iff label_client_mode k,
  text_eq_iff label_cluster_name k,
  empty_text old,
)

-- Default never changes a label of an SSHStatus that is there. Where a label is missing or empty, it
-- becomes the address, the mode or the cluster's name for the three keys of these, and stays for any
-- other key.
pub default_ssh-label :
    (k : Text) (s : SshStatus)
    → label_text k (default_ssh s).meta ≡ or_text (label_text k s.meta) (proposed k s)
unfolding default_ssh
default_ssh-label k s =
    rw
      (
        label_text-fill_label label_cluster_name k s.status.basic.cluster_name (
            fill_label label_client_mode host_type_ssh
              (fill_label label_ip_addr s.status.basic.ip_addr (make_labels s.meta))),
        label_text-fill_label label_client_mode k host_type_ssh
            (fill_label label_ip_addr s.status.basic.ip_addr (make_labels s.meta)),
        label_text-fill_label label_ip_addr k s.status.basic.ip_addr (make_labels s.meta),
        label_text-make_labels k s.meta,
      )
      (three_fills k s.status.basic.ip_addr host_type_ssh s.status.basic.cluster_name
        (label_text k s.meta))
