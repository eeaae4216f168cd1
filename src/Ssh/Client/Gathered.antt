-- ===== src/Ssh/Client/Gathered.antt =====
-- pkg/sshstatus/ssh/client.go: what GetSystemInfo finds.
use topohub.Common.{
  ◌≡◌, refl, sym, ap, ◌∙◌, inl, inr, true, false, Option, none, some, [], ◌∷◌, arith, if◌then◌else◌,
  Bool-cases, is_some, Text, text_eq, text_eq_iff, trim_space, Map, lookup, is_distinct,
  lookup-insert,
}
use topohub.Ssh.Client.{commands, with_output, gather, get_system_info}

-- what a command prints, without the space around it
abbrev pub trimmed : Option Text → Option Text
trimmed none = none
trimmed (some out) = some (trim_space out)

abbrev or_old : Option Text → Option Text → Option Text
or_old none old = old
or_old (some v) old = some v

-- what the key's command prints, if it has one that succeeds, or else the text that was there
abbrev found : (Text → Option Text) → Option Text → Option Text → Option Text
found run none old = old
found run (some cmd) old = or_old (trimmed (run cmd)) old

-- a distinct list has its first key once
only_first :
    (k key cmd : Text) (rest : Map Text)
    → is_distinct ((key, cmd) ∷ rest) ≡ true
    → text_eq key k ≡ true
    → lookup k rest ≡ none
only_first k key cmd rest d e =
    ap (λ (t : Text). lookup t rest) (sym ((text_eq_iff key k).0 e))
    ∙ none_of (lookup key rest) (ground arith)
  where
    none_of : (o : Option Text) → is_some o ≡ false → o ≡ none
    none_of none h = refl
    none_of (some x) h = cc

lookup-with_output :
    (k key : Text) (o : Option Text) (info : Map Text)
    → lookup k (with_output key o info)
      ≡ (if text_eq key k then or_old (trimmed o) (lookup k info) else lookup k info)
unfolding with_output
lookup-with_output k key none info = ground arith
lookup-with_output k key (some out) info = lookup-insert key k (trim_space out) info

gather-lookup :
    (run : Text → Option Text) (k : Text) (cs info : Map Text)
    → is_distinct cs ≡ true
    → lookup k (gather run cs info).0 ≡ found run (lookup k cs) (lookup k info)
unfolding gather lookup
gather-lookup run k [] info d = refl
gather-lookup run k ((key, cmd) ∷ rest) info d =
    gather-lookup run k rest (with_output key (run cmd) info) (ground arith)
    ∙ ap (found run (lookup k rest)) (lookup-with_output k key (run cmd) info)
    ∙ here
  where
    here :
        found run
          (lookup k rest)
          (if text_eq key k then or_old (trimmed (run cmd)) (lookup k info) else lookup k info)
        ≡ found run (if text_eq key k then some cmd else lookup k rest) (lookup k info)
    here = elim (Bool-cases (text_eq key k)) [
      | inl z ↦ rw (z, only_first k key cmd rest d z) refl
      | inr z ↦ rw z refl
    ]

commands_distinct : is_distinct commands ≡ true
unfolding lookup text_eq
commands_distinct = refl

collapse :
    (run : Text → Option Text) (o : Option Text)
    → found run o none ≡ (elim o [ none ↦ none | some cmd ↦ trimmed (run cmd) ])
collapse run none = refl
collapse run (some cmd) = or_none (trimmed (run cmd))
  where
    or_none : (o : Option Text) → or_old o none ≡ o
    or_none none = refl
    or_none (some v) = refl

gather_empty :
    (run : Text → Option Text) (k : Text) (cs : Map Text)
    → is_distinct cs ≡ true
    → lookup k (gather run cs []).0
      ≡ (elim (lookup k cs) [ none ↦ none | some cmd ↦ trimmed (run cmd) ])
unfolding lookup
gather_empty run k cs d = gather-lookup run k cs [] d ∙ collapse run (lookup k cs)

-- For every key, GetSystemInfo has what the key's command prints, without the space around it, if the
-- command succeeds, and nothing for any other key.
pub get_system_info-lookup :
    (run : Text → Option Text) (k : Text)
    → lookup k (get_system_info run).0
      ≡ (elim (lookup k commands) [ none ↦ none | some cmd ↦ trimmed (run cmd) ])
unfolding get_system_info
get_system_info-lookup run k = gather_empty run k commands commands_distinct
