-- ===== src/Logs/Counts.antt =====
-- GenerateEvents against a description of the log: what it counts, which entries it announces.
use mathlib.Core.List.{append-nil, append_assoc}
use topohub.Common.{
  ◌+◌, ◌≡◌, refl, Bool, true, false, not, List, [], ◌∷◌, ◌++◌, map, arith, if◌then◌else◌, length,
  all, Text, text_eq, is_empty,
}
use topohub.Logs.{
  BmcLog, Line, Event, Summary, bmc_line, note_warning, note_new, scan, blank, generate_events,
}

-- the entries whose time is not `last`
abbrev pub fresh : Text → List Line → List Line
fresh last [] = []
fresh last (l ∷ ls) = let rest = fresh last ls in if text_eq l.time last then rest else l ∷ rest

abbrev pub warnings : List Line → List Line
warnings [] = []
warnings (l ∷ ls) = let rest = warnings ls in if l.is_warning then l ∷ rest else rest

abbrev pub event_of : Line → Event
event_of l = record { is_warning = l.is_warning; msg = l.msg }

-- a field of the first line, "" where there is none
abbrev pub first : (Line → Text) → List Line → Text
first f [] = []
first f (l ∷ ls) = f l

-- a field of the first line, if its time is not `last`
abbrev pub newest : Text → (Line → Text) → List Line → Text
newest last f [] = []
newest last f (l ∷ ls) = if text_eq l.time last then [] else f l

abbrev pub report : Text → List Line → Summary
report last ls = record {
  lastest_time = newest last (λ l. l.time) ls;
  lastest_msg = newest last (λ l. l.msg) ls;
  lastest_warning_time = first (λ l. l.time) (warnings ls);
  lastest_warning_msg = first (λ l. l.msg) (warnings ls);
  total_msg_count = length ls;
  warning_msg_count = length (warnings ls);
  new_log_account = length (fresh last ls);
  events = map event_of (fresh last ls);
}

-- what the loop adds to a summary after the first entry
added : Text → List Line → Summary → Summary
added last ls s = record s {
  lastest_warning_time =
      if is_empty s.lastest_warning_msg
      then (elim (warnings ls) [ [] ↦ s.lastest_warning_time | l ∷ _ ↦ l.time ])
      else s.lastest_warning_time;
  lastest_warning_msg =
      if is_empty s.lastest_warning_msg
      then first (λ l. l.msg) (warnings ls)
      else s.lastest_warning_msg;
  warning_msg_count = s.warning_msg_count + length (warnings ls);
  new_log_account = s.new_log_account + length (fresh last ls);
  events = s.events ++ map event_of (fresh last ls);
}

abbrev has_msg : Line → Bool
has_msg l = not (is_empty l.msg)

empty_or : (m : Text) → (if is_empty m then [] else m) ≡ m
empty_or [] = refl
empty_or (c ∷ m) = refl

scan-added :
    (last : Text) (ls : List Line) (s : Summary)
    → all has_msg ls ≡ true
    → scan last false ls s ≡ added last ls s
unfolding scan added note_warning note_new
scan-added last [] s h = ground (arith, empty_or s.lastest_warning_msg, append-nil s.events)
scan-added last (l ∷ ls) s h = ground (
  arith,
  scan-added last ls (note_new last false l (note_warning l s)),
  append_assoc s.events (event_of l ∷ []) (map event_of (fresh last ls)),
)

generate_events-report :
    (last : Text) (ls : List Line)
    → all has_msg ls ≡ true
    → generate_events last ls ≡ report last ls
unfolding generate_events scan added note_warning note_new
generate_events-report last [] h = refl
generate_events-report last (l ∷ ls) h =
    ground
      (arith, scan-added last ls (note_new last true l (note_warning l (blank (length (l ∷ ls))))))

bmc_has_msg : (es : List BmcLog) → all has_msg (map bmc_line es) ≡ true
unfolding bmc_line
bmc_has_msg [] = refl
bmc_has_msg (e ∷ es) = bmc_has_msg es

-- GenerateEvents of the BMC's log counts its entries, its warnings and the entries whose time is not
-- the one that was noted last, sends one event for each of the latter, in order, and returns the
-- first entry, if it is one of these, and the first warning, whether it is one or not.
pub generate_events-bmc :
    (last : Text) (es : List BmcLog)
    → generate_events last (map bmc_line es) ≡ report last (map bmc_line es)
generate_events-bmc last es = generate_events-report last (map bmc_line es) (bmc_has_msg es)
