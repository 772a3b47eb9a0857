-- ===== src/Tool/CommandLine/Printed.antt =====
-- The words of a command, as the usage text shows them, and what parse_command gives back of them
-- (crates/tool/src/main.rs).
use mathlib.Core.List.{append_assoc, append-nil}
use unified_correctness_orie.Base.{
  ◌<◌, ◌≡◌, refl, sym, ap, ◌∙◌, false, Option, none, some, List, [], ◌∷◌, ◌++◌, arith, All, ok,
  ◌==◌, nat_eq, list_eq, list_beq, length, ◌≤◌, le→leb, u128_mod,
}
use unified_correctness_orie.Base.Text.{Text, codes}
use unified_correctness_orie.Runtime.Event.{Uuid}
use unified_correctness_orie.Tool.CommandLine.{
  Command, report_flag, split_flag, split_report_json_flag, select_command, parse_command, summary,
  lineage_summary, verify, lineage_path, cluster_verify,
}

-- A word other than the flag.
abbrev pub IsWord : Text → Type 0
IsWord arg = (arg == report_flag) ≡ false

abbrev report_words : Option Text → List Text
report_words none = []
report_words (some path) = report_flag ∷ path ∷ []

split_flag-word :
    (out : List Text) (w : Text) (rest : List Text) (report : Option Text)
    → IsWord w
    → split_flag out report (w ∷ rest) ≡ split_flag (out ++ (w ∷ [])) report rest
unfolding split_flag
split_flag-word out w [] report h = rw h refl
split_flag-word out w (v ∷ rest) report h = rw (split_flag, h) refl

-- Words are taken over as they are.
split_flag-words :
    (out words rest : List Text) (report : Option Text)
    → All IsWord words
    → split_flag out report (words ++ rest) ≡ split_flag (out ++ words) report rest
split_flag-words out [] rest report h = rw (append-nil out) refl
split_flag-words out (w ∷ words) rest report h =
    split_flag-word out w (words ++ rest) report h.0
    ∙ split_flag-words (out ++ (w ∷ [])) words rest report h.1
    ∙ ap (λ o. split_flag o report rest) (append_assoc out (w ∷ []) words)

split_flag-All :
    (out words : List Text) (report : Option Text)
    → All IsWord words
    → split_flag out report words ≡ ok (out ++ words, report)
unfolding split_flag
split_flag-All out [] report h = rw (append-nil out) refl
split_flag-All out (w ∷ words) report h =
    split_flag-word out w words report h.0
    ∙ split_flag-All (out ++ (w ∷ [])) words report h.1
    ∙ ap (λ o. ok (o, report)) (append_assoc out (w ∷ []) words)

split_flag-report :
    (out : List Text) (path : Text) (rest : List Text)
    → split_flag out none (report_flag ∷ path ∷ rest) ≡ split_flag out (some path) rest
unfolding split_flag
split_flag-report out path rest = refl

-- Wherever the flag stands among the other words, they come back in order, beside its value.
pub split_report_json_flag-words :
    (before after : List Text) (report : Option Text)
    → All IsWord before
    → All IsWord after
    → split_report_json_flag (before ++ (report_words report ++ after))
      ≡ ok (before ++ after, report)
unfolding split_report_json_flag
split_report_json_flag-words before after none h k =
    split_flag-words [] before after none h ∙ split_flag-All before after none k
split_report_json_flag-words before after (some path) h k =
    split_flag-words [] before _ none h
    ∙ split_flag-report before path after
    ∙ split_flag-All before after (some path) k

-- The words of a command, and its report file.
abbrev command_words : (Uuid → Text) → Command → List Text
command_words uuid_text (summary path) = codes "summary" ∷ path ∷ []
command_words uuid_text (lineage_summary path) = codes "lineage" ∷ path ∷ []
command_words uuid_text (verify path report) = codes "verify" ∷ path ∷ []
command_words uuid_text (lineage_path path node msg_id) =
    codes "lineage-path" ∷ path ∷ uuid_text node ∷ uuid_text msg_id ∷ []
command_words uuid_text (cluster_verify paths report) = codes "cluster-verify" ∷ paths

abbrev report_json : Command → Option Text
report_json (verify path report) = report
report_json (cluster_verify paths report) = report
report_json _ = none

-- The forms that the usage text shows for a command: the report file comes last, and the word
-- `summary` may be left out.
unfoldable pub usage_forms : (Uuid → Text) → Command → List (List Text)
usage_forms uuid_text (summary path) = (path ∷ []) ∷ (command_words uuid_text (summary path) ∷ [])
usage_forms uuid_text command =
    (command_words uuid_text command ++ report_words (report_json command)) ∷ []

-- No path is the flag, and a cluster has two traces.
abbrev pub IsCommand : Command → Type 0
IsCommand (summary path) = IsWord path
IsCommand (lineage_summary path) = IsWord path
IsCommand (verify path report) = IsWord path
IsCommand (lineage_path path node msg_id) = IsWord path × (node < u128_mod) × (msg_id < u128_mod)
IsCommand (cluster_verify paths report) = All IsWord paths × (2 ≤ length paths)

module _ (uuid_text : Uuid → Text) (parse_uuid : Text → Option Uuid)
    (read : (u : Uuid) → u < u128_mod → parse_uuid (uuid_text u) ≡ some u)
    (plain : (u : Uuid) → u < u128_mod → IsWord (uuid_text u)) where
  words-AreWords : (c : Command) → IsCommand c → All IsWord (command_words uuid_text c)
  unfolding list_beq
  words-AreWords (summary path) h = (refl, (h, tt))
  words-AreWords (lineage_summary path) h = (refl, (h, tt))
  words-AreWords (verify path report) h = (refl, (h, tt))
  words-AreWords (lineage_path path node msg_id) h =
      (refl, (h.0, (plain node (h.1), (plain msg_id (h.2), tt))))
  words-AreWords (cluster_verify paths report) h = (refl, h.0)

  cluster_selected :
      (paths : List Text) (report : Option Text)
      → 2 ≤ length paths
      → select_command parse_uuid report (codes "cluster-verify" ∷ paths)
        ≡ ok (cluster_verify paths report)
  unfolding select_command
  cluster_selected [] report h = absurd (omega arith)
  cluster_selected (a ∷ []) report h = absurd (omega arith)
  cluster_selected (a ∷ b ∷ []) report h = refl
  cluster_selected (a ∷ b ∷ c ∷ []) report h = refl
  cluster_selected (a ∷ b ∷ c ∷ d ∷ rest) report h =
      let enough = le→leb 2 (length (a ∷ b ∷ c ∷ d ∷ rest)) h in rw enough refl

  selected :
      (c : Command)
      → IsCommand c
      → select_command parse_uuid (report_json c) (command_words uuid_text c) ≡ ok c
  unfolding select_command
  selected (summary path) h = refl
  selected (lineage_summary path) h = refl
  selected (verify path report) h = refl
  selected (lineage_path path node msg_id) h = rw (read node (h.1), read msg_id (h.2)) refl
  selected (cluster_verify paths report) h = cluster_selected paths report h.1

  -- A form of words, and behind it the report file.
  form_parsed :
      (c : Command)
      → IsCommand c
      → parse_command parse_uuid (command_words uuid_text c ++ report_words (report_json c)) ≡ ok c
  unfolding parse_command
  form_parsed c h =
      let words = command_words uuid_text c in
      let report = report_words (report_json c) in
      let split =
        ap (λ r. split_report_json_flag (words ++ r)) (sym (append-nil report))
        ∙ split_report_json_flag-words words [] (report_json c) (words-AreWords c h) tt in
      rw (split, append-nil words) (selected c h)

  path_parsed :
      (path : Text) → IsWord path → parse_command parse_uuid (path ∷ []) ≡ ok (summary path)
  unfolding parse_command select_command
  path_parsed path h = rw (split_report_json_flag-words [] (path ∷ []) none tt (h, tt)) refl

  -- A command that is written in a form of the usage text, with the report file last and with or
  -- without the word `summary`, is what parse_command gives back, when no path of it is the flag
  -- itself, a cluster has at least two traces, and ids are read back and not shown as the flag.
  pub parse_command-usage_forms :
      (c : Command)
      → IsCommand c
      → All (λ args. parse_command parse_uuid args ≡ ok c) (usage_forms uuid_text c)
  unfolding usage_forms
  parse_command-usage_forms (summary path) h =
      (path_parsed path h, (form_parsed (summary path) h, tt))
  parse_command-usage_forms (lineage_summary path) h = (form_parsed (lineage_summary path) h, tt)
  parse_command-usage_forms (verify path report) h = (form_parsed (verify path report) h, tt)
  parse_command-usage_forms (lineage_path path node msg_id) h =
      (form_parsed (lineage_path path node msg_id) h, tt)
  parse_command-usage_forms (cluster_verify paths report) h =
      (form_parsed (cluster_verify paths report) h, tt)
