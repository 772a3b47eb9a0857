-- ===== src/Tool/CommandLine.antt =====
-- The command line of the verifier: split_report_json_flag and parse_command
-- (crates/tool/src/main.rs).
pub mod Printed
use unified_correctness_orie.Base.{
  ℕ, Bool, true, false, Option, none, some, List, [], ◌∷◌, ◌++◌, leb, if◌then◌else◌, length, Result,
  ok, err, ◌>>=◌, ◌>>◌, guard, or_fail, ◌==◌, nat_eq, list_eq, list_beq,
}
use unified_correctness_orie.Base.Text.{Text, codes}
use unified_correctness_orie.Runtime.Event.{Uuid}

pub data Command : Type 0 where
  summary lineage_summary : (path : Text) → Command
  verify : (path : Text) (report_json : Option Text) → Command
  lineage_path : (path : Text) (node msg_id : Uuid) → Command
  cluster_verify : (paths : List Text) (report_json : Option Text) → Command

pub data CommandError : Type 0 where
  missing_value duplicate_flag : CommandError
  report_not_valid too_few_paths invalid_node invalid_msg_id usage : CommandError

abbrev pub report_flag : Text
report_flag = codes "--report-json"

abbrev pub is_none : Option Text → Bool
is_none none = true
is_none (some value) = false

-- The loop over `args[i..]`, with what it has pushed so far.
unfoldable pub split_flag :
    List Text → Option Text → List Text → Result CommandError (List Text × Option Text)
unfolding list_beq
split_flag out report [] = ok (out, report)
split_flag out report (arg ∷ []) =
    if arg == report_flag then err missing_value else ok (out ++ (arg ∷ []), report)
split_flag out report (arg ∷ value ∷ rest) = elim (arg == report_flag) [
  | true ↦ (do guard (is_none report) duplicate_flag; split_flag out (some value) rest)
  | false ↦ split_flag (out ++ (arg ∷ [])) report (value ∷ rest)
]

unfoldable pub split_report_json_flag : List Text → Result CommandError (List Text × Option Text)
unfolding split_flag
split_report_json_flag args = split_flag [] none args

abbrev without_report : Option Text → Command → Result CommandError Command
without_report report command = guard (is_none report) report_not_valid >> ok command

-- The arm of `cluster-verify`, the only one that takes any number of words.
abbrev cluster_command : Option Text → Text → List Text → Result CommandError Command
cluster_command report cmd paths =
    if cmd == codes "cluster-verify"
    then guard (leb 2 (length paths)) too_few_paths >> ok (cluster_verify paths report)
    else err usage

abbrev two_words : Option Text → Text → Text → Result CommandError Command
two_words report cmd path =
    if cmd == codes "summary"
    then without_report report (summary path)
    else if cmd == codes "verify"
    then ok (verify path report)
    else if cmd == codes "cluster-verify"
    then err too_few_paths
    else if cmd == codes "lineage"
    then without_report report (lineage_summary path)
    else err usage

-- `Uuid::parse_str` is `parse_uuid`.
abbrev path_command :
    (Text → Option Uuid) → Option Text → Text → Text → Text → Result CommandError Command
path_command parse_uuid report path node msg_id = do
  guard (is_none report) report_not_valid
  from ← or_fail (parse_uuid node) invalid_node
  id ← or_fail (parse_uuid msg_id) invalid_msg_id
  ok (lineage_path path from id)

-- The `match` on the words that are left.
unfoldable pub select_command :
    (Text → Option Uuid) → Option Text → List Text → Result CommandError Command
unfolding list_beq
select_command parse_uuid report [] = err usage
select_command parse_uuid report (word ∷ []) = elim report [
  | none ↦ ok (summary word)
  | some value ↦ cluster_command (some value) word []
]
select_command parse_uuid report (cmd ∷ path ∷ []) = two_words report cmd path
select_command parse_uuid report (cmd ∷ path ∷ node ∷ msg_id ∷ []) =
    if cmd == codes "lineage-path"
    then path_command parse_uuid report path node msg_id
    else cluster_command report cmd (path ∷ node ∷ msg_id ∷ [])
select_command parse_uuid report (cmd ∷ paths) = cluster_command report cmd paths

-- `args` is what follows the name of the program.
unfoldable pub parse_command : (Text → Option Uuid) → List Text → Result CommandError Command
unfolding split_report_json_flag select_command
parse_command parse_uuid args = do
  split ← split_report_json_flag args
  select_command parse_uuid (split.1) (split.0)
