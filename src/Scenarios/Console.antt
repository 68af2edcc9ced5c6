-- ===== src/Scenarios/Console.antt =====
-- The theorems on the control server and the log querier at work.
use distributed_group_member.LogQuerier.Client.Merging.{sum}
use mathlib.Core.List.{Perm}
use mathlib.Core.List.Perm
use distributed_group_member.Common.{
  ◌≡◌, refl, ap, ℕ, zero, suc, length, Bool, true, List, [], ◌∷◌, ◌++◌, none, some, arith, All, ◌⊎◌,
  ℕ_discrete,
}
use distributed_group_member.Common.Dict.{lookup}
use distributed_group_member.Common.Dict.Loops.{is_in}
use distributed_group_member.Types.{Text, Text-discrete, codes, gossip_mode}
use distributed_group_member.System.{Machine, new_machine}
use distributed_group_member.Control.{serve, Query}
use distributed_group_member.Control.Client.{asks, run_client, Variables}
use distributed_group_member.Control.Switching.{Switched, run_client-Switched}
use distributed_group_member.LogQuerier.{ServerRequest, ServerResponse}
use distributed_group_member.LogQuerier.Words.{fields, unwords, is_space, contains, has_prefix}
use distributed_group_member.LogQuerier.Words.Laws.{IsWord}
use distributed_group_member.LogQuerier.Server.{
  Config, Environment, resolve_log_path, grep_name, handle_connection,
}
use distributed_group_member.LogQuerier.Server.Laws.{Served, handle_connection-Served}
use distributed_group_member.LogQuerier.Client.{
  Result, Decoded, bad, good, Merges, exhausted, passes, should_count, present, total_line,
}
use distributed_group_member.LogQuerier.Client.Query.{Site, Serves, channel_of, query_total}
use distributed_group_member.Scenarios.{self, calm}

abbrev keep_text : Text → Text
keep_text s = s

abbrev no_variables : Variables
no_variables = record { hosts_file = []; default_hosts_file = codes "hosts.txt"; log_port = none }

abbrev console : Machine
console = record (new_machine gossip_mode self 1) { node = calm }

abbrev to_ping : Query
to_ping = (codes "mechanism", codes "ping") ∷ (codes "suspicion", codes "suspect") ∷ []

run_client-Switched_example :
    let (m', r) = serve keep_text (codes "/switch") to_ping none 5 console in
    (run_client keep_text no_variables (codes "switch") (codes "ping") (codes "suspect")
      ≡ asks (codes "/switch") to_ping)
    × Switched (codes "ping") (codes "suspect") console m' r
run_client-Switched_example =
    run_client-Switched keep_text no_variables (codes "switch") b'p' b's' (codes "ing")
      (codes "uspect") none 5 console refl

abbrev pattern_word : Text
pattern_word = codes "SUSPECT"

grep_words : All IsWord (grep_name ∷ pattern_word ∷ [])
unfolding is_space
grep_words = (
  (λ h. absurd (ground (arith, h)), (refl, (refl, (refl, (refl, tt))))),
  (
    (λ h. absurd (ground (arith, h)), (refl, (refl, (refl, (refl, (refl, (refl, (refl, tt)))))))),
    tt,
  ),
)

-- The environment of a server whose log has one line.
abbrev one_line : Environment
one_line = record {
  is_abs = λ p. true;
  join = λ a b. a ++ b;
  abs = some;
  exists = λ p. true;
  run_grep = λ dir args. some (codes "SUSPECT b" ∷ []);
  accepts = λ r. true;
}

abbrev node_log : Config
node_log = record {
  addr = codes ":10081";
  log_paths = (codes "node", codes "/n") ∷ [];
  default_file_type = codes "node";
  working_directory = [];
}

abbrev question : ServerRequest
question = record { input = codes "grep SUSPECT"; file_type = codes "node" }

handle_connection-Served_example :
    let sent = handle_connection one_line node_log (some question) in
    (sent ≡ [])
    ⊎ Served one_line node_log
        (fields question.input)
        (resolve_log_path one_line node_log question.file_type)
        sent
handle_connection-Served_example = handle_connection-Served one_line node_log question

abbrev keep_hosts : List Text → List Text
keep_hosts l = l

abbrev host : Text
host = codes "vm1"

once_twice :
    (h : Text) → is_in Text-discrete h (host ∷ []) ≡ is_in Text-discrete h (host ∷ host ∷ [])
unfolding is_in
once_twice h = ground arith

-- A response in a line: the characters of the output, each raised by one, a zero, and the log file.
write_line : Text → Text → Text
write_line [] log_file = 0 ∷ log_file
write_line (c ∷ s) log_file = suc c ∷ write_line s log_file

encode_line : ServerResponse → Text
unfolding write_line
encode_line r = write_line r.output r.log_file

longer : ℕ → Decoded → Decoded
longer c (bad e) = bad e
longer c (good r) = good (record r { output = c ∷ r.output })

decode_line : Text → Decoded
unfolding longer
decode_line [] = bad []
decode_line (zero ∷ s) = good (record { output = []; log_file = s })
decode_line (suc c ∷ s) = longer c (decode_line s)

decode_written :
    (s log_file : Text)
    → decode_line (write_line s log_file) ≡ good (record { output = s; log_file = log_file })
unfolding decode_line write_line longer
decode_written [] log_file = refl
decode_written (c ∷ s) log_file = ap (longer c) (decode_written s log_file)

decode_encoded : (r : ServerResponse) → decode_line (encode_line r) ≡ good r
unfolding encode_line
decode_encoded r = decode_written r.output r.log_file

-- A single channel is merged in its order.
merge_one : (c : List Result) → Merges (c ∷ []) c
merge_one [] = exhausted (refl, tt)
merge_one (r ∷ c) = passes r [] [] c refl (merge_one c)

abbrev one_site : Site
one_site = record {
  address = codes "vm1:10081";
  environment = one_line;
  config = node_log;
  lines = codes "SUSPECT b" ∷ [];
}

one_site-Serves : Serves question (pattern_word ∷ []) one_site
unfolding resolve_log_path lookup Text-discrete ℕ_discrete
one_site-Serves = record {
  located = λ h. absurd (ground (arith, h));
  there = refl;
  printed = refl;
  accepted = λ r. refl;
}

-- A scanner that refuses no line.
abbrev all_fit : Text → Bool
all_fit l = true

one_channel : List Result
one_channel = channel_of encode_line decode_line all_fit question one_site

query_total_example :
    (ls : List Text) × ((present question.input one_channel).output ≡ ls ++ total_line 1 ∷ [])
    × (length ls ≡ 1)
unfolding should_count unwords contains has_prefix sum one_channel
query_total_example =
    query_total encode_line decode_line all_fit decode_encoded question (pattern_word ∷ [])
      (one_site ∷ []) one_channel refl (grep_words.1) refl (one_site-Serves, tt) ((refl, tt), tt)
      (merge_one one_channel)
