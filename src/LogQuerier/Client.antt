-- ===== src/LogQuerier/Client.antt =====
-- logquerier/client/client.go: the results of each connection, their merging and what is printed.
pub mod Merging
pub mod Query
use distributed_group_member.Common.{
  ℕ, ℤ, pos, eqb_ℤ, ◌+◌, Bool, true, false, not, ◌&&◌, List, [], ◌∷◌, ◌++◌, Option, none, some,
  if◌then◌else◌, map, All, ◌≡◌,
}
use distributed_group_member.Types.{Text}
use distributed_group_member.Types.Decimal.{decimal, decimal_ℤ}
use distributed_group_member.LogQuerier.{default_port, ServerRequest, ServerResponse}
use distributed_group_member.LogQuerier.Words.{contains}
use distributed_group_member.LogQuerier.Hosts.{HostsFile, resolve_hosts}

-- The writers and the timeout are left out: the writers are the fields of `Screen`.
pub record Options : Type 0 where
  pub hosts : List Text
  pub hosts_file : HostsFile
  pub port : ℤ
  pub request : ServerRequest

-- `err` is the text of the error.
pub record Result : Type 0 where
  pub addr : Text
  pub log_file : Text
  pub line : Text
  pub err : Option Text

-- What `json.Unmarshal` makes of a line.
pub data Decoded : Type 0 where
  bad : Text → Decoded
  good : ServerResponse → Decoded

-- How the talk with a server goes: it cannot be dialled, the request cannot be sent, or the scanner
-- yields lines, in the end with an error or without; with each line, whether the context is done and the
-- `select` takes that branch.
pub data Talk : Type 0 where
  dial_failed send_failed : Text → Talk
  streams : List (Text × Bool) → Option Text → Talk

abbrev pub failure : Text → Text → Result
failure address e = record { addr = address; log_file = []; line = []; err = some e }

abbrev pub match_of : Text → ServerResponse → Result
match_of address r = record { addr = address; log_file = r.log_file; line = r.output; err = none }

unfoldable pub scan : (Text → Decoded) → Text → List (Text × Bool) → Option Text → List Result
scan decode address [] none = []
scan decode address [] (some e) = failure address e ∷ []
scan decode address ((l, done) ∷ ls) end =
    let rest = scan decode address ls end in
    elim (decode l) [
      | bad e ↦ failure address e ∷ rest
      | good r ↦ if done then [] else match_of address r ∷ rest
    ]

-- What `connection` sends to its channel.
unfoldable pub connection : (Text → Decoded) → Text → Talk → List Result
unfolding scan
connection decode address (dial_failed e) = failure address e ∷ []
connection decode address (send_failed e) = failure address e ∷ []
connection decode address (streams ls end) = scan decode address ls end

-- `net.JoinHostPort`, for a host without a colon.
unfoldable pub address_of : ℤ → Text → Text
address_of port host = if contains host (b':' ∷ []) then host else host ++ b':' ∷ decimal_ℤ port

-- The channels of `fanInConnections`.
unfoldable pub connections : (Text → Decoded) → (Text → Talk) → ℤ → List Text → List (List Result)
connections decode talk port hosts =
    map (λ h. connection decode (address_of port h) (talk (address_of port h))) hosts

-- `fanIn`: some channel that still holds results hands its next one over, until all are empty.
pub data Merges : List (List Result) → List Result → Type 0 where
  exhausted : {cs : List (List Result)} → All (λ (c : List Result). c ≡ []) cs → Merges cs []
  passes :
      {cs : List (List Result)} {out : List Result} (r : Result) (before after : List (List Result))
      (c : List Result)
      → cs ≡ before ++ (r ∷ c) ∷ after
      → Merges (before ++ c ∷ after) out
      → Merges cs (r ∷ out)

unfoldable pub should_count : Text → Bool
should_count input =
    not (contains input (b'-' ∷ b'c' ∷ []))
    && not (contains input (b'-' ∷ b'-' ∷ b'c' ∷ b'o' ∷ b'u' ∷ b'n' ∷ b't' ∷ []))

pub record Screen : Type 0 where
  pub output : List Text
  pub err_output : List Text
  pub total : ℕ

abbrev pub error_head : Text
error_head =
    b'l' ∷ b'o' ∷ b'g' ∷ b' ' ∷ b'q' ∷ b'u' ∷ b'e' ∷ b'r' ∷ b'i' ∷ b'e' ∷ b'r' ∷ b':' ∷ b' ' ∷ []

-- "log querier: %s error: %v\n"
abbrev pub error_line : Text → Text → Text
error_line address e =
    error_head ++ address ++ b' ' ∷ b'e' ∷ b'r' ∷ b'r' ∷ b'o' ∷ b'r' ∷ b':' ∷ b' ' ∷ e ++ 10 ∷ []

-- "[%s %s] %s\n"
abbrev pub match_line : Result → Text
match_line r = b'[' ∷ r.addr ++ b' ' ∷ r.log_file ++ b']' ∷ b' ' ∷ r.line ++ 10 ∷ []

-- "Total matches: %d\n"
abbrev pub total_line : ℕ → Text
total_line n =
    b'T'
      ∷ b'o'
      ∷ b't'
      ∷ b'a'
      ∷ b'l'
      ∷ b' '
      ∷ b'm'
      ∷ b'a'
      ∷ b't'
      ∷ b'c'
      ∷ b'h'
      ∷ b'e'
      ∷ b's'
      ∷ b':'
      ∷ b' '
      ∷ decimal n
    ++ 10 ∷ []

-- One round of the loop of `Run`.
unfoldable pub print_result : Bool → Result → Screen → Screen
print_result counting r sc = elim r.err [
  | some e ↦ record sc { err_output = sc.err_output ++ error_line r.addr e ∷ [] }
  | none ↦ record sc {
    output = sc.output ++ match_line r ∷ [];
    total = if counting then sc.total + 1 else sc.total;
  }
]

unfoldable pub print_results : Bool → List Result → Screen → Screen
unfolding print_result
print_results counting [] sc = sc
print_results counting (r ∷ rs) sc = print_results counting rs (print_result counting r sc)

-- What `Run` prints of the merged results.
unfoldable pub present : Text → List Result → Screen
unfolding print_results should_count
present input rs =
    let counting = should_count input in
    let sc = print_results counting rs (record { output = []; err_output = []; total = 0 }) in
    if counting then record sc { output = sc.output ++ total_line sc.total ∷ [] } else sc

-- The hosts and the port of `Run`; `none` where it ends with an error.
unfoldable pub targets : (List Text → List Text) → Options → Option (List Text × ℤ)
targets order opts =
    let port = if eqb_ℤ opts.port (pos 0) then pos default_port else opts.port in
    elim (resolve_hosts order opts.hosts opts.hosts_file) [
      | none ↦ none
      | some hosts ↦ elim hosts [ [] ↦ none | h ∷ hs ↦ some (h ∷ hs, port) ]
    ]
