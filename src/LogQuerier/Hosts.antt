-- ===== src/LogQuerier/Hosts.antt =====
-- logquerier/client/client.go, `resolveHosts`: the hosts that the options name, each once, in ascending
-- order. `order` is the order in which a loop over a map meets its keys.
pub mod Order
pub mod Laws
use distributed_group_member.Common.{
  ℕ, Bool, true, false, ◌&&◌, ◌||◌, List, [], ◌∷◌, ◌++◌, Option, none, some, ltb, ◌==◌,
  if◌then◌else◌,
}
use distributed_group_member.Common.Dict.{insert, keys}
use distributed_group_member.Types.{Text, Text-discrete, text_eqb}
use distributed_group_member.LogQuerier.Words.{trim_space, has_prefix}

-- The order of texts, that of their first different characters.
unfoldable pub text_ltb : Text → Text → Bool
text_ltb s [] = false
text_ltb [] (d ∷ t) = true
text_ltb (c ∷ s) (d ∷ t) = ltb c d || c == d && text_ltb s t

unfoldable pub insert_text : Text → List Text → List Text
insert_text h [] = h ∷ []
insert_text h (x ∷ xs) =
    let rest = insert_text h xs in if text_ltb h x then h ∷ x ∷ xs else x ∷ rest

-- `sort.Strings`
unfoldable pub sort_strings : List Text → List Text
unfolding insert_text
sort_strings [] = []
sort_strings (h ∷ hs) = insert_text h (sort_strings hs)

-- What becomes of the hosts file: its name is empty, it cannot be opened, or the scanner yields lines, in
-- the end with an error or without.
pub data HostsFile : Type 0 where
  no_file cannot_open : HostsFile
  opened : List Text → Bool → HostsFile

unfoldable pub file_hosts : List Text → List Text
file_hosts [] = []
file_hosts (l ∷ ls) =
    let rest = file_hosts ls in
    let raw = trim_space l in
    if text_eqb raw [] || has_prefix raw (b'#' ∷ []) then rest else raw ∷ rest

-- The hosts before they are deduplicated, `none` for an error.
unfoldable pub named_hosts : List Text → HostsFile → Option (List Text)
unfolding file_hosts
named_hosts explicit no_file = some explicit
named_hosts explicit cannot_open = none
named_hosts explicit (opened lines true) = none
named_hosts explicit (opened lines false) = some (explicit ++ file_hosts lines)

-- The map `unique`.
unfoldable pub unique : List Text → List (Text × Bool) → List (Text × Bool)
unique [] m = m
unique (h ∷ hs) m = unique hs (insert Text-discrete h true m)

unfoldable pub resolve_hosts : (List Text → List Text) → List Text → HostsFile → Option (List Text)
unfolding named_hosts unique sort_strings
resolve_hosts order explicit file = elim (named_hosts explicit file) [
  | none ↦ none
  | some hosts ↦ some (sort_strings (order (keys (unique hosts []))))
]
