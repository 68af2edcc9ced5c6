-- ===== src/LogQuerier/Client/Query.antt =====
-- A query from the client through the servers and back.
use distributed_group_member.Common.{
  ◌≡◌, refl, ap, ap₂, ◌∙◌, ◌≢◌, ◌+◌, Bool, Option, true, false, if◌then◌else◌, List, [], ◌∷◌, ◌++◌,
  none, some, arith, map, length, All,
}
use distributed_group_member.Types.{Text, codes}
use distributed_group_member.LogQuerier.{ServerRequest, ServerResponse}
use distributed_group_member.LogQuerier.Words.{unwords}
use distributed_group_member.LogQuerier.Words.Laws.{IsWord}
use distributed_group_member.LogQuerier.Server.{
  Config, Environment, resolve_log_path, grep_name, response, handle_connection,
}
use distributed_group_member.LogQuerier.Server.Laws.{handle_connection_answers}
use distributed_group_member.LogQuerier.Client.{
  Result, Decoded, good, Talk, streams, scan, connection, match_of, Merges, should_count, present,
  total_line,
}
use distributed_group_member.LogQuerier.Client.Merging.{
  matches, matches_of_all, sum, present-total_line,
}

-- A server, by what its client dials and what grep prints there.
pub record Site : Type 0 where
  pub address : Text
  pub environment : Environment
  pub config : Config
  pub lines : List Text

-- The path of the log of a request.
abbrev pub log_of : ServerRequest → Site → Text
log_of req s = resolve_log_path s.environment s.config req.file_type

-- The site has the log of the request and the program that the request runs, and every response can be
-- written.
pub record Serves (req : ServerRequest) (args : List Text) (s : Site) : Type 0 where
  pub located : resolve_log_path s.environment s.config req.file_type ≢ []
  pub there : s.environment.exists (resolve_log_path s.environment s.config req.file_type) ≡ true
  pub printed :
      s.environment.run_grep s.config.working_directory
        (args ++ resolve_log_path s.environment s.config req.file_type ∷ [])
      ≡ some s.lines
  pub accepted : (r : ServerResponse) → s.environment.accepts r ≡ true

-- "bufio.Scanner: token too long"
abbrev pub token_too_long : Text
token_too_long = codes "bufio.Scanner: token too long"

-- What the scanner of the client yields of the lines that come: it stops at the first one that does not fit
-- its buffer of 64 KiB.
unfoldable pub scan_lines : (Text → Bool) → List Text → List (Text × Bool) × Option Text
scan_lines fits [] = ([], none)
scan_lines fits (l ∷ ls) =
    let (read, end) = scan_lines fits ls in
    if fits l then ((l, false) ∷ read, end) else ([], some token_too_long)

module _ (encode : ServerResponse → Text) (decode : Text → Decoded) (fits : Text → Bool) where
  -- The talk of a site that is dialled and sends its responses, each in a line.
  unfoldable pub talk_of : ServerRequest → Site → Talk
  unfolding scan_lines
  talk_of req s =
      let (read, end) =
        scan_lines fits (map encode (handle_connection s.environment s.config (some req))) in
      streams read end

  unfoldable pub channel_of : ServerRequest → Site → List Result
  unfolding talk_of
  channel_of req s = connection decode s.address (talk_of req s)

module _ (encode : ServerResponse → Text) (decode : Text → Decoded) (fits : Text → Bool)
    (round_trip : (r : ServerResponse) → decode (encode r) ≡ good r) where
  scan_delivers :
      (address : Text) (rs : List ServerResponse)
      → scan decode address (map (λ r. (encode r, false)) rs) none ≡ map (match_of address) rs
  unfolding scan
  scan_delivers address [] = refl
  scan_delivers address (r ∷ rs) =
      rw (round_trip r) (ap (λ ms. match_of address r ∷ ms) (scan_delivers address rs))

  scan_lines-fit :
      (path : Text) (lines : List Text)
      → All (λ l. fits (encode (response path l)) ≡ true) lines
      → scan_lines fits (map encode (map (response path) lines))
        ≡ (map (λ r. (encode r, false)) (map (response path) lines), none)
  unfolding scan_lines
  scan_lines-fit path [] short = refl
  scan_lines-fit path (l ∷ ls) (short, rest) = rw (short, scan_lines-fit path ls rest) refl

  matches_of_responses :
      (address path : Text) (lines : List Text)
      → matches (map (match_of address) (map (response path) lines)) ≡ length lines
  unfolding matches
  matches_of_responses address path [] = refl
  matches_of_responses address path (l ∷ ls) = ground (arith, matches_of_responses address path ls)

  matches_of_site :
      (req : ServerRequest) (args : List Text) (s : Site)
      → req.input ≡ unwords (grep_name ∷ args)
      → All IsWord args
      → Serves req args s
      → All (λ l. fits (encode (response (log_of req s) l)) ≡ true) s.lines
      → matches (channel_of encode decode fits req s) ≡ length s.lines
  unfolding channel_of talk_of connection
  matches_of_site req args s input words v short =
      let path = resolve_log_path s.environment s.config req.file_type in
      let answered =
        handle_connection_answers s.environment s.config req args s.lines input words v.located
          v.there v.printed v.accepted in
      rw (answered, scan_lines-fit path s.lines short)
        (ap matches (scan_delivers s.address (map (response path) s.lines)))
      ∙ matches_of_responses s.address path s.lines

  -- The response to each line of the site, encoded, fits the scanner.
  abbrev IsShort : ServerRequest → Site → Type 0
  IsShort req s = All (λ l. fits (encode (response (log_of req s) l)) ≡ true) s.lines

  matches_of_sites :
      (req : ServerRequest) (args : List Text) (sites : List Site)
      → req.input ≡ unwords (grep_name ∷ args)
      → All IsWord args
      → All (Serves req args) sites
      → All (IsShort req) sites
      → matches_of_all (map (channel_of encode decode fits req) sites)
        ≡ sum (map (λ s. length s.lines) sites)
  unfolding matches_of_all sum
  matches_of_sites req args [] input words v short = refl
  matches_of_sites req args (s ∷ sites) input words v short =
      ap₂ (λ a b. a + b) (matches_of_site req args s input words v.0 short.0)
        (matches_of_sites req args sites input words v.1 short.1)

  -- Where decoding undoes encoding: a query of the words grep and the arguments, joined by spaces, which does
  -- not ask grep to count, to sites that all have the log, can run grep on it and can send what it
  -- prints, in encoded lines that fit the scanner of the client, prints, however the results are merged, as
  -- many lines as grep prints at all sites together, and after them a last line with that number.
  pub query_total :
      (req : ServerRequest) (args : List Text) (sites : List Site) (out : List Result)
      → req.input ≡ unwords (grep_name ∷ args)
      → All IsWord args
      → should_count req.input ≡ true
      → All (Serves req args) sites
      → All (λ s. All (λ l. fits (encode (response (log_of req s) l)) ≡ true) s.lines) sites
      → Merges (map (channel_of encode decode fits req) sites) out
      → let n = sum (map (λ s. length s.lines) sites) in
        (ls : List Text) × ((present req.input out).output ≡ ls ++ total_line n ∷ [])
        × (length ls ≡ n)
  query_total req args sites out input words counts v short merged =
      let (ls, shown, counted) = present-total_line req.input merged counts in
      let all = matches_of_sites req args sites input words v short in
      (ls, shown ∙ ap (λ n. ls ++ total_line n ∷ []) all, counted ∙ all)
