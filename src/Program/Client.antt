-- ===== src/Program/Client.antt =====
-- cmd/client/main.go: queries for the credential pairs of a file. A run gives what ends it (an exit
-- after an error, or a panic) and the texts that it has printed for its queries. The scanner and `Query`'s
-- surroundings are parameters; the times and the bandwidth are printed by package fmt, and stand as
-- numbers in `Summary`, with the count of queries that is printed in front of them.
pub mod Output
pub mod Served
pub mod Tests
use migp.Base.{
  ℕ, suc, ◌+◌, ◌/◌, Bool, true, false, not, Bytes, codes, List, [], ◌∷◌, ◌++◌, Option, none, some,
  ◌==◌, bytes_eq, if◌then◌else◌,
}
use migp.Base.Int.{ℤ, pos, negsuc, ◌+ℤ◌, opposite}
use migp.Base.Outcome.{
  Outcome, ok, err, panic, ◌>>=◌, ◌>>◌, fail_if, or_fail, file_error, json_failed, http_failed,
  read_failed, bad_status,
}
use migp.Protocol.Common.{Config, breach_status_string}
use migp.Protocol.Libraries.{Crypto, Oprf}
use migp.Protocol.Json.{Json}
use migp.Protocol.Client.{Finding}
use migp.Protocol.Query.{HttpResponse, Network, Readings, Durations, Answer, query}
use migp.Service.Process.{split_fields}

pub record Flags : Type 0 where
  pub config_file : Bytes
  pub dump_config : Bool
  pub show_password : Bool
  pub input_filename : Bytes
  pub target_url : Bytes

-- What surrounds the program: `os.ReadFile`, `http.Get`, and the lines of a file, or of the standard
-- input where the name is "-".
pub record Surroundings : Type 0 where
  pub read_file : Bytes → Option Bytes
  pub http_get : Bytes → Option HttpResponse
  pub lines_of : Bytes → Option (List Bytes)

-- The sums of the loop. `bw` counts bytes, as `Query` does.
pub record Totals : Type 0 where
  pub query_count : ℕ
  pub bw : ℕ
  pub query_prep : ℤ
  pub api_call : ℤ
  pub finalize : ℤ
  pub total : ℤ

abbrev pub no_totals : Totals
no_totals = record {
  query_count = 0;
  bw = 0;
  query_prep = pos 0;
  api_call = pos 0;
  finalize = pos 0;
  total = pos 0;
}

-- `duration["…"]` of a map that is nil is zero.
abbrev field_of : Option Durations → (Durations → ℤ) → ℤ
field_of none f = pos 0
field_of (some d) f = f d

unfoldable pub add_answer : Totals → Answer → Totals
unfolding ◌+ℤ◌
add_answer t a = record {
  query_count = t.query_count + 1;
  bw = t.bw + a.bandwidth;
  query_prep = t.query_prep +ℤ field_of a.duration (λ d. d.query_prep);
  api_call = t.api_call +ℤ field_of a.duration (λ d. d.api_call);
  finalize = t.finalize +ℤ field_of a.duration (λ d. d.finalize);
  total = t.total +ℤ field_of a.duration (λ d. d.total);
}

-- A division of `int64`, towards zero.
abbrev pub quotient : ℤ → ℕ → ℤ
quotient (pos n) k = pos (n / k)
quotient (negsuc n) k = opposite (suc n / k)

-- What the program prints at its end: the averages, and the sum of bytes of which it prints the share
-- of one query.
pub record Summary : Type 0 where
  pub count : ℕ
  pub query_prep : ℤ
  pub api_call : ℤ
  pub finalize : ℤ
  pub total : ℤ
  pub bytes : ℕ

abbrev pub averages : Totals → Summary
averages t = record {
  count = t.query_count;
  query_prep = quotient t.query_prep t.query_count;
  api_call = quotient t.api_call t.query_count;
  finalize = quotient t.finalize t.query_count;
  total = quotient t.total t.query_count;
  bytes = t.bw;
}

-- The end of `main`: a division by zero panics.
unfoldable pub summary : Totals → Outcome Summary
summary t = if t.query_count == 0 then panic else ok (averages t)

module _ (o : Oprf) (c : Crypto) (json : Json) (network : Network) where
  -- The configuration, from its file or from the server.
  unfoldable pub client_config : Flags → Surroundings → Outcome Config
  client_config flags around =
      if not (bytes_eq flags.config_file [])
      then (do
        text ← or_fail file_error (around.read_file flags.config_file)
        or_fail json_failed (json.unmarshal_config text))
      else (do
        response ← or_fail http_failed (around.http_get (flags.target_url ++ codes "/config"))
        fail_if (not (response.status_code == 200)) (bad_status response.status_code)
        text ← or_fail read_failed response.body
        or_fail json_failed (json.decode_config text))

  -- The coins and the clock of each query, by its number.
  module _ (coins : ℕ → o.Coins) (clock : ℕ → Readings) where
    abbrev pub answer_to : Flags → Config → ℕ → Bytes → Bytes → Answer
    answer_to flags cfg k username password =
        query o c json network cfg (flags.target_url ++ codes "/evaluate") (coins k) (clock k)
          username password

    -- What is printed for a query that has succeeded.
    abbrev pub printed : Flags → Bytes → Bytes → Finding → Option Bytes
    printed flags username password f =
        json.marshal_result username (if flags.show_password then password else [])
          (breach_status_string f.status) f.metadata

    -- The loop over the lines.
    unfoldable pub query_lines :
        Flags → Config → List Bytes → Totals → List Bytes → Outcome Totals × List Bytes
    unfolding add_answer
    query_lines flags cfg [] t out = (ok t, out)
    query_lines flags cfg (line ∷ lines) t out = elim (split_fields line) [
      | none ↦ query_lines flags cfg lines t out
      | some (username, password) ↦
          let answer = answer_to flags cfg t.query_count username password in
          elim answer.finding [
            | panic ↦ (panic, out)
            | err e ↦ (err e, out)
            | ok f ↦ elim (printed flags username password f) [
              | none ↦ (err json_failed, out)
              | some text ↦ query_lines flags cfg lines (add_answer t answer) (out ++ text ∷ [])
            ]
          ]
    ]

    -- The loop and the averages.
    unfoldable pub run_queries : Flags → Config → List Bytes → Outcome Summary × List Bytes
    unfolding query_lines summary
    run_queries flags cfg lines =
        let (ended, out) = query_lines flags cfg lines no_totals [] in (ended >>= summary, out)

    -- `main`, with `nothing` for a run that only dumps its configuration.
    unfoldable pub client_main : Flags → Surroundings → Outcome (Option Summary) × List Bytes
    unfolding client_config run_queries
    client_main flags around = elim (client_config flags around) [
      | panic ↦ (panic, [])
      | err e ↦ (err e, [])
      | ok cfg ↦
          if flags.dump_config
          then (elim (json.marshal_config cfg) [
            | none ↦ (err json_failed, [])
            | some text ↦ (ok none, text ∷ [])
          ])
          else (elim (around.lines_of flags.input_filename) [
            | none ↦ (err file_error, [])
            | some lines ↦
                let (ended, out) = run_queries flags cfg lines in (ended >>= λ s. ok (some s), out)
          ])
    ]
