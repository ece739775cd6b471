-- ===== src/Query/Fallback.antt =====
-- The request in the old style, and the reader of an answer that deletes its query (api.go:
-- fallbackQuery, newQueryCloser, queryCloser).
--
-- `execute` is resty's: it makes a request and returns the raw response. `fallbackQuery` is what
-- `Proxy` calls `fallback`.
use cloud_sdk_go.Base.{
  ℕ, String, Bool, Option, List, [], ◌∷◌, take, drop, Dict, insert, Failure, Result, err,
  if◌then◌else◌,
}
use cloud_sdk_go.App.Linking.{Outcome, panics, returns}
use cloud_sdk_go.Query.Types.{Envelop, Response}
use cloud_sdk_go.Query.Defs.{no_client}

pub record DirectRequest : Type 0 where
  pub method : String
  pub url : String
  pub headers : Dict String
  pub body : List ℕ

-- The loop over the headers takes the first value of each: a header with none is an index out of
-- range.
unfoldable pub first_values : Dict (List String) → Dict String → Outcome (Dict String)
first_values [] headers = returns headers
first_values ((name, []) ∷ rest) headers = panics
first_values ((name, value ∷ values) ∷ rest) headers = first_values rest (insert name value headers)

abbrev pub style_header : String
style_header = "X-Api-Proxy-Communication-Style"

abbrev send_direct :
    (DirectRequest → Result Response)
    → Envelop
    → List ℕ
    → Outcome (Dict String)
    → Outcome (Result Response)
send_direct execute r payload panics = panics
send_direct execute r payload (returns headers) = returns (
    execute (record {
      method = r.method;
      url = r.url;
      headers = insert style_header "sync" headers;
      body = payload;
    }))

unfoldable pub fallback_query :
    Bool → (DirectRequest → Result Response) → Envelop → List ℕ → Outcome (Result Response)
unfolding first_values
fallback_query has_client execute r payload =
    let sent = send_direct execute r payload (first_values r.headers []) in
    if has_client then sent else returns (err no_client)

-- The body of an answer: what its reader has left.
pub record QueryCloser : Type 0 where
  pub query_id : String
  pub left : List ℕ

unfoldable pub read_closer : ℕ → QueryCloser → QueryCloser × List ℕ
read_closer n q = (record q { left = drop n q.left }, take n q.left)

-- `Close`: the request that deletes the query, and its error. Without a client for the region the
-- call panics; there was one when the query was made.
unfoldable pub close_closer :
    Bool → (String → Option Failure) → QueryCloser → Outcome (String × Option Failure)
close_closer has_client delete q =
    if has_client then returns (q.query_id, delete q.query_id) else panics
