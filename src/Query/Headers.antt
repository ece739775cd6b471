-- ===== src/Query/Headers.antt =====
-- Which headers the request in the old style has.
use cloud_sdk_go.Base.{
  ◌≡◌, ap, ◌∙◌, String, Option, some, List, [], ◌∷◌, arith, Dict, lookup, insert, lookup-insert,
  str_eq, if◌then◌else◌,
}
use cloud_sdk_go.App.Linking.{returns}
use cloud_sdk_go.Query.Fallback.{first_values}

-- The value that a header is sent with: the first of the last entry of its name, or what was set.
abbrev pub sent_value : String → Dict (List String) → Option String → Option String
sent_value name [] before = before
sent_value name ((other, []) ∷ rest) before = sent_value name rest before
sent_value name ((other, value ∷ values) ∷ rest) before =
    sent_value name rest (if str_eq other name then some value else before)

-- If no panic stops the loop over the headers, each header is sent with its first value only, and
-- a header that the request does not have is not added.
pub first_values-lookup :
    (name : String) (headers : Dict (List String)) (before after : Dict String)
    → first_values headers before ≡ returns after
    → lookup name after ≡ sent_value name headers (lookup name before)
unfolding first_values
first_values-lookup name [] before after e = ground arith
first_values-lookup name ((other, []) ∷ rest) before after e = absurd (ground arith)
first_values-lookup name ((other, value ∷ values) ∷ rest) before after e =
    first_values-lookup name rest (insert other value before) after e
    ∙ ap (sent_value name rest) (lookup-insert name other value before)
