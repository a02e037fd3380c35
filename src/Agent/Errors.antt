-- ===== src/Agent/Errors.antt =====
-- pkg/agent/error_classify.go: which errors of the model are overflows of the context window. `contains`
-- and `to_lower` are Go's functions on strings.
use vikram.Base.{String, Bool, true, false, ◌&&◌, List, [], ◌∷◌, any, if◌then◌else◌}

-- A keyword, of which one qualifier must stand in the message as well.
pub record CompoundPattern : Type 0 where
  pub keyword : String
  pub qualifiers : List String

abbrev pub context_error_exclusions : List String
context_error_exclusions =
    "invalid token" ∷ "token expired" ∷ "token revoked" ∷ "invalid api key" ∷ "invalid api_key"
    ∷ "unauthorized" ∷ "forbidden" ∷ "authentication" ∷ "401" ∷ "403" ∷ "too many requests"
    ∷ "rate limit" ∷ "quota exceeded" ∷ "quota exhausted" ∷ "429" ∷ []

abbrev pub context_error_exact_patterns : List String
context_error_exact_patterns =
    "content_length_exceeded" ∷ "context_length_exceeded" ∷ "max_tokens" ∷ "maximum context length"
    ∷ "context window" ∷ "reduce the length" ∷ "reduce your prompt" ∷ "payload too large"
    ∷ "request entity too large" ∷ "input too long" ∷ "prompt is too long" ∷ "total tokens exceeded"
    ∷ "token limit" ∷ "context_length" ∷ "maximum model length" ∷ "model's maximum context"
    ∷ "too many tokens" ∷ "exceeds the model's limit" ∷ "string too long" ∷ []

abbrev pub context_error_compound_patterns : List CompoundPattern
context_error_compound_patterns =
    record {
      keyword = "token";
      qualifiers =
          "limit" ∷ "exceed" ∷ "maximum" ∷ "overflow" ∷ "too many" ∷ "too long" ∷ "reduce" ∷ [];
    }
    ∷ record {
      keyword = "context";
      qualifiers = "length" ∷ "exceed" ∷ "limit" ∷ "overflow" ∷ "window" ∷ "too long" ∷ [];
    }
    ∷ record {
      keyword = "length";
      qualifiers = "exceed" ∷ "limit" ∷ "maximum" ∷ "too long" ∷ "overflow" ∷ "invalid" ∷ [];
    }
    ∷ record { keyword = "413"; qualifiers = "payload" ∷ "entity" ∷ "large" ∷ "request" ∷ [] }
    ∷ []

module _ (contains : String → String → Bool) where
  pub matches_compound : String → CompoundPattern → Bool
  matches_compound lower cp = contains lower cp.keyword && any (contains lower) cp.qualifiers

  unfoldable pub is_context_window_error : (String → String) → String → Bool
  unfolding matches_compound
  is_context_window_error to_lower message =
      let lower = to_lower message in
      if any (contains lower) context_error_exclusions
      then false
      else if any (contains lower) context_error_exact_patterns
      then true
      else any (matches_compound lower) context_error_compound_patterns
