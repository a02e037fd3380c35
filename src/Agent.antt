-- ===== src/Agent.antt =====
-- pkg/agent/context.go and pkg/agent/loop.go: what the agent keeps of a session's history, that is the
-- messages it builds for the model, the forced compression and the summaries. `Go` holds what the code
-- takes from Go's library; `chat` is the model's reply to one prompt, none on an error. A token
-- estimate counts characters. The context window is not negative.
pub mod Compression
pub mod Summaries
pub mod Errors
pub mod Council
pub mod Cooldowns
pub mod Iteration
pub mod Turns
mod Examples
mod LoopExamples
use Prim.Native.String.{◌++◌ as text_append, count}
use vikram.Base.{
  ℕ, zero, suc, ◌+◌, ◌-◌, ◌*◌, ◌/◌, String, Bool, true, false, not, ◌&&◌, ◌||◌, List, [], ◌∷◌, ◌++◌,
  Option, none, some, ◌=s=◌, if◌then◌else◌, length, drop, keep, any, ltb, leb,
}
use vikram.Base.Int.{pos}
use vikram.Base.Time.{Time}
use vikram.Providers.{FunctionCall, ToolCall, Message}
use vikram.Session.{SessionManager, get_history, get_summary, set_history, summarize_and_truncate}

pub record Go : Type 0 where
  pub has_prefix : String → String → Bool
  pub contains : String → String → Bool
  pub byte_length : String → ℕ
  pub itoa : ℕ → String

abbrev pub keep_recent_observations : ℕ
keep_recent_observations = 5

abbrev arguments_count : Option FunctionCall → ℕ
arguments_count none = 0
arguments_count (some f) = count f.arguments

abbrev or_nothing : Option String → String
or_nothing none = ""
or_nothing (some s) = s

abbrev merged : String → String → Option String → String
merged s1 s2 none = text_append s1 (text_append " " s2)
merged s1 s2 (some s) = s

pub merge_summaries : (String → Option String) → String → String → String
merge_summaries chat s1 s2 = merged s1 s2 (
    chat (
      text_append "Merge these two conversation summaries into one cohesive summary:\n\n1: "
        (text_append s1 (text_append "\n\n2: " s2))))

pub omission_note : Bool → String → String
omission_note omits summary =
    if omits && not (summary =s= "")
    then text_append summary
        "\n[Note: Some oversized messages were omitted from this summary for efficiency.]"
    else summary

module _ {V : Type 0} where
  abbrev pub plain : String → String → Message V
  plain role content = record { role = role; content = content; tool_calls = []; tool_call_id = "" }

  abbrev pub take_first : ℕ → List (Message V) → List (Message V)
  take_first zero ms = []
  take_first (suc n) [] = []
  take_first (suc n) (m ∷ ms) = m ∷ take_first n ms

  pub call_chars : List (ToolCall V) → ℕ
  call_chars [] = 0
  call_chars (tc ∷ tcs) = arguments_count tc.function + call_chars tcs

  pub total_chars : List (Message V) → ℕ
  unfolding call_chars
  total_chars [] = 0
  total_chars (m ∷ ms) = count m.content + call_chars m.tool_calls + total_chars ms

  pub estimate_tokens : List (Message V) → ℕ
  unfolding total_chars
  estimate_tokens messages = total_chars messages * 2 / 5

  -- The condition of maybeSummarize.
  pub needs_summary : ℕ → List (Message V) → Bool
  unfolding estimate_tokens
  needs_summary context_window history =
      ltb 20 (length history) || ltb (context_window * 75 / 100) (estimate_tokens history)

  -- The loop of BuildMessages over the tool messages at the start.
  pub drop_leading_tools : List (Message V) → List (Message V)
  drop_leading_tools [] = []
  drop_leading_tools (m ∷ ms) =
      let rest = drop_leading_tools ms in if m.role =s= "tool" then rest else m ∷ ms

  pub conversation : List (Message V) → String
  conversation [] = ""
  conversation (m ∷ ms) =
      text_append m.role
        (text_append ": " (text_append m.content (text_append "\n" (conversation ms))))

  pub batch_prompt : List (Message V) → String → String
  unfolding conversation
  batch_prompt batch existing_summary =
      text_append
        "Provide a concise summary of this conversation segment, preserving core context and key points.\n"
        (text_append
          (if existing_summary =s= ""
            then ""
            else text_append "Existing context: " (text_append existing_summary "\n"))
          (text_append "\nCONVERSATION:\n" (conversation batch)))

  -- summarizeBatch, whose error its callers ignore.
  pub summarize_batch : (String → Option String) → List (Message V) → String → String
  unfolding batch_prompt
  summarize_batch chat batch existing_summary =
      or_nothing (chat (batch_prompt batch existing_summary))

  pub final_summary : (String → Option String) → List (Message V) → String → String
  unfolding summarize_batch merge_summaries
  final_summary chat valid summary =
      if ltb 10 (length valid)
      then merge_summaries chat (summarize_batch chat (take_first (length valid / 2) valid) "")
          (summarize_batch chat (drop (length valid / 2) valid) "")
      else summarize_batch chat valid summary

  -- Its end. The store may have changed since the history was read.
  pub store_summary : String → String → Time → SessionManager V → SessionManager V
  unfolding summarize_and_truncate
  store_summary key summary now sm =
      if summary =s= "" then sm else summarize_and_truncate key summary (pos 4) now sm

  module _ (go : Go) where
    abbrev pub elided_observation : Message V → Message V
    elided_observation m = plain "tool" (
        text_append "[earlier observation elided — "
          (text_append (go.itoa (go.byte_length m.content)) " chars]"))

    abbrev pub elided_file : Message V → Message V
    elided_file m = plain "user" (
        text_append "[earlier file view elided — "
          (text_append (go.itoa (go.byte_length m.content)) " chars]"))

    -- An old message, as the loop of compressHistory appends it.
    pub elide : Message V → Message V
    elide m =
        if m.role =s= "tool" || m.role =s= "user"
        then if go.has_prefix m.content "Observation:"
          then elided_observation m
          else if go.contains m.content "File:" && ltb 500 (go.byte_length m.content)
          then elided_file m
          else m
        else m

    -- The loop: `old` messages are left before those that are kept.
    pub compress_from : ℕ → List (Message V) → List (Message V)
    unfolding elide
    compress_from old [] = []
    compress_from zero (m ∷ ms) = m ∷ ms
    compress_from (suc old) (m ∷ ms) = elide m ∷ compress_from old ms

    pub compress_history : List (Message V) → List (Message V)
    unfolding compress_from
    compress_history history =
        if leb (length history) (keep_recent_observations + 2)
        then history
        else compress_from (length history - keep_recent_observations) history

    -- `system_prompt` is the prompt with the session's line and the summary.
    pub build_messages : String → List (Message V) → String → List (Message V)
    unfolding drop_leading_tools compress_history
    build_messages system_prompt history current_message =
        plain "system" system_prompt
        ∷ (compress_history (drop_leading_tools history)
            ++ (if current_message =s= "" then [] else plain "user" current_message ∷ []))

    pub compression_note : ℕ → Message V
    compression_note dropped = plain "user" (
        text_append "[System note: " (
          text_append (go.itoa dropped)
            " older messages were dropped due to context window limits. Conversation continues from here.]"))

    pub force_compression : String → Time → SessionManager V → SessionManager V
    unfolding compression_note get_history set_history
    force_compression key now sm =
        let history = get_history key sm in
        let drop_count = length history / 2 in
        if leb (length history) 4
        then sm
        else set_history key (compression_note drop_count ∷ drop drop_count history) now sm

    abbrev speaks : Message V → Bool
    speaks m = m.role =s= "user" || m.role =s= "assistant"

    abbrev oversized : ℕ → Message V → Bool
    oversized context_window m = ltb (context_window / 2) (go.byte_length m.content / 2)

    -- The loop of summarizeSession: the messages that are summarised, and whether one was too large.
    pub valid_messages : ℕ → List (Message V) → List (Message V)
    valid_messages context_window = keep (λ m. speaks m && not (oversized context_window m))

    pub omitted : ℕ → List (Message V) → Bool
    omitted context_window = any (λ m. speaks m && oversized context_window m)

    -- summarizeSession up to the model's last reply: the new summary, "" if there is none to store.
    pub new_summary : (String → Option String) → ℕ → String → SessionManager V → String
    unfolding get_history get_summary valid_messages omitted final_summary omission_note
    new_summary chat context_window key sm =
        let history = get_history key sm in
        let to_summarize = take_first (length history - 4) history in
        let valid = valid_messages context_window to_summarize in
        if leb (length history) 4 || leb (length valid) 0
        then ""
        else omission_note (omitted context_window to_summarize)
            (final_summary chat valid (get_summary key sm))

pub is_terminal_tool_call : String → Bool
is_terminal_tool_call name = name =s= "message" || name =s= "complete_bootstrap"
