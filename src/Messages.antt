-- ===== src/Messages.antt =====
-- The messages of a session as its log gives them: `MessagesProjection` of
-- eventide/projections.py. A block is a dict with a type; of one that is neither a tool call nor
-- a tool result only the type is kept.
pub mod Calls
pub mod Answers
use eventide.Prelude.{
  ◌≡◌, String, List, [], ◌∷◌, ◌++◌, Option, none, some, Bool, true, false, not, ◌==◌, string_eq,
  if◌then◌else◌, select, map,
}
use eventide.Runtime.{Result, ok, err, value_error}
use eventide.Store.State.{contains}

pub record ToolResult : Type 0 where
  pub tool_use_id : String
  pub content : String
  pub is_error : Bool

pub data Block : Type 0 where
  tool_use : String → Block
  tool_result : ToolResult → Block
  other_block : String → Block

-- `message.get("content")`
pub data Content : Type 0 where
  absent : Content
  text : String → Content
  blocks : List Block → Content

pub record Message : Type 0 where
  pub role : String
  pub content : Content

-- The payload of a tool's last event; `done` tells `tool.completed` from `tool.abandoned`.
pub record ToolEnd : Type 0 where
  pub call_id : String
  pub done : Bool
  pub content : Option String
  pub is_error : Option Bool

-- The three branches on `event["type"]`. A message that is missing or empty is none.
pub data MessageFact : Type 0 where
  said : Option Message → MessageFact
  ended : ToolEnd → MessageFact
  unread : MessageFact

pub record MessageEvent : Type 0 where
  pub partial : Bool
  pub fact : MessageFact

pub record Messages : Type 0 where
  pub messages : List Message
  pub pending : List String
  pub results : List ToolResult

-- `{b["id"] for b in content if b.get("type") == "tool_use"}`
abbrev pub calls_in : List Block → List String
calls_in [] = []
calls_in (tool_use identity ∷ bs) = identity ∷ calls_in bs
calls_in (tool_result r ∷ bs) = calls_in bs
calls_in (other_block kind ∷ bs) = calls_in bs

abbrev pub calls_of : Content → List String → List String
calls_of absent pending = pending
calls_of (text t) pending = pending
calls_of (blocks bs) pending = calls_in bs

-- The calls that wait for a result after this message.
abbrev pub pending_after : Message → List String → List String
pending_after m pending = if m.role == "assistant" then calls_of m.content pending else pending

abbrev pub content_or : String → Option String → String
content_or default none = default
content_or default (some content) = content

abbrev pub error_or : Bool → Option Bool → Bool
error_or default none = default
error_or default (some is_error) = is_error

-- `tool_result_content(event) if ... else payload.get(...)`
abbrev pub content_for : Option (ToolEnd → String) → ToolEnd → Bool → String
content_for (some f) end true = f end
content_for (some f) end false = content_or "Tool abandoned after interruption" end.content
content_for none end done = content_or "Tool abandoned after interruption" end.content

abbrev pub result_of : Option (ToolEnd → String) → ToolEnd → ToolResult
result_of f end = record {
  tool_use_id = end.call_id;
  content = content_for f end end.done;
  is_error = error_or true end.is_error;
}

-- `pending.remove(call_id)` on a set
abbrev pub remove_id : String → List String → List String
remove_id identity = select (λ p. not (p == identity))

abbrev pub results_message : List ToolResult → Message
results_message results = record { role = "user"; content = blocks (map tool_result results) }

-- What follows `pending.remove`.
abbrev pub hand_over : List Message → List String → List ToolResult → Messages
hand_over messages [] results = record {
  messages = messages ++ results_message results ∷ [];
  pending = [];
  results = [];
}
hand_over messages (p ∷ ps) results = record {
  messages = messages;
  pending = p ∷ ps;
  results = results;
}

unfoldable pub read_fact : Option (ToolEnd → String) → Messages → MessageFact → Messages
read_fact f st (said none) = st
read_fact f st (said (some m)) = record {
  messages = st.messages ++ m ∷ [];
  pending = pending_after m st.pending;
  results = st.results;
}
read_fact f st (ended end) =
    if contains end.call_id st.pending
    then hand_over st.messages (remove_id end.call_id st.pending)
        (st.results ++ result_of f end ∷ [])
    else st
read_fact f st unread = st

abbrev pub read_event : Option (ToolEnd → String) → Messages → MessageEvent → Messages
read_event f st e = if e.partial then st else read_fact f st e.fact

abbrev pub read_events : Option (ToolEnd → String) → Messages → List MessageEvent → Messages
read_events f st [] = st
read_events f st (e ∷ es) = read_events f (read_event f st e) es

-- The check at the end.
abbrev pub finished_messages : List Message → List String → Result (List Message)
finished_messages messages [] = ok messages
finished_messages messages (p ∷ ps) =
    err (value_error "Incomplete tool history; Continue must resolve pending calls")

unfoldable pub project_messages :
    Option (ToolEnd → String) → List MessageEvent → Result (List Message)
project_messages f events =
    let st = read_events f (record { messages = []; pending = []; results = [] }) events in
    finished_messages st.messages st.pending
