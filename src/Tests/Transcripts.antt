-- ===== src/Tests/Transcripts.antt =====
-- An assistant calls two tools, and is answered.
use eventide.Prelude.{◌≡◌, refl, List, [], ◌∷◌, none, some, true, false, String_discrete}
use eventide.Runtime.{ok}
use eventide.Messages.{
  tool_use, other_block, text, blocks, Message, said, ended, unread, MessageEvent, results_message,
  read_fact, project_messages,
}
use eventide.Messages.Calls.{answers_only}
use eventide.Messages.Answers.{project_messages-answers_only}

abbrev question : Message
question = record { role = "user"; content = text "Where is it?" }

abbrev assistant_calls : Message
assistant_calls = record {
  role = "assistant";
  content = blocks (other_block "text" ∷ tool_use "a" ∷ tool_use "b" ∷ []);
}

-- Two results, the second of an abandoned call; one more has been answered before.
abbrev transcript : List MessageEvent
transcript =
    record { partial = false; fact = said (some question) }
    ∷ record { partial = true; fact = said (some assistant_calls) }
    ∷ record { partial = false; fact = said (some assistant_calls) }
    ∷ record { partial = false; fact = unread }
    ∷ record {
      partial = false;
      fact =
          ended
            (record { call_id = "b"; done = true; content = some "found"; is_error = some false });
    }
    ∷ record {
      partial = false;
      fact = ended (record { call_id = "b"; done = true; content = none; is_error = none });
    }
    ∷ record {
      partial = false;
      fact = ended (record { call_id = "a"; done = false; content = none; is_error = none });
    }
    ∷ []

abbrev answered : List Message
answered =
    question
    ∷ assistant_calls
    ∷ results_message (
        record { tool_use_id = "b"; content = "found"; is_error = false }
        ∷ record {
          tool_use_id = "a";
          content = "Tool abandoned after interruption";
          is_error = true;
        }
        ∷ [])
    ∷ []

transcript_answered : project_messages none transcript ≡ ok answered
unfolding String_discrete project_messages read_fact
transcript_answered = refl

project_messages-answers_only_example : answers_only [] answered ≡ true
project_messages-answers_only_example =
    project_messages-answers_only none transcript answered refl transcript_answered
