-- ===== src/Chat/Tests.antt =====
-- Replies of a service that sends what it should not.
use widget_demo.Prelude.{ℕ, true, ◌≡◌, refl, none, some, [], ◌∷◌, ok, err, chars}
use widget_demo.Table.{string_eq, lookup}
use widget_demo.Texts.{codes, strip_prefix, is_truthy, trim, trim_start, is_space}
use widget_demo.Claims.{required_text, shown}
use widget_demo.Chat.{
  Config, ChatInput, Call, Fetched, replied, status, model_of, call_of, read_fetched, chat,
}
use widget_demo.Chat.Replies.{
  truth, whole, string, array, object, nil, cons, end, field, get, includes, is_id_code, has_key,
  is_safe_id, safe_request_id, token_count, usage_of, error_of, code_of, status_message, refusal,
  result_of, read_reply,
}
use widget_demo.Chat.Discreet.{IsEnded, chat-IsEnded}

abbrev config : Config
config = record { base_url = some "https://ai"; api_key = some "sk-1"; model = some "base" }

abbrev input : ChatInput ℕ
input = record {
  messages = record { role = "user"; content = "Hello" } ∷ [];
  model = none;
  max_tokens = none;
  temperature = none;
}

-- a refusal with the key in its identifier and a message of its own
abbrev refuses : Call ℕ → Fetched
refuses call = replied 429 (
    object (
      field "request_id" (string "req.sk-1") (
        field "error"
          (object (
            field "code" (string "quota_exceeded")
              (field "message" (string "sk-1 is over") (field "retryable" (truth true) end))))
          end)))

abbrev answers : Call ℕ → Fetched
answers call = replied 200 (
    object (
      field "request_id" (string "req-7") (
        field "choices"
          (array
            (cons (object (field "message" (object (field "content" (string "Hi") end)) end)) nil))
          (field "usage"
            (object (
              field "input_tokens" (whole 1)
                (field "output_tokens" (whole 2) (field "total_tokens" (whole 3) end))))
            end))))

refused :
    chat 20 refuses config "own" input
    ≡ err (record {
      status = 429;
      code = "quota_exceeded";
      message = "AI Center 额度或并发数已达限制，请稍后重试或联系管理员。";
      request_id = "own";
      retryable = true;
      upstream_status = some 429;
    })
unfolding chat status call_of model_of read_fetched read_reply refusal error_of code_of get
    safe_request_id is_safe_id is_id_code has_key includes strip_prefix status_message lookup
    is_truthy codes chars
refused = refl

answered :
    chat 20 answers config "own" input
    ≡ ok (record {
      content = "Hi";
      model = "base";
      request_id = "req-7";
      finish_reason = none;
      usage = some (record { input_tokens = 1; output_tokens = 2; total_tokens = 3 });
    })
unfolding chat status call_of model_of read_fetched read_reply result_of usage_of token_count get
    safe_request_id is_safe_id is_id_code has_key includes strip_prefix is_truthy codes chars
    required_text shown trim trim_start is_space
answered = refl

chat-IsEnded_example : IsEnded (some "sk-1") "own" (chat 20 refuses config "own" input)
chat-IsEnded_example = chat-IsEnded 20 refuses config "own" input
