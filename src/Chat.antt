-- ===== src/Chat.antt =====
-- The relay of chats to a model: backend/src/ai-center/ai-center.service.ts. `fetch`, with its timeout
-- and the parsing of the body, is a parameter; `requestId` is an argument.
pub mod Replies
pub mod Discreet
mod Tests
use Prim.Native.String.{◌++◌ as concat}
use widget_demo.Prelude.{
  ℕ, String, Bool, true, false, ◌&&◌, ◌||◌, Option, none, some, List, [], ◌∷◌, or_else,
  if◌then◌else◌, is_some, Result, err,
}
use widget_demo.Texts.{is_truthy}
use widget_demo.Chat.Replies.{Value, Failure, ChatResult, failure, read_reply}

pub record Config : Type 0 where
  pub base_url : Option String
  pub api_key : Option String
  pub model : Option String

pub record Message : Type 0 where
  pub role : String
  pub content : String

pub record ChatInput (N : Type 0) : Type 0 where
  pub messages : List Message
  pub model : Option String
  pub max_tokens : Option ℕ
  pub temperature : Option N

-- what is sent: the address, the headers that vary, and the body
pub record Call (N : Type 0) : Type 0 where
  pub url : String
  pub authorization : String
  pub request_id : String
  pub messages : List Message
  pub model : Option String
  pub max_tokens : ℕ
  pub temperature : N

-- an exception of `fetch`, or a response with its parsed body (`nothing` if it does not parse)
pub data Fetched : Type 0 where
  lost : (timed_out : Bool) → Fetched
  replied : (status : ℕ) → (payload : Value) → Fetched

pub record Status : Type 0 where
  pub configured : Bool
  pub default_model : Option String

unfoldable pub status : Config → Status
status config = record {
  configured = is_some (is_truthy config.base_url) && is_some (is_truthy config.api_key);
  default_model = is_truthy config.model;
}

-- `input.model || …`
unfoldable pub model_of : {N : Type 0} → Config → ChatInput N → Option String
model_of config input = elim (is_truthy input.model) [
  | some model ↦ some model
  | none ↦ is_truthy config.model
]

-- `cool` is the temperature 0.2
unfoldable pub call_of : {N : Type 0} → N → Config → String → ChatInput N → Call N
call_of cool config request_id input = record {
  url = concat (or_else config.base_url "undefined") "/ai-center/openapi/v1/chat/completions";
  authorization = concat "Bearer " (or_else config.api_key "undefined");
  request_id = request_id;
  messages = input.messages;
  model = model_of config input;
  max_tokens = or_else input.max_tokens 512;
  temperature = or_else input.temperature cool;
}

abbrev pub lost_reply : String → Bool → Failure
lost_reply request_id true =
    failure 504 "ai_center_timeout" "AI Center 响应超时，请稍后重试。" request_id true none
lost_reply request_id false =
    failure 502 "ai_center_unavailable" "暂时无法连接 AI Center，请稍后重试或联系管理员。" request_id true none

unfoldable pub read_fetched :
    Option String → String → Option String → Fetched → Result Failure ChatResult
read_fetched api_key request_id model (lost timed_out) = err (lost_reply request_id timed_out)
read_fetched api_key request_id model (replied status payload) =
    read_reply api_key request_id model status payload

abbrev pub not_configured : String → Failure
not_configured request_id =
    failure 503 "ai_center_not_configured" "AI Center 尚未配置，请联系管理员设置服务地址和 API Key。" request_id false
      none

unfoldable pub chat :
    {N : Type 0}
    → N
    → (Call N → Fetched)
    → Config
    → String
    → ChatInput N
    → Result Failure ChatResult
chat cool fetch config request_id input =
    if (status config).configured
    then read_fetched config.api_key request_id (model_of config input)
        (fetch (call_of cool config request_id input))
    else err (not_configured request_id)
