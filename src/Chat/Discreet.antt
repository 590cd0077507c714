-- ===== src/Chat/Discreet.antt =====
-- What of a service's reply is passed on.
use widget_demo.Prelude.{
  ℕ, String, Bool, true, false, ◌||◌, ◌≡◌, refl, inl, inr, Option, none, some, ◌=ℕ◌, or_else,
  Result, ok, err, arith, Bool-cases, Option-cases,
}
use widget_demo.Table.{string_eq, lookup}
use widget_demo.Claims.{contains_key, is_blank}
use widget_demo.Chat.{
  Config, ChatInput, Call, Fetched, lost, replied, status, model_of, read_fetched, chat,
}
use widget_demo.Chat.Replies.{
  is_ok, Value, string, Fields, Failure, ChatResult, error_codes, error_messages, status_message,
  get, string_of, is_safe_id, safe_request_id, code_of, passed_on, id_in, refusal, result_of,
  read_reply,
}

-- the codes and the messages of this program
pub data IsOwnCode : String → Type 0 where
  no_settings : IsOwnCode "ai_center_not_configured"
  timeout : IsOwnCode "ai_center_timeout"
  unavailable : IsOwnCode "ai_center_unavailable"
  unreadable : IsOwnCode "invalid_upstream_response"
  unknown : IsOwnCode "upstream_error"
  listed : (code : String) → contains_key code error_codes ≡ true → IsOwnCode code

pub data IsOwnMessage : String → Type 0 where
  no_settings : IsOwnMessage "AI Center 尚未配置，请联系管理员设置服务地址和 API Key。"
  timeout : IsOwnMessage "AI Center 响应超时，请稍后重试。"
  unavailable : IsOwnMessage "暂时无法连接 AI Center，请稍后重试或联系管理员。"
  unreadable : IsOwnMessage "AI Center 返回了无法识别的响应，请联系管理员。"
  of_code :
      (code message : String) → lookup code error_messages ≡ some message → IsOwnMessage message
  of_status : (status : ℕ) → IsOwnMessage (status_message status)

abbrev pub is_status : ℕ → Bool
is_status n = n =ℕ 400 || (n =ℕ 403 || (n =ℕ 429 || (n =ℕ 502 || (n =ℕ 503 || n =ℕ 504))))

code_of-IsOwnCode : (code : Option String) → IsOwnCode (code_of code)
unfolding code_of
code_of-IsOwnCode none = IsOwnCode.unknown
code_of-IsOwnCode (some code) = elim (Bool-cases (contains_key code error_codes)) [
  | inl known ↦ rw known (IsOwnCode.listed code known)
  | inr other ↦ rw other IsOwnCode.unknown
]

message-IsOwnMessage :
    (code : String) (status : ℕ)
    → IsOwnMessage (or_else (lookup code error_messages) (status_message status))
message-IsOwnMessage code status = elim (Option-cases (lookup code error_messages)) [
  | inl missing ↦ rw missing (IsOwnMessage.of_status status)
  | inr (message, found) ↦ rw found (IsOwnMessage.of_code code message found)
]

passed_on_lem : (status : ℕ) → is_status (passed_on status) ≡ true
passed_on_lem status = ground arith

module _ (api_key : Option String) (request_id : String) where
  -- the identifier is this program's, or a short text of harmless characters without the key
  pub data IsHarmless : String → Type 0 where
    own : IsHarmless request_id
    safe : (text : String) → is_safe_id api_key text ≡ true → IsHarmless text

  safe_request_id-cases :
      (value : Value) (default : String)
      → IsHarmless default
      → IsHarmless (or_else (safe_request_id api_key value) default)
  unfolding safe_request_id
  safe_request_id-cases (string text) default h = elim (Bool-cases (is_safe_id api_key text)) [
    | inl good ↦ rw good (IsHarmless.safe text good)
    | inr bad ↦ rw bad h
  ]
  safe_request_id-cases _ default h = h

  pub record IsDiscreet (failure : Failure) : Type 0 where
    pub status : is_status failure.status ≡ true
    pub code : IsOwnCode failure.code
    pub message : IsOwnMessage failure.message
    pub id : IsHarmless failure.request_id

  pub data IsEnded : Result Failure ChatResult → Type 0 where
    failed : (failure : Failure) → IsDiscreet failure → IsEnded (err failure)
    answered :
        (result : ChatResult)
        → is_blank result.content ≡ false
        → IsHarmless result.request_id
        → IsEnded (ok result)

  module _ (model : Option String) (status : ℕ) where
    unreadable-IsEnded :
        (body : Fields)
        → IsEnded (
            err (record {
              status = 502;
              code = "invalid_upstream_response";
              message = "AI Center 返回了无法识别的响应，请联系管理员。";
              request_id = id_in api_key request_id model status body request_id;
              retryable = false;
              upstream_status = some status;
            }))
    unreadable-IsEnded body = IsEnded.failed _ (record {
      status = refl;
      code = IsOwnCode.unreadable;
      message = IsOwnMessage.unreadable;
      id = safe_request_id-cases (get "request_id" body) request_id IsHarmless.own;
    })

    result_of-IsEnded :
        (body choice : Fields) (content : Option String)
        → IsEnded (result_of api_key request_id model status body choice content)
    unfolding result_of
    result_of-IsEnded body choice none = unreadable-IsEnded body
    result_of-IsEnded body choice (some content) = elim (Bool-cases (is_blank content)) [
      | inl blank ↦ rw blank (unreadable-IsEnded body)
      | inr full ↦ rw full (
          IsEnded.answered _ full
            (safe_request_id-cases (get "request_id" body) request_id IsHarmless.own))
    ]

    refusal-IsDiscreet :
        (body error : Fields) → IsDiscreet (refusal api_key request_id model status body error)
    unfolding refusal
    refusal-IsDiscreet body error = record {
      status = passed_on_lem status;
      code = code_of-IsOwnCode (string_of (get "code" error));
      message = message-IsOwnMessage (code_of (string_of (get "code" error))) status;
      id =
          safe_request_id-cases (get "request_id" body) _
            (safe_request_id-cases (get "request_id" error) request_id IsHarmless.own);
    }

    read_reply-IsEnded :
        (payload : Value) → IsEnded (read_reply api_key request_id model status payload)
    unfolding read_reply
    read_reply-IsEnded payload = elim (Bool-cases (is_ok status)) [
      | inl good ↦ rw good (result_of-IsEnded _ _ _)
      | inr bad ↦ rw bad (IsEnded.failed _ (refusal-IsDiscreet _ _))
    ]

  fetched-IsEnded :
      (model : Option String) (fetched : Fetched)
      → IsEnded (read_fetched api_key request_id model fetched)
  unfolding read_fetched
  fetched-IsEnded model (lost true) = IsEnded.failed _ (record {
    status = refl;
    code = IsOwnCode.timeout;
    message = IsOwnMessage.timeout;
    id = IsHarmless.own;
  })
  fetched-IsEnded model (lost false) = IsEnded.failed _ (record {
    status = refl;
    code = IsOwnCode.unavailable;
    message = IsOwnMessage.unavailable;
    id = IsHarmless.own;
  })
  fetched-IsEnded model (replied status payload) = read_reply-IsEnded model status payload

-- Whatever the service replies, a chat ends either with an answer that is not blank, or with a failure
-- whose status, code and message are among those of this program; the identifier of either is this
-- program's own, or a text of at most 128 harmless characters that does not contain the API key.
pub chat-IsEnded :
    {N : Type 0} (cool : N) (fetch : Call N → Fetched) (config : Config) (request_id : String)
    (input : ChatInput N)
    → IsEnded config.api_key request_id (chat cool fetch config request_id input)
unfolding chat
chat-IsEnded cool fetch config request_id input = elim (Bool-cases (status config).configured) [
  | inl set ↦ rw set (fetched-IsEnded config.api_key request_id (model_of config input) _)
  | inr missing ↦ rw missing (
      IsEnded.failed _ (record {
        status = refl;
        code = IsOwnCode.no_settings;
        message = IsOwnMessage.no_settings;
        id = IsHarmless.own;
      }))
]
