-- ===== src/Chat/Replies.antt =====
-- What a reply of the service gives: `chat` of backend/src/ai-center/ai-center.service.ts from the
-- body on.
use Prim.Native.Char.{code}
use widget_demo.Prelude.{
  ℕ, String, Bool, true, false, ◌&&◌, ◌||◌, not, Option, none, some, List, [], ◌∷◌, ◌==◌, ◌=ℕ◌, leb,
  ltb, or_else, if◌then◌else◌, is_some, Result, ok, err, length,
}
use widget_demo.Table.{string_eq, Table, lookup}
use widget_demo.Texts.{codes, strip_prefix, is_truthy}
use widget_demo.Claims.{contains_key, is_blank}

-- a parsed body; `nothing` is null or missing, `whole` a whole number from 0 on, `number` any other
mutual
  pub data Value : Type 0 where
    nothing number : Value
    truth : Bool → Value
    whole : ℕ → Value
    string : String → Value
    array : Values → Value
    object : Fields → Value

  pub data Values : Type 0 where
    nil : Values
    cons : Value → Values → Values

  pub data Fields : Type 0 where
    end : Fields
    field : String → Value → Fields → Fields

pub record Failure : Type 0 where
  pub status : ℕ
  pub code : String
  pub message : String
  pub request_id : String
  pub retryable : Bool
  pub upstream_status : Option ℕ

pub record Usage : Type 0 where
  pub input_tokens : ℕ
  pub output_tokens : ℕ
  pub total_tokens : ℕ

pub record ChatResult : Type 0 where
  pub content : String
  pub model : String
  pub request_id : String
  pub finish_reason : Option String
  pub usage : Option Usage

abbrev pub failure : ℕ → String → String → String → Bool → Option ℕ → Failure
failure status code message request_id retryable upstream_status = record {
  status = status;
  code = code;
  message = message;
  request_id = request_id;
  retryable = retryable;
  upstream_status = upstream_status;
}

abbrev pub error_codes : List String
error_codes =
    "invalid_request" ∷ "context_policy_exceeded" ∷ "api_key_missing" ∷ "api_key_invalid"
    ∷ "api_key_revoked" ∷ "api_key_disabled" ∷ "capability_not_allowed" ∷ "model_not_authorized"
    ∷ "model_unavailable" ∷ "quota_exceeded" ∷ "concurrency_limit_exceeded" ∷ "timeout"
    ∷ "service_unavailable" ∷ "upstream_http_error" ∷ "upstream_timeout" ∷ "provider_auth_failed"
    ∷ "provider_authentication_failed" ∷ "provider_invalid_request" ∷ "provider_upstream_error"
    ∷ "provider_malformed_response" ∷ "provider_unavailable" ∷ "provider_not_ready"
    ∷ "provider_disabled" ∷ "provider_timeout" ∷ "provider_rate_limited" ∷ "model_disabled"
    ∷ "model_not_ready" ∷ []

abbrev auth_failed : String
auth_failed = "模型服务商鉴权失败，请联系 AI Center 管理员检查服务商密钥或上游授权，并在模型测试页验证。"

abbrev upstream_failed : String
upstream_failed = "模型服务商暂时异常，请稍后重试；若持续失败，请联系 AI Center 管理员。"

abbrev timed_out : String
timed_out = "模型服务商响应超时，请稍后重试；若持续失败，请联系 AI Center 管理员检查网络和超时配置。"

abbrev pub error_messages : Table String String
error_messages =
    ("provider_auth_failed", auth_failed)
    ∷ ("provider_authentication_failed", auth_failed)
    ∷ ("provider_invalid_request", "模型服务商拒绝了请求，请联系 AI Center 管理员检查模型参数、能力和适配器请求映射。")
    ∷ ("provider_malformed_response", "模型服务商响应格式无效，请联系 AI Center 管理员检查适配器和上游 API 兼容性。")
    ∷ ("provider_upstream_error", upstream_failed)
    ∷ ("upstream_http_error", upstream_failed)
    ∷ ("provider_timeout", timed_out)
    ∷ ("upstream_timeout", timed_out)
    ∷ ("provider_unavailable", "模型服务商暂不可用，请稍后重试或联系 AI Center 管理员检查服务商健康状态。")
    ∷ ("provider_not_ready", "模型服务商尚未就绪，请稍后重试或联系 AI Center 管理员检查健康状态。")
    ∷ ("model_not_ready", "模型尚未就绪，请稍后重试或联系 AI Center 管理员检查模型健康状态。")
    ∷ ("provider_disabled", "模型服务商已停用，请联系 AI Center 管理员启用或切换服务商。")
    ∷ ("model_disabled", "模型已停用，请联系 AI Center 管理员启用或切换模型。")
    ∷ ("provider_rate_limited", "模型服务商限流，请稍后重试或联系 AI Center 管理员调整额度策略。")
    ∷ []

unfoldable pub status_message : ℕ → String
status_message status =
    if status =ℕ 400
    then "AI Center 拒绝了请求，请检查模型、消息长度和参数范围。"
    else if status =ℕ 401
    then "AI Center API Key 无效或已撤销，请联系管理员检查配置。"
    else if status =ℕ 403
    then "AI Center 调用未获授权，请联系管理员检查 API Key 状态、对话能力和模型授权。"
    else if status =ℕ 429
    then "AI Center 额度或并发数已达限制，请稍后重试或联系管理员。"
    else if status =ℕ 503
    then "AI Center 服务暂不可用，请稍后重试。"
    else "AI Center 调用失败，请稍后重试或联系管理员。"

unfoldable pub get : String → Fields → Value
get key end = nothing
get key (field name value fields) =
    let rest = get key fields in elim (key == name) [ true ↦ value | false ↦ rest ]

-- the helper `record`
abbrev pub fields_of : Value → Fields
fields_of (object fields) = fields
fields_of _ = end

abbrev pub first : Value → Value
first (array (cons item items)) = item
first _ = nothing

abbrev pub string_of : Value → Option String
string_of (string text) = some text
string_of _ = none

unfoldable pub includes : List ℕ → List ℕ → Bool
includes part [] = is_some (strip_prefix part [])
includes part (c ∷ text) =
    let rest = includes part text in is_some (strip_prefix part (c ∷ text)) || rest

-- `[A-Za-z0-9_.:-]`
unfoldable pub is_id_code : ℕ → Bool
is_id_code n =
    (leb 97 n && leb n 122)
    || ((leb 65 n && leb n 90) || ((leb 48 n && leb n 58) || (n =ℕ 95 || (n =ℕ 46 || n =ℕ 45))))

abbrev pub all_id_codes : List ℕ → Bool
all_id_codes [] = true
all_id_codes (n ∷ text) = is_id_code n && all_id_codes text

unfoldable pub has_key : Option String → String → Bool
has_key none text = false
has_key (some key) text = includes (codes key) (codes text)

unfoldable pub is_safe_id : Option String → String → Bool
is_safe_id api_key text =
    all_id_codes (codes text)
    && (leb 1 (length (codes text))
        && (leb (length (codes text)) 128 && not (has_key (is_truthy api_key) text)))

unfoldable pub safe_request_id : Option String → Value → Option String
safe_request_id api_key (string text) = if is_safe_id api_key text then some text else none
safe_request_id api_key _ = none

unfoldable pub token_count : Value → Option ℕ
token_count (whole n) = if ltb n 9007199254740992 then some n else none
token_count _ = none

abbrev usage_from : Option ℕ → Option ℕ → Option ℕ → Option Usage
usage_from (some input) (some output) (some total) =
    some (record { input_tokens = input; output_tokens = output; total_tokens = total })
usage_from _ _ _ = none

unfoldable pub usage_of : Fields → Option Usage
usage_of usage =
    usage_from (token_count (get "input_tokens" usage)) (token_count (get "output_tokens" usage))
      (token_count (get "total_tokens" usage))

-- the flat envelope, or the nested one
unfoldable pub error_of : Fields → Fields
error_of body = if is_some (string_of (get "code" body)) then body else fields_of (get "error" body)

abbrev known : String → String
known code = if contains_key code error_codes then code else "upstream_error"

unfoldable pub code_of : Option String → String
code_of none = "upstream_error"
code_of (some code) = known code

abbrev pub is_true : Value → Bool
is_true (truth b) = b
is_true _ = false

abbrev pub passed_on : ℕ → ℕ
passed_on status =
    if status =ℕ 400 || (status =ℕ 403 || (status =ℕ 429 || (status =ℕ 503 || status =ℕ 504)))
    then status
    else 502

-- `response.ok`
abbrev pub is_ok : ℕ → Bool
is_ok status = leb 200 status && leb status 299

module _ (api_key : Option String) (request_id : String) (model : Option String) (status : ℕ) where
  abbrev pub id_in : Fields → String → String
  id_in fields default = or_else (safe_request_id api_key (get "request_id" fields)) default

  unfoldable pub refusal : Fields → Fields → Failure
  refusal body error =
      failure (passed_on status) (code_of (string_of (get "code" error)))
        (or_else (lookup (code_of (string_of (get "code" error))) error_messages)
          (status_message status))
        (id_in body (id_in error request_id)) (is_true (get "retryable" error)) (some status)

  unfoldable pub result_of : Fields → Fields → Option String → Result Failure ChatResult
  result_of body choice none = err (
      failure 502 "invalid_upstream_response" "AI Center 返回了无法识别的响应，请联系管理员。" (id_in body request_id)
        false (some status))
  result_of body choice (some content) =
      if is_blank content
      then err (
          failure 502 "invalid_upstream_response" "AI Center 返回了无法识别的响应，请联系管理员。"
            (id_in body request_id) false (some status))
      else ok (record {
        content = content;
        model = or_else (string_of (get "model" body)) (or_else (is_truthy model) "default");
        request_id = id_in body request_id;
        finish_reason = string_of (get "finish_reason" choice);
        usage = usage_of (fields_of (get "usage" body));
      })

  abbrev pub choice_of : Fields → Fields
  choice_of body = fields_of (first (get "choices" body))

  unfoldable pub read_reply : Value → Result Failure ChatResult
  read_reply payload =
      if is_ok status
      then result_of (fields_of payload) (choice_of (fields_of payload))
          (string_of (get "content" (fields_of (get "message" (choice_of (fields_of payload))))))
      else err (refusal (fields_of payload) (error_of (fields_of payload)))
