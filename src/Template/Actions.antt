-- ===== src/Template/Actions.antt =====
-- domain/src/workflow-actions.ts: the validation of the actions of a template. Whether a text is a
-- URL, and with which protocol, is up to the URL class of the runtime, a parameter.
pub mod Exact
use Prim.Native.String
use approvio.Base.{
  ℕ, String, Option, none, some, Bool, true, false, not, List, [], ◌∷◌, if◌then◌else◌, ◌==◌, ◌&&◌,
  ◌||◌, nat_eq,
}
use approvio.Base.Dict.{Dict}
use approvio.Base.Text.{codes}
use approvio.Base.Result.{Result, left, right, ◌>>=◌, ◌>>◌, reject_if, require}
use approvio.Email.{is_email}
use approvio.Json
use approvio.Json.{Json, Items, Fields, get, string_of, object_of, array_of, undefined}
use approvio.Template.{
  HttpMethod, get as get_method, post, put, RedactScope, headers, url, everything, WorkflowAction,
  email, webhook, slack,
}

-- `WorkflowActionValidationError`
pub data ActionError : Type 0 where
  type_invalid recipients_empty recipients_invalid_email url_invalid method_invalid
        missing_http_method headers_invalid webhook_url_invalid redact_invalid :
      ActionError

-- `WorkflowActionType`
pub data ActionType : Type 0 where
  of_email of_webhook of_slack : ActionType

-- `getStringAsEnum` over each of the three enums
unfoldable pub action_type_of : String → Option ActionType
action_type_of s =
    if s == "EMAIL"
    then some of_email
    else if s == "WEBHOOK"
    then some of_webhook
    else if s == "SLACK"
    then some of_slack
    else none

unfoldable pub method_of : String → Option HttpMethod
method_of s =
    if s == "GET"
    then some get_method
    else if s == "POST"
    then some post
    else if s == "PUT"
    then some put
    else none

unfoldable pub redact_of : String → Option RedactScope
redact_of s =
    if s == "HEADERS"
    then some headers
    else if s == "URL"
    then some url
    else if s == "ALL"
    then some everything
    else none

-- `new URL(url).protocol`, if the text is a URL
pub record Urls : Type 0 where
  pub protocol : String → Option String

-- `isValidHttpOrHttpsUrl`
unfoldable pub is_valid_http_or_https_url : Urls → String → Bool
is_valid_http_or_https_url urls s = elim (urls.protocol s) [
  | none ↦ false
  | some p ↦ p == "http:" || p == "https:"
]

-- `s.startsWith(prefix)`, over code points
unfoldable pub starts_with : List ℕ → List ℕ → Bool
starts_with s [] = true
starts_with [] (p ∷ ps) = false
starts_with (c ∷ s) (p ∷ ps) = nat_eq c p && starts_with s ps

-- `isValidSlackWebhookUrl`, of domain/src/workflow-tasks/slack-task.ts
unfoldable pub is_valid_slack_webhook_url : String → Bool
unfolding starts_with
is_valid_slack_webhook_url s = starts_with (codes s) (codes "https://hooks.slack.com")

-- The loop over the recipients
unfoldable pub recipients_of : Items → Result ActionError (List String)
recipients_of Json.nil = right []
recipients_of (Json.cons v vs) = do
  s ← require (string_of v) recipients_invalid_email
  reject_if (not (is_email s)) recipients_invalid_email
  rest ← recipients_of vs
  right (s ∷ rest)

abbrev is_empty : Items → Bool
is_empty Json.nil = true
is_empty (Json.cons _ _) = false

-- `validateEmailAction`
unfoldable pub validate_email_action : Fields → Result ActionError WorkflowAction
unfolding recipients_of
validate_email_action fs = do
  items ← require (array_of (get "recipients" fs)) recipients_empty
  reject_if (is_empty items) recipients_empty
  recipients ← recipients_of items
  right (email recipients)

-- The loop over the headers
unfoldable pub header_values : Fields → Result ActionError (Dict String)
header_values Json.end = right []
header_values (Json.field k v fs) = do
  s ← require (string_of v) headers_invalid
  rest ← header_values fs
  right ((k, s) ∷ rest)

unfoldable pub validate_headers : Json → Result ActionError (Option (Dict String))
unfolding header_values
validate_headers undefined = right none
validate_headers v = do
  fs ← require (object_of v) headers_invalid
  hs ← header_values fs
  right (some hs)

unfoldable pub validate_redact : Json → Result ActionError (Option RedactScope)
unfolding redact_of
validate_redact undefined = right none
validate_redact v = do
  s ← require (string_of v) redact_invalid
  scope ← require (redact_of s) redact_invalid
  right (some scope)

-- The three tests of `data.method`
unfoldable pub validate_method : Json → Result ActionError HttpMethod
unfolding method_of
validate_method undefined = left missing_http_method
validate_method v = do
  s ← require (string_of v) method_invalid
  require (method_of s) method_invalid

-- `validateWebhookAction`
unfoldable pub validate_webhook_action : Urls → Fields → Result ActionError WorkflowAction
unfolding is_valid_http_or_https_url validate_method validate_headers validate_redact
validate_webhook_action urls fs = do
  address ← require (string_of (get "url" fs)) url_invalid
  reject_if (not (is_valid_http_or_https_url urls address)) url_invalid
  method ← validate_method (get "method" fs)
  hs ← validate_headers (get "headers" fs)
  redact ← validate_redact (get "redact" fs)
  right (webhook address method hs redact)

-- `validateSlackAction`
unfoldable pub validate_slack_action : Urls → Fields → Result ActionError WorkflowAction
unfolding is_valid_http_or_https_url is_valid_slack_webhook_url
validate_slack_action urls fs = do
  address ← require (string_of (get "webhookUrl" fs)) webhook_url_invalid
  reject_if (not (is_valid_http_or_https_url urls address)) webhook_url_invalid
  reject_if (not (is_valid_slack_webhook_url address)) webhook_url_invalid
  right (slack address)

unfoldable pub validate_by_type : Urls → ActionType → Fields → Result ActionError WorkflowAction
unfolding validate_email_action validate_webhook_action validate_slack_action
validate_by_type urls of_email fs = validate_email_action fs
validate_by_type urls of_webhook fs = validate_webhook_action urls fs
validate_by_type urls of_slack fs = validate_slack_action urls fs

-- `validateWorkflowAction`
unfoldable pub validate_workflow_action : Urls → Json → Result ActionError WorkflowAction
unfolding action_type_of validate_by_type
validate_workflow_action urls action = do
  fs ← require (object_of action) type_invalid
  s ← require (string_of (get "type" fs)) type_invalid
  type ← require (action_type_of s) type_invalid
  validate_by_type urls type fs

-- `traverseArray(validateWorkflowAction)`
unfoldable pub traverse_actions : Urls → Items → Result ActionError (List WorkflowAction)
unfolding validate_workflow_action
traverse_actions urls Json.nil = right []
traverse_actions urls (Json.cons v vs) = do
  a ← validate_workflow_action urls v
  rest ← traverse_actions urls vs
  right (a ∷ rest)

-- `validateWorkflowActions`: what is no array counts as no actions
unfoldable pub validate_workflow_actions : Urls → Json → Result ActionError (List WorkflowAction)
unfolding traverse_actions
validate_workflow_actions urls actions = elim (array_of actions) [
  | none ↦ right []
  | some items ↦ traverse_actions urls items
]
