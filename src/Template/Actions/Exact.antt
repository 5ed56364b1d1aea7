-- ===== src/Template/Actions/Exact.antt =====
-- About actions stored as raw values, and their validation by domain/src/workflow-actions.ts.
use approvio.Base.{String, Option, none, some, true, List, [], ◌∷◌, ◌≡◌, refl, All}
use approvio.Base.Dict.{Dict}
use approvio.Base.Result.{right}
use approvio.Email.{is_email}
use approvio.Json
use approvio.Json.{
  Json, Items, Fields, str, arr, obj, end, field, get, string_of, object_of, array_of,
}
use approvio.Template.{
  HttpMethod, get as get_method, post, put, RedactScope, headers, url, everything, WorkflowAction,
  email, webhook, slack,
}
use approvio.Template.Actions.{
  Urls, action_type_of, method_of, redact_of, is_valid_http_or_https_url,
  is_valid_slack_webhook_url, recipients_of, header_values, validate_headers, validate_redact,
  validate_method, validate_email_action, validate_webhook_action, validate_slack_action,
  validate_by_type, validate_workflow_action, traverse_actions, validate_workflow_actions,
}

abbrev strings : List String → Items
strings [] = Json.nil
strings (s ∷ ss) = Json.cons (str s) (strings ss)

abbrev entries : Dict String → Fields
entries [] = end
entries ((k, s) ∷ rest) = field k (str s) (entries rest)

abbrev headers_to_json : Option (Dict String) → Json
headers_to_json none = Json.undefined
headers_to_json (some hs) = obj (entries hs)

abbrev method_value : HttpMethod → String
method_value get_method = "GET"
method_value post = "POST"
method_value put = "PUT"

abbrev redact_to_json : Option RedactScope → Json
redact_to_json none = Json.undefined
redact_to_json (some headers) = str "HEADERS"
redact_to_json (some url) = str "URL"
redact_to_json (some everything) = str "ALL"

-- An action as the raw value that it is stored as.
unfoldable pub action_to_json : WorkflowAction → Json
action_to_json (email recipients) =
    obj (field "type" (str "EMAIL") (field "recipients" (arr (strings recipients)) end))
action_to_json (webhook address method hs redact) = obj (
    field "type" (str "WEBHOOK") (
      field "url" (str address) (
        field "method" (str (method_value method))
          (field "headers" (headers_to_json hs) (field "redact" (redact_to_json redact) end)))))
action_to_json (slack address) =
    obj (field "type" (str "SLACK") (field "webhookUrl" (str address) end))

unfoldable pub actions_to_items : List WorkflowAction → Items
unfolding action_to_json
actions_to_items [] = Json.nil
actions_to_items (a ∷ rest) = Json.cons (action_to_json a) (actions_to_items rest)

-- What a valid action satisfies.
pub data IsAction (urls : Urls) : WorkflowAction → Type 0 where
  to_some :
      {first : String} {rest : List String}
      → All (λ s. is_email s ≡ true) (first ∷ rest)
      → IsAction urls (email (first ∷ rest))
  to_hook :
      {address : String} {method : HttpMethod} {hs : Option (Dict String)}
      {redact : Option RedactScope}
      → is_valid_http_or_https_url urls address ≡ true
      → IsAction urls (webhook address method hs redact)
  to_slack :
      {address : String}
      → is_valid_http_or_https_url urls address ≡ true
      → is_valid_slack_webhook_url address ≡ true
      → IsAction urls (slack address)

recipients_of-strings :
    (ss : List String) → All (λ s. is_email s ≡ true) ss → recipients_of (strings ss) ≡ right ss
unfolding recipients_of
recipients_of-strings [] h = refl
recipients_of-strings (s ∷ ss) (h, hs) = rw (h, recipients_of-strings ss hs) refl

header_values-entries : (hs : Dict String) → header_values (entries hs) ≡ right hs
unfolding header_values
header_values-entries [] = refl
header_values-entries ((k, s) ∷ rest) = rw (header_values-entries rest) refl

validate_headers-to_json :
    (hs : Option (Dict String)) → validate_headers (headers_to_json hs) ≡ right hs
unfolding validate_headers
validate_headers-to_json none = refl
validate_headers-to_json (some hs) = rw (header_values-entries hs) refl

validate_redact-to_json : (r : Option RedactScope) → validate_redact (redact_to_json r) ≡ right r
unfolding validate_redact redact_of
validate_redact-to_json none = refl
validate_redact-to_json (some headers) = refl
validate_redact-to_json (some url) = refl
validate_redact-to_json (some everything) = refl

validate_method-value : (m : HttpMethod) → validate_method (str (method_value m)) ≡ right m
unfolding validate_method method_of
validate_method-value get_method = refl
validate_method-value post = refl
validate_method-value put = refl

validate_workflow_action-to_json :
    (urls : Urls) (a : WorkflowAction)
    → IsAction urls a
    → validate_workflow_action urls (action_to_json a) ≡ right a
unfolding validate_workflow_action action_to_json action_type_of validate_by_type get
    validate_email_action validate_webhook_action validate_slack_action
validate_workflow_action-to_json urls a (to_some {first} {rest} h) =
    rw (recipients_of-strings (first ∷ rest) h) refl
validate_workflow_action-to_json urls a (to_hook {address} {method} {hs} {redact} u) =
    rw
      (u, validate_method-value method, validate_headers-to_json hs, validate_redact-to_json redact)
      refl
validate_workflow_action-to_json urls a (to_slack u s) = rw (u, s) refl

traverse_actions-to_items :
    (urls : Urls) (actions : List WorkflowAction)
    → All (IsAction urls) actions
    → traverse_actions urls (actions_to_items actions) ≡ right actions
unfolding traverse_actions actions_to_items
traverse_actions-to_items urls [] h = refl
traverse_actions-to_items urls (a ∷ rest) (h, hs) =
    rw (validate_workflow_action-to_json urls a h, traverse_actions-to_items urls rest hs) refl

-- Valid actions that are stored and validated again are the same actions.
pub validate_workflow_actions-to_items :
    (urls : Urls) (actions : List WorkflowAction)
    → All (IsAction urls) actions
    → validate_workflow_actions urls (arr (actions_to_items actions)) ≡ right actions
unfolding validate_workflow_actions
validate_workflow_actions-to_items urls actions h = traverse_actions-to_items urls actions h
