-- ===== src/Protocol.antt =====
-- internal/proxy/protocol.go, internal/proxy/path_capability.go and the style tests of
-- internal/proxy/url.go: which protocols and endpoint types take a request path. The protocols and
-- endpoint types of internal/config are their names; ToLower is that of ASCII letters.
pub mod Laws
mod Examples
use mathlib.Core.List.{reverse}
use llms_proxy.Base.{
  Bool, true, false, ◌&&◌, ◌||◌, String, str_eq, none, some, List, [], ◌∷◌, map, if◌then◌else◌,
}
use llms_proxy.Base.Maps.{is_some}
use llms_proxy.Base.Text.{Bytes, bytes, bytes_eq, cut_prefix, trim_space, to_lower}

abbrev pub lower : Bytes → Bytes
lower s = map to_lower s

abbrev pub has_prefix : Bytes → Bytes → Bool
has_prefix prefix s = is_some (cut_prefix prefix s)

abbrev pub has_suffix : Bytes → Bytes → Bool
has_suffix suffix s = is_some (cut_prefix (reverse suffix) (reverse s))

unfoldable pub contains : Bytes → Bytes → Bool
contains part [] = has_prefix part []
contains part (c ∷ s) = has_prefix part (c ∷ s) || contains part s

abbrev pub openai_chat : String
openai_chat = "openai_chat"

abbrev pub openai_responses : String
openai_responses = "openai_responses"

abbrev pub anthropic_messages : String
anthropic_messages = "anthropic_messages"

abbrev pub gemini : String
gemini = "gemini"

abbrev pub openai_image : String
openai_image = "openai_image"

-- AllProtocolTypes
abbrev pub valid_protocol_types : List String
valid_protocol_types =
    openai_chat ∷ openai_responses ∷ anthropic_messages ∷ gemini ∷ openai_image ∷ []

unfoldable pub is_in : String → List String → Bool
is_in p [] = false
is_in p (v ∷ vs) = if str_eq v p then true else is_in p vs

-- IsValidProtocolType
unfoldable pub is_valid_protocol_type : String → Bool
is_valid_protocol_type p = is_in p valid_protocol_types

-- The test for one path, the paths below it, and the path with a query.
unfoldable pub is_style : Bytes → Bytes → Bool
is_style style path =
    let pl = lower (trim_space path) in
    bytes_eq pl style || (has_prefix (bytes_slash style) pl || has_prefix (bytes_query style) pl)
  where
    bytes_slash : Bytes → Bytes
    bytes_slash [] = bytes "/"
    bytes_slash (c ∷ s) = c ∷ bytes_slash s

    bytes_query : Bytes → Bytes
    bytes_query [] = bytes "?"
    bytes_query (c ∷ s) = c ∷ bytes_query s

-- isAnthropicStylePath
unfoldable pub is_anthropic_style_path : Bytes → Bool
unfolding is_style
is_anthropic_style_path path = is_style (bytes "/v1/messages") path

-- isOpenAIResponsesStylePath
unfoldable pub is_openai_responses_style_path : Bytes → Bool
unfolding is_style
is_openai_responses_style_path path = is_style (bytes "/v1/responses") path

-- pathHasAnySuffix
unfoldable pub path_has_any_suffix : Bytes → List Bytes → Bool
path_has_any_suffix path [] = false
path_has_any_suffix path (s ∷ ss) = if has_suffix s path then true else path_has_any_suffix path ss

abbrev pub openai_image_supported_paths : List Bytes
openai_image_supported_paths =
    bytes "/images/generations" ∷ bytes "/images/edits" ∷ bytes "/images/variations" ∷ []

-- isOpenAIImageStylePath
unfoldable pub is_openai_image_style_path : Bytes → Bool
is_openai_image_style_path path =
    let pl = lower (trim_space path) in
    has_suffix (bytes "/images/generations") pl
    || (has_suffix (bytes "/images/edits") pl || has_suffix (bytes "/images/variations") pl)

-- isGeminiStylePath
unfoldable pub is_gemini_style_path : Bytes → Bool
is_gemini_style_path path =
    let pl = lower (trim_space path) in
    (contains (bytes "/models/") pl && contains (bytes ":generatecontent") pl)
    || (contains (bytes "/models/") pl && contains (bytes ":streamgeneratecontent") pl)

-- ResolveProtocol
unfoldable pub resolve_protocol : Bytes → String
resolve_protocol path =
    let pl = lower (trim_space path) in
    if is_anthropic_style_path pl
    then anthropic_messages
    else if is_openai_responses_style_path pl
    then openai_responses
    else if is_openai_image_style_path pl
    then openai_image
    else if is_gemini_style_path pl
    then gemini
    else if path_has_any_suffix pl (bytes "/chat/completions" ∷ [])
    then openai_chat
    else openai_chat

-- The `switch` of ProtocolSupportsPath, on the protocol of the path.
unfoldable pub supports_resolved : String → String → Bool
supports_resolved protocol resolved =
    if str_eq protocol openai_chat
    then str_eq resolved openai_chat
    else if str_eq protocol openai_responses
    then str_eq resolved openai_responses
    else if str_eq protocol anthropic_messages
    then str_eq resolved anthropic_messages
    else if str_eq protocol gemini
    then str_eq resolved gemini
    else if str_eq protocol openai_image
    then str_eq resolved openai_image
    else false

-- ProtocolSupportsPath
unfoldable pub protocol_supports_path : String → Bytes → Bool
protocol_supports_path protocol path = supports_resolved protocol (resolve_protocol path)

pub data RequestSchema : Type 0 where
  schema_openai_compat schema_openai_chat schema_openai_responses schema_anthropic : RequestSchema

-- requestSchemaForPath
unfoldable pub request_schema_for_path : Bytes → RequestSchema
request_schema_for_path path_lower =
    let p = trim_space path_lower in
    if is_anthropic_style_path p
    then schema_anthropic
    else if is_openai_responses_style_path p
    then schema_openai_responses
    else if path_has_any_suffix p (bytes "/chat/completions" ∷ [])
    then schema_openai_chat
    else schema_openai_compat

abbrev pub is_anthropic : RequestSchema → Bool
is_anthropic schema_anthropic = true
is_anthropic _ = false

abbrev pub is_gemini_schema : RequestSchema → Bool
is_gemini_schema schema_openai_compat = true
is_gemini_schema schema_openai_chat = true
is_gemini_schema _ = false

abbrev pub is_dual_schema : RequestSchema → Bool
is_dual_schema schema_openai_compat = true
is_dual_schema schema_openai_chat = true
is_dual_schema schema_openai_responses = true
is_dual_schema schema_anthropic = true

abbrev pub not_anthropic : RequestSchema → Bool
not_anthropic schema_anthropic = false
not_anthropic _ = true

-- PathSupportedByEndpointType
unfoldable pub path_supported_by_endpoint_type : String → Bytes → Bool
path_supported_by_endpoint_type ep_type path =
    let schema = request_schema_for_path (lower path) in
    if str_eq ep_type "openai" || str_eq ep_type "azure_openai"
    then not_anthropic schema
    else if str_eq ep_type "claude"
    then is_anthropic schema
    else if str_eq ep_type "gemini"
    then is_gemini_schema schema
    else if str_eq ep_type "dual_protocol"
    then is_dual_schema schema
    else if str_eq ep_type "openai_image"
    then path_has_any_suffix (lower path) openai_image_supported_paths
    else not_anthropic schema

-- openAIImageOperationSupportsPath
unfoldable pub openai_image_operation_supports_path : String → Bytes → Bool
openai_image_operation_supports_path operation path =
    if str_eq operation "edits"
    then has_suffix (bytes "/images/edits") (lower path)
    else if str_eq operation "variations"
    then has_suffix (bytes "/images/variations") (lower path)
    else if str_eq operation "generations" || str_eq operation ""
    then has_suffix (bytes "/images/generations") (lower path)
    else false
