-- ===== src/Protocol/Examples.antt =====
-- Paths on which the theorems on the protocols are run.
use llms_proxy.Base.{◌≡◌, true, not, ◌||◌, str_eq}
use llms_proxy.Base.Text.{Bytes, bytes}
use llms_proxy.Protocol.{
  is_valid_protocol_type, resolve_protocol, protocol_supports_path, path_supported_by_endpoint_type,
  openai_image_operation_supports_path,
}
use llms_proxy.Protocol.Laws.{endpoint_types-Cover}

abbrev edits : Bytes
edits = bytes "/v1/images/edits"

endpoint_types-Cover_example :
    (is_valid_protocol_type (resolve_protocol edits) ≡ true)
    × (protocol_supports_path "gemini" edits ≡ str_eq "gemini" (resolve_protocol edits))
    × (path_supported_by_endpoint_type "claude" edits
        ≡ not (path_supported_by_endpoint_type "openai" edits))
    × (path_supported_by_endpoint_type "dual_protocol" edits ≡ true)
    × (path_supported_by_endpoint_type "gemini" edits ≡ true
        → path_supported_by_endpoint_type "openai" edits ≡ true)
    × (path_supported_by_endpoint_type "openai_image" edits ≡ (
        openai_image_operation_supports_path "generations" edits
        || (openai_image_operation_supports_path "edits" edits
            || openai_image_operation_supports_path "variations" edits)))
endpoint_types-Cover_example = endpoint_types-Cover "gemini" edits
