-- ===== src/Protocol/Laws.antt =====
-- What the tests of internal/proxy/protocol.go and path_capability.go say of each other.
use llms_proxy.Base.{
  ◌≡◌, refl, ◌⊎◌, inl, inr, Bool, true, false, not, ◌||◌, String, str_eq, eq_iff, [], ◌∷◌, arith,
  if◌then◌else◌,
}
use llms_proxy.Base.Text.{Bytes, bytes, trim_space}
use llms_proxy.Protocol.{
  lower, openai_chat, openai_responses, anthropic_messages, gemini, openai_image, is_in,
  is_valid_protocol_type, resolve_protocol, supports_resolved, is_anthropic_style_path,
  is_openai_responses_style_path, is_openai_image_style_path, is_gemini_style_path,
  protocol_supports_path, RequestSchema, schema_openai_compat, schema_openai_chat,
  schema_openai_responses, schema_anthropic, request_schema_for_path, is_anthropic,
  is_gemini_schema, is_dual_schema, not_anthropic, path_supported_by_endpoint_type,
  path_has_any_suffix, openai_image_operation_supports_path,
}

-- One of the five protocols.
abbrev pub IsProtocol : String → Type 0
IsProtocol r =
    (r ≡ openai_chat)
    ⊎ ((r ≡ openai_responses) ⊎ ((r ≡ anthropic_messages) ⊎ ((r ≡ gemini) ⊎ (r ≡ openai_image))))

choose-IsProtocol :
    (a b c d e : Bool)
    → IsProtocol (
        if a
        then anthropic_messages
        else if b
        then openai_responses
        else if c
        then openai_image
        else if d
        then gemini
        else if e
        then openai_chat
        else openai_chat)
choose-IsProtocol true b c d e = inr (inr (inl refl))
choose-IsProtocol false true c d e = inr (inl refl)
choose-IsProtocol false false true d e = inr (inr (inr (inr refl)))
choose-IsProtocol false false false true e = inr (inr (inr (inl refl)))
choose-IsProtocol false false false false true = inl refl
choose-IsProtocol false false false false false = inl refl

-- `ResolveProtocol` gives one of the five protocols to every path.
resolve_protocol-IsProtocol : (path : Bytes) → IsProtocol (resolve_protocol path)
unfolding resolve_protocol
resolve_protocol-IsProtocol path =
    let pl = lower (trim_space path) in
    choose-IsProtocol (is_anthropic_style_path pl) (is_openai_responses_style_path pl)
      (is_openai_image_style_path pl) (is_gemini_style_path pl)
      (path_has_any_suffix pl (bytes "/chat/completions" ∷ []))

-- A name is not two names at once.
not_both : (p a b : String) → str_eq a b ≡ false → str_eq p a ≡ true → str_eq p b ≡ false
not_both p a b h e = rw ((eq_iff p a).0 e) h

-- The `switch` gives each of the five protocols to itself.
supports_resolved-IsProtocol :
    (p r : String)
    → IsProtocol r
    → (is_valid_protocol_type r ≡ true) × (supports_resolved p r ≡ str_eq p r)
unfolding supports_resolved is_valid_protocol_type is_in
supports_resolved-IsProtocol p r (inl e) = rw e (refl, ground arith)
supports_resolved-IsProtocol p r (inr (inl e)) =
    rw e (refl, ground (arith, not_both p openai_chat openai_responses refl))
supports_resolved-IsProtocol p r (inr (inr (inl e))) = rw e (
  refl,
  ground (
    arith,
    not_both p openai_chat anthropic_messages refl,
    not_both p openai_responses anthropic_messages refl,
  ),
)
supports_resolved-IsProtocol p r (inr (inr (inr (inl e)))) = rw e (
  refl,
  ground (
    arith,
    not_both p openai_chat gemini refl,
    not_both p openai_responses gemini refl,
    not_both p anthropic_messages gemini refl,
  ),
)
supports_resolved-IsProtocol p r (inr (inr (inr (inr e)))) = rw e (
  refl,
  ground (
    arith,
    not_both p openai_chat openai_image refl,
    not_both p openai_responses openai_image refl,
    not_both p anthropic_messages openai_image refl,
    not_both p gemini openai_image refl,
  ),
)

-- Every path is supported by the protocol that `ResolveProtocol` gives it, which is a valid one, and by no other.
protocol_supports_path-resolve_protocol :
    (protocol : String) (path : Bytes)
    → (is_valid_protocol_type (resolve_protocol path) ≡ true)
      × (protocol_supports_path protocol path ≡ str_eq protocol (resolve_protocol path))
unfolding protocol_supports_path
protocol_supports_path-resolve_protocol protocol path =
    supports_resolved-IsProtocol protocol (resolve_protocol path) (resolve_protocol-IsProtocol path)

schema_cover :
    (s : RequestSchema)
    → (is_anthropic s ≡ not (not_anthropic s))
      × (is_dual_schema s ≡ true)
      × (is_gemini_schema s ≡ true → not_anthropic s ≡ true)
schema_cover schema_openai_compat = (refl, refl, λ h. refl)
schema_cover schema_openai_chat = (refl, refl, λ h. refl)
schema_cover schema_openai_responses = (refl, refl, λ h. refl)
schema_cover schema_anthropic = (refl, refl, λ h. cc)

-- Of a Claude and an OpenAI endpoint just one takes a given path, a dual one takes every path, and what a Gemini
-- endpoint takes an OpenAI one takes too.
endpoint_types_cover :
    (path : Bytes)
    → (path_supported_by_endpoint_type "claude" path
        ≡ not (path_supported_by_endpoint_type "openai" path))
      × (path_supported_by_endpoint_type "dual_protocol" path ≡ true)
      × (path_supported_by_endpoint_type "gemini" path ≡ true
          → path_supported_by_endpoint_type "openai" path ≡ true)
unfolding path_supported_by_endpoint_type
endpoint_types_cover path = schema_cover (request_schema_for_path (lower path))

-- An image endpoint takes a path just if one of the three image operations takes it.
image_operations_cover :
    (path : Bytes)
    → path_supported_by_endpoint_type "openai_image" path ≡ (
        openai_image_operation_supports_path "generations" path
        || (openai_image_operation_supports_path "edits" path
            || openai_image_operation_supports_path "variations" path))
unfolding path_supported_by_endpoint_type openai_image_operation_supports_path path_has_any_suffix
image_operations_cover path = ground arith

-- Every path is supported by the protocol that `ResolveProtocol` gives it, which is a valid one, and by no
-- other. Of a Claude and an OpenAI endpoint just one takes a given path, a dual one takes every
-- path, what a Gemini endpoint takes an OpenAI one takes too, and an image endpoint takes a path
-- just if one of the three image operations takes it.
pub endpoint_types-Cover :
    (protocol : String) (path : Bytes)
    → (is_valid_protocol_type (resolve_protocol path) ≡ true)
      × (protocol_supports_path protocol path ≡ str_eq protocol (resolve_protocol path))
      × (path_supported_by_endpoint_type "claude" path
          ≡ not (path_supported_by_endpoint_type "openai" path))
      × (path_supported_by_endpoint_type "dual_protocol" path ≡ true)
      × (path_supported_by_endpoint_type "gemini" path ≡ true
          → path_supported_by_endpoint_type "openai" path ≡ true)
      × (path_supported_by_endpoint_type "openai_image" path ≡ (
          openai_image_operation_supports_path "generations" path
          || (openai_image_operation_supports_path "edits" path
              || openai_image_operation_supports_path "variations" path)))
endpoint_types-Cover protocol path =
    let (valid, supported) = protocol_supports_path-resolve_protocol protocol path in
    let (one, dual, gemini_too) = endpoint_types_cover path in
    (valid, supported, one, dual, gemini_too, image_operations_cover path)
