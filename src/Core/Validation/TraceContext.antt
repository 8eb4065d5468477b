-- ===== src/Core/Validation/TraceContext.antt =====
-- crates/dovecote/src/validation.rs: the W3C trace-context grammars.
use dovecote.Base.{
  ℕ, Bool, true, false, not, ◌&&◌, ◌||◌, ltb, leb, ◌==◌, if◌then◌else◌, Text, codes, bytes, len,
  is_empty, list_eq, all, any, length, List, [], ◌∷◌, none, some, Result, ok, err,
}
use dovecote.Core.Error.{ValidationError, error, trace_context}
use dovecote.Core.Validation.Splitting.{split_once, splitn, split, trim_matches}

abbrev pub is_digit : ℕ → Bool
is_digit b = leb b'0' b && leb b b'9'

abbrev pub is_lower : ℕ → Bool
is_lower b = leb b'a' b && leb b b'z'

abbrev pub is_lower_hex : ℕ → Bool
is_lower_hex b = is_digit b || (leb b'a' b && leb b b'f')

-- The closure `valid_lower_hex`.
unfoldable pub valid_lower_hex : Text → ℕ → Bool
unfolding len
valid_lower_hex part width = (len part == width) && all is_lower_hex (bytes part)

abbrev pub invalid_traceparent : ValidationError
invalid_traceparent = error "traceparent" trace_context

-- The four fields that `splitn(5, '-')` must give, and what a future version may add behind them.
unfoldable pub check_traceparent : List Text → Result ValidationError (Unit {0})
unfolding valid_lower_hex list_eq
check_traceparent (version ∷ trace_id ∷ parent_id ∷ flags ∷ future_fields) =
    if not (valid_lower_hex version 2)
      || not (valid_lower_hex trace_id 32)
      || not (valid_lower_hex parent_id 16)
      || not (valid_lower_hex flags 2)
      || list_eq version (codes "ff")
      || all (λ b. b == b'0') (bytes trace_id)
      || all (λ b. b == b'0') (bytes parent_id)
      || (list_eq version (codes "00")
          && (not (is_empty future_fields)
              || not (list_eq flags (codes "00") || list_eq flags (codes "01"))))
    then err invalid_traceparent
    else ok tt
check_traceparent _ = err invalid_traceparent

unfoldable pub validate_traceparent : Text → Result ValidationError (Unit {0})
unfolding check_traceparent splitn
validate_traceparent value = check_traceparent (splitn 5 b'-' value)

abbrev pub invalid_tracestate : ValidationError
invalid_tracestate = error "tracestate" trace_context

abbrev pub max_tracestate_bytes : ℕ
max_tracestate_bytes = 512

abbrev pub max_tracestate_members : ℕ
max_tracestate_members = 32

abbrev pub is_key_byte : ℕ → Bool
is_key_byte b = is_lower b || is_digit b || (b == b'_') || (b == b'*') || (b == b'-') || (b == b'/')

unfoldable pub valid_tracestate_key_part : Text → ℕ → Bool → Bool
unfolding len
valid_tracestate_key_part part maximum tenant = elim (bytes part) [
  | [] ↦ false
  | first ∷ _ ↦
      leb (len part) maximum
      && (is_lower first || (tenant && is_digit first))
      && all is_key_byte (bytes part)
]

unfoldable pub valid_tracestate_key : Text → Bool
unfolding valid_tracestate_key_part split_once
valid_tracestate_key key = elim (split_once b'@' key) [
  | some (tenant, system) ↦
      valid_tracestate_key_part tenant 241 true && valid_tracestate_key_part system 14 false
  | none ↦ valid_tracestate_key_part key 256 false
]

-- `matches [' ', '\t']`
abbrev pub is_blank : ℕ → Bool
is_blank c = (c == 0x20) || (c == 0x09)

abbrev pub is_value_byte : ℕ → Bool
is_value_byte b = leb 0x20 b && leb b 0x7e && not (b == b'=')

-- The test on one `key=value` member, but for the key's being new.
unfoldable pub member_invalid : Text → Text → Bool
unfolding valid_tracestate_key len
member_invalid key value =
    is_empty key
    || ltb 256 (len key)
    || is_empty value
    || ltb 256 (len value)
    || not (valid_tracestate_key key)
    || not (all is_value_byte (bytes value))

-- The loop over the members. `keys` is the set of the keys met so far.
unfoldable pub check_members : List Text → List Text → Result ValidationError (Unit {0})
unfolding member_invalid list_eq split_once trim_matches
check_members keys [] = ok tt
check_members keys (raw ∷ rest) =
    let member = trim_matches is_blank raw in
    elim (is_empty member) [
      | true ↦ check_members keys rest
      | false ↦ elim (split_once b'=' member) [
        | none ↦ err invalid_tracestate
        | some (key, value) ↦ elim (member_invalid key value || any (list_eq key) keys) [
          | true ↦ err invalid_tracestate
          | false ↦ check_members (key ∷ keys) rest
        ]
      ]
    ]

unfoldable pub validate_tracestate : Text → Result ValidationError (Unit {0})
unfolding check_members split len
validate_tracestate value =
    if ltb max_tracestate_bytes (len value)
    then err invalid_tracestate
    else if ltb max_tracestate_members (length (split b',' value))
    then err invalid_tracestate
    else check_members [] (split b',' value)
