-- ===== src/Errors.antt =====
-- src/error.rs: the parse errors and their names. The macro `impl_error!` makes the enum and both
-- conversions from one table of pairs, `impl_error_table` here.
pub mod Codec
use Prim.Native.String.{String}
use text.Mathlib.Text.{◌==◌ as str_eq}
use html5gum.Base.{Option, none, some, List, [], ◌∷◌, if◌then◌else◌}

pub data Error : Type 0 where
  abrupt_closing_of_empty_comment : Error
  abrupt_doctype_public_identifier : Error
  abrupt_doctype_system_identifier : Error
  absence_of_digits_in_numeric_character_reference : Error
  cdata_in_html_content : Error
  character_reference_outside_unicode_range : Error
  control_character_reference : Error
  end_tag_with_attributes : Error
  end_tag_with_trailing_solidus : Error
  eof_before_tag_name : Error
  eof_in_cdata : Error
  eof_in_comment : Error
  eof_in_doctype : Error
  eof_in_script_html_comment_like_text : Error
  eof_in_tag : Error
  incorrectly_closed_comment : Error
  incorrectly_opened_comment : Error
  invalid_character_sequence_after_doctype_name : Error
  invalid_first_character_of_tag_name : Error
  missing_attribute_value : Error
  missing_doctype_name : Error
  missing_doctype_public_identifier : Error
  missing_doctype_system_identifier : Error
  missing_end_tag_name : Error
  missing_quote_before_doctype_public_identifier : Error
  missing_quote_before_doctype_system_identifier : Error
  missing_semicolon_after_character_reference : Error
  missing_whitespace_after_doctype_public_keyword : Error
  missing_whitespace_after_doctype_system_keyword : Error
  missing_whitespace_before_doctype_name : Error
  missing_whitespace_between_attributes : Error
  missing_whitespace_between_doctype_public_and_system_identifiers : Error
  nested_comment : Error
  noncharacter_character_reference : Error
  noncharacter_in_input_stream : Error
  null_character_reference : Error
  surrogate_character_reference : Error
  surrogate_in_input_stream : Error
  unexpected_character_after_doctype_system_identifier : Error
  unexpected_character_in_attribute_name : Error
  unexpected_character_in_unquoted_attribute_value : Error
  unexpected_equals_sign_before_attribute_name : Error
  unexpected_null_character : Error
  unexpected_question_mark_instead_of_tag_name : Error
  unexpected_solidus_in_tag : Error
  unknown_named_character_reference : Error
  duplicate_attribute : Error
  control_character_in_input_stream : Error

-- `Error::as_str`.
unfoldable pub as_str : Error → String
as_str abrupt_closing_of_empty_comment = "abrupt-closing-of-empty-comment"
as_str abrupt_doctype_public_identifier = "abrupt-doctype-public-identifier"
as_str abrupt_doctype_system_identifier = "abrupt-doctype-system-identifier"
as_str absence_of_digits_in_numeric_character_reference =
    "absence-of-digits-in-numeric-character-reference"
as_str cdata_in_html_content = "cdata-in-html-content"
as_str character_reference_outside_unicode_range = "character-reference-outside-unicode-range"
as_str control_character_reference = "control-character-reference"
as_str end_tag_with_attributes = "end-tag-with-attributes"
as_str end_tag_with_trailing_solidus = "end-tag-with-trailing-solidus"
as_str eof_before_tag_name = "eof-before-tag-name"
as_str eof_in_cdata = "eof-in-cdata"
as_str eof_in_comment = "eof-in-comment"
as_str eof_in_doctype = "eof-in-doctype"
as_str eof_in_script_html_comment_like_text = "eof-in-script-html-comment-like-text"
as_str eof_in_tag = "eof-in-tag"
as_str incorrectly_closed_comment = "incorrectly-closed-comment"
as_str incorrectly_opened_comment = "incorrectly-opened-comment"
as_str invalid_character_sequence_after_doctype_name =
    "invalid-character-sequence-after-doctype-name"
as_str invalid_first_character_of_tag_name = "invalid-first-character-of-tag-name"
as_str missing_attribute_value = "missing-attribute-value"
as_str missing_doctype_name = "missing-doctype-name"
as_str missing_doctype_public_identifier = "missing-doctype-public-identifier"
as_str missing_doctype_system_identifier = "missing-doctype-system-identifier"
as_str missing_end_tag_name = "missing-end-tag-name"
as_str missing_quote_before_doctype_public_identifier =
    "missing-quote-before-doctype-public-identifier"
as_str missing_quote_before_doctype_system_identifier =
    "missing-quote-before-doctype-system-identifier"
as_str missing_semicolon_after_character_reference = "missing-semicolon-after-character-reference"
as_str missing_whitespace_after_doctype_public_keyword =
    "missing-whitespace-after-doctype-public-keyword"
as_str missing_whitespace_after_doctype_system_keyword =
    "missing-whitespace-after-doctype-system-keyword"
as_str missing_whitespace_before_doctype_name = "missing-whitespace-before-doctype-name"
as_str missing_whitespace_between_attributes = "missing-whitespace-between-attributes"
as_str missing_whitespace_between_doctype_public_and_system_identifiers =
    "missing-whitespace-between-doctype-public-and-system-identifiers"
as_str nested_comment = "nested-comment"
as_str noncharacter_character_reference = "noncharacter-character-reference"
as_str noncharacter_in_input_stream = "noncharacter-in-input-stream"
as_str null_character_reference = "null-character-reference"
as_str surrogate_character_reference = "surrogate-character-reference"
as_str surrogate_in_input_stream = "surrogate-in-input-stream"
as_str unexpected_character_after_doctype_system_identifier =
    "unexpected-character-after-doctype-system-identifier"
as_str unexpected_character_in_attribute_name = "unexpected-character-in-attribute-name"
as_str unexpected_character_in_unquoted_attribute_value =
    "unexpected-character-in-unquoted-attribute-value"
as_str unexpected_equals_sign_before_attribute_name = "unexpected-equals-sign-before-attribute-name"
as_str unexpected_null_character = "unexpected-null-character"
as_str unexpected_question_mark_instead_of_tag_name = "unexpected-question-mark-instead-of-tag-name"
as_str unexpected_solidus_in_tag = "unexpected-solidus-in-tag"
as_str unknown_named_character_reference = "unknown-named-character-reference"
as_str duplicate_attribute = "duplicate-attribute"
as_str control_character_in_input_stream = "control-character-in-input-stream"

abbrev pub impl_error_table : List (String × Error)
impl_error_table =
    ("abrupt-closing-of-empty-comment", abrupt_closing_of_empty_comment)
    ∷ ("abrupt-doctype-public-identifier", abrupt_doctype_public_identifier)
    ∷ ("abrupt-doctype-system-identifier", abrupt_doctype_system_identifier)
    ∷ (
      "absence-of-digits-in-numeric-character-reference",
      absence_of_digits_in_numeric_character_reference,
    )
    ∷ ("cdata-in-html-content", cdata_in_html_content)
    ∷ ("character-reference-outside-unicode-range", character_reference_outside_unicode_range)
    ∷ ("control-character-reference", control_character_reference)
    ∷ ("end-tag-with-attributes", end_tag_with_attributes)
    ∷ ("end-tag-with-trailing-solidus", end_tag_with_trailing_solidus)
    ∷ ("eof-before-tag-name", eof_before_tag_name)
    ∷ ("eof-in-cdata", eof_in_cdata)
    ∷ ("eof-in-comment", eof_in_comment)
    ∷ ("eof-in-doctype", eof_in_doctype)
    ∷ ("eof-in-script-html-comment-like-text", eof_in_script_html_comment_like_text)
    ∷ ("eof-in-tag", eof_in_tag)
    ∷ ("incorrectly-closed-comment", incorrectly_closed_comment)
    ∷ ("incorrectly-opened-comment", incorrectly_opened_comment)
    ∷ (
      "invalid-character-sequence-after-doctype-name",
      invalid_character_sequence_after_doctype_name,
    )
    ∷ ("invalid-first-character-of-tag-name", invalid_first_character_of_tag_name)
    ∷ ("missing-attribute-value", missing_attribute_value)
    ∷ ("missing-doctype-name", missing_doctype_name)
    ∷ ("missing-doctype-public-identifier", missing_doctype_public_identifier)
    ∷ ("missing-doctype-system-identifier", missing_doctype_system_identifier)
    ∷ ("missing-end-tag-name", missing_end_tag_name)
    ∷ (
      "missing-quote-before-doctype-public-identifier",
      missing_quote_before_doctype_public_identifier,
    )
    ∷ (
      "missing-quote-before-doctype-system-identifier",
      missing_quote_before_doctype_system_identifier,
    )
    ∷ ("missing-semicolon-after-character-reference", missing_semicolon_after_character_reference)
    ∷ (
      "missing-whitespace-after-doctype-public-keyword",
      missing_whitespace_after_doctype_public_keyword,
    )
    ∷ (
      "missing-whitespace-after-doctype-system-keyword",
      missing_whitespace_after_doctype_system_keyword,
    )
    ∷ ("missing-whitespace-before-doctype-name", missing_whitespace_before_doctype_name)
    ∷ ("missing-whitespace-between-attributes", missing_whitespace_between_attributes)
    ∷ (
      "missing-whitespace-between-doctype-public-and-system-identifiers",
      missing_whitespace_between_doctype_public_and_system_identifiers,
    )
    ∷ ("nested-comment", nested_comment)
    ∷ ("noncharacter-character-reference", noncharacter_character_reference)
    ∷ ("noncharacter-in-input-stream", noncharacter_in_input_stream)
    ∷ ("null-character-reference", null_character_reference)
    ∷ ("surrogate-character-reference", surrogate_character_reference)
    ∷ ("surrogate-in-input-stream", surrogate_in_input_stream)
    ∷ (
      "unexpected-character-after-doctype-system-identifier",
      unexpected_character_after_doctype_system_identifier,
    )
    ∷ ("unexpected-character-in-attribute-name", unexpected_character_in_attribute_name)
    ∷ (
      "unexpected-character-in-unquoted-attribute-value",
      unexpected_character_in_unquoted_attribute_value,
    )
    ∷ ("unexpected-equals-sign-before-attribute-name", unexpected_equals_sign_before_attribute_name)
    ∷ ("unexpected-null-character", unexpected_null_character)
    ∷ ("unexpected-question-mark-instead-of-tag-name", unexpected_question_mark_instead_of_tag_name)
    ∷ ("unexpected-solidus-in-tag", unexpected_solidus_in_tag)
    ∷ ("unknown-named-character-reference", unknown_named_character_reference)
    ∷ ("duplicate-attribute", duplicate_attribute)
    ∷ ("control-character-in-input-stream", control_character_in_input_stream)
    ∷ []

unfoldable pub find_variant : String → List (String × Error) → Option Error
find_variant s [] = none
find_variant s ((name, e) ∷ rest) = if str_eq s name then some e else find_variant s rest

-- `Error::from_str`: the arms of its `match` in order; `none` is `Err(())`.
unfoldable pub from_str : String → Option Error
unfolding find_variant
from_str s = find_variant s impl_error_table
