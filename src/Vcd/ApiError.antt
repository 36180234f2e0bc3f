-- ===== src/Vcd/ApiError.antt =====
-- internal/clients/vcd/errors.go: the text of an API error, and its status class.
-- A result `none` is a run-time panic of a slice expression.
pub mod Summary
use hbs_queue.Errors.{ApiError}
use hbs_queue.Prelude.{
  ℕ, ◌+◌, Bool, ◌||◌, Option, none, some, [], ◌∷◌, ◌++◌, Bytes, codes, decimal, ltb, ◌==◌,
  if◌then◌else◌, length, take,
}
use hbs_queue.Strings.{index, contains, to_lower, slice_from, slice, trim_space}

abbrev pub max_body_len : ℕ
max_body_len = 200

module _ (unicode_lower : Bytes → Bytes) where
  -- What follows the opening tag, up to the closing tag.
  unfoldable pub tag_content : Bytes → Bytes → ℕ → Option Bytes
  unfolding index slice_from slice to_lower trim_space
  tag_content html close_tag start = elim (slice_from html start) [
    | none ↦ none
    | some after ↦ elim (index (to_lower unicode_lower after) (to_lower unicode_lower close_tag)) [
      | none ↦ some []
      | some j ↦ elim (slice html start (start + j)) [
        | none ↦ none
        | some text ↦ some (trim_space text)
      ]
    ]
  ]

  unfoldable pub extract_tag : Bytes → Bytes → Option Bytes
  unfolding index to_lower tag_content
  extract_tag html tag =
      let open_tag = b'<' ∷ (tag ++ b'>' ∷ []) in
      let close_tag = b'<' ∷ b'/' ∷ (tag ++ b'>' ∷ []) in
      elim (index (to_lower unicode_lower html) (to_lower unicode_lower open_tag)) [
        | none ↦ some []
        | some i ↦ tag_content html close_tag (i + length open_tag)
      ]

  -- The first of two extractions that gives text, else the fallback.
  unfoldable pub first_text : Option Bytes → Option Bytes → Bytes → Option Bytes
  first_text none second fallback = none
  first_text (some (c ∷ t)) second fallback = some (c ∷ t)
  first_text (some []) none fallback = none
  first_text (some []) (some (c ∷ t)) fallback = some (c ∷ t)
  first_text (some []) (some []) fallback = some fallback

  unfoldable pub summarize_body : Bytes → Option Bytes
  unfolding contains
  summarize_body body =
      if contains body (codes "<html") || contains body (codes "<HTML")
      then first_text (extract_tag body (codes "title")) (extract_tag body (codes "h3"))
          (codes "(HTML error page)")
      else if ltb max_body_len (length body)
      then some (take max_body_len body ++ codes "...")
      else some body

  -- (*APIError).Error
  unfoldable pub api_error_text : ApiError → Option Bytes
  unfolding decimal
  api_error_text e = elim (summarize_body e.body) [
    | none ↦ none
    | some text ↦ some (
        codes "vcd: "
        ++ (codes e.method
            ++ (codes " "
                ++ (e.path
                    ++ (codes " returned " ++ (decimal e.status_code ++ (codes ": " ++ text)))))))
  ]

-- (*APIError).IsRetryable
unfoldable pub is_retryable : ApiError → Bool
is_retryable e =
    e.status_code == 429 || e.status_code == 502 || e.status_code == 503 || e.status_code == 504

-- (*APIError).IsNotFound
unfoldable pub is_not_found : ApiError → Bool
is_not_found e = e.status_code == 404
