-- ===== src/Vcd/ApiError/Summary.antt =====
-- The text of an API error: its length, and that an ASCII body never makes it panic.
use hbs_queue.Prelude.{
  ℕ, ◌+◌, ◌≤◌, ◌≡◌, refl, inl, inr, true, ◌||◌, some, [], ◌∷◌, ◌++◌, Bytes, codes, arith,
  Option-cases, Bool-cases, length, length-drop, take, drop, ltb,
}
use hbs_queue.Strings.Index.{index-bound, to_lower_of_ascii, length-map_lower, is_ascii-drop}
use hbs_queue.Strings.{index, contains, is_ascii, to_lower, slice_from, slice, trim_space}
use hbs_queue.Vcd.ApiError.{max_body_len, tag_content, extract_tag, first_text, summarize_body}

length-to_lower :
    (unicode_lower : Bytes → Bytes) (s : Bytes)
    → is_ascii s ≡ true
    → length (to_lower unicode_lower s) ≡ length s
length-to_lower unicode_lower s h = rw (to_lower_of_ascii unicode_lower s h) (length-map_lower s)

module _ (unicode_lower : Bytes → Bytes) where
  tag_content_total :
      (html close_tag : Bytes) (start : ℕ)
      → is_ascii html ≡ true
      → start ≤ length html
      → (t : Bytes) × (tag_content unicode_lower html close_tag start ≡ some t)
  unfolding tag_content
  tag_content_total html close_tag start plain inside =
      let from : slice_from html start ≡ some (drop start html) =
        unfold slice_from in ground arith in
      elim (Option-cases
        (index (to_lower unicode_lower (drop start html)) (to_lower unicode_lower close_tag))) [
          | inl e ↦ ([], rw (from, tag_content) (rw (e, tag_content)))
          | inr (j, e) ↦
              let bound =
                index-bound (to_lower unicode_lower (drop start html))
                  (to_lower unicode_lower close_tag) e in
              let short =
                length-to_lower unicode_lower (drop start html) (is_ascii-drop start html plain) in
              let cut : slice html start (start + j) ≡ some (drop start (take (start + j) html)) =
                unfold slice in ground (arith, bound, short, length-drop {0} start html) in
              (
                trim_space (drop start (take (start + j) html)),
                rw (from, tag_content) (rw (e, tag_content) (rw (cut, tag_content))),
              )
        ]

  -- In an ASCII page no tag makes the extraction panic.
  extract_tag_total :
      (html tag : Bytes)
      → is_ascii html ≡ true
      → is_ascii (b'<' ∷ (tag ++ b'>' ∷ [])) ≡ true
      → (t : Bytes) × (extract_tag unicode_lower html tag ≡ some t)
  unfolding extract_tag
  extract_tag_total html tag plain plain_tag =
      let open_tag = b'<' ∷ (tag ++ b'>' ∷ []) in
      let lowered = to_lower unicode_lower html in
      elim (Option-cases (index lowered (to_lower unicode_lower open_tag))) [
        | inl e ↦ ([], rw (e, extract_tag))
        | inr (i, e) ↦
            let bound = index-bound lowered (to_lower unicode_lower open_tag) e in
            let inside : i + length open_tag ≤ length html = omega (
              arith,
              bound,
              length-to_lower unicode_lower html plain,
              length-to_lower unicode_lower open_tag plain_tag,
            ) in
            let (t, h) =
              tag_content_total html (b'<' ∷ b'/' ∷ (tag ++ b'>' ∷ [])) (i + length open_tag) plain
                inside in
            (t, rw (e, extract_tag) h)
      ]

  first_text_total :
      (a b fallback : Bytes)
      → (t : Bytes) × (first_text unicode_lower (some a) (some b) fallback ≡ some t)
  unfolding first_text
  first_text_total [] [] fallback = (fallback, refl)
  first_text_total [] (c ∷ b) fallback = (c ∷ b, refl)
  first_text_total (c ∷ a) b fallback = (c ∷ a, refl)

  -- The summary of an ASCII body never panics.
  summarize_body_total :
      (body : Bytes)
      → is_ascii body ≡ true
      → (t : Bytes) × (summarize_body unicode_lower body ≡ some t)
  unfolding summarize_body
  summarize_body_total body plain =
      let (title, a) = extract_tag_total body (codes "title") plain (unfold is_ascii in refl) in
      let (h3, b) = extract_tag_total body (codes "h3") plain (unfold is_ascii in refl) in
      let (t, c) = first_text_total title h3 (codes "(HTML error page)") in
      elim (Bool-cases (contains body (codes "<html") || contains body (codes "<HTML"))) [
        | inl page ↦ (t, rw (page, summarize_body) (rw a (rw b c)))
        | inr other ↦ elim (Bool-cases (ltb max_body_len (length body))) [
          | inl long ↦ (
            take max_body_len body ++ codes "...",
            rw (other, summarize_body) (rw (long, summarize_body)),
          )
          | inr short ↦ (body, rw (other, summarize_body) (rw (short, summarize_body)))
        ]
      ]
