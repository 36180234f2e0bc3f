-- ===== src/Scenarios/Text.antt =====
-- The summary of an error page.
use hbs_queue.Prelude.{◌≡◌, refl, some, Bytes, codes}
use hbs_queue.Vcd.ApiError.{extract_tag, first_text, summarize_body}

abbrev page : Bytes
page = codes "<html><title> 404 </title></html>"

summarize_body_page : summarize_body (λ s. s) page ≡ some (codes "404")
unfolding summarize_body first_text extract_tag
summarize_body_page = refl
