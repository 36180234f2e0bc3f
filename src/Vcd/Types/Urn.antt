-- ===== src/Vcd/Types/Urn.antt =====
-- The UUID of a URN.
use hbs_queue.Errors.{ok}
use hbs_queue.Prelude.{
  ◌≤◌, ◌≡◌, ◌≢◌, ◌∙◌, List, [], ◌∷◌, ◌++◌, Bytes, length, All, arith, false, ltb, le→not_ltb, ◌==◌,
}
use mathlib.Core.List.{append_assoc, append-nil}
use hbs_queue.Strings.{split_from, split}
use hbs_queue.Vcd.Types.{last_part, extract_uuid}

-- strings.Join(parts, ":")
abbrev pub join : List Bytes → Bytes
join [] = []
join (p ∷ []) = p
join (p ∷ q ∷ parts) = p ++ (b':' ∷ join (q ∷ parts))

abbrev pub NoColon : Bytes → Type 0
NoColon = All (λ c. c ≢ b':')

split_from-word :
    (w : Bytes) (cur rest : Bytes)
    → NoColon w
    → split_from b':' cur (w ++ (b':' ∷ rest)) ≡ (cur ++ w) ∷ split_from b':' [] rest
unfolding split_from
split_from-word [] cur rest h = rw append-nil
split_from-word (c ∷ w) cur rest (other, h) =
    let here : (c == b':') ≡ false = ground arith in
    rw (here, split_from) (split_from-word w (cur ++ c ∷ []) rest h ∙ rw append_assoc)

split_from_last : (w : Bytes) (cur : Bytes) → NoColon w → split_from b':' cur w ≡ (cur ++ w) ∷ []
unfolding split_from
split_from_last [] cur h = rw append-nil
split_from_last (c ∷ w) cur (other, h) =
    let here : (c == b':') ≡ false = ground arith in
    rw (here, split_from) (split_from_last w (cur ++ c ∷ []) h ∙ rw append_assoc)

-- Splitting undoes joining.
pub split-join :
    (p : Bytes) (parts : List Bytes)
    → All NoColon (p ∷ parts)
    → split (join (p ∷ parts)) b':' ≡ p ∷ parts
unfolding split
split-join p [] (h, _) = split_from_last p [] h
split-join p (q ∷ parts) (h, hs) =
    split_from-word p [] (join (q ∷ parts)) h ∙ rw (split-join q parts hs)

-- The UUID of a URN is the part behind its last colon: for any four or more parts without colons,
-- joined by colons, it is the last one.
extract_uuid-join :
    (p : Bytes) (parts : List Bytes)
    → All NoColon (p ∷ parts)
    → 3 ≤ length parts
    → extract_uuid (join (p ∷ parts)) ≡ ok (last_part (p ∷ parts))
unfolding extract_uuid
extract_uuid-join p parts h enough =
    let test : ltb (length (p ∷ parts)) 4 ≡ false = le→not_ltb _ 4 (omega arith) in
    rw (split-join p parts h) (rw (test, extract_uuid))
