-- ===== src/Http/OnboardOrg/Replies.antt =====
-- The replies that are no 202, and what the decoding of a request gives.
use hbs_queue.Errors.{GoError, Result, ok, wrap, Result-cases}
use hbs_queue.Errors.Text.{error_text}
use hbs_queue.Http.Message.{Request, Writer, error_response}
use hbs_queue.Http.Message.Status.{encode_not_202}
use hbs_queue.Http.OnboardOrg.{Backend, reply_with}
use hbs_queue.Http.Requests.{Problems, checked, invalid, malformed, decode_valid}
use hbs_queue.Prelude.{
  ℕ, ◌≡◌, ◌≢◌, refl, ◌⊎◌, inl, inr, Option, none, some, List, [], ◌∷◌, ◌++◌, Bytes, codes,
  Option-cases, none-ne-some,
}

List-cases {ℓ} : {A : Type ℓ} (xs : List A) → (xs ≡ []) ⊎ ((x : A) × (ys : List A) × (xs ≡ x ∷ ys))
List-cases [] = inl refl
List-cases (x ∷ xs) = inr (x, xs, refl)

pub reply_with_status :
    {N S : Type 0} (lower : Bytes → Bytes) (code : ℕ) (prefix : Bytes) (e : GoError)
    (w : Backend N S) (v : Writer)
    → v.status ≡ none
    → code ≢ 202
    → ((reply_with lower code prefix e w v).writer.status ≢ some 202)
      × ((reply_with lower code prefix e w v).world ≡ w)
reply_with_status lower code prefix e w v fresh other = elim (Option-cases (error_text lower e)) [
  | inl quiet ↦ rw (quiet, reply_with) ((λ h. none-ne-some fresh h), refl)
  | inr (why, told) ↦
      rw (told, reply_with)
        (encode_not_202 code (error_response (prefix ++ why) []) v fresh other, refl)
]

pub decode_valid-cases :
    {T : Type 0} (decode : Bytes → Option GoError → Result T) (valid : T → Problems) (r : Request)
    → ((v : T) × (decode r.body r.body_error ≡ ok v)
        × (valid v ≡ [])
        × (decode_valid decode valid r ≡ checked v))
      ⊎ (((problems : Problems) × (decode_valid decode valid r ≡ invalid problems))
          ⊎ ((e : GoError) × (decode_valid decode valid r ≡ malformed e)))
unfolding decode_valid
decode_valid-cases decode valid r = elim (Result-cases (decode r.body r.body_error)) [
  | inr (e, a) ↦ inr (inr (wrap (codes "decode json: ") e, rw (a, decode_valid) refl))
  | inl (v, a) ↦ elim (List-cases (valid v)) [
    | inl b ↦ inl (v, a, b, rw (a, decode_valid) (rw (b, decode_valid) refl))
    | inr (p, problems, b) ↦
        inr (inl (p ∷ problems, rw (a, decode_valid) (rw (b, decode_valid) refl)))
  ]
]
