-- ===== src/Vcd/Request/Decode.antt =====
-- What a call that decoded a response without an error has read.
use hbs_queue.Errors.{GoError}
use hbs_queue.Prelude.{◌≡◌, refl, String, Option, none, some, Bytes, arith, inl, inr, Option-cases}
use hbs_queue.Vcd.Client.{HttpResponse, Session, decode_json}
use hbs_queue.Vcd.Request.{store_result}

-- The value after a response was decoded into `before`: the body was read whole and unmarshalled
-- with no error. A call with no result decodes nothing.
abbrev pub Decoded :
    {R : Type 0}
    → Option (Bytes → R → R × Option GoError)
    → HttpResponse
    → (before after : R) → Type 0
Decoded none resp before after = after ≡ before
Decoded (some f) resp before after = (resp.read_error ≡ none) × (f resp.body before ≡ (after, none))

decode_json_nil :
    {R : Type 0} (f : Bytes → R → R × Option GoError) (resp : HttpResponse) (v : R)
    → (decode_json f resp v).1 ≡ none
    → (resp.read_error ≡ none) × (f resp.body v ≡ ((decode_json f resp v).0, none))
unfolding decode_json
decode_json_nil f resp v h = elim (Option-cases resp.read_error) [
  | inr (e, x) ↦ absurd (let bad = rw (x, decode_json) at h in cc)
  | inl x ↦
      let h₁ = rw (x, decode_json) at h in
      elim (Option-cases (f resp.body v).1) [
        | inr (e, y) ↦ absurd (let bad = rw (y, decode_json) at h₁ in cc)
        | inl y ↦ (x, rw (x, decode_json) (ground arith))
      ]
]

pub store_result_nil :
    {N R : Type 0} (unmarshal : Option (Bytes → R → R × Option GoError)) (method : String)
    (path : Bytes) (resp : HttpResponse) (s : Session N R)
    → (store_result unmarshal method path resp s).1 ≡ none
    → Decoded unmarshal resp s.result (store_result unmarshal method path resp s).0.result
unfolding store_result
store_result_nil none method path resp s h = refl
store_result_nil (some f) method path resp s h =
    elim (Option-cases (decode_json f resp s.result).1) [
      | inr (e, x) ↦ absurd (let bad = rw (x, store_result) at h in cc)
      | inl x ↦ rw (x, store_result) (decode_json_nil f resp s.result x)
    ]

pub store_result_net :
    {N R : Type 0} (unmarshal : Option (Bytes → R → R × Option GoError)) (method : String)
    (path : Bytes) (resp : HttpResponse) (s : Session N R)
    → (store_result unmarshal method path resp s).0.net ≡ s.net
unfolding store_result
store_result_net none method path resp s = refl
store_result_net (some f) method path resp s = ground arith
