-- ===== src/Http/Middleware/Auth.antt =====
-- Who gets past the authentication, and what the others get.
use hbs_queue.Http.Message.{Request, Writer, Served, Handler, answered, header_value, http_error}
use hbs_queue.Http.Middleware.{
  webhook_timestamp_tolerance, api_key_auth, check_signature, webhook_auth,
}
use hbs_queue.Http.Numbers.Freshness.{same_bytes_iff}
use hbs_queue.Http.Numbers.{parse_int, since_unix, hex, same_bytes}
use hbs_queue.Prelude.{
  ℕ, ◌≡◌, ◌≢◌, refl, ◌⊎◌, inl, inr, true, false, ◌||◌, none, some, [], ◌∷◌, ◌++◌, Bytes, codes,
  arith, is_empty, Bool-cases, Option-cases,
}
use hbs_queue.Prelude.Int.{ℤ, pos, ltb_ℤ, ◌≤ℤ◌}

is_empty-true : (s : Bytes) → is_empty s ≡ true → s ≡ []
is_empty-true [] h = refl
is_empty-true (c ∷ s) h = ground arith

is_empty-false : (s : Bytes) → is_empty s ≡ false → s ≢ []
is_empty-false [] h = ground arith
is_empty-false (c ∷ s) h = λ e. ground arith

is_fresh : (limit : ℕ) (age : ℤ) → ltb_ℤ (pos limit) age ≡ false → age ≤ℤ pos limit
is_fresh limit age h = ground arith

not_fresh : (limit : ℕ) (age : ℤ) → ltb_ℤ (pos limit) age ≡ true → age ≤ℤ pos limit → ⊥
not_fresh limit age h le = ground arith

module _ {W : Type 0} (next : Handler W) (w : W) (r : Request) (writer : Writer) where
  -- A request reaches the handler behind the API key exactly where a key is configured and the
  -- request carries that key; every other request is answered with 401, and nothing else happens.
  pub api_key_auth_lem :
      (expected : Bytes)
      → ((expected ≢ [])
          × (header_value r.headers "X-API-Key" ≡ expected)
          × (api_key_auth expected next w r writer ≡ next w r writer))
        ⊎ (((expected ≡ []) ⊎ (header_value r.headers "X-API-Key" ≢ expected))
            × (api_key_auth expected next w r writer
                ≡ answered w (http_error (codes "unauthorized") 401 writer)))
  unfolding api_key_auth
  api_key_auth_lem expected =
      let same = same_bytes_iff (header_value r.headers "X-API-Key") expected in
      elim (Bool-cases (is_empty expected)) [
        | inl e ↦ inr (inl (is_empty-true expected e), rw (e, api_key_auth))
        | inr e ↦ elim (Bool-cases (same_bytes (header_value r.headers "X-API-Key") expected)) [
          | inl x ↦
              inl (is_empty-false expected e, same.0 x, rw (e, api_key_auth) (rw (x, api_key_auth)))
          | inr x ↦
              inr (inr (λ h. let bad = same.1 h in cc), rw (e, api_key_auth) (rw (x, api_key_auth)))
        ]
      ]

  module _ (hmac : Bytes → Bytes → Bytes) (now : W → ℤ) (secret : Bytes) where
    -- A request that is signed for the hook: a secret is configured, timestamp and signature are
    -- there, the timestamp is a number and not too old, the body can be read, and the signature is
    -- the one of the timestamp and the body.
    pub record IsSigned : Type 0 where
      pub has_secret : secret ≢ []
      pub has_timestamp : header_value r.headers "HB-Timestamp" ≢ []
      pub has_signature : header_value r.headers "HB-Signature" ≢ []
      pub timestamp : ℤ
      pub parsed : parse_int (header_value r.headers "HB-Timestamp") ≡ some timestamp
      pub fresh : since_unix (now w) timestamp ≤ℤ pos webhook_timestamp_tolerance
      pub readable : r.body_error ≡ none
      pub signed :
          header_value r.headers "HB-Signature"
          ≡ hex (hmac secret (header_value r.headers "HB-Timestamp" ++ r.body))

    -- What a request that is not admitted gets.
    abbrev pub Refused : Served W → Type 0
    Refused served =
        (served ≡ answered w (http_error (codes "unauthorized") 401 writer))
        ⊎ ((r.body_error ≢ none)
            × (served ≡ answered w (http_error (codes "bad request") 400 writer)))

    check_signature_lem :
        ((r.body_error ≡ none)
          × (header_value r.headers "HB-Signature"
              ≡ hex (hmac secret (header_value r.headers "HB-Timestamp" ++ r.body)))
          × (check_signature hmac now secret next w r writer ≡ next w r writer))
        ⊎ (((r.body_error ≢ none)
              ⊎ (header_value r.headers "HB-Signature"
                  ≢ hex (hmac secret (header_value r.headers "HB-Timestamp" ++ r.body))))
            × Refused (check_signature hmac now secret next w r writer))
    unfolding check_signature
    check_signature_lem =
        let expected = hex (hmac secret (header_value r.headers "HB-Timestamp" ++ r.body)) in
        let same = same_bytes_iff (header_value r.headers "HB-Signature") expected in
        elim (Option-cases r.body_error) [
          | inr (e, x) ↦
              let broken : r.body_error ≢ none = λ h. cc in
              inr (inl broken, inr (broken, rw (x, check_signature)))
          | inl x ↦
              elim (Bool-cases (same_bytes (header_value r.headers "HB-Signature") expected)) [
                | inl y ↦ inl (x, same.0 y, simp (x, y, check_signature))
                | inr y ↦
                    inr (inr (λ h. let bad = same.1 h in cc), inl (simp (x, y, check_signature)))
              ]
        ]

    abbrev stamp : Bytes
    stamp = header_value r.headers "HB-Timestamp"

    abbrev sig : Bytes
    sig = header_value r.headers "HB-Signature"

    unsent : is_empty stamp || is_empty sig ≡ true → ¬ IsSigned
    unsent b s = elim (Bool-cases (is_empty stamp)) [
      | inl x ↦ s.has_timestamp (is_empty-true stamp x)
      | inr x ↦ s.has_signature (is_empty-true sig (rw x at b))
    ]

    stale :
        (ts : ℤ)
        → parse_int stamp ≡ some ts
        → ltb_ℤ (pos webhook_timestamp_tolerance) (since_unix (now w) ts) ≡ true
        → ¬ IsSigned
    stale ts c d s =
        let same : s.timestamp ≡ ts = let there = s.parsed in cc in
        not_fresh webhook_timestamp_tolerance (since_unix (now w) ts) d (rw same at s.fresh)

    -- How a request with a secret, both headers and a fresh timestamp ends.
    stamped_lem :
        (ts : ℤ)
        → is_empty secret ≡ false
        → is_empty stamp || is_empty sig ≡ false
        → parse_int stamp ≡ some ts
        → ltb_ℤ (pos webhook_timestamp_tolerance) (since_unix (now w) ts) ≡ false
        → (IsSigned × (check_signature hmac now secret next w r writer ≡ next w r writer))
          ⊎ ((¬ IsSigned) × Refused (check_signature hmac now secret next w r writer))
    stamped_lem ts a b c d = elim check_signature_lem [
      | inl (readable, signed, e) ↦ inl (
        record {
          has_secret = is_empty-false secret a;
          has_timestamp = is_empty-false stamp (ground arith);
          has_signature = is_empty-false sig (ground arith);
          timestamp = ts;
          parsed = c;
          fresh = is_fresh webhook_timestamp_tolerance (since_unix (now w) ts) d;
          readable = readable;
          signed = signed;
        },
        e,
      )
      | inr (why, refused) ↦ inr (
        (λ s. elim why [ inl broken ↦ broken s.readable | inr forged ↦ forged s.signed ]),
        refused,
      )
    ]

    -- A webhook reaches its handler, with its body as it was sent, exactly where it is signed for
    -- the hook; any other request is refused with 401, or with 400 where its body cannot be read,
    -- and nothing else happens.
    pub webhook_auth_lem :
        (IsSigned × (webhook_auth hmac now secret next w r writer ≡ next w r writer))
        ⊎ ((¬ IsSigned) × Refused (webhook_auth hmac now secret next w r writer))
    unfolding webhook_auth
    webhook_auth_lem = elim (Bool-cases (is_empty secret)) [
      | inl a ↦ inr ((λ s. s.has_secret (is_empty-true secret a)), inl (rw (a, webhook_auth)))
      | inr a ↦ elim (Bool-cases (is_empty stamp || is_empty sig)) [
        | inl b ↦ inr (unsent b, inl (rw (a, webhook_auth) (rw (b, webhook_auth))))
        | inr b ↦ elim (Option-cases (parse_int stamp)) [
          | inl c ↦ inr (
            (λ s. let there = s.parsed in cc),
            inl (rw (a, webhook_auth) (rw (b, webhook_auth) (rw (c, webhook_auth)))),
          )
          | inr (ts, c) ↦
              elim (Bool-cases (ltb_ℤ (pos webhook_timestamp_tolerance) (since_unix (now w) ts))) [
                | inl d ↦ inr (
                  (λ s. stale ts c d s),
                  inl (
                      rw (a, webhook_auth)
                        (rw (b, webhook_auth) (rw (c, webhook_auth) (rw (d, webhook_auth))))),
                )
                | inr d ↦
                    rw (a, webhook_auth)
                      (rw (b, webhook_auth)
                        (rw (c, webhook_auth) (rw (d, webhook_auth) (stamped_lem ts a b c d))))
              ]
        ]
      ]
    ]
