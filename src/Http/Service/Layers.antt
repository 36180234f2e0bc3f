-- ===== src/Http/Service/Layers.antt =====
-- The middleware of NewServer keeps what is known of the handler below it.
use hbs_queue.Http.Message.{Request, Writer, Served, Handler, header_value, http_error}
use hbs_queue.Http.Middleware.{
  LogLine, request_id, request_logger, panic_recovery, dev_cors, new_server,
}
use hbs_queue.Http.Service.Guarded.{Outcome, aside, ordered, Guards}
use hbs_queue.Http.Service.{World}
use hbs_queue.Prelude.{
  ◌≡◌, some, Bytes, codes, refl, arith, inl, inr, Option-cases, Bool-cases, String, str_eq,
  is_empty, subst, ◌∙◌, ap,
}

-- An error that follows a panic is a 202 only where that was sent before it.
http_error_202 :
    (message : Bytes) (v : Writer)
    → (http_error message 500 v).status ≡ some 202
    → v.status ≡ some 202
http_error_202 message v h = elim (Option-cases v.status) [
  | inl e ↦ absurd (let bad = rw e at h in ground arith)
  | inr (sent, e) ↦ rw e (rw e at h)
]

module _ {B R : Type 0} (onboard : Handler B) (key : Bytes) where
  -- A layer that hands on the request's headers and body and the response's status, and that
  -- answers with the backend as it was left, and with 202 only where 202 was the answer below it.
  wraps :
      (w w' : World B R) (r r' : Request) (writer writer' : Writer)
      (below served : Served (World B R))
      → w'.backend ≡ w.backend
      → r'.headers ≡ r.headers
      → r'.body ≡ r.body
      → r'.body_error ≡ r.body_error
      → writer'.status ≡ writer.status
      → served.world.backend ≡ below.world.backend
      → (served.writer.status ≡ some 202 → below.writer.status ≡ some 202)
      → Outcome onboard key w' r' writer' below
      → Outcome onboard key w r writer served
  wraps w w' r r' writer writer' below served same heads body failed status kept told
        (aside left other) =
      aside (kept ∙ left ∙ same) (λ fresh h. other (status ∙ fresh) (told h))
  wraps w w' r r' writer writer' below served same heads body failed status kept told
        (ordered given inner some_key right gbody gfailed gstatus done accepted) =
      ordered given inner some_key (subst (λ hs. header_value hs "X-API-Key" ≡ key) heads right)
        (gbody ∙ body) (gfailed ∙ failed) (gstatus ∙ status)
        (kept ∙ done ∙ ap (λ b. (onboard b given inner).world) same)
        (λ h.
          subst (λ b. (onboard b given inner).writer.status ≡ some 202) same (accepted (told h)))

  panic_recovery-Guards :
      (next : Handler (World B R))
      → Guards onboard key next
      → Guards onboard key (panic_recovery next)
  unfolding panic_recovery
  panic_recovery-Guards next h w r writer = elim (Bool-cases (next w r writer).panicked) [
    | inl e ↦
        rw (e, panic_recovery)
          (wraps w w r r writer writer (next w r writer) _ refl refl refl refl refl refl
            (http_error_202 (codes "Internal Server Error") (next w r writer).writer)
            (h w r writer))
    | inr e ↦
        rw (e, panic_recovery)
          (wraps w w r r writer writer (next w r writer) _ refl refl refl refl refl refl (λ x. x)
            (h w r writer))
  ]

  request_logger-Guards :
      (log : LogLine → World B R → World B R) (next : Handler (World B R))
      → ((line : LogLine) (w : World B R) → (log line w).backend ≡ w.backend)
      → Guards onboard key next
      → Guards onboard key (request_logger log next)
  unfolding request_logger
  request_logger-Guards log next quiet h w r writer =
      let started = record writer { recorded = 200 } in
      let below = next w r started in
      elim (Bool-cases below.panicked) [
        | inl e ↦
            rw (e, request_logger)
              (wraps w w r r writer started below _ refl refl refl refl refl refl (λ x. x)
                (h w r started))
        | inr e ↦
            rw (e, request_logger)
              (wraps w w r r writer started below _ refl refl refl refl refl (quiet _ below.world)
                (λ x. x) (h w r started))
      ]

  dev_cors-Guards :
      (next : Handler (World B R)) → Guards onboard key next → Guards onboard key (dev_cors next)
  unfolding dev_cors
  dev_cors-Guards next h w r writer = elim (Bool-cases (str_eq r.method "OPTIONS")) [
    | inl e ↦ rw (e, dev_cors) (aside refl (λ fresh. rw fresh (λ x. ground arith)))
    | inr e ↦
        rw (e, dev_cors)
          (wraps w w r r writer _ _ _ refl refl refl refl refl refl (λ x. x) (h w r _))
  ]

  request_id-Guards :
      (generate : World B R → World B R × Bytes) (next : Handler (World B R))
      → ((w : World B R) → (generate w).0.backend ≡ w.backend)
      → Guards onboard key next
      → Guards onboard key (request_id generate next)
  unfolding request_id
  request_id-Guards generate next quiet h w r writer =
      elim (Bool-cases (is_empty (header_value r.headers "X-Request-ID"))) [
        | inl e ↦
            rw (e, request_id)
              (wraps w (generate w).0 r _ writer _ _ _ (quiet w) refl refl refl refl refl (λ x. x)
                (h (generate w).0 _ _))
        | inr e ↦
            rw (e, request_id)
              (wraps w w r _ writer _ _ _ refl refl refl refl refl refl (λ x. x) (h w _ _))
      ]

  pub new_server-Guards :
      (generate : World B R → World B R × Bytes) (log : LogLine → World B R → World B R)
      (env : String) (mux : Handler (World B R))
      → ((w : World B R) → (generate w).0.backend ≡ w.backend)
      → ((line : LogLine) (w : World B R) → (log line w).backend ≡ w.backend)
      → Guards onboard key mux
      → Guards onboard key (new_server generate log env mux)
  unfolding new_server
  new_server-Guards generate log env mux quiet silent h =
      let logged =
        request_logger-Guards log (panic_recovery mux) silent (panic_recovery-Guards mux h) in
      elim (Bool-cases (str_eq env "prod")) [
        | inl e ↦ rw (e, new_server) (request_id-Guards generate _ quiet logged)
        | inr e ↦ rw (e, new_server) (request_id-Guards generate _ quiet (dev_cors-Guards _ logged))
      ]
