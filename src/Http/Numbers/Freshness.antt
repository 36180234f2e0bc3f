-- ===== src/Http/Numbers/Freshness.antt =====
-- When a timestamp counts as fresh, and when two byte strings are the same.
use hbs_queue.Http.Middleware.{webhook_timestamp_tolerance}
use hbs_queue.Http.Numbers.{since_unix, unix_seconds, unix_to_internal, same_bytes}
use hbs_queue.Prelude.{
  ℕ, ◌+◌, ◌-◌, ◌*◌, ◌≤◌, ◌<◌, ◌≡◌, ◌↔◌, refl, ◌∷◌, [], inl, inr, true, Bytes, arith, Bool-cases,
  ltb, ltb→lt,
}
use hbs_queue.Prelude.Int.{pos, negsuc, ◌≤ℤ◌, two_63, two_64}

pub same_bytes_iff : (a b : Bytes) → (same_bytes a b ≡ true) ↔ (a ≡ b)
unfolding same_bytes
same_bytes_iff [] [] = ((λ h. refl), (λ h. refl))
same_bytes_iff [] (b ∷ bs) = ground arith
same_bytes_iff (a ∷ rest) [] = ground arith
same_bytes_iff (a ∷ rest) (b ∷ bs) = ground (arith, same_bytes_iff rest bs)

-- A count of seconds that leaves room for those before 1970 is kept; one that does not has wrapped.
unix_seconds_small : (n : ℕ) → n + unix_to_internal < two_63 → unix_seconds (pos n) ≡ pos n
unix_seconds_small n h = ground arith

unix_seconds_wrapped :
    (n : ℕ)
    → n < two_63
    → two_63 ≤ n + unix_to_internal
    → unix_seconds (pos n) ≡ negsuc (two_64 - 1 - n)
unix_seconds_wrapped n h over = ground arith

-- A timestamp from 1970 on that fits an int64 is at most 60 seconds old, as the middleware measures
-- it, exactly where the clock shows at most 60 seconds more, however far the timestamp lies in the
-- future, and adding the seconds before 1970 does not overflow.
pub since_unix_lem :
    (now n : ℕ)
    → n < two_63
    → (since_unix (pos now) (pos n) ≤ℤ pos webhook_timestamp_tolerance)
      ↔ ((n + unix_to_internal < two_63) × (now ≤ (n + 60) * 1000000000))
since_unix_lem now n h = elim (Bool-cases (ltb (n + unix_to_internal) two_63)) [
  | inl small ↦ rw (unix_seconds_small n (ltb→lt _ _ small)) (ground arith)
  | inr over ↦
      let most : two_63 ≤ n + unix_to_internal = ground arith in
      rw (unix_seconds_wrapped n h most) (ground arith)
]
