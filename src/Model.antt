-- ===== src/Model.antt =====
-- Subscriber policies: durable-mq/model/sub-policy.go, and with the same fields
-- dist-mq/model/sub-policy.go and push-mq/sub-policy.go. A Go int is a signed number; the program
-- only compares it.
use simon_mq.Base.{ℕ, Bool, true, Option, none, some, GoString, leb}

-- `negsuc n` is -(n + 1).
pub data ℤ : Type 0 where
  pos : ℕ → ℤ
  negsuc : ℕ → ℤ

pub record SubPolicy : Type 0 where
  pub sub_name : GoString
  pub sub_url : GoString
  pub number_of_retries : ℤ

-- `n >= limit` for a count of attempts.
abbrev pub reached : ℕ → ℤ → Bool
reached n (pos limit) = leb limit n
reached n (negsuc limit) = true

-- `m[k]` of a count, where a missing key reads as 0.
abbrev pub or_zero : Option ℕ → ℕ
or_zero none = 0
or_zero (some n) = n

-- The limit in a map where a missing key reads as the zero policy.
abbrev pub limit_of : Option SubPolicy → ℤ
limit_of none = pos 0
limit_of (some p) = p.number_of_retries
