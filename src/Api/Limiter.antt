-- ===== src/Api/Limiter.antt =====
-- internal/api/middleware.go: the rate limiter, a counter for each client address in a window of a minute.
-- A time is a number of time units, of which a minute has so many as `minute` tells; `now.Sub` of a later
-- time is negative in Go and 0 here, which no test above zero tells apart.
use iban_pizza.Prelude.{
  ℕ, ◌+◌, ◌-◌, Bool, true, false, List, [], ◌∷◌, Option, none, some, ltb, leb, if◌then◌else◌,
}
use iban_pizza.Prelude.Text.{Bytes, bytes_eq}
use iban_pizza.Prelude.Assoc.{get, put, delete_where, bytes_key}

-- `window`
pub record Window : Type 0 where
  pub count : ℕ
  pub start : ℕ

-- `limiter`
pub record Limiter : Type 0 where
  pub per_min : ℕ
  pub windows : List (Bytes × Window)
  pub last : ℕ

-- `newLimiter`
abbrev pub new_limiter : ℕ → ℕ → Limiter
new_limiter per_min now = record { per_min = per_min; windows = []; last = now }

module _ (minute : ℕ) where
  -- `now.Sub(t) > time.Minute`
  abbrev pub is_over : ℕ → ℕ → Bool
  is_over now t = ltb minute (now - t)

  abbrev pub expired : ℕ → Window → Bool
  expired now w = is_over now w.start

  -- The first part of `allow`: the windows that are over are dropped, at most once a minute.
  unfoldable pub clean : Limiter → ℕ → Limiter
  clean l now =
      if is_over now l.last
      then record l { windows = delete_where (expired now) l.windows; last = now }
      else l

  abbrev pub open_window : Limiter → Bytes → ℕ → Bool × Limiter
  open_window l key now =
      (true, record l { windows = put key (record { count = 1; start = now }) l.windows })

  -- The rest of `allow`, from the window of the client.
  abbrev pub admit : Limiter → Bytes → ℕ → Option Window → Bool × Limiter
  admit l key now none = open_window l key now
  admit l key now (some w) =
      if expired now w
      then open_window l key now
      else if leb l.per_min w.count
      then (false, l)
      else (true, record l { windows = put key (record w { count = w.count + 1 }) l.windows })

  -- `allow`: the answer and the limiter after it.
  unfoldable pub allow : Limiter → Bytes → ℕ → Bool × Limiter
  allow l key now = admit (clean l now) key now (get key (clean l now).windows)

  -- A sequence of requests, each an address and a time: the answers, and the limiter at the end.
  unfoldable pub serve : Limiter → List (Bytes × ℕ) → List Bool × Limiter
  serve l [] = ([], l)
  serve l ((key, now) ∷ requests) =
      let step = allow l key now in let rest = serve step.1 requests in (step.0 ∷ rest.0, rest.1)

-- All that the limiter computes with, for the tests.
unfoldable pub limiter_code : Unit {0}
unfolding get put delete_where bytes_eq clean allow serve
limiter_code = tt
