-- ===== src/Api/Bounded.antt =====
-- What the rate limiter lets through.
use iban_pizza.Prelude.{
  ◌&&◌, ◌≤◌, ◌∷◌, List, refl, ap, ◌∙◌, leb, inr, inl, ◌+◌, false, Bool-cases, Bool, ltb, true, ℕ,
  Option, none, some, if◌then◌else◌, ◌≡◌, arith, [], subst,
}
use iban_pizza.Prelude.Text.{bytes_eq_iff, bytes_eq, Bytes}
use iban_pizza.Prelude.Assoc.{
  get-put, delete_where-Distinct, put-Distinct, get, Distinct, get-delete_where, bytes_key,
}
use iban_pizza.Api.Limiter.{serve, serve, is_over, admit, allow, Window, Limiter, expired, clean}

-- No window, or one that has counted fewer than the limit.
abbrev pub has_room : ℕ → Option Window → Bool
has_room per_min none = true
has_room per_min (some w) = ltb w.count per_min

-- The number of requests of a client, and of those that were let through.
unfoldable pub asked : Bytes → List (Bytes × ℕ) → ℕ
asked key [] = 0
asked key ((k, t) ∷ requests) = (if bytes_eq k key then 1 else 0) + asked key requests

unfoldable pub admitted : Bytes → List (Bytes × ℕ) → List Bool → ℕ
admitted key [] answers = 0
admitted key (r ∷ requests) [] = 0
admitted key ((k, t) ∷ requests) (a ∷ answers) =
    (if bytes_eq k key && a then 1 else 0) + admitted key requests answers

module _ (minute : ℕ) where
  -- The window of a client that still runs.
  abbrev pub running : ℕ → Option Window → Option Window
  running now none = none
  running now (some w) = if expired minute now w then none else some w

  running-clean :
      (l : Limiter) (key : Bytes) (now : ℕ)
      → Distinct l.windows
      → running now (get key (clean minute l now).windows) ≡ running now (get key l.windows)
  unfolding clean
  running-clean l key now d = ground (arith, get-delete_where (expired minute now) key l.windows d)

  admit-has_room :
      (l : Limiter) (key : Bytes) (now : ℕ) (w : Option Window)
      → (admit minute l key now w).0 ≡ has_room l.per_min (running now w)
  admit-has_room l key now none = refl
  admit-has_room l key now (some w) = ground arith

  clean-per_min : (l : Limiter) (now : ℕ) → (clean minute l now).per_min ≡ l.per_min
  unfolding clean
  clean-per_min l now = ground arith

  -- In a limiter with no address twice, a request is let through exactly if its client had, before
  -- the clean-up, no window that still runs, or one that has counted fewer than the limit.
  allow-has_room :
      (l : Limiter) (key : Bytes) (now : ℕ)
      → Distinct l.windows
      → (allow minute l key now).0 ≡ has_room l.per_min (running now (get key l.windows))
  unfolding allow
  allow-has_room l key now d = rw (
    admit-has_room (clean minute l now) key now (get key (clean minute l now).windows),
    clean-per_min l now,
    running-clean l key now d,
  )

  clean-Distinct :
      (l : Limiter) (now : ℕ) → Distinct l.windows → Distinct (clean minute l now).windows
  unfolding clean
  clean-Distinct l now d = elim (Bool-cases (is_over minute now l.last)) [
    | inl due ↦ rw due (delete_where-Distinct (expired minute now) l.windows d)
    | inr early ↦ rw early d
  ]

  admit-Distinct :
      (l : Limiter) (key : Bytes) (now : ℕ) (w : Option Window)
      → Distinct l.windows
      → Distinct (admit minute l key now w).1.windows
  admit-Distinct l key now none d = put-Distinct key (record { count = 1; start = now }) l.windows d
  admit-Distinct l key now (some w) d = elim (Bool-cases (expired minute now w)) [
    | inl old ↦ rw old (put-Distinct key (record { count = 1; start = now }) l.windows d)
    | inr runs ↦ elim (Bool-cases (leb l.per_min w.count)) [
      | inl full ↦ rw (runs, full) d
      | inr room ↦
          rw (runs, room)
            (put-Distinct key (record { count = w.count + 1; start = w.start }) l.windows d)
    ]
  ]

  allow-Distinct :
      (l : Limiter) (key : Bytes) (now : ℕ)
      → Distinct l.windows
      → Distinct (allow minute l key now).1.windows
  unfolding allow
  allow-Distinct l key now d =
      admit-Distinct (clean minute l now) key now (get key (clean minute l now).windows)
        (clean-Distinct l now d)

  get-clean :
      (l : Limiter) (key : Bytes) (now : ℕ) (w : Window)
      → Distinct l.windows
      → get key l.windows ≡ some w
      → expired minute now w ≡ false
      → get key (clean minute l now).windows ≡ some w
  unfolding clean
  get-clean l key now w d here runs =
      ground (arith, get-delete_where (expired minute now) key l.windows d)

  -- The window of a client after its request, from the one before.
  abbrev pub counted : ℕ → Window → Window
  counted per_min w =
      if ltb w.count per_min then record { count = w.count + 1; start = w.start } else w

  -- A request of another client leaves a window as it is.
  get-admit_other :
      (l : Limiter) (key other : Bytes) (now : ℕ) (v : Option Window)
      → bytes_eq key other ≡ false
      → get other (admit minute l key now v).1.windows ≡ get other l.windows
  get-admit_other l key other now none apart =
      rw (get-put key other (record { count = 1; start = now }) l.windows, apart)
  get-admit_other l key other now (some u) apart = ground (
    arith,
    apart,
    get-put key other (record { count = 1; start = now }) l.windows,
    get-put key other (record { count = u.count + 1; start = u.start }) l.windows,
  )

  -- A request of the client itself counts, up to the limit.
  get-admit_same :
      (l : Limiter) (key : Bytes) (now : ℕ) (w : Window)
      → get key l.windows ≡ some w
      → expired minute now w ≡ false
      → get key (admit minute l key now (some w)).1.windows ≡ some (counted l.per_min w)
  get-admit_same l key now w here runs = ground (
    arith,
    here,
    runs,
    bytes_eq_iff key key,
    get-put key key (record { count = w.count + 1; start = w.start }) l.windows,
  )

  get-allow_other :
      (l : Limiter) (key other : Bytes) (now : ℕ) (w : Window)
      → Distinct l.windows
      → get other l.windows ≡ some w
      → expired minute now w ≡ false
      → bytes_eq key other ≡ false
      → get other (allow minute l key now).1.windows ≡ some w
  unfolding allow
  get-allow_other l key other now w d here runs apart =
      get-admit_other (clean minute l now) key other now (get key (clean minute l now).windows)
        apart
      ∙ get-clean l other now w d here runs

  get-allow_same :
      (l : Limiter) (key : Bytes) (now : ℕ) (w : Window)
      → Distinct l.windows
      → get key l.windows ≡ some w
      → expired minute now w ≡ false
      → get key (allow minute l key now).1.windows ≡ some (counted l.per_min w)
  unfolding allow
  get-allow_same l key now w d here runs =
      let kept = get-clean l key now w d here runs in
      rw kept (
        get-admit_same (clean minute l now) key now w kept runs
        ∙ ap (λ n. some (counted n w)) (clean-per_min l now))

  allow-per_min :
      (l : Limiter) (key : Bytes) (now : ℕ) → (allow minute l key now).1.per_min ≡ l.per_min
  unfolding allow
  allow-per_min l key now =
      admit-per_min (clean minute l now) key now (get key (clean minute l now).windows)
      ∙ clean-per_min l now
    where
      admit-per_min :
          (m : Limiter) (key : Bytes) (now : ℕ) (w : Option Window)
          → (admit minute m key now w).1.per_min ≡ m.per_min
      admit-per_min m key now none = refl
      admit-per_min m key now (some w) = ground arith

  -- Requests that all come while a window with this start runs.
  abbrev Within : ℕ → List (Bytes × ℕ) → Type 0
  Within start [] = Unit
  Within start ((k, t) ∷ requests) = (is_over minute t start ≡ false) × Within start requests

  allow-running :
      (l : Limiter) (key : Bytes) (now : ℕ) (w : Window)
      → Distinct l.windows
      → get key l.windows ≡ some w
      → expired minute now w ≡ false
      → (allow minute l key now).0 ≡ ltb w.count l.per_min
  allow-running l key now w d here runs = allow-has_room l key now d ∙ rw (here, runs)

  -- In a limiter with no address twice, while a window of a client runs that has counted at most the
  -- limit, and whatever requests of others come between: what it has counted and the client's requests
  -- let through add up to what it has counted and all its requests, or to the limit where that is less.
  pub serve-admitted :
      (key : Bytes) (requests : List (Bytes × ℕ)) (l : Limiter) (w : Window)
      → Distinct l.windows
      → get key l.windows ≡ some w
      → w.count ≤ l.per_min
      → Within w.start requests
      → w.count + admitted key requests (serve minute l requests).0 ≡ (
          if leb l.per_min (w.count + asked key requests)
          then l.per_min
          else w.count + asked key requests)
  unfolding serve asked admitted
  serve-admitted key [] l w d here low within = ground arith
  serve-admitted key ((k, t) ∷ requests) l w d here low within =
      elim (Bool-cases (bytes_eq k key)) [
        | inl mine ↦
            let e = (bytes_eq_iff k key).0 mine in
            let here' : get k l.windows ≡ some w = rw e here in
            let answer = allow-running l k t w d here' within.0 in
            let next : get key (allow minute l k t).1.windows ≡ some (counted l.per_min w) =
              subst (λ z. get z (allow minute l k t).1.windows ≡ some (counted l.per_min w)) e
                (get-allow_same l k t w d here' within.0) in
            elim (Bool-cases (ltb w.count l.per_min)) [
              | inl room ↦
                  let rest =
                    serve-admitted key requests (allow minute l k t).1
                      (record { count = w.count + 1; start = w.start }) (allow-Distinct l k t d)
                      (rw room at next) (rw (allow-per_min l k t) (ground (arith, room)))
                      within.1 in
                  ground (arith, mine, answer, room, rest, allow-per_min l k t)
              | inr full ↦
                  let rest =
                    serve-admitted key requests (allow minute l k t).1 w (allow-Distinct l k t d)
                      (rw full at next) (rw (allow-per_min l k t) low) within.1 in
                  ground (arith, mine, answer, full, rest, low, allow-per_min l k t)
            ]
        | inr apart ↦
            let rest =
              serve-admitted key requests (allow minute l k t).1 w (allow-Distinct l k t d)
                (get-allow_other l k key t w d here within.0 apart) (rw (allow-per_min l k t) low)
                within.1 in
            ground (arith, apart, rest, allow-per_min l k t)
      ]
