-- ===== src/Api/Alive.antt =====
-- That the limiter lets a client through again.
use iban_pizza.Prelude.{
  ℕ, ◌+◌, ◌<◌, Bool, true, ◌&&◌, List, [], ◌∷◌, Option, none, some, leb, ◌≡◌, refl, arith,
  Bool-cases, inl, inr, &&-both, some_injective,
}
use iban_pizza.Prelude.Text.{Bytes, bytes_eq}
use iban_pizza.Prelude.Assoc.{get, put, delete_where, bytes_key}
use iban_pizza.Api.Limiter.{Window, Limiter, is_over, expired, clean, admit, allow, serve}

-- No window of a list was opened after a time.
abbrev pub opened_by : ℕ → List (Bytes × Window) → Bool
opened_by t [] = true
opened_by t ((key, w) ∷ m) = leb w.start t && opened_by t m

-- No request of a sequence came after a time.
abbrev pub sent_by : ℕ → List (Bytes × ℕ) → Bool
sent_by t [] = true
sent_by t ((key, now) ∷ requests) = leb now t && sent_by t requests

put-opened_by :
    (t : ℕ) (key : Bytes) (w : Window) (m : List (Bytes × Window))
    → leb w.start t ≡ true
    → opened_by t m ≡ true
    → opened_by t (put key w m) ≡ true
unfolding put
put-opened_by t key w [] h hm = ground (arith, h)
put-opened_by t key w ((j, v) ∷ m) h hm = ground (arith, h, hm, put-opened_by t key w m h)

delete_where-opened_by :
    (t : ℕ) (p : Window → Bool) (m : List (Bytes × Window))
    → opened_by t m ≡ true
    → opened_by t (delete_where p m) ≡ true
unfolding delete_where
delete_where-opened_by t p [] h = refl
delete_where-opened_by t p ((j, v) ∷ m) h = ground (arith, h, delete_where-opened_by t p m)

get-opened_by :
    (t : ℕ) (key : Bytes) (m : List (Bytes × Window)) (w : Window)
    → opened_by t m ≡ true
    → get key m ≡ some w
    → leb w.start t ≡ true
unfolding get
get-opened_by t key [] w h found = absurd (cc)
get-opened_by t key ((j, v) ∷ m) w h found = elim (Bool-cases (bytes_eq j key)) [
  | inl same ↦
      let here : v ≡ w = some_injective v w (rw same at found) in
      rw (← here) (&&-both (leb v.start t) (opened_by t m) h).0
  | inr other ↦
      get-opened_by t key m w (&&-both (leb v.start t) (opened_by t m) h).1 (rw other at found)
]

module _ (minute : ℕ) where
  clean-opened_by :
      (t now : ℕ) (l : Limiter)
      → opened_by t l.windows ≡ true
      → opened_by t (clean minute l now).windows ≡ true
  unfolding clean
  clean-opened_by t now l h = elim (Bool-cases (is_over minute now l.last)) [
    | inl over ↦ rw over (delete_where-opened_by t (expired minute now) l.windows h)
    | inr recent ↦ rw recent h
  ]

  admit-opened_by :
      (t now : ℕ) (l : Limiter) (key : Bytes) (w : Option Window)
      → leb now t ≡ true
      → opened_by t l.windows ≡ true
      → ((v : Window) → w ≡ some v → leb v.start t ≡ true)
      → opened_by t (admit minute l key now w).1.windows ≡ true
  admit-opened_by t now l key none hn h hw =
      put-opened_by t key (record { count = 1; start = now }) l.windows hn h
  admit-opened_by t now l key (some w) hn h hw = elim (Bool-cases (expired minute now w)) [
    | inl over ↦ rw over (put-opened_by t key (record { count = 1; start = now }) l.windows hn h)
    | inr runs ↦ elim (Bool-cases (leb l.per_min w.count)) [
      | inl full ↦ rw (runs, full) h
      | inr room ↦
          rw (runs, room)
            (put-opened_by t key (record w { count = w.count + 1 }) l.windows (hw w refl) h)
    ]
  ]

  serve-opened_by :
      (t : ℕ) (l : Limiter) (requests : List (Bytes × ℕ))
      → opened_by t l.windows ≡ true
      → sent_by t requests ≡ true
      → opened_by t (serve minute l requests).1.windows ≡ true
  unfolding serve allow
  serve-opened_by t l [] h hr = h
  serve-opened_by t l ((key, now) ∷ requests) h hr =
      let (hn, hrest) = &&-both (leb now t) (sent_by t requests) hr in
      let cleaned = clean-opened_by t now l h in
      serve-opened_by t (allow minute l key now).1 requests
        (admit-opened_by t now (clean minute l now) key (get key (clean minute l now).windows) hn
          cleaned (λ v. get-opened_by t key (clean minute l now).windows v cleaned))
        hrest

  admit_again :
      (t now : ℕ) (l : Limiter) (key : Bytes) (w : Option Window)
      → t + minute < now
      → ((v : Window) → w ≡ some v → leb v.start t ≡ true)
      → (admit minute l key now w).0 ≡ true
  admit_again t now l key none late hw = refl
  admit_again t now l key (some w) late hw =
      let over : expired minute now w ≡ true = ground (arith, hw w refl, late) in rw over refl

  -- After any requests of any clients, refused or not, none of which came later than a time, and in a limiter that had
  -- opened no window after that time before them: a request that comes more than a minute after that time
  -- is let through, whoever sends it.
  pub serve-alive :
      (t now : ℕ) (l : Limiter) (requests : List (Bytes × ℕ)) (key : Bytes)
      → opened_by t l.windows ≡ true
      → sent_by t requests ≡ true
      → t + minute < now
      → (allow minute (serve minute l requests).1 key now).0 ≡ true
  unfolding allow
  serve-alive t now l requests key h hr late =
      let after = (serve minute l requests).1 in
      let cleaned = clean-opened_by t now after (serve-opened_by t l requests h hr) in
      admit_again t now (clean minute after now) key (get key (clean minute after now).windows) late
        (λ v. get-opened_by t key (clean minute after now).windows v cleaned)
