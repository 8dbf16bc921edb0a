-- ===== src/Sources/Fetched.antt =====
-- What `Get` returns.
use iban_pizza.Prelude.{
  ◌∙◌, subst, ℕ, ◌+◌, ◌≤◌, ◌<◌, false, [], ◌∷◌, Option, none, some, if◌then◌else◌, leb, ltb, ◌==◌,
  length, take, length-take, ◌≡◌, ◌↔◌, refl, subst, sym, ap, ◌∙◌, arith, Bool-cases, inl, inr,
  ==_iff,
}
use iban_pizza.Prelude.Text.{Bytes}
use iban_pizza.Iban.Types.{Result, ok, err, ◌>>=◌, bind_passed}
use iban_pizza.Sources.Fetch.{
  max_download_bytes, Response, FetchError, read_limited, unless_failed, checked_body, of_response,
  of_reached, get_url,
}

module _ {E : Type 0} where
  -- A whole answer that `Get` may return: status 200, no failure, and a body that is not empty and not above
  -- a bound.
  pub record IsWhole (most : ℕ) (resp : Response E) (body : Bytes) : Type 0 where
    pub status : resp.status ≡ 200
    pub complete : resp.failure ≡ none
    pub same : resp.body ≡ body
    pub some_byte : 1 ≤ length body
    pub bounded : length body ≤ most

  ok_injective :
      (read body : Bytes) → ◌≡◌ {A = Result (FetchError E) Bytes} (ok read) (ok body) → read ≡ body
  ok_injective read body h = cc

  checked_body_passed :
      (most : ℕ) (read body : Bytes)
      → checked_body {E = E} most read ≡ ok body
      → (read ≡ body) × (1 ≤ length body) × (length body ≤ most)
  checked_body_passed most [] body h = absurd (cc)
  checked_body_passed most (c ∷ read) body h = elim (Bool-cases (ltb most (length (c ∷ read)))) [
    | inl above ↦ absurd (ground (arith, rw above at h))
    | inr within ↦
        let same = ok_injective (c ∷ read) body (rw within at h) in
        (
          same,
          subst (λ (b : Bytes). 1 ≤ length b) same (omega arith),
          subst (λ (b : Bytes). length b ≤ most) same (ground (arith, within)),
        )
  ]

  unless_failed_passed :
      (read : Bytes) (failure : Option E) (body : Bytes)
      → unless_failed read failure ≡ ok body
      → (read ≡ body) × (failure ≡ none)
  unless_failed_passed read none body h = (cc, refl)
  unless_failed_passed read (some e) body h = absurd (cc)

  read_limited_passed :
      (resp : Response E) (limit : ℕ) (body : Bytes)
      → read_limited limit resp ≡ ok body
      → length body < limit
      → (resp.body ≡ body) × (resp.failure ≡ none)
  unfolding read_limited
  read_limited_passed resp limit body h le = elim (Bool-cases (leb limit (length resp.body))) [
    | inl beyond ↦
        let cut = ok_injective (take limit resp.body) body (rw beyond at h) in
        absurd (ground (arith, ap length cut, length-take limit resp.body, beyond, le))
    | inr within ↦ unless_failed_passed resp.body resp.failure body (rw within at h)
  ]

  of_response_passed :
      (most : ℕ) (resp : Response E) (body : Bytes)
      → of_response most resp ≡ ok body
      → IsWhole most resp body
  of_response_passed most resp body h = elim (Bool-cases (resp.status == 200)) [
    | inr other ↦ absurd (ground (arith, rw other at h))
    | inl good ↦
        let (read, limited, checked) =
          bind_passed (read_limited (most + 1) resp) (checked_body most) (rw good at h) in
        let (same, positive, bounded) = checked_body_passed most read body checked in
        let (whole, complete) =
          read_limited_passed resp (most + 1) read limited
            (subst (λ (b : Bytes). length b < most + 1) (sym same) (ground (arith, bounded))) in
        record {
          status = (==_iff resp.status 200).0 good;
          complete = complete;
          same = whole ∙ same;
          some_byte = positive;
          bounded = bounded;
        }
  ]

  whole_body :
      (most : ℕ) (body : Bytes)
      → 1 ≤ length body
      → length body ≤ most
      → ((if leb (most + 1) (length body) then ok (take (most + 1) body) else ok body)
          >>= checked_body {E = E} most)
        ≡ ok body
  whole_body most [] positive bounded = absurd (omega arith)
  whole_body most (c ∷ body) positive bounded =
      let within : leb (most + 1) (length (c ∷ body)) ≡ false = ground (arith, bounded) in
      let small : ltb most (length (c ∷ body)) ≡ false = ground (arith, bounded) in
      rw (within, small) refl

  of_response-IsWhole :
      (most : ℕ) (resp : Response E) (body : Bytes)
      → IsWhole most resp body
      → of_response most resp ≡ ok body
  unfolding read_limited
  of_response-IsWhole most resp body w =
      rw (w.status, w.complete, w.same) (whole_body most body w.some_byte w.bounded)

  of_reached_passed :
      (most : ℕ) (r : Result E (Response E)) (body : Bytes)
      → of_reached most r ≡ ok body
      → (resp : Response E) × (r ≡ ok resp) × IsWhole most resp body
  of_reached_passed most (err e) body h = absurd (cc)
  of_reached_passed most (ok resp) body h = (resp, refl, of_response_passed most resp body h)

  of_reached-IsWhole :
      (most : ℕ) (r : Result E (Response E)) (body : Bytes)
      → ((resp : Response E) × (r ≡ ok resp) × IsWhole most resp body)
      → of_reached most r ≡ ok body
  of_reached-IsWhole most r body (resp, reached, whole) =
      rw reached (of_response-IsWhole most resp body whole)

  -- `Get` returns a body exactly if the server answers with status 200 and that whole body, and the body has at
  -- least one byte and at most `MaxDownloadBytes`: a body is never cut short.
  pub get_url_iff :
      (http : Bytes → Result E (Response E)) (url body : Bytes)
      → (get_url http url ≡ ok body)
        ↔ ((resp : Response E) × (http url ≡ ok resp) × IsWhole max_download_bytes resp body)
  unfolding get_url
  get_url_iff http url body = (
    of_reached_passed max_download_bytes (http url) body,
    of_reached-IsWhole max_download_bytes (http url) body,
  )
