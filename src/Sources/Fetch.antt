-- ===== src/Sources/Fetch.antt =====
-- internal/sources/fetch.go: `Get` and `ResolveLink` behind the HTTP client. What a server sends, the search for a
-- link and the resolution of a URL are parameters.
use iban_pizza.Prelude.{
  ℕ, ◌+◌, ◌*◌, not, [], ◌∷◌, Option, none, some, if◌then◌else◌, leb, ltb, ◌==◌, length, take,
}
use iban_pizza.Prelude.Text.{Bytes}
use iban_pizza.Iban.Types.{Result, ok, err, ◌>>=◌}

-- `MaxDownloadBytes`
abbrev pub max_download_bytes : ℕ
max_download_bytes = 64 * 1024 * 1024

-- An answer: its status, the bytes of its body, and the failure that reading them ends in, if it does.
pub record Response (E : Type 0) : Type 0 where
  pub status : ℕ
  pub body : Bytes
  pub failure : Option E

pub data FetchError (E : Type 0) : Type 0 where
  not_reached not_resolved : E → FetchError E
  bad_status : ℕ → FetchError E
  interrupted : E → FetchError E
  too_large no_body no_link : FetchError E

module _ {E : Type 0} where
  abbrev pub unless_failed : Bytes → Option E → Result (FetchError E) Bytes
  unless_failed body none = ok body
  unless_failed body (some e) = err (interrupted e)

  -- `io.ReadAll(io.LimitReader(resp.Body, limit))`: a failure behind the limit is not met.
  unfoldable pub read_limited : ℕ → Response E → Result (FetchError E) Bytes
  read_limited limit resp =
      if leb limit (length resp.body)
      then ok (take limit resp.body)
      else unless_failed resp.body resp.failure

  -- The rest of `Get`, with `MaxDownloadBytes` as `most`.
  abbrev pub checked_body : ℕ → Bytes → Result (FetchError E) Bytes
  checked_body most [] = err no_body
  checked_body most (c ∷ body) =
      if ltb most (length (c ∷ body)) then err too_large else ok (c ∷ body)

  abbrev pub of_response : ℕ → Response E → Result (FetchError E) Bytes
  of_response most resp =
      if not (resp.status == 200)
      then err (bad_status resp.status)
      else read_limited (most + 1) resp >>= checked_body most

  abbrev pub of_reached : ℕ → Result E (Response E) → Result (FetchError E) Bytes
  of_reached most (err e) = err (not_reached e)
  of_reached most (ok resp) = of_response most resp

  module _ (http : Bytes → Result E (Response E)) where
    -- `Get`
    unfoldable pub get_url : Bytes → Result (FetchError E) Bytes
    get_url url = of_reached max_download_bytes (http url)

    module _ (find_link : Bytes → Option Bytes) (resolve : Bytes → Bytes → Result E Bytes) where
      abbrev pub of_resolved : Result E Bytes → Result (FetchError E) Bytes
      of_resolved (err e) = err (not_resolved e)
      of_resolved (ok url) = ok url

      abbrev pub of_link : Bytes → Option Bytes → Result (FetchError E) Bytes
      of_link page none = err no_link
      of_link page (some href) = of_resolved (resolve page href)

      -- `ResolveLink`
      unfoldable pub resolve_link : Bytes → Result (FetchError E) Bytes
      resolve_link page = get_url page >>= λ text. of_link page (find_link text)
