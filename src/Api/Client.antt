-- ===== src/Api/Client.antt =====
-- internal/api/middleware.go: the address of a client, and the CORS headers. The headers of a request and the split of an address
-- with a port are parameters.
use iban_pizza.Prelude.{
  ◌≡◌, ◌⊎◌, refl, Bool-cases, inl, inr, inr, inl, Bool-cases, ◌⊎◌, ◌≡◌, Bool, true, false, not,
  ◌&&◌, ◌||◌, List, [], ◌∷◌, Option, none, some, if◌then◌else◌, ◌==◌,
}
use iban_pizza.Prelude.Text.{Bytes, codes, bytes_eq, is_empty, trim_space}

-- `strings.Cut(v, ",")`, its first part
unfoldable pub before_comma : Bytes → Bytes
before_comma [] = []
before_comma (c ∷ s) = let rest = before_comma s in if c == b',' then [] else c ∷ rest

module _ (header : Bytes → Bytes) (split_host : Bytes → Option Bytes) where
  abbrev pub host_of : Bytes → Option Bytes → Bytes
  host_of remote none = trim_space remote
  host_of remote (some host) = host

  abbrev pub or_host : Bytes → Bytes → Bytes
  or_host remote [] = host_of remote (split_host remote)
  or_host remote (c ∷ ip) = c ∷ ip

  -- `clientIP`; a header that is not there reads as the empty text
  unfoldable pub client_ip : Bytes → Bytes → Bytes
  client_ip trusted remote =
      or_host remote (if is_empty trusted then [] else trim_space (before_comma (header trusted)))

-- `slices.Contains`
unfoldable pub is_allowed : Bytes → List Bytes → Bool
is_allowed origin [] = false
is_allowed origin (a ∷ allowed) = bytes_eq a origin || is_allowed origin allowed

-- What `withCORS` sets: the origin that is granted access, whether the answer varies by origin, whether it lists what is
-- allowed, and whether the request ends here.
pub record CorsAnswer : Type 0 where
  pub allow_origin : Option Bytes
  pub vary : Bool
  pub lists_methods : Bool
  pub ends : Bool

abbrev any_origin : Bytes
any_origin = codes "*"

-- `withCORS`
unfoldable pub cors : List Bytes → Bytes → Bytes → CorsAnswer
cors allowed origin method =
    let allow_all = is_allowed any_origin allowed in
    let listed = is_allowed origin allowed in
    record {
      allow_origin =
          if is_empty origin
          then none
          else if allow_all
          then some any_origin
          else if listed
          then some origin
          else none;
      vary = not (is_empty origin) && not allow_all && listed;
      lists_methods = not (is_empty origin) && (allow_all || listed);
      ends = bytes_eq method (codes "OPTIONS");
    }

-- An origin is granted access only if it is allowed by name, in which case the answer varies by origin, or all origins are; a
-- request without an origin, or from one that is not allowed, is granted nothing.
cors_sound :
    (allowed : List Bytes) (origin method : Bytes)
    → (((cors allowed origin method).allow_origin ≡ none)
        × (is_empty origin || not (is_allowed any_origin allowed || is_allowed origin allowed)
            ≡ true)
        × ((cors allowed origin method).lists_methods ≡ false))
      ⊎ (((cors allowed origin method).allow_origin ≡ some any_origin)
          × (is_allowed any_origin allowed ≡ true)
          × ((cors allowed origin method).vary ≡ false))
      ⊎ (((cors allowed origin method).allow_origin ≡ some origin)
          × (is_allowed origin allowed ≡ true)
          × ((cors allowed origin method).vary ≡ true))
unfolding cors
cors_sound allowed origin method = elim (Bool-cases (is_empty origin)) [
  | inl empty ↦ rw empty (inl (refl, refl, refl))
  | inr given ↦ elim (Bool-cases (is_allowed any_origin allowed)) [
    | inl every ↦ rw (given, every) (inr (inl (refl, refl, refl)))
    | inr some_only ↦ elim (Bool-cases (is_allowed origin allowed)) [
      | inl listed ↦ rw (given, some_only, listed) (inr (inr (refl, refl, refl)))
      | inr other ↦ rw (given, some_only, other) (inl (refl, refl, refl))
    ]
  ]
]
