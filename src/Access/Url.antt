-- ===== src/Access/Url.antt =====
-- api/app/services/url_validation.py (and its verbatim copy sync/worker/src/core/url_validation.py).
--
-- A URL is what `urllib.parse.urlparse` makes of it; an address and a network are abstract, with
-- the tests of the `ipaddress` module in AddressLibrary. `resolve` is `socket.getaddrinfo`: the
-- addresses it answers with, as texts, or `none` for gaierror. `lower` is `str.lower`, and the
-- allowlists are what `_parse_allowlists` reads from the environment.
pub mod Safety
use alice_skilltech_tools.Prelude.{
  ℕ, String, Bool, true, false, not, ◌&&◌, ◌||◌, Option, none, some, List, [], ◌∷◌, str_eq,
  if◌then◌else◌, any, ◌==◌,
}

pub record AddressLibrary (Addr : Type 0) (Net : Type 0) : Type 0 where
  pub ip_address : String → Option Addr
  pub str : Addr → String
  pub is_private : Addr → Bool
  pub is_loopback : Addr → Bool
  pub is_reserved : Addr → Bool
  pub is_link_local : Addr → Bool
  pub is_multicast : Addr → Bool
  pub is_unspecified : Addr → Bool
  pub contains : Net → Addr → Bool

-- `parsed.port` is None or a number.
pub record ParsedUrl : Type 0 where
  pub original : String
  pub scheme : String
  pub hostname : Option String
  pub port : Option ℕ

pub record ValidatedUrl : Type 0 where
  pub original_url : String
  pub scheme : String
  pub hostname : String
  pub port : ℕ
  pub resolved_ip : String
  pub is_literal_ip : Bool

-- The messages of UrlValidationError; `bad_address` is the ValueError of `ip_address` on an answer
-- and `assertion` the failure of the assertion after the loop.
pub data UrlError : Type 0 where
  invalid_scheme no_hostname literal_needs_admin literal_not_listed unresolved : UrlError
  private_needs_admin private_not_listed bad_address assertion : UrlError

pub data Result (A : Type 0) : Type 0 where
  ok : A → Result A
  rejected : UrlError → Result A

unfoldable pub str_elem : String → List String → Bool
str_elem a xs = any (λ x. str_eq a x) xs

-- `not parsed.hostname`
unfoldable pub given_hostname : Option String → Option String
given_hostname none = none
given_hostname (some host) = if str_eq host "" then none else some host

-- parsed.port or (443 if parsed.scheme == "https" else 80)
unfoldable pub port_or_default : ParsedUrl → ℕ
port_or_default url =
    let default = if str_eq url.scheme "https" then 443 else 80 in
    elim url.port [ none ↦ default | some p ↦ if p == 0 then default else p ]

module _ {Addr Net : Type 0} (lib : AddressLibrary Addr Net) where
  unfoldable pub is_blocked_ip : Addr → Bool
  is_blocked_ip ip =
      lib.is_private ip
      || lib.is_loopback ip
      || lib.is_reserved ip
      || lib.is_link_local ip
      || lib.is_multicast ip
      || lib.is_unspecified ip

  unfoldable pub in_networks : List Net → Addr → Bool
  in_networks networks ip = any (λ net. lib.contains net ip) networks

  -- The test at which an answer is refused.
  unfoldable pub is_refused : Bool → List Net → Addr → Bool
  is_refused hostname_allowed networks ip =
      is_blocked_ip ip && not (hostname_allowed || in_networks networks ip)

  -- The loop over the answers, with `pinned_addr`.
  unfoldable pub check_answers :
      (allow hostname_allowed : Bool) → List Net → Option String → List String → Result String
  check_answers allow hostname_allowed networks none [] = rejected assertion
  check_answers allow hostname_allowed networks (some pinned) [] = ok pinned
  check_answers allow hostname_allowed networks pinned (sockaddr ∷ rest) =
      let next =
        check_answers allow hostname_allowed networks
          (elim pinned [ none ↦ some sockaddr | some p ↦ some p ]) rest in
      elim (lib.ip_address sockaddr) [
        | none ↦ rejected bad_address
        | some ip ↦
            if is_refused hostname_allowed networks ip
            then rejected (if allow then private_not_listed else private_needs_admin)
            else next
      ]

  unfoldable pub validate_literal :
      Bool → List Net → ParsedUrl → String → Addr → Result ValidatedUrl
  validate_literal allow networks url hostname ip =
      if in_networks networks ip
      then ok (record {
        original_url = url.original;
        scheme = url.scheme;
        hostname = hostname;
        port = port_or_default url;
        resolved_ip = lib.str ip;
        is_literal_ip = true;
      })
      else rejected (if allow then literal_not_listed else literal_needs_admin)

  unfoldable pub pin : ParsedUrl → String → Result String → Result ValidatedUrl
  pin url hostname (rejected e) = rejected e
  pin url hostname (ok pinned) = ok (record {
    original_url = url.original;
    scheme = url.scheme;
    hostname = hostname;
    port = port_or_default url;
    resolved_ip = pinned;
    is_literal_ip = false;
  })

  unfoldable pub validate_resolved :
      (allow hostname_allowed : Bool)
      → List Net
      → ParsedUrl
      → String
      → Option (List String)
      → Result ValidatedUrl
  validate_resolved allow hostname_allowed networks url hostname none = rejected unresolved
  validate_resolved allow hostname_allowed networks url hostname (some []) = rejected unresolved
  validate_resolved allow hostname_allowed networks url hostname (some (a ∷ answers)) =
      pin url hostname (check_answers allow hostname_allowed networks none (a ∷ answers))

  -- What follows when the URL has a host name and the allowlists are known.
  unfoldable pub validate_host :
      (String → String)
      → (String → ℕ → Option (List String))
      → Bool
      → List String
      → List Net
      → ParsedUrl
      → String
      → Result ValidatedUrl
  validate_host lower resolve allow domains networks url hostname = elim (lib.ip_address hostname) [
    | some ip ↦ validate_literal allow networks url hostname ip
    | none ↦
        validate_resolved allow (str_elem (lower hostname) domains) networks url hostname
          (resolve hostname (port_or_default url))
  ]

  unfoldable pub validate_moodle_url :
      (String → String)
      → (String → ℕ → Option (List String))
      → List String
      → List Net
      → Bool
      → ParsedUrl
      → Result ValidatedUrl
  validate_moodle_url lower resolve domains networks allow url =
      if str_eq url.scheme "http" || str_eq url.scheme "https"
      then elim (given_hostname url.hostname) [
        | none ↦ rejected no_hostname
        | some hostname ↦
            validate_host lower resolve allow (if allow then domains else [])
              (if allow then networks else []) url hostname
      ]
      else rejected invalid_scheme
