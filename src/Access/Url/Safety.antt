-- ===== src/Access/Url/Safety.antt =====
-- What a validated URL is pinned to.
use alice_skilltech_tools.Prelude.{
  ℕ, String, Bool, true, false, not, ◌&&◌, ◌||◌, ◌≡◌, Option, none, some, List, [], ◌∷◌, str_eq,
  if◌then◌else◌, arith, Bool-cases, Option-cases, inl, inr, All,
}
use mathlib.Core.Path.{subst}
use alice_skilltech_tools.Access.Url.{
  port_or_default, AddressLibrary, ParsedUrl, ValidatedUrl, Result, ok, rejected, str_elem,
  is_blocked_ip, in_networks, is_refused, check_answers, validate_literal, pin, validate_resolved,
  validate_host, validate_moodle_url, given_hostname,
}

module _ {Addr Net : Type 0} (lib : AddressLibrary Addr Net) where
  -- The text of an address that passes the test of the loop.
  abbrev pub IsAccepted : Bool → List Net → String → Type 0
  IsAccepted hostname_allowed networks a =
      (ip : Addr) × (lib.ip_address a ≡ some ip)
      × (is_refused lib hostname_allowed networks ip ≡ false)

  abbrev IsPinned : Bool → List Net → Option String → Type 0
  IsPinned hostname_allowed networks none = Unit
  IsPinned hostname_allowed networks (some a) = IsAccepted hostname_allowed networks a

  -- If there is a result, every answer that was looked at passes, and so does the pinned one.
  abbrev IsChecked : Bool → List Net → List String → Result String → Type 0
  IsChecked hostname_allowed networks answers (rejected _) = Unit
  IsChecked hostname_allowed networks answers (ok a) =
      IsAccepted hostname_allowed networks a × All (IsAccepted hostname_allowed networks) answers

  IsChecked-cons :
      (hostname_allowed : Bool) (networks : List Net) (s : String) (answers : List String)
      (r : Result String)
      → IsAccepted hostname_allowed networks s
      → IsChecked hostname_allowed networks answers r
      → IsChecked hostname_allowed networks (s ∷ answers) r
  IsChecked-cons hostname_allowed networks s answers (rejected _) h c = tt
  IsChecked-cons hostname_allowed networks s answers (ok a) h c = (c.0, (h, c.1))

  check_answers-IsChecked :
      (allow hostname_allowed : Bool) (networks : List Net) (pinned : Option String)
      (answers : List String)
      → IsPinned hostname_allowed networks pinned
      → IsChecked hostname_allowed networks answers
          (check_answers lib allow hostname_allowed networks pinned answers)
  unfolding check_answers
  check_answers-IsChecked allow hostname_allowed networks none [] good = tt
  check_answers-IsChecked allow hostname_allowed networks (some p) [] good = (good, tt)
  check_answers-IsChecked allow hostname_allowed networks none (s ∷ answers) good =
      elim (Option-cases (lib.ip_address s)) [
        | inl bad ↦ rw (bad, IsChecked, check_answers) tt
        | inr (ip, e) ↦
            rw (e, IsChecked, check_answers)
              (elim (Bool-cases (is_refused lib hostname_allowed networks ip)) [
                | inl refused ↦ rw (refused, IsChecked, check_answers) tt
                | inr accepted ↦
                    rw (accepted, IsChecked, check_answers)
                      (IsChecked-cons hostname_allowed networks s answers
                        (check_answers lib allow hostname_allowed networks (some s) answers)
                        (ip, e, accepted)
                        (check_answers-IsChecked allow hostname_allowed networks (some s) answers
                          (ip, e, accepted)))
              ])
      ]
  check_answers-IsChecked allow hostname_allowed networks (some p) (s ∷ answers) good =
      elim (Option-cases (lib.ip_address s)) [
        | inl bad ↦ rw (bad, IsChecked, check_answers) tt
        | inr (ip, e) ↦
            rw (e, IsChecked, check_answers)
              (elim (Bool-cases (is_refused lib hostname_allowed networks ip)) [
                | inl refused ↦ rw (refused, IsChecked, check_answers) tt
                | inr accepted ↦
                    rw (accepted, IsChecked, check_answers)
                      (IsChecked-cons hostname_allowed networks s answers
                        (check_answers lib allow hostname_allowed networks (some p) answers)
                        (ip, e, accepted)
                        (check_answers-IsChecked allow hostname_allowed networks (some p) answers
                          good))
              ])
      ]

  -- A pinned address lies in an allowed network, or passes the test of the loop.
  abbrev pub IsSafe : (String → String) → List String → List Net → Result ValidatedUrl → Type 0
  IsSafe lower domains networks (rejected _) = Unit
  IsSafe lower domains networks (ok v) =
      (ip : Addr) × (lib.ip_address v.resolved_ip ≡ some ip)
      × ((not (is_blocked_ip lib ip)
            || str_elem (lower v.hostname) domains
            || in_networks lib networks ip)
          ≡ true)

  validate_literal-IsSafe :
      (lower : String → String) (allow : Bool) (domains : List String) (networks : List Net)
      (url : ParsedUrl) (hostname : String) (ip : Addr)
      → lib.ip_address (lib.str ip) ≡ some ip
      → IsSafe lower domains networks (validate_literal lib allow networks url hostname ip)
  unfolding validate_literal
  validate_literal-IsSafe lower allow domains networks url hostname ip parses =
      elim (Bool-cases (in_networks lib networks ip)) [
        | inl inside ↦ rw inside (ip, parses, ground (arith, inside))
        | inr outside ↦ rw outside tt
      ]

  pin-IsSafe :
      (lower : String → String) (domains : List String) (networks : List Net) (url : ParsedUrl)
      (hostname : String) (answers : List String) (r : Result String)
      → IsChecked (str_elem (lower hostname) domains) networks answers r
      → IsSafe lower domains networks (pin lib url hostname r)
  unfolding pin is_refused
  pin-IsSafe lower domains networks url hostname answers (rejected e) c = tt
  pin-IsSafe lower domains networks url hostname answers (ok a) ((ip, e, accepted), rest) =
      (ip, e, ground (arith, accepted))

  validate_resolved-IsSafe :
      (lower : String → String) (allow : Bool) (domains : List String) (networks : List Net)
      (url : ParsedUrl) (hostname : String) (answers : Option (List String))
      → IsSafe lower domains networks (
          validate_resolved lib allow
            (str_elem (lower hostname) domains)
            networks
            url
            hostname
            answers)
  unfolding validate_resolved
  validate_resolved-IsSafe lower allow domains networks url hostname none = tt
  validate_resolved-IsSafe lower allow domains networks url hostname (some []) = tt
  validate_resolved-IsSafe lower allow domains networks url hostname (some (a ∷ answers)) =
      pin-IsSafe lower domains networks url hostname (a ∷ answers)
        (check_answers lib allow (str_elem (lower hostname) domains) networks none (a ∷ answers))
        (check_answers-IsChecked allow (str_elem (lower hostname) domains) networks none
          (a ∷ answers) tt)

  module _ (parses : (ip : Addr) → lib.ip_address (lib.str ip) ≡ some ip) where
    validate_host-IsSafe :
        (lower : String → String) (resolve : String → ℕ → Option (List String)) (allow : Bool)
        (domains : List String) (networks : List Net) (url : ParsedUrl) (hostname : String)
        → IsSafe lower domains networks
            (validate_host lib lower resolve allow domains networks url hostname)
    unfolding validate_host
    validate_host-IsSafe lower resolve allow domains networks url hostname =
        elim (Option-cases (lib.ip_address hostname)) [
          | inl name ↦
              rw (name, IsSafe, validate_host)
                (validate_resolved-IsSafe lower allow domains networks url hostname
                  (resolve hostname (port_or_default url)))
          | inr (ip, e) ↦
              rw (e, IsSafe, validate_host)
                (validate_literal-IsSafe lower allow domains networks url hostname ip (parses ip))
        ]

    validate_moodle_url-IsSafe :
        (lower : String → String) (resolve : String → ℕ → Option (List String))
        (domains : List String) (networks : List Net) (allow : Bool) (url : ParsedUrl)
        → IsSafe lower
            (if allow then domains else [])
            (if allow then networks else [])
            (validate_moodle_url lib lower resolve domains networks allow url)
    unfolding validate_moodle_url
    validate_moodle_url-IsSafe lower resolve domains networks allow url =
        elim (Bool-cases (str_eq url.scheme "http" || str_eq url.scheme "https")) [
          | inr other ↦ rw (other, IsSafe, validate_moodle_url) tt
          | inl web ↦
              rw (web, IsSafe, validate_moodle_url)
                (elim (Option-cases (given_hostname url.hostname)) [
                  | inl no_host ↦ rw (no_host, IsSafe) tt
                  | inr (hostname, e) ↦
                      rw (e, IsSafe)
                        (validate_host-IsSafe lower resolve allow (if allow then domains else [])
                          (if allow then networks else []) url hostname)
                ])
        ]

    -- If the text of an address is read back as the address, a URL that is accepted is
    -- pinned to an address that is private, loopback, reserved, link-local, multicast or
    -- unspecified only if the caller may reach private networks and the allowlists have the
    -- host name or a network of the address.
    pub validate_moodle_url-resolved_ip :
        (lower : String → String) (resolve : String → ℕ → Option (List String))
        (domains : List String) (networks : List Net) (allow : Bool) (url : ParsedUrl)
        (v : ValidatedUrl)
        → validate_moodle_url lib lower resolve domains networks allow url ≡ ok v
        → (ip : Addr) × (lib.ip_address v.resolved_ip ≡ some ip)
          × ((not (is_blocked_ip lib ip)
                || (allow && (str_elem (lower v.hostname) domains || in_networks lib networks ip)))
              ≡ true)
    unfolding in_networks str_elem
    validate_moodle_url-resolved_ip lower resolve domains networks true url v h =
        let safe =
          subst (IsSafe lower domains networks) h
            (validate_moodle_url-IsSafe lower resolve domains networks true url) in
        (safe.0, safe.1, ground (arith, safe.2))
    validate_moodle_url-resolved_ip lower resolve domains networks false url v h =
        let safe =
          subst (IsSafe lower [] []) h
            (validate_moodle_url-IsSafe lower resolve domains networks false url) in
        (safe.0, safe.1, ground (arith, safe.2))
