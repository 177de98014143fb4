-- ===== src/Examples/Reaching.antt =====
-- The theorems on validated URLs and on chatbots, with two addresses and a trivial bcrypt.
use alice_skilltech_tools.Prelude.{
  ℕ, String, Bool, true, false, not, ◌&&◌, ◌||◌, ◌≡◌, ◌≢◌, ◌↔◌, ◌⊎◌, refl, Option, none, some, List,
  [], ◌∷◌, if◌then◌else◌, str_eq,
}
use alice_skilltech_tools.Access.Url.{
  AddressLibrary, ParsedUrl, ValidatedUrl, is_blocked_ip, str_elem, in_networks,
  validate_moodle_url, validate_host, validate_resolved, check_answers, is_refused, pin,
  port_or_default, given_hostname,
}
use alice_skilltech_tools.Access.Url.Safety.{validate_moodle_url-resolved_ip}
use alice_skilltech_tools.Access.Chat.{
  Chatbot, public, password, allowed, nonempty, is_owner, verify_password, verify_access,
  check_can_chat, check_chat_password,
}
use alice_skilltech_tools.Access.Chat.Rules.{
  Opens, check_can_chat_lem, check_can_chat-verify_access,
}

-- A public address and the loopback address.
abbrev read_address : String → Option Bool
read_address s =
    if str_eq s "127.0.0.1" then some true else if str_eq s "192.0.2.7" then some false else none

abbrev show_address : Bool → String
show_address true = "127.0.0.1"
show_address false = "192.0.2.7"

abbrev addresses : AddressLibrary Bool ℕ
addresses = record {
  ip_address = read_address;
  str = show_address;
  is_private = λ ip. false;
  is_loopback = λ ip. ip;
  is_reserved = λ ip. false;
  is_link_local = λ ip. false;
  is_multicast = λ ip. false;
  is_unspecified = λ ip. false;
  contains = λ net ip. ip;
}

reads_shown : (ip : Bool) → read_address (show_address ip) ≡ some ip
reads_shown true = refl
reads_shown false = refl

abbrev keep_case : String → String
keep_case s = s

abbrev answer : String → ℕ → Option (List String)
answer host port = some ("192.0.2.7" ∷ [])

abbrev url : ParsedUrl
url = record {
  original = "https://moodle.example";
  scheme = "https";
  hostname = some "moodle.example";
  port = none;
}

abbrev validated : ValidatedUrl
validated = record {
  original_url = "https://moodle.example";
  scheme = "https";
  hostname = "moodle.example";
  port = 443;
  resolved_ip = "192.0.2.7";
  is_literal_ip = false;
}

validate_moodle_url_example :
    (ip : Bool) × (read_address "192.0.2.7" ≡ some ip)
    × ((not (is_blocked_ip addresses ip)
          || (false && (str_elem "moodle.example" [] || in_networks addresses [] ip)))
        ≡ true)
unfolding validate_moodle_url validate_host validate_resolved check_answers is_refused is_blocked_ip
    in_networks pin port_or_default given_hostname str_elem
validate_moodle_url_example =
    validate_moodle_url-resolved_ip addresses reads_shown keep_case answer [] [] false url validated
      refl

-- bcrypt, on hashes that are the passwords themselves.
abbrev same_text : String → String → Option Bool
same_text plain hashed = some (str_eq plain hashed)

abbrev chatbot : Chatbot
chatbot = record { owner_id = 5; access_level = password; password_hash = some "secret" }

check_can_chat_example :
    (is_owner chatbot none ≡ true)
    ⊎ (chatbot.access_level ≡ public)
    ⊎ (chatbot.access_level ≡ password) × (nonempty chatbot.password_hash ≡ none)
    ⊎ Opens same_text chatbot (some "secret")
unfolding check_can_chat is_owner nonempty check_chat_password verify_password
check_can_chat_example = check_can_chat_lem same_text chatbot none (some "secret") refl

check_can_chat-verify_access_example :
    (verify_access same_text chatbot none none ≡ allowed)
    ↔ (check_can_chat same_text chatbot none none ≡ allowed)
      × ((is_owner chatbot none ≡ true)
          ⊎ (chatbot.access_level ≢ password)
          ⊎ (nonempty chatbot.password_hash ≢ none))
check_can_chat-verify_access_example = check_can_chat-verify_access same_text chatbot none none
