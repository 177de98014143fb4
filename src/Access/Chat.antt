-- ===== src/Access/Chat.antt =====
-- api/app/services/access_service.py: who may see a chatbot and who may chat with it.
--
-- The parameters are bcrypt: `checkpw` gives `none` where it raises ValueError, `hashpw` is applied
-- with a fresh salt, and `utf8` is the number of bytes of a text in UTF-8.
pub mod Rules
use alice_skilltech_tools.Prelude.{
  ℕ, String, Bool, true, false, not, ◌&&◌, Option, none, some, str_eq, if◌then◌else◌, ltb, ◌==◌,
}

pub data ChatbotAccessLevel : Type 0 where
  public private password : ChatbotAccessLevel

-- The columns of Chatbot that the service reads.
pub record Chatbot : Type 0 where
  pub owner_id : ℕ
  pub access_level : ChatbotAccessLevel
  pub password_hash : Option String

-- `allowed` is the return of None, the others are the HTTPException by its status.
pub data Verdict : Type 0 where
  allowed unauthorized_401 forbidden_403 misconfigured_500 too_long_400 : Verdict

-- A text that is there and not empty.
unfoldable pub nonempty : Option String → Option String
nonempty none = none
nonempty (some s) = if str_eq s "" then none else some s

unfoldable pub is_owner : Chatbot → Option ℕ → Bool
is_owner chatbot none = false
is_owner chatbot (some user) = chatbot.owner_id == user

unfoldable pub verify_ownership : Chatbot → ℕ → Verdict
verify_ownership chatbot user = if chatbot.owner_id == user then allowed else forbidden_403

-- hash_password; `none` is HTTPException(400).
unfoldable pub hash_password : (String → ℕ) → (String → String) → String → Option String
hash_password utf8 hashpw plain = if ltb 72 (utf8 plain) then none else some (hashpw plain)

module _ (checkpw : String → String → Option Bool) where
  unfoldable pub verify_password : String → String → Bool
  verify_password plain hashed = elim (checkpw plain hashed) [ none ↦ false | some b ↦ b ]

  unfoldable pub private_verdict : Option ℕ → Verdict
  private_verdict none = unauthorized_401
  private_verdict (some user) = forbidden_403

  unfoldable pub check_password : Option String → Option String → Verdict
  check_password none given = misconfigured_500
  check_password (some hash) none = forbidden_403
  check_password (some hash) (some given) =
      if verify_password given hash then allowed else forbidden_403

  unfoldable pub verify_access : Chatbot → Option ℕ → Option String → Verdict
  verify_access chatbot user given =
      if is_owner chatbot user then allowed else elim chatbot.access_level [
        | public ↦ allowed
        | private ↦ private_verdict user
        | password ↦ check_password (nonempty chatbot.password_hash) (nonempty given)
      ]

  -- Unlike `check_password`, a chatbot without a hash lets everybody in.
  unfoldable pub check_chat_password : Option String → Option String → Verdict
  check_chat_password none given = allowed
  check_chat_password (some hash) none = forbidden_403
  check_chat_password (some hash) (some given) =
      if verify_password given hash then allowed else forbidden_403

  unfoldable pub check_can_chat : Chatbot → Option ℕ → Option String → Verdict
  check_can_chat chatbot user given =
      if is_owner chatbot user then allowed else elim chatbot.access_level [
        | public ↦ allowed
        | private ↦ private_verdict user
        | password ↦ check_chat_password (nonempty chatbot.password_hash) (nonempty given)
      ]
