-- ===== src/Access/Chat/Rules.antt =====
-- Who is let in, stated without the order of the tests.
use alice_skilltech_tools.Prelude.{
  ℕ, String, Bool, true, ◌≡◌, ◌≢◌, ◌↔◌, ◌⊎◌, Option, none, some, arith,
}
use alice_skilltech_tools.Access.Chat.{
  Chatbot, public, password, allowed, nonempty, is_owner, verify_password, private_verdict,
  check_password, verify_access, check_chat_password, check_can_chat,
}

module _ (checkpw : String → String → Option Bool) where
  -- A password that opens the chatbot.
  abbrev pub Opens : Chatbot → Option String → Type 0
  Opens chatbot given =
      (hash word : String) × (nonempty chatbot.password_hash ≡ some hash)
      × (nonempty given ≡ some word)
      × (verify_password checkpw word hash ≡ true)

  -- Whoever is let in to chat is the owner, or comes to a public chatbot, or to one behind a
  -- password and either gave the password that its hash accepts or found no password set.
  pub check_can_chat_lem :
      (chatbot : Chatbot) (user : Option ℕ) (given : Option String)
      → check_can_chat checkpw chatbot user given ≡ allowed
      → (is_owner chatbot user ≡ true)
        ⊎ (chatbot.access_level ≡ public)
        ⊎ (chatbot.access_level ≡ password) × (nonempty chatbot.password_hash ≡ none)
        ⊎ Opens chatbot given
  unfolding check_can_chat check_chat_password private_verdict
  check_can_chat_lem chatbot user given h = ground arith

  -- Whoever may see a chatbot may chat with it; and whoever may chat with it may see it
  -- exactly when they own it, or it is not behind a password, or a password is set.
  pub check_can_chat-verify_access :
      (chatbot : Chatbot) (user : Option ℕ) (given : Option String)
      → (verify_access checkpw chatbot user given ≡ allowed)
        ↔ (check_can_chat checkpw chatbot user given ≡ allowed)
          × ((is_owner chatbot user ≡ true)
              ⊎ (chatbot.access_level ≢ password)
              ⊎ (nonempty chatbot.password_hash ≢ none))
  unfolding verify_access check_can_chat check_password check_chat_password private_verdict
  check_can_chat-verify_access chatbot user given = ground arith
