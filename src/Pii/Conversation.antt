-- ===== src/Pii/Conversation.antt =====
-- api/app/services/pii_filter_service.py: redact_messages, which numbers the placeholders of a
-- conversation anew.
--
-- A text is the list of its code points. A dict that is only looked into is the list of its items, the
-- newest first. The service behind redact_text, and what Python says of texts, are the fields of Python.
pub mod Texts
pub mod Renumbering
pub mod Consistency
use alice_skilltech_tools.Prelude.{
  ℕ, suc, String, Bool, true, false, not, ◌&&◌, Option, none, some, List, [], ◌∷◌, ◌++◌,
  if◌then◌else◌, ◌==◌, str_eq, any, ◌>>=◌,
}
use alice_skilltech_tools.Store.Metrics.{text_eq}
use alice_skilltech_tools.Pii.Stream.{CharTests, pieces, replaced}

pub record Python : Type 0 where
  pub tests : CharTests
  -- c.isspace()
  pub is_space : ℕ → Bool
  -- s.lower()
  pub lower : List ℕ → List ℕ
  -- str(n)
  pub decimal : ℕ → List ℕ

pub record HayhooksMessage : Type 0 where
  pub role : String
  pub content : List ℕ

-- A placeholder and its surface, as the service returns them.
pub record Local : Type 0 where
  pub placeholder : List ℕ
  pub surface : List ℕ

-- The redacted text and the mapping of one message.
pub record Redacted : Type 0 where
  pub text : List ℕ
  pub mapping : List Local

-- A local placeholder that was given a name in the conversation.
pub record Assignment : Type 0 where
  pub local : Local
  pub global : List ℕ

-- A key of surface_to_global, and its value.
pub record Name : Type 0 where
  pub type : List ℕ
  pub lowered : List ℕ
  pub global : List ℕ

pub record Numbering : Type 0 where
  pub global_map : List (List ℕ × List ℕ)
  pub surface_to_global : List Name
  pub type_counts : List (List ℕ × ℕ)

-- What stands before the last underscore, or the whole text where there is none.
unfoldable pub before_underscore : List ℕ → List ℕ
before_underscore [] = []
before_underscore (c ∷ s) =
    let rest = c ∷ before_underscore s in
    if any (λ d. d == b'_') s then rest else if c == b'_' then [] else rest

unfoldable pub placeholder_type : List ℕ → List ℕ
placeholder_type [] = []
placeholder_type (c ∷ s) = before_underscore s

-- surface_to_global.get((type, lowered))
unfoldable pub global_of : List ℕ → List ℕ → List Name → Option (List ℕ)
global_of type lowered [] = none
global_of type lowered (name ∷ names) =
    let rest = global_of type lowered names in
    if text_eq name.type type && text_eq name.lowered lowered then some name.global else rest

-- type_counts.get(type, 0)
unfoldable pub count_of : List ℕ → List (List ℕ × ℕ) → ℕ
count_of type [] = 0
count_of type ((t, n) ∷ counts) =
    let rest = count_of type counts in if text_eq t type then n else rest

module _ (python : Python) where
  -- The placeholder of a type and a number.
  unfoldable pub global_placeholder : List ℕ → ℕ → List ℕ
  global_placeholder type n = b'[' ∷ (type ++ b'_' ∷ (python.decimal n ++ b']' ∷ []))

  unfoldable pub new_name : List ℕ → List ℕ → Numbering → List ℕ × Numbering
  new_name type surface r =
      let n = suc (count_of type r.type_counts) in
      let global = global_placeholder type n in
      (
        global,
        record {
          global_map = (global, surface) ∷ r.global_map;
          surface_to_global =
              record { type = type; lowered = python.lower surface; global = global }
              ∷ r.surface_to_global;
          type_counts = (type, n) ∷ r.type_counts;
        },
      )

  -- The name of a local placeholder in the conversation.
  unfoldable pub name_of : Local → Numbering → List ℕ × Numbering
  name_of l r =
      let type = placeholder_type l.placeholder in
      elim (global_of type (python.lower l.surface) r.surface_to_global) [
        | none ↦ new_name type l.surface r
        | some global ↦ (global, r)
      ]

  -- The loop over one message's mapping; `local_to_global` as the assignments, in order.
  unfoldable pub assign : List Local → Numbering → List Assignment × Numbering
  assign [] r = ([], r)
  assign (l ∷ ls) r =
      let named = name_of l r in
      let rest = assign ls named.1 in (record { local = l; global = named.0 } ∷ rest.0, rest.1)

  -- The loop over the messages: the assignments of each.
  unfoldable pub assign_all : List Redacted → Numbering → List (List Assignment) × Numbering
  assign_all [] r = ([], r)
  assign_all (m ∷ ms) r =
      let one = assign m.mapping r in let rest = assign_all ms one.1 in (one.0 ∷ rest.0, rest.1)

  -- The dict local_to_global. The placeholders of a mapping are distinct.
  unfoldable pub local_to_global : List Assignment → List (List ℕ × List ℕ)
  local_to_global [] = []
  local_to_global (a ∷ assignments) = (a.local.placeholder, a.global) ∷ local_to_global assignments

  -- PLACEHOLDER_RE.sub(_remap(local_to_global), redacted)
  unfoldable pub rewritten : List Assignment → List ℕ → List ℕ
  rewritten assignments redacted =
      replaced (local_to_global assignments) (pieces python.tests 0 redacted)

  -- An empty text, or one of white space, is not sent to the service. none is an HTTPException.
  unfoldable pub redact_text : (List ℕ → Option Redacted) → List ℕ → Option Redacted
  redact_text service content =
      if any (λ c. not (python.is_space c)) content
      then service content
      else some (record { text = content; mapping = [] })

  unfoldable pub is_user : HayhooksMessage → Bool
  is_user m = str_eq m.role "user"

  -- asyncio.gather over the user's messages
  unfoldable pub redact_all :
      (List ℕ → Option Redacted) → List HayhooksMessage → Option (List Redacted)
  redact_all service [] = some []
  redact_all service (m ∷ ms) =
      let rest = redact_all service ms in
      if is_user m
      then redact_text service m.content >>= (λ r. rest >>= λ rs. some (r ∷ rs))
      else rest

  -- The user's messages get their texts, in order.
  unfoldable pub rewrite_all :
      List HayhooksMessage → List Redacted → List (List Assignment) → List HayhooksMessage
  rewrite_all (m ∷ ms) (r ∷ rs) (a ∷ as') =
      if is_user m
      then record m { content = rewritten a r.text } ∷ rewrite_all ms rs as'
      else m ∷ rewrite_all ms (r ∷ rs) (a ∷ as')
  rewrite_all ms _ _ = ms

  unfoldable pub no_names : Numbering
  no_names = record { global_map = []; surface_to_global = []; type_counts = [] }

  unfoldable pub redact_messages :
      (List ℕ → Option Redacted)
      → List HayhooksMessage
      → Option (List HayhooksMessage × List (List ℕ × List ℕ))
  redact_messages service messages = redact_all service messages >>= λ rs.
      let assigned = assign_all rs no_names in
      some (rewrite_all messages rs assigned.0, assigned.1.global_map)
