-- ===== src/Pii/Conversation/Consistency.antt =====
-- All assignments of a conversation, against the names and the mapping at its end.
use mathlib.Core.Option
use alice_skilltech_tools.Prelude.{◌≡◌, refl, some, List, [], ◌∷◌, arith, All}
use alice_skilltech_tools.Pii.Stream.{surface_of}
use alice_skilltech_tools.Pii.Conversation.{
  Python, Local, Redacted, Assignment, Numbering, placeholder_type, global_of, name_of, assign,
  assign_all, no_names,
}
use alice_skilltech_tools.Pii.Conversation.Texts.{IsNumeral}
use alice_skilltech_tools.Pii.Conversation.Renumbering.{IsUnambiguous, Keeps, name_of-IsNamed}

module _ (python : Python) where
  -- The name in the conversation is that of the placeholder's type and lowered surface.
  abbrev Has : Numbering → Assignment → Type 0
  Has r a =
      global_of (placeholder_type a.local.placeholder) (python.lower a.local.surface)
        r.surface_to_global
      ≡ some a.global

  -- Moreover, the mapping gives a surface that is the same up to upper and lower case.
  abbrev pub IsConsistent : Numbering → Assignment → Type 0
  IsConsistent r a =
      (global_of (placeholder_type a.local.placeholder) (python.lower a.local.surface)
          r.surface_to_global
        ≡ some a.global)
      × (Option.map python.lower (surface_of a.global r.global_map)
          ≡ some (python.lower a.local.surface))

module _ (python : Python) (numeral : IsNumeral python.decimal) where
  All_keep :
      (r r' : Numbering)
      → Keeps python numeral r r'
      → (assignments : List Assignment) → All (Has python r) assignments
      → All (Has python r') assignments
  All_keep r r' k [] h = tt
  All_keep r r' k (a ∷ assignments) h = (k _ _ _ h.0, All_keep r r' k assignments h.1)

  All_IsConsistent :
      (r : Numbering)
      → IsUnambiguous python numeral r
      → (assignments : List Assignment) → All (Has python r) assignments
      → All (IsConsistent python r) assignments
  All_IsConsistent r u [] h = tt
  All_IsConsistent r u (a ∷ assignments) h =
      ((h.0, u.names _ _ _ h.0), All_IsConsistent r u assignments h.1)

  record IsAssigned (r : Numbering) (assignments : List Assignment) (r' : Numbering) : Type 0 where
    unambiguous : IsUnambiguous python numeral r'
    keeps : Keeps python numeral r r'
    all : All (Has python r') assignments

  record AreAssigned (r : Numbering) (conversation : List (List Assignment)) (r' : Numbering)
      : Type 0 where
    unambiguous : IsUnambiguous python numeral r'
    keeps : Keeps python numeral r r'
    all : All (All (Has python r')) conversation

  assign-IsAssigned :
      (ls : List Local) (r : Numbering)
      → IsUnambiguous python numeral r
      → IsAssigned r (assign python ls r).0 (assign python ls r).1
  unfolding assign
  assign-IsAssigned [] r u = record { unambiguous = u; keeps = λ t l g h. h; all = tt }
  assign-IsAssigned (l ∷ ls) r u =
      let one = name_of-IsNamed python numeral l r u in
      let rest = assign-IsAssigned ls (name_of python l r).1 one.unambiguous in
      record {
        unambiguous = rest.unambiguous;
        keeps = λ t low g h. rest.keeps t low g (one.keeps t low g h);
        all = (rest.keeps _ _ _ one.named, rest.all);
      }

  assign_all-AreAssigned :
      (ms : List Redacted) (r : Numbering)
      → IsUnambiguous python numeral r
      → AreAssigned r (assign_all python ms r).0 (assign_all python ms r).1
  unfolding assign_all
  assign_all-AreAssigned [] r u = record { unambiguous = u; keeps = λ t l g h. h; all = tt }
  assign_all-AreAssigned (m ∷ ms) r u =
      let one = assign-IsAssigned m.mapping r u in
      let middle = (assign python m.mapping r).1 in
      let rest = assign_all-AreAssigned ms middle one.unambiguous in
      record {
        unambiguous = rest.unambiguous;
        keeps = λ t low g h. rest.keeps t low g (one.keeps t low g h);
        all = (
          All_keep middle (assign_all python ms middle).1 rest.keeps (assign python m.mapping r).0
              one.all,
          rest.all,
        );
      }

  no_names-IsUnambiguous : IsUnambiguous python numeral (no_names python)
  unfolding no_names global_of surface_of
  no_names-IsUnambiguous = record {
    names = λ t low g h. absurd (ground (arith, h));
    free = λ t n h. refl;
  }

  All_All_IsConsistent :
      (r : Numbering)
      → IsUnambiguous python numeral r
      → (conversation : List (List Assignment)) → All (All (Has python r)) conversation
      → All (All (IsConsistent python r)) conversation
  All_All_IsConsistent r u [] h = tt
  All_All_IsConsistent r u (a ∷ conversation) h =
      (All_IsConsistent r u a h.0, All_All_IsConsistent r u conversation h.1)

  -- If the numerals of Python tell their numbers apart and have no underscore: in the whole
  -- conversation, for every placeholder of every message, the name that it gets is the one of
  -- its type and lowered surface, so that equal ones share a name, and the mapping at the end
  -- of the conversation gives for that name a surface with the same lower case, so that
  -- different ones do not.
  pub assign_all-IsConsistent :
      (ms : List Redacted)
      → All
          (All (IsConsistent python (assign_all python ms (no_names python)).1))
          (assign_all python ms (no_names python)).0
  assign_all-IsConsistent ms =
      let assigned = assign_all-AreAssigned ms (no_names python) no_names-IsUnambiguous in
      All_All_IsConsistent (assign_all python ms (no_names python)).1 assigned.unambiguous
        (assign_all python ms (no_names python)).0 assigned.all
