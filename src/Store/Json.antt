-- ===== src/Store/Json.antt =====
-- JSON columns and payloads, as the values that Python's json module makes of them.
use alice_skilltech_tools.Prelude.{
  ℕ, zero, suc, String, Bool, true, false, not, Option, none, some, str_eq, if◌then◌else◌,
}

-- `ident` is a string that holds the text of a UUID, `string` any other string. The program puts no
-- negative number and no fraction into its payloads.
mutual
  pub data Json : Type 0 where
    null : Json
    boolean : Bool → Json
    number : ℕ → Json
    string : String → Json
    ident : ℕ → Json
    array : Items → Json
    object : Fields → Json

  pub data Items : Type 0 where
    nil : Items
    cons : Json → Items → Items

  pub data Fields : Type 0 where
    end : Fields
    field : String → Json → Fields → Fields

-- A text column with JSON: the value that json.loads returns, or a text at which it raises
-- JSONDecodeError (the empty text is one).
pub data JsonText : Type 0 where
  malformed : JsonText
  text : Json → JsonText

-- bool(value)
unfoldable pub truthy : Json → Bool
truthy null = false
truthy (boolean b) = b
truthy (number zero) = false
truthy (number (suc n)) = true
truthy (string s) = not (str_eq s "")
truthy (ident id) = true
truthy (array nil) = false
truthy (array (cons _ _)) = true
truthy (object end) = false
truthy (object (field _ _ _)) = true

-- d.get(key)
unfoldable pub fields_get : String → Fields → Option Json
fields_get k end = none
fields_get k (field j v rest) = if str_eq j k then some v else fields_get k rest

-- d[key] = value
unfoldable pub fields_set : String → Json → Fields → Fields
fields_set k v end = field k v end
fields_set k v (field j w rest) =
    if str_eq j k then field k v rest else field j w (fields_set k v rest)

-- d.pop(key, None)
unfoldable pub fields_pop : String → Fields → Fields
fields_pop k end = end
fields_pop k (field j w rest) =
    let tail = fields_pop k rest in if str_eq j k then tail else field j w tail
