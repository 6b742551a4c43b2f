-- ===== src/Json.antt =====
-- The values that json.loads returns, which webhooks.py and dco.py read.
use extra_codeowners.Prelude.{
  ℕ, Bool, List, [], ◌∷◌, ◌==◌, nat_eq, list_eq, true, false, not, if◌then◌else◌, Option, none,
  some,
}
use extra_codeowners.Text.{Str}

-- An integer is a natural number or one below zero, and a float is known by the natural number that
-- it equals, if there is one.
mutual
  pub data Json : Type 0 where
    null : Json
    boolean : Bool → Json
    natural : ℕ → Json
    negative : ℕ → Json
    real : Option ℕ → Json
    string : Str → Json
    array : Items → Json
    object : Fields → Json

  pub data Items : Type 0 where
    no_items : Items
    item : Json → Items → Items

  pub data Fields : Type 0 where
    no_fields : Fields
    field : Str → Json → Fields → Fields

-- d.get(key)
unfoldable pub get : Str → Fields → Option Json
get key no_fields = none
get key (field k value fields) = if k == key then some value else get key fields

unfoldable pub list_of : Items → List Json
list_of no_items = []
list_of (item value items) = value ∷ list_of items

-- the value as a test of Python
unfoldable pub is_truthy : Json → Bool
is_truthy null = false
is_truthy (boolean b) = b
is_truthy (natural n) = not (n == 0)
is_truthy (negative n) = true
is_truthy (real none) = true
is_truthy (real (some n)) = not (n == 0)
is_truthy (string s) = not (s == [])
is_truthy (array no_items) = false
is_truthy (array (item value rest)) = true
is_truthy (object no_fields) = false
is_truthy (object (field k value rest)) = true
