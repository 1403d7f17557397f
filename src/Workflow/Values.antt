-- ===== src/Workflow/Values.antt =====
-- The values of a patch, and what the language makes of them.
use trade_gate.Prelude.{ℕ, Bool, Option, none, some, String, List, [], ◌∷◌}
use trade_gate.Numbers.{Numbers}

module _ (N : Numbers) where
  open N use {Number}

  mutual
    pub data Value : Type 0 where
      null undefined : Value
      boolean : Bool → Value
      number : Number → Value
      text : String → Value
      array : Items → Value
      object : Entries → Value

    pub data Items : Type 0 where
      end : Items
      item : Value → Items → Items

    pub data Entries : Type 0 where
      close : Entries
      entry : String → Value → Entries → Entries

  abbrev pub items : Items → List Value
  items end = []
  items (item v vs) = v ∷ items vs

  abbrev pub entries : Entries → List (String × Value)
  entries close = []
  entries (entry k v es) = (k, v) ∷ entries es

  -- `Array.isArray(v)`, with the elements.
  abbrev pub as_array : Value → Option (List Value)
  as_array (array vs) = some (items vs)
  as_array _ = none

  -- Neither `null` nor an array but an object, with its entries.
  abbrev pub as_object : Value → Option (List (String × Value))
  as_object (object es) = some (entries es)
  as_object _ = none

  -- `typeof v === 'boolean'` and `typeof v === 'string'`, with the value.
  abbrev pub as_boolean : Value → Option Bool
  as_boolean (boolean b) = some b
  as_boolean _ = none

  abbrev pub as_text : Value → Option String
  as_text (text s) = some s
  as_text _ = none

  -- The operations of the language on values and texts that need its tables of characters, or its
  -- reading and writing of numbers.
  pub record Language : Type 0 where
    -- `String(v)` and `Number(v)`.
    pub to_text : Value → String
    pub to_number : Value → Number
    pub trim : String → String
    pub to_upper_case : String → String
    -- `s.length` and `s.slice(0, n)`, in code units.
    pub length_of : String → ℕ
    pub slice_to : ℕ → String → String
