-- ===== src/Prelude/Dynamic.antt =====
-- Go's `interface{}`, with the dynamic types that the program tests for, and
-- `map[string]interface{}` as its entries in the order in which one `range` visits them. Go leaves
-- that order open, so any list of entries is a map.
use Prim.Native.Nat.{ℕ}
use Prim.Native.String.{String}
use mathlib.Core.Bool.{Bool, true, false}
use mathlib.Core.List.{List, [], ◌∷◌}
use entix.Prelude.Results.{Outcome, ok, panic}
use entix.Prelude.Tests.{if◌then◌else◌, ◌=?◌}

mutual
  pub data Value : Type 0 where
    null : Value
    str : String → Value
    num : ℕ → Value  -- uint64
    int : ℕ → Value  -- an int that is not negative
    bool : Bool → Value
    texts : List String → Value  -- []string
    nums : List ℕ → Value  -- []uint64
    list : Items → Value  -- []interface{}
    maps : Maps → Value  -- []map[string]interface{}
    obj : Fields → Value  -- map[string]interface{}

  pub data Items : Type 0 where
    nil : Items
    item : Value → Items → Items

  pub data Maps : Type 0 where
    no_map : Maps
    add_map : Fields → Maps → Maps

  pub data Fields : Type 0 where
    end : Fields
    field : String → Value → Fields → Fields

-- `m[key]`, where a missing key reads as nil.
unfoldable pub get : Fields → String → Value
get end key = null
get (field k v m) key = if k =? key then v else get m key

-- `m[key] = v`
unfoldable pub put : String → Value → Fields → Fields
put key v end = field key v end
put key v (field k w m) = if k =? key then field k v m else field k w (put key v m)

abbrev pub is_null : Value → Bool
is_null null = true
is_null _ = false

-- `len(m) == 0`
abbrev pub no_fields : Fields → Bool
no_fields end = true
no_fields (field k v m) = false

abbrev pub items_to_list : Items → List Value
items_to_list nil = []
items_to_list (item v vs) = v ∷ items_to_list vs

abbrev pub items : List Value → Items
items [] = nil
items (v ∷ vs) = item v (items vs)

-- Type assertions, which panic where the value has another type.
abbrev pub to_list : Value → Outcome (List Value)
to_list (list vs) = ok (items_to_list vs)
to_list _ = panic "interface conversion"

abbrev pub to_texts : Value → Outcome (List String)
to_texts (texts ss) = ok ss
to_texts _ = panic "interface conversion"

abbrev pub to_map : Value → Outcome Fields
to_map (obj m) = ok m
to_map _ = panic "interface conversion"
