-- ===== src/Orm/Convert/Keeps.antt =====
-- orm/convert.go: a row has nothing under a name that is no attribute's.
use entix.Prelude.{
  ◌≡◌, refl, ◌∙◌, String, false, List, [], ◌∷◌, map, Ensures, Ensures->>=, Ensures-map, Ensures-any,
  All, Value, Fields, end, field, get, put, ◌=?◌, arith, eq_iff,
}
use entix.Meta.{AttributeMeta}
use entix.Orm.Convert.{Reader, target_of, scan_row, convert_values, convert_row, convert_rows}

-- No attribute has that name.
abbrev pub Unnamed : String → List AttributeMeta → Type 0
Unnamed name [] = Unit
Unnamed name (a ∷ as') = ((a.name =? name) ≡ false) × Unnamed name as'

get-put_other :
    (name key : String) (v : Value) (m : Fields)
    → (key =? name) ≡ false
    → get (put key v m) name ≡ get m name
unfolding get put
get-put_other name key v end h = rw h refl
get-put_other name key v (field k w m) h =
    ground (arith, eq_iff k key, eq_iff k name, eq_iff key name, get-put_other name key v m h)

module _ (reader : Reader) where
  abbrev pub Keeps : List AttributeMeta → Fields → Fields → Type 0
  Keeps as' before m = (name : String) → Unnamed name as' → get m name ≡ get before name

  convert_values-Keeps :
      (as' : List AttributeMeta) (vs : List Value) (before : Fields)
      → Ensures (convert_values reader as' vs before) (Keeps as' before)
  unfolding convert_values
  convert_values-Keeps [] vs before = λ name _. refl
  convert_values-Keeps (a ∷ as') [] before = tt
  convert_values-Keeps (a ∷ as') (v ∷ vs) before =
      Ensures->>= (λ _. Unit {0}) (Keeps (a ∷ as') before) _ _ (Ensures-any _)
        (λ w _.
          Ensures-map (Keeps as' (put a.name w before)) (Keeps (a ∷ as') before)
            (convert_values reader as' vs (put a.name w before))
            (convert_values-Keeps as' vs (put a.name w before))
            (λ m keeps name far. keeps name far.1 ∙ get-put_other name a.name w before far.0))

  convert_row-Keeps :
      (as' : List AttributeMeta) (row : List Value) (before : Fields)
      → Ensures (convert_row reader as' row before) (Keeps as' before)
  unfolding convert_row
  convert_row-Keeps as' row before =
      Ensures->>= (λ _. Unit {0}) (Keeps as' before) (scan_row reader (map target_of as') row) _
        (Ensures-any _) (λ vs _. convert_values-Keeps as' vs before)

  pub convert_rows-Keeps :
      (as' : List AttributeMeta) (rows : List (List Value))
      → Ensures (convert_rows reader as' rows) (All (Keeps as' end))
  unfolding convert_rows
  convert_rows-Keeps as' [] = tt
  convert_rows-Keeps as' (row ∷ rows) =
      Ensures->>= (Keeps as' end) (All (Keeps as' end)) _ _ (convert_row-Keeps as' row end) (λ m k.
        Ensures->>= (All (Keeps as' end)) (All (Keeps as' end)) _ _ (convert_rows-Keeps as' rows)
          (λ ms ks. (k, ks)))
