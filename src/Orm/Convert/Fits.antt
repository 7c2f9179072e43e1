-- ===== src/Orm/Convert/Fits.antt =====
-- orm/convert.go: what a row is read as.
use entix.Prelude.{
  ◌≡◌, refl, ◌∙◌, String, Bool, true, false, List, [], ◌∷◌, map, Outcome, ok, Value, Fields, end,
  field, get, put, length, ◌==◌, contains, ◌=?◌, if◌then◌else◌, arith, eq_iff, eq_refl,
}
use entix.Meta.{AttributeMeta}
use entix.Meta.TypeName
use entix.Orm.Convert.{
  Reader, raised, scan, scan_each, scan_row, convert_values, Scanned, target_of,
  convert_one_column_value, convert_row, json_types, asserted, null_uint64, null_int64,
  null_float64, null_bool, null_time, null_string, json,
}

-- The value that is read: the one of the row, but for a file, which is decoded.
abbrev pub IsRead : Bool → Value → Outcome Value → Type 0
IsRead is_file v r = (w : Value) × (r ≡ ok w) × (is_file ≡ false → w ≡ v)

-- Both functions ask for the type in the same order, and choose what fits.
fits :
    (i n f b d j u : Bool) (v : Value) (decoded : Outcome Value)
    → (u ≡ true → (w : Value) × (decoded ≡ ok w))
    → IsRead u v (
        let target =
          if i
          then null_uint64
          else if n
          then null_int64
          else if f
          then null_float64
          else if b
          then null_bool
          else if d
          then null_time
          else if j
          then json
          else if u
          then json
          else null_string in
        let s : Scanned = record { target = target; content = v } in
        if i
        then asserted null_uint64 s
        else if n
        then asserted null_int64 s
        else if f
        then asserted null_float64 s
        else if b
        then asserted null_bool s
        else if d
        then asserted null_time s
        else if j
        then asserted json s
        else if u
        then decoded
        else asserted null_string s)
unfolding asserted
fits true n f b d j u v decoded h = (v, refl, λ _. refl)
fits false true f b d j u v decoded h = (v, refl, λ _. refl)
fits false false true b d j u v decoded h = (v, refl, λ _. refl)
fits false false false true d j u v decoded h = (v, refl, λ _. refl)
fits false false false false true j u v decoded h = (v, refl, λ _. refl)
fits false false false false false true u v decoded h = (v, refl, λ _. refl)
fits false false false false false false true v decoded h = let (w, e) = h refl in (w, e, λ k. cc)
fits false false false false false false false v decoded h = (v, refl, λ _. refl)

-- The names of the attributes differ.
abbrev pub Apart : String → List AttributeMeta → Type 0
Apart name [] = Unit
Apart name (a ∷ as') = ((a.name =? name) ≡ false) × Apart name as'

abbrev pub Differ : List AttributeMeta → Type 0
Differ [] = Unit
Differ (a ∷ as') = Apart a.name as' × Differ as'

-- The map has what the row has, each value under the name of its attribute.
abbrev pub Shows : List AttributeMeta → List Value → Fields → Type 0
Shows [] vs m = Unit
Shows (a ∷ as') [] m = ⊥
Shows (a ∷ as') (v ∷ vs) m = ((a.type =? TypeName.file) ≡ false → get m a.name ≡ v) × Shows as' vs m

-- What later columns put elsewhere stays.
abbrev pub Reads : List AttributeMeta → List Value → Fields → Outcome Fields → Type 0
Reads as' vs before r =
    (m : Fields) × (r ≡ ok m)
    × Shows as' vs m
    × ((name : String) → Apart name as' → get m name ≡ get before name)

get-put :
    (name key : String) (v : Value) (m : Fields)
    → get (put key v m) name ≡ (if key =? name then v else get m name)
unfolding get put
get-put name key v end = refl
get-put name key v (field k w m) =
    ground (arith, eq_iff k key, eq_iff k name, eq_iff key name, get-put name key v m)

module _ (reader : Reader) where
  -- Each column of the row can be scanned, as `ws`, and what a file's column holds can be decoded.
  abbrev pub Readable : List AttributeMeta → List Value → List Value → Type 0
  Readable [] [] [] = Unit
  Readable (a ∷ as') (v ∷ vs) (w ∷ ws) =
      (scan reader (target_of a) v ≡ ok w)
      × ((a.type =? TypeName.file) ≡ true → (f : Value) × (reader.decode w ≡ ok f))
      × Readable as' vs ws
  Readable _ _ _ = ⊥

  length-Readable :
      (as' : List AttributeMeta) (row ws : List Value)
      → Readable as' row ws
      → length row ≡ length as'
  length-Readable [] [] [] h = refl
  length-Readable (a ∷ as') (v ∷ vs) (w ∷ ws) (e, f, h) = omega (arith, length-Readable as' vs ws h)
  length-Readable [] [] (w ∷ ws) h = absurd h
  length-Readable [] (v ∷ vs) ws h = absurd h
  length-Readable (a ∷ as') [] ws h = absurd h
  length-Readable (a ∷ as') (v ∷ vs) [] h = absurd h

  scan_each-Readable :
      (as' : List AttributeMeta) (row ws : List Value)
      → Readable as' row ws
      → scan_each reader (map target_of as') row ≡ ok ws
  unfolding scan_each
  scan_each-Readable [] [] [] h = refl
  scan_each-Readable (a ∷ as') (v ∷ vs) (w ∷ ws) (e, f, h) =
      rw (e, scan_each-Readable as' vs ws h) refl
  scan_each-Readable [] [] (w ∷ ws) h = absurd h
  scan_each-Readable [] (v ∷ vs) ws h = absurd h
  scan_each-Readable (a ∷ as') [] ws h = absurd h
  scan_each-Readable (a ∷ as') (v ∷ vs) [] h = absurd h

  pub length-targets : (as' : List AttributeMeta) → length (map target_of as') ≡ length as'
  length-targets [] = refl
  length-targets (a ∷ as') = omega (arith, length-targets as')

  scan_row-Readable :
      (as' : List AttributeMeta) (row ws : List Value)
      → Readable as' row ws
      → scan_row reader (map target_of as') row ≡ ok ws
  unfolding scan_row
  scan_row-Readable as' row ws h =
      let same : (length row == length (map target_of as')) ≡ true =
        ground (arith, length-Readable as' row ws h, length-targets as') in
      rw (same, scan_each-Readable as' row ws h) refl

  decoded :
      (is_file : Bool) (w : Value)
      → (is_file ≡ true → (f : Value) × (reader.decode w ≡ ok f))
      → is_file ≡ true
      → (f : Value) × (raised (reader.decode w) ≡ ok f)
  decoded is_file w h k = let (f, e) = h k in (f, rw e refl)

  convert_one_column_value-IsRead :
      (a : AttributeMeta) (w : Value)
      → ((a.type =? TypeName.file) ≡ true → (f : Value) × (reader.decode w ≡ ok f))
      → IsRead
          (a.type =? TypeName.file)
          w
          (convert_one_column_value reader a (record { target = target_of a; content = w }))
  unfolding convert_one_column_value target_of
  convert_one_column_value-IsRead a w h =
      fits (a.type =? TypeName.id) (a.type =? TypeName.int) (a.type =? TypeName.float)
        (a.type =? TypeName.boolean) (a.type =? TypeName.date) (contains json_types a.type)
        (a.type =? TypeName.file) w (raised (reader.decode w))
        (decoded (a.type =? TypeName.file) w h)

  convert_values-Reads :
      (attributes : List AttributeMeta) (row ws : List Value) (before : Fields)
      → Differ attributes
      → Readable attributes row ws
      → Reads attributes ws before (convert_values reader attributes ws before)
  unfolding convert_values
  convert_values-Reads [] [] [] before d h = (before, refl, tt, λ name _. refl)
  convert_values-Reads (a ∷ as') (v ∷ vs) (w ∷ ws) before (apart, d) (e, f, h) =
      let (u, read, same) = convert_one_column_value-IsRead a w f in
      let (m, r, shows, kept) = convert_values-Reads as' vs ws (put a.name u before) d h in
      rw read (
        m,
        r,
        (
          λ k. kept a.name apart ∙ get-put a.name a.name u before ∙ rw (eq_refl a.name) (same k),
          shows,
        ),
        λ name far. kept name far.1 ∙ get-put name a.name u before ∙ rw far.0,
      )
  convert_values-Reads [] [] (w ∷ ws) before d h = absurd h
  convert_values-Reads [] (v ∷ vs) ws before d h = absurd h
  convert_values-Reads (a ∷ as') [] ws before d h = absurd h
  convert_values-Reads (a ∷ as') (v ∷ vs) [] before d h = absurd h

  -- If each column of a row can be scanned into the variable for its attribute, and each file that
  -- was scanned can be decoded, the row is converted without a panic. The names of the attributes
  -- differ; the map then holds the scanned value of each attribute under its name, those of files
  -- aside, and under other names what it held before.
  pub convert_row_total :
      (attributes : List AttributeMeta) (row ws : List Value) (before : Fields)
      → Differ attributes
      → Readable attributes row ws
      → Reads attributes ws before (convert_row reader attributes row before)
  unfolding convert_row
  convert_row_total attributes row ws before d h =
      rw (scan_row-Readable attributes row ws h) (convert_values-Reads attributes row ws before d h)
