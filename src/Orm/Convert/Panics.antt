-- ===== src/Orm/Convert/Panics.antt =====
-- orm/convert.go: when a row cannot be read.
use entix.Prelude.{
  ◌≡◌, refl, true, false, Bool, List, [], ◌∷◌, map, length, ◌==◌, Outcome, ok, err, panic, ◌>>=◌,
  Ensures, Ensures->>=, Value, Fields, put, contains, ◌=?◌, if◌then◌else◌, Bool-cases, inl, inr,
  arith, eq_iff,
}
use entix.Meta.{AttributeMeta}
use entix.Meta.TypeName
use entix.Orm.Convert.{
  Reader, raised, Target, same_target, Scanned, asserted, scan, scan_each, scan_row, target_of,
  convert_one_column_value, convert_values, convert_row, json_types,
}
use entix.Orm.Convert.Fits.{length-targets, Readable}

-- A value of which `P` holds, or a panic.
abbrev pub OrPanics {κ} : {V : Type κ} → (V → Type 0) → Outcome V → Type 0
OrPanics P (ok v) = P v
OrPanics P (err e) = ⊥
OrPanics P (panic e) = Unit

OrPanics->>= {κ η} :
    {V : Type κ} {W : Type η} (P : V → Type 0) (Q : W → Type 0) (o : Outcome V)
    (next : V → Outcome W)
    → OrPanics P o
    → ((v : V) → P v → OrPanics Q (next v))
    → OrPanics Q (o >>= next)
OrPanics->>= P Q (ok v) next h k = k v h
OrPanics->>= P Q (err e) next h k = absurd h
OrPanics->>= P Q (panic e) next h k = tt

OrPanics-map {κ} :
    {V : Type κ} (P Q : V → Type 0) (o : Outcome V)
    → OrPanics P o
    → ((v : V) → P v → Q v)
    → OrPanics Q o
OrPanics-map P Q (ok v) h k = k v h
OrPanics-map P Q (err e) h k = absurd h
OrPanics-map P Q (panic e) h k = tt

OrPanics-raised {κ} :
    {V : Type κ} (P : V → Type 0) (o : Outcome V) → Ensures o P → OrPanics P (raised o)
OrPanics-raised P (ok v) h = h
OrPanics-raised P (err e) h = tt
OrPanics-raised P (panic e) h = tt

OrPanics-if {κ} :
    {V : Type κ} (P : V → Type 0) (b : Bool) (x y : Outcome V)
    → OrPanics P x
    → OrPanics P y
    → OrPanics P (if b then x else y)
OrPanics-if P true x y h k = h
OrPanics-if P false x y h k = k

itself : (o : Outcome Value) → Ensures o (λ w. o ≡ ok w)
itself (ok w) = refl
itself (err e) = tt
itself (panic e) = tt

Any : Value → Type 0
Any v = Unit

asserted-OrPanics : (t : Target) (s : Scanned) → OrPanics Any (asserted t s)
unfolding asserted Any
asserted-OrPanics t s = elim (Bool-cases (same_target s.target t)) [
  | inl e ↦ rw e tt
  | inr e ↦ rw e tt
]

module _ (reader : Reader) where
  -- Each column is scanned, as `ws`.
  abbrev IsScanned : List AttributeMeta → List Value → List Value → Type 0
  IsScanned [] [] [] = Unit
  IsScanned (a ∷ as') (v ∷ vs) (w ∷ ws) = (scan reader (target_of a) v ≡ ok w) × IsScanned as' vs ws
  IsScanned _ _ _ = ⊥

  -- Each file that was scanned can be decoded.
  abbrev Decodes : List AttributeMeta → List Value → Type 0
  Decodes [] ws = Unit
  Decodes (a ∷ as') [] = ⊥
  Decodes (a ∷ as') (w ∷ ws) =
      ((a.type =? TypeName.file) ≡ true → (f : Value) × (reader.decode w ≡ ok f)) × Decodes as' ws

  both-Readable :
      (as' : List AttributeMeta) (row ws : List Value)
      → IsScanned as' row ws
      → Decodes as' ws
      → Readable reader as' row ws
  both-Readable [] [] [] h d = tt
  both-Readable (a ∷ as') (v ∷ vs) (w ∷ ws) (e, h) (f, d) = (e, f, both-Readable as' vs ws h d)
  both-Readable [] [] (w ∷ ws) h d = absurd h
  both-Readable [] (v ∷ vs) ws h d = absurd h
  both-Readable (a ∷ as') [] ws h d = absurd h
  both-Readable (a ∷ as') (v ∷ vs) [] h d = absurd h

  scan_each-IsScanned :
      (as' : List AttributeMeta) (row : List Value)
      → length row ≡ length as'
      → Ensures (scan_each reader (map target_of as') row) (IsScanned as' row)
  unfolding scan_each
  scan_each-IsScanned [] [] h = tt
  scan_each-IsScanned [] (v ∷ vs) h = absurd (omega arith)
  scan_each-IsScanned (a ∷ as') [] h = absurd (omega arith)
  scan_each-IsScanned (a ∷ as') (v ∷ vs) h =
      Ensures->>= (λ w. scan reader (target_of a) v ≡ ok w) (IsScanned (a ∷ as') (v ∷ vs))
        (scan reader (target_of a) v) _ (itself (scan reader (target_of a) v))
        (λ w e.
          Ensures->>= (IsScanned as' vs) (IsScanned (a ∷ as') (v ∷ vs))
            (scan_each reader (map target_of as') vs) _ (scan_each-IsScanned as' vs (omega arith))
            (λ ws h. (e, h)))

  scan_row-IsScanned :
      (as' : List AttributeMeta) (row : List Value)
      → OrPanics (IsScanned as' row) (scan_row reader (map target_of as') row)
  unfolding scan_row
  scan_row-IsScanned as' row = elim (Bool-cases (length row == length (map target_of as'))) [
    | inl e ↦ rw e (
        OrPanics-raised _ (scan_each reader (map target_of as') row)
          (scan_each-IsScanned as' row (ground (arith, length-targets reader as', e))))
    | inr e ↦ rw e tt
  ]

  convert_one-OrPanics :
      (a : AttributeMeta) (s : Scanned)
      → (a.type =? TypeName.file) ≡ false
      → OrPanics Any (convert_one_column_value reader a s)
  unfolding convert_one_column_value
  convert_one-OrPanics a s other =
      OrPanics-if _ (a.type =? TypeName.id) _ _ (asserted-OrPanics _ s) (
        OrPanics-if _ (a.type =? TypeName.int) _ _ (asserted-OrPanics _ s) (
          OrPanics-if _ (a.type =? TypeName.float) _ _ (asserted-OrPanics _ s) (
            OrPanics-if _ (a.type =? TypeName.boolean) _ _ (asserted-OrPanics _ s) (
              OrPanics-if _ (a.type =? TypeName.date) _ _ (asserted-OrPanics _ s) (
                OrPanics-if _ (contains json_types a.type) _ _ (asserted-OrPanics _ s)
                  (rw other (asserted-OrPanics _ s)))))))

  convert_one-file :
      (a : AttributeMeta) (s : Scanned)
      → a.type ≡ TypeName.file
      → convert_one_column_value reader a s ≡ raised (reader.decode s.content)
  unfolding convert_one_column_value
  convert_one-file a s e = rw e refl

  convert_one-Decodes :
      (a : AttributeMeta) (s : Scanned)
      → OrPanics
          (λ _. (a.type =? TypeName.file) ≡ true → (f : Value) × (reader.decode s.content ≡ ok f))
          (convert_one_column_value reader a s)
  convert_one-Decodes a s = elim (Bool-cases (a.type =? TypeName.file)) [
    | inl e ↦ rw (convert_one-file a s ((eq_iff a.type TypeName.file).0 e)) (
        OrPanics-map (λ w. reader.decode s.content ≡ ok w) _ (raised (reader.decode s.content))
          (OrPanics-raised _ (reader.decode s.content) (itself (reader.decode s.content)))
          (λ w d k. (w, d)))
    | inr e ↦
        OrPanics-map Any _ _ (convert_one-OrPanics a s e) (λ w _ k. absurd (ground (arith, e, k)))
  ]

  convert_values-Decodes :
      (as' : List AttributeMeta) (ws : List Value) (m : Fields)
      → OrPanics (λ _. Decodes as' ws) (convert_values reader as' ws m)
  unfolding convert_values
  convert_values-Decodes [] ws m = tt
  convert_values-Decodes (a ∷ as') [] m = tt
  convert_values-Decodes (a ∷ as') (w ∷ ws) m =
      OrPanics->>= _ _ _ _ (convert_one-Decodes a (record { target = target_of a; content = w }))
        (λ u d.
          OrPanics-map _ (λ _. Decodes (a ∷ as') (w ∷ ws)) _
            (convert_values-Decodes as' ws (put a.name u m)) (λ _ ds. (d, ds)))

  -- A row is converted only if it has a column for each attribute, each can be scanned into the
  -- variable for it, and each file that was scanned can be decoded; otherwise the conversion panics.
  -- It never returns an error.
  pub convert_row-Readable :
      (attributes : List AttributeMeta) (row : List Value) (before : Fields)
      → OrPanics
          (λ _. (ws : List Value) × Readable reader attributes row ws)
          (convert_row reader attributes row before)
  unfolding convert_row
  convert_row-Readable attributes row before =
      OrPanics->>= (IsScanned attributes row) _ (scan_row reader (map target_of attributes) row) _
        (scan_row-IsScanned attributes row)
        (λ ws h.
          OrPanics-map _ (λ _. (vs : List Value) × Readable reader attributes row vs) _
            (convert_values-Decodes attributes ws before)
            (λ _ d. (ws, both-Readable attributes row ws h d)))
