-- ===== src/Agent/Ledger.antt =====
-- The ledger of exports: `MemoryExportLedger` of src/memory/export-ledger.ts.
use my_discord_agent.Base.{
  if◌then◌else◌, Bool-cases, any_row, any_row-append, String, ◌≡◌, refl, ◌∙◌, inl, inr, Bool, true,
  ◌&&◌, ◌||◌, List, [], ◌∷◌, ◌++◌, arith, str_eq, eq_iff,
}

-- A row of exports, where the first four columns are the key.
pub record ExportRow : Type 0 where
  pub backend_id : String
  pub group_name : String
  pub source_kind : String
  pub source_id : String
  pub exported_at : String

-- A `MemoryCaptureTurn`, as far as the ledger reads it.
pub record CaptureTurn : Type 0 where
  pub group_name : String
  pub source_kind : String
  pub source_id : String

abbrev pub is_export : String → CaptureTurn → ExportRow → Bool
is_export backend t r =
    str_eq r.backend_id backend
    && str_eq r.group_name t.group_name
    && str_eq r.source_kind t.source_kind
    && str_eq r.source_id t.source_id

unfoldable pub has_export : String → CaptureTurn → List ExportRow → Bool
has_export backend t rows = any_row (is_export backend t) rows

-- INSERT OR IGNORE; `now` is the answer of the clock.
unfoldable pub record_export : String → String → CaptureTurn → List ExportRow → List ExportRow
record_export now backend t rows =
    if any_row (is_export backend t) rows
    then rows
    else rows
      ++ record {
        backend_id = backend;
        group_name = t.group_name;
        source_kind = t.source_kind;
        source_id = t.source_id;
        exported_at = now;
      }
        ∷ []

-- The row that an export is, for another one.
abbrev pub row_of : String → String → CaptureTurn → ExportRow
row_of now backend t = record {
  backend_id = backend;
  group_name = t.group_name;
  source_kind = t.source_kind;
  source_id = t.source_id;
  exported_at = now;
}

export_fits :
    (now backend : String) (t : CaptureTurn) → is_export backend t (row_of now backend t) ≡ true
export_fits now backend t =
    let b = (eq_iff backend backend).1 refl in
    let g = (eq_iff t.group_name t.group_name).1 refl in
    let k = (eq_iff t.source_kind t.source_kind).1 refl in
    let s = (eq_iff t.source_id t.source_id).1 refl in rw (b, g, k, s) refl

-- Two exports of one key are the same for every row.
same_export :
    (now backend : String) (t : CaptureTurn) (other : String) (u : CaptureTurn)
    (rows : List ExportRow)
    → is_export other u (row_of now backend t) ≡ true
    → any_row (is_export backend t) rows ≡ true
    → any_row (is_export other u) rows ≡ true
same_export now backend t other u rows fits h =
    let b : backend ≡ other = (eq_iff backend other).0 (ground arith) in
    let g : t.group_name ≡ u.group_name = (eq_iff t.group_name u.group_name).0 (ground arith) in
    let k : t.source_kind ≡ u.source_kind = (eq_iff t.source_kind u.source_kind).0 (ground arith) in
    let s : t.source_id ≡ u.source_id = (eq_iff t.source_id u.source_id).0 (ground arith) in
    rw (b, g, k, s) at h

-- After `record`, `has` answers for an export what it answered before or that it is the recorded one,
-- and to record the same export again changes nothing.
pub ledger_remembers :
    (now later backend : String) (t : CaptureTurn) (other : String) (u : CaptureTurn)
    (rows : List ExportRow)
    → (has_export other u (record_export now backend t rows)
        ≡ (has_export other u rows || is_export other u (row_of now backend t)))
      × (record_export later backend t (record_export now backend t rows)
          ≡ record_export now backend t rows)
unfolding has_export record_export any_row
ledger_remembers now later backend t other u rows =
    elim (Bool-cases (any_row (is_export backend t) rows)) [
      | inl known ↦ (
        elim (Bool-cases (is_export other u (row_of now backend t))) [
          | inl fits ↦ rw (known, fits, same_export now backend t other u rows fits known) refl
          | inr differs ↦ rw (known, differs) (ground arith)
        ],
        rw known (rw known refl),
      )
      | inr new ↦
          let there : any_row (is_export backend t) (rows ++ row_of now backend t ∷ []) ≡ true =
            any_row-append (is_export backend t) rows (row_of now backend t ∷ [])
            ∙ rw (new, export_fits now backend t) refl in
          (
            rw new (
                any_row-append (is_export other u) rows (row_of now backend t ∷ []) ∙ ground arith),
            rw new (rw there refl),
          )
    ]
