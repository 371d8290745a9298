-- ===== src/Export/Tests.antt =====
-- The spreadsheet of a game of two weeks, over sheets that are maps from cells to rows.
use Prim.Native.String.{◌++◌ as ◌<>◌}
use text.Mathlib.Text.{◌==◌ as str_eq}
use text.Mathlib.TextLemmas.{append_cancel_left}
use text.Mathlib.TextPositions.{eq_refl}
use supply_chain_game.Prelude.{
  ℕ, ◌+◌, ◌-◌, ◌≢◌, ◌||◌, Bool, false, ◌≡◌, refl, [], Option, none, some, String, ◌&&◌,
  if◌then◌else◌, get_elem?, inl, inr, arith, Bool-cases,
}
use supply_chain_game.Prelude.Decimal.{itoa}
use supply_chain_game.Prelude.Decimal.Read.{itoa_inj}
use supply_chain_game.Prelude.Texts.{not_equal}
use supply_chain_game.Domain.Analytics.{SessionAnalytics, no_analytics}
use supply_chain_game.Domain.Analytics.Tests.{whole, played}
use supply_chain_game.Export.{Excel, Row, Cell, workbook}
use supply_chain_game.Export.Rows.{ExcelLaws, IsRowIndex}
use supply_chain_game.Export.Filled.{Shows, workbook_lem}

-- The sheets that there are, and the cells that are written.
abbrev Sheets : Type 0
Sheets = (String → Bool) × (String → ℕ → ℕ → Option (Cell ℕ))

-- The first column of the row that a name of a cell stands for.
abbrev name_of : ℕ → String
name_of n = "A" <> itoa n

abbrev or_kept : Option (Cell ℕ) → Option (Cell ℕ) → Option (Cell ℕ)
or_kept none old = old
or_kept (some value) old = some value

-- The row is written where the sheet is there and the entry exists.
unfoldable put_cells : String → String → Row ℕ → Sheets → Sheets
put_cells sheet cell row (sheets, cells) = (
  sheets,
  λ other column n.
      if str_eq sheet other && (str_eq cell (name_of n) && sheets sheet)
      then or_kept (get_elem? row (column - 1)) (cells other column n)
      else cells other column n,
)

unfoldable add_sheet : String → Sheets → Sheets
add_sheet name (sheets, cells) = (λ other. str_eq name other || sheets other, cells)

abbrev excel : Excel Sheets ℕ
excel = record {
  new_file = (str_eq "Sheet1", λ sheet column n. none);
  set_sheet_name = λ old name file. if file.0 old then add_sheet name file else file;
  new_sheet = add_sheet;
  cell_name = λ column n. name_of n;
  set_sheet_row = put_cells;
  has_sheet = λ sheet file. file.0 sheet;
  read_cell = λ sheet column n file. file.1 sheet column n;
  write = λ file. some [];
}

names_apart :
    (m n : ℕ) → IsRowIndex m → IsRowIndex n → m ≢ n → str_eq (name_of m) (name_of n) ≡ false
names_apart m n h k apart = not_equal λ e. apart (
    itoa_inj m n (omega (arith, h.1)) (omega (arith, k.1))
      (append_cancel_left "A" (itoa m) (itoa n) e))

excel-laws : ExcelLaws excel
unfolding put_cells add_sheet itoa
excel-laws = record {
  starts = refl;
  renamed = λ old name file named has. rw (has, eq_refl name) refl;
  added = λ name file named. rw (eq_refl name) refl;
  added_beside = λ name other file has. elim (Bool-cases (str_eq name other)) [
    | inl same ↦ rw same refl
    | inr different ↦ rw different has
  ];
  sheets_kept = λ sheet cell other row file. refl;
  first_cell = refl;
  row_set = λ sheet n j row value file has on narrow at.
      let back : 1 + j - 1 ≡ j = omega arith in
      rw (eq_refl sheet, eq_refl (name_of n), has, back, at) refl;
  row_kept =
      λ sheet m n column row file h k apart. rw (eq_refl sheet, names_apart m n h k apart) refl;
  sheet_kept = λ sheet cell other column n row file named named' apart. rw (not_equal apart) refl;
}

abbrev analytics : SessionAnalytics ℕ
analytics = no_analytics whole 2

workbook_lem_example : Shows excel 0 played analytics (workbook excel 0 played analytics)
workbook_lem_example = workbook_lem excel excel-laws 0 played analytics (omega arith) (omega arith)
