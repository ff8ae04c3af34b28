-- ===== src/Tests/Listings.antt =====
-- The files of one data set, listed.
use mathlib.Core.Bool.{false≢true}
use mathlib.Core.List.{Perm}
use xret.Catalog.Sorting.{sort_paths, IsByPath}
use xret.Catalog.Runs.{text_before}
use xret.Identity.{storage_identity}
use xret.Catalog.Tables.{tagged, rows_of}
use xret.Tests.Catalogs.{january}
use xret.Catalog.Steps.{empty_catalog}
use xret.Tests.Identities.{okx_mark-Built, okx_mark, ascii}
use xret.Catalog.Listing.{list_files-key, list_files, all_listed}
use xret.Catalog.Valid.{IsCatalog}
use xret.Identity.Keys.{same_row, identity_values, IdentityRow}
use xret.Catalog.Files.{file_row, FileMetadata}
use xret.Catalog.{FileRow, get_dataset_id, find_dataset, Catalog}
use xret.Prelude.{
  ◌≢◌, ◌∙◌, same_text_self, arith, ap, inl, inl, inl, inl, inl, inl, inl, inl, inl, inl, inl, inl,
  ℕ, List, some, same_text, refl, ok, none, inl, codes, [], ◌∷◌, ◌≡◌,
}

abbrev mark_row : IdentityRow
mark_row = record {
  family = codes "reference_bars";
  variant = codes "mark";
  exchange = codes "okx";
  symbol = codes "BTC/USDT";
  market = codes "perpetual";
  settle = codes "USDT";
  timeframe = codes "1h";
}

abbrev february : FileMetadata
february = record january { relative_path = codes "ohlcv/okx/2024/02.parquet"; month = 2 }

abbrev two_files : Catalog
two_files = record empty_catalog {
  datasets = record { id = 1; identity = mark_row; provider_name = none } ∷ [];
  files = (1, file_row 2 february) ∷ (1, file_row 1 january) ∷ [];
}

mark_values : identity_values okx_mark ≡ ok mark_row
unfolding identity_values storage_identity
mark_values = refl

paths_differ : january.relative_path ≢ february.relative_path
unfolding same_text
paths_differ e =
    false≢true
      (ap (λ t. same_text t february.relative_path) e ∙ same_text_self february.relative_path)

two_files-IsCatalog : IsCatalog two_files
unfolding find_dataset
two_files-IsCatalog = record {
  keyed = (tt, refl, tt);
  file_table = (((λ e. omega (arith, e), paths_differ), tt), (tt, tt));
  run_table = tt;
  of_coverage = tt;
  of_ownership = tt;
  of_files = (inl refl, (inl refl, tt));
  of_runs = tt;
  of_events = tt;
  of_contributors = tt;
  of_file_runs = tt;
}

mark_found : get_dataset_id mark_row two_files ≡ some 1
unfolding get_dataset_id find_dataset same_row same_text
mark_found = refl

in_order :
    sort_paths (tagged 1 (rows_of 1 two_files.files))
    ≡ (1, file_row 1 january) ∷ (1, file_row 2 february) ∷ []
unfolding sort_paths tagged rows_of text_before
in_order = refl

list_files-key_example :
    (rows : List (ℕ × FileRow)) × (list_files ascii (some mark_row) two_files
      ≡ ok (all_listed okx_mark rows))
    × Perm rows (tagged 1 (rows_of 1 two_files.files))
    × IsByPath rows
list_files-key_example =
    list_files-key ascii (λ t. refl) okx_mark mark_row two_files 1 okx_mark-Built mark_values
      two_files-IsCatalog mark_found
