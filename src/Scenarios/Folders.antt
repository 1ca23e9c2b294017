-- ===== src/Scenarios/Folders.antt =====
-- The theorem about `browse_directory` at a small directory.
use mathlib.Core.List.{Mem}
use mathlib.Core.Logic.{◌∨₁◌}
use unified_runtime_primitiv.Base.{◌≡◌, refl, true, false, List, [], ◌∷◌, ◌==◌}
use unified_runtime_primitiv.Base.Sorting.{sort_by, IsSortedBy}
use unified_runtime_primitiv.Exec.{ok}
use unified_runtime_primitiv.Web.{
  DirEntry, Item, listing, Directories, is_shown, item_of, shown_items, parent_item, listed,
  browse_directory,
}
use unified_runtime_primitiv.Web.Listing.{IsItemIn, IsVisible, browse_directory_lists}

abbrev files : List DirEntry
files =
    record { name = "src"; path = "/w/src"; is_dir = true }
    ∷ record { name = ".git"; path = "/w/.git"; is_dir = true }
    ∷ record { name = "README.md"; path = "/w/README.md"; is_dir = false }
    ∷ record { name = "docs"; path = "/w/docs"; is_dir = true }
    ∷ []

abbrev pub work : Directories
work = record {
  abspath = λ path. "/w";
  exists = λ path. path == "/w";
  dirname = λ path. "/";
  scan = λ path. ok files;
  text_of = λ e. "";
}

browsed :
    browse_directory work "."
    ≡ ok (
        listing "/w" (
          record { name = ".."; path = "/" }
          ∷ record { name = "docs"; path = "/w/docs" }
          ∷ record { name = "src"; path = "/w/src" }
          ∷ []))
unfolding browse_directory listed shown_items is_shown sort_by
browsed = refl

browse_directory_lists_example :
    (items : List Item) × (browse_directory work "." ≡ ok (listing "/w" items))
    × IsSortedBy (λ i. i.name) items
    × Mem (parent_item work "/w") items
    × ((e : DirEntry) → Mem e files → IsVisible e → Mem (item_of e) items)
    × ((i : Item) → Mem i items → (i ≡ parent_item work "/w") ∨₁ IsItemIn files i)
browse_directory_lists_example = browse_directory_lists work "." files refl refl
