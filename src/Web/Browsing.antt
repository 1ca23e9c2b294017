-- ===== src/Web/Browsing.antt =====
-- `browse_directory`. The file system is a parameter.
use text.Mathlib.Text.{starts_with}
use unified_runtime_primitiv.Base.{String, Bool, not, ◌&&◌, List, [], ◌∷◌, if◌then◌else◌}
use unified_runtime_primitiv.Base.Sorting.{sort_by}
use unified_runtime_primitiv.Exec.{Exception, cancelled_error, base_exception, Result, ok, raised}

pub record DirEntry : Type 0 where
  pub name : String
  pub path : String
  pub is_dir : Bool

-- The items of a listing are all directories.
pub record Item : Type 0 where
  pub name : String
  pub path : String

pub data BrowseResponse : Type 0 where
  error : String → BrowseResponse
  listing : String → List Item → BrowseResponse

-- `scan` is `os.scandir` with its iteration; `text_of` is `str` of an exception.
pub record Directories : Type 0 where
  pub abspath : String → String
  pub exists : String → Bool
  pub dirname : String → String
  pub scan : String → Result (List DirEntry)
  pub text_of : Exception → String

-- `entry.is_dir() and not entry.name.startswith('.')`
unfoldable pub is_shown : DirEntry → Bool
is_shown entry = entry.is_dir && not (starts_with entry.name ".")

abbrev pub item_of : DirEntry → Item
item_of entry = record { name = entry.name; path = entry.path }

unfoldable pub shown_items : List DirEntry → List Item
unfolding is_shown
shown_items [] = []
shown_items (entry ∷ entries) =
    let rest = shown_items entries in if is_shown entry then item_of entry ∷ rest else rest

module _ (dirs : Directories) where
  -- `except Exception as e: return {"error": str(e)}`
  abbrev pub error_of : Exception → Result BrowseResponse
  error_of cancelled_error = raised cancelled_error
  error_of (base_exception t) = raised (base_exception t)
  error_of e = ok (error (dirs.text_of e))

  abbrev pub parent_item : String → Item
  parent_item path = record { name = ".."; path = dirs.dirname path }

  unfoldable pub listed : String → Result (List DirEntry) → Result BrowseResponse
  unfolding sort_by shown_items
  listed path (raised e) = error_of e
  listed path (ok entries) =
      ok (listing path (sort_by (λ i. i.name) (parent_item path ∷ shown_items entries)))

  unfoldable pub browse_directory : String → Result BrowseResponse
  unfolding listed
  browse_directory path =
      let abs_path = dirs.abspath path in
      if dirs.exists abs_path
      then listed abs_path (dirs.scan abs_path)
      else ok (error "Path does not exist")
