-- ===== src/Web/Listing.antt =====
-- What `browse_directory` lists.
use text.Mathlib.Text.{starts_with}
use mathlib.Core.List.{
  Mem, Mem-prop, mem-cons_self, mem-cons_of_mem, not-mem-nil, eq-or-mem_of_mem-cons,
}
use mathlib.Core.List.Perm
use mathlib.Core.Logic.Or
use mathlib.Core.Logic.{∥∥₁_elim, ◌∨₁◌}
use unified_runtime_primitiv.Base.{
  ◌↔◌, ◌≡◌, refl, not, ◌&&◌, sym, ◌∙◌, ap, false≢true, subst, String, Bool, true, false, List, [],
  ◌∷◌, if◌then◌else◌,
}
use unified_runtime_primitiv.Base.Sorting.{sort_by, IsSortedBy, sort_by-perm, sort_by-IsSortedBy}
use unified_runtime_primitiv.Exec.{ok}
use unified_runtime_primitiv.Web.Browsing.{
  DirEntry, Item, listing, Directories, is_shown, item_of, shown_items, parent_item, listed,
  browse_directory,
}

-- An entry is listed exactly if it is shown.
added-Mem :
    (b : Bool) (e x : DirEntry) (xs : List Item)
    → ((e ≡ x) → b ≡ true)
    → (e ≡ x) ∨₁ Mem (item_of e) xs
    → Mem (item_of e) (if b then item_of x ∷ xs else xs)
added-Mem true e x xs h m =
    Or.elim Mem-prop m (λ q. subst (λ y. Mem (item_of e) (item_of y ∷ xs)) q mem-cons_self)
      (mem-cons_of_mem (item_of x))
added-Mem false e x xs h m = Or.elim Mem-prop m (λ q. absurd (false≢true (h q))) (λ n. n)

shown-Mem :
    (e : DirEntry) (entries : List DirEntry)
    → Mem e entries
    → is_shown e ≡ true
    → Mem (item_of e) (shown_items entries)
unfolding shown_items
shown-Mem e [] m h = absurd (not-mem-nil m)
shown-Mem e (x ∷ xs) m h =
    added-Mem (is_shown x) e x (shown_items xs) (λ q. ap is_shown (sym q) ∙ h)
      (Or.elim (hlevel) (eq-or-mem_of_mem-cons m) (λ q. Or.inl q)
        (λ n. Or.inr (shown-Mem e xs n h)))

-- A directory whose name does not begin with a dot.
abbrev pub IsVisible : DirEntry → Type 0
IsVisible e = (e.is_dir ≡ true) × (starts_with e.name "." ≡ false)

both : (b c : Bool) → b && not c ≡ true → (b ≡ true) × (c ≡ false)
both true false h = (refl, refl)
both true true h = absurd (false≢true h)
both false c h = absurd (false≢true h)

is_shown-IsVisible : (e : DirEntry) → is_shown e ≡ true → IsVisible e
unfolding is_shown
is_shown-IsVisible e h = both e.is_dir (starts_with e.name ".") h

visible_shown : (e : DirEntry) → IsVisible e → is_shown e ≡ true
unfolding is_shown
visible_shown e (d, n) = rw (d, n) refl

-- `i` is the item of one of the directories in `entries` whose name does not begin with a dot.
abbrev pub IsItemIn : List DirEntry → Item → Type 0
IsItemIn entries i = ∥ ((e : DirEntry) × Mem e entries × IsVisible e × (i ≡ item_of e)) ∥₁

IsItemIn-cons : (i : Item) (x : DirEntry) (xs : List DirEntry) → IsItemIn xs i → IsItemIn (x ∷ xs) i
IsItemIn-cons i x xs h = ∥∥₁_elim h (hlevel) (λ (e, m, s, q). ∣ (e, mem-cons_of_mem x m, s, q) ∣₁)

Mem-added :
    (b : Bool) (i : Item) (x : DirEntry) (xs : List DirEntry) (items : List Item)
    → is_shown x ≡ b
    → (Mem i items → IsItemIn xs i)
    → Mem i (if b then item_of x ∷ items else items)
    → IsItemIn (x ∷ xs) i
Mem-added true i x xs items s h m =
    Or.elim (hlevel) (eq-or-mem_of_mem-cons m)
      (λ q. ∣ (x, mem-cons_self, is_shown-IsVisible x s, q) ∣₁) (λ n. IsItemIn-cons i x xs (h n))
Mem-added false i x xs items s h m = IsItemIn-cons i x xs (h m)

Mem-shown : (i : Item) (entries : List DirEntry) → Mem i (shown_items entries) → IsItemIn entries i
unfolding shown_items
Mem-shown i [] m = absurd (not-mem-nil m)
Mem-shown i (x ∷ xs) m = Mem-added (is_shown x) i x xs (shown_items xs) refl (Mem-shown i xs) m

module _ (dirs : Directories) where
  -- For a path that exists and can be read `browse_directory` gives the absolute path and a list in
  -- alphabetical order of names. On it are the parent, as "..", and all directories in the path whose
  -- name does not begin with a dot, and nothing else.
  pub browse_directory_lists :
      (path : String) (entries : List DirEntry)
      → dirs.exists (dirs.abspath path) ≡ true
      → dirs.scan (dirs.abspath path) ≡ ok entries
      → let abs_path = dirs.abspath path in
        (items : List Item) × (browse_directory dirs path ≡ ok (listing abs_path items))
        × IsSortedBy (λ i. i.name) items
        × Mem (parent_item dirs abs_path) items
        × ((e : DirEntry) → Mem e entries → IsVisible e → Mem (item_of e) items)
        × ((i : Item) → Mem i items → (i ≡ parent_item dirs abs_path) ∨₁ IsItemIn entries i)
  unfolding browse_directory listed
  browse_directory_lists path entries exists read =
      let abs_path = dirs.abspath path in
      let parent = parent_item dirs abs_path in
      let name = λ (i : Item). i.name in
      let all = parent ∷ shown_items entries in
      let same : (i : Item) → Mem i (sort_by name all) ↔ Mem i all =
        λ i. Perm.mem_iff (sort_by-perm name all) in
      (
        sort_by name all,
        rw (exists, read) refl,
        sort_by-IsSortedBy name all,
        (same parent).1 mem-cons_self,
        λ e m h.
            (same (item_of e)).1
              (mem-cons_of_mem parent (shown-Mem e entries m (visible_shown e h))),
        λ i m.
            Or.elim (hlevel) (eq-or-mem_of_mem-cons ((same i).0 m)) (λ q. Or.inl q)
              (λ n. Or.inr (Mem-shown i entries n)),
      )
