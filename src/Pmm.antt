-- ===== src/Pmm.antt =====
-- Lab8/code/kern/mm/default_pmm.c, the first-fit physical page allocator, with the page
-- descriptors of kern/mm/memlayout.h and the free list of libs/list.h.
pub mod Blocks
pub mod Represents
pub mod Search
pub mod Take
pub mod Alloc
pub mod Insert
pub mod Join
pub mod Merge
pub mod Free
pub mod Tail
pub mod Twice
pub mod Covers
pub mod Apart
pub mod Guards
pub mod Boot
mod Tests
use nku_os_lab.Base.{
  ℕ, zero, suc, ◌+◌, ◌-◌, ◌%◌, ◌^◌, pred, Bool, true, false, not, ◌&&◌, Option, none, some, update,
  ltb, leb, ◌==◌, if◌then◌else◌,
}
use nku_os_lab.Base.Outcome.{Outcome, ok, panic, out_of_fuel, ◌>>=◌, ◌>>◌, assert}
use nku_os_lab.ListEntry.{
  Links, list_init, list_add, list_add_before, list_del, list_empty, list_next, list_prev,
}

-- `struct Page`: `reserved` and `head` are the bits PG_reserved and PG_property of `flags`.
pub record Page : Type 0 where
  pub ref : ℕ
  pub reserved : Bool
  pub head : Bool
  pub property : ℕ

-- `free_area`, the descriptors, and their `page_link`s. A `struct Page *` is the page's number.
pub record Pmm : Type 0 where
  pub page : ℕ → Page
  pub links : Links
  pub nr_free : ℕ

-- The address of the list head, and of the link in the descriptor of page `p`.
abbrev pub free_list : ℕ
free_list = 0

abbrev pub page_link : ℕ → ℕ
page_link p = suc p

abbrev pub le2page : ℕ → ℕ
le2page le = pred le

-- `unsigned int`
abbrev pub u32 : ℕ → ℕ
u32 n = n % 2 ^ 32

unfoldable pub init : Pmm → Pmm
unfolding list_init
init s = record s { links = list_init free_list s.links; nr_free = 0 }

-- The first loop of `default_init_memmap`, over the `n` pages from `p` on.
unfoldable pub init_pages : ℕ → ℕ → (ℕ → Page) → Outcome (ℕ → Page)
init_pages zero p page = ok page
init_pages (suc n) p page = do
  assert (page p).reserved
  init_pages n (suc p)
      (update page p (record { ref = 0; reserved = false; head = false; property = 0 }))

-- The first loop of `default_free_pages`.
unfoldable pub clear_pages : ℕ → ℕ → (ℕ → Page) → Outcome (ℕ → Page)
clear_pages zero p page = ok page
clear_pages (suc n) p page = do
  assert (not (page p).reserved && not (page p).head)
  clear_pages n (suc p)
      (update page p (record (page p) { ref = 0; reserved = false; head = false }))

-- The loop that links `base` into a list that is not empty. After `list_add` there is no `break`:
-- the loop goes on from the entry that was just linked in.
unfoldable pub link_loop : ℕ → ℕ → ℕ → Links → Outcome Links
unfolding list_add list_add_before
link_loop zero le base l = out_of_fuel
link_loop (suc fuel) le base l =
    let le' = list_next le l in
    let rest =
      link_loop fuel le' base
        (if list_next le' l == free_list then list_add le' (page_link base) l else l) in
    if le' == free_list
    then ok l
    else if ltb base (le2page le')
    then ok (list_add_before le' (page_link base) l)
    else rest

unfoldable pub link_block : ℕ → ℕ → Links → Outcome Links
unfolding list_add list_empty link_loop
link_block fuel base l =
    if list_empty free_list l
    then ok (list_add free_list (page_link base) l)
    else link_loop fuel free_list base l

-- `base->property = n; SetPageProperty(base); nr_free += n;`
unfoldable pub set_block : ℕ → ℕ → Pmm → Pmm
set_block base n s = record s {
  page = update s.page base (record (s.page base) { head = true; property = u32 n });
  nr_free = u32 (s.nr_free + n);
}

unfoldable pub init_memmap : ℕ → ℕ → ℕ → Pmm → Outcome Pmm
unfolding init_pages set_block link_block
init_memmap fuel base n s = do
  assert (ltb 0 n)
  page ← init_pages n base s.page
  let t = set_block base n (record s { page = page })
  links ← link_block fuel base t.links
  ok (record t { links = links })

-- The search of `default_alloc_pages`: the first block of at least `n` pages.
unfoldable pub find_page : ℕ → ℕ → ℕ → Pmm → Outcome (Option ℕ)
find_page zero le n s = out_of_fuel
find_page (suc fuel) le n s =
    let le' = list_next le s.links in
    let rest = find_page fuel le' n s in
    if le' == free_list
    then ok none
    else if leb n (s.page (le2page le')).property
    then ok (some (le2page le'))
    else rest

-- `default_alloc_pages` from `if (page != NULL)` on. The difference of the sizes is taken only
-- where it is positive.
unfoldable pub take_pages : ℕ → ℕ → Pmm → Pmm
unfolding list_del list_add
take_pages page n s =
    let before = list_prev (page_link page) s.links in
    let unlinked = list_del (page_link page) s.links in
    let size = (s.page page).property in
    let rest = page + n in
    let left =
      if ltb n size
      then record s {
        page = update s.page rest (record (s.page rest) { head = true; property = u32 (size - n) });
        links = list_add before (page_link rest) unlinked;
      }
      else record s { links = unlinked } in
    record left {
      page = update left.page page (record (left.page page) { head = false });
      nr_free = u32 (s.nr_free + 2 ^ 32 - u32 n);
    }

unfoldable pub alloc_pages : ℕ → ℕ → Pmm → Outcome (Option ℕ × Pmm)
unfolding find_page take_pages
alloc_pages fuel n s = do
  assert (ltb 0 n)
  if ltb s.nr_free n
      then ok (none, s)
      else (find_page fuel free_list n s >>= λ found. elim found [
        | none ↦ ok (none, s)
        | some page ↦ ok (some page, take_pages page n s)
      ])

-- The merge with the block before, in `default_free_pages`; the result is the new `base`.
unfoldable pub merge_prev : ℕ → Pmm → ℕ × Pmm
unfolding list_del
merge_prev base s =
    let le = list_prev (page_link base) s.links in
    let p = le2page le in
    let joined = record (s.page p) {
      property = u32 ((s.page p).property + (s.page base).property);
    } in
    let page = update s.page p joined in
    if not (le == free_list) && (p + (s.page p).property == base)
    then (
      p,
      record s {
        page = update page base (record (page base) { head = false });
        links = list_del (page_link base) s.links;
      },
    )
    else (base, s)

-- The merge with the block behind.
unfoldable pub merge_next : ℕ → Pmm → Pmm
unfolding list_del
merge_next base s =
    let le = list_next (page_link base) s.links in
    let p = le2page le in
    let joined = record (s.page base) {
      property = u32 ((s.page base).property + (s.page p).property);
    } in
    let page = update s.page base joined in
    if not (le == free_list) && (base + (s.page base).property == p)
    then record s {
      page = update page p (record (page p) { head = false });
      links = list_del (page_link p) s.links;
    }
    else s

unfoldable pub free_pages : ℕ → ℕ → ℕ → Pmm → Outcome Pmm
unfolding clear_pages set_block link_block merge_prev merge_next
free_pages fuel base n s = do
  assert (ltb 0 n)
  page ← clear_pages n base s.page
  let t = set_block base n (record s { page = page })
  links ← link_block fuel base t.links
  let (base', u) = merge_prev base (record t { links = links })
  ok (merge_next base' u)

abbrev pub nr_free_pages : Pmm → ℕ
nr_free_pages s = s.nr_free
