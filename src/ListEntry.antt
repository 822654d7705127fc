-- ===== src/ListEntry.antt =====
-- Lab8/code/libs/list.h: circular doubly linked lists threaded through the structures that they
-- link. A `list_entry_t *` is an address, a number; the two fields of every entry are the two
-- functions of a `Links`. An operation returns the new fields.
pub mod Ring
pub mod Add
pub mod Delete
mod Tests
use nku_os_lab.Base.{ℕ, Bool, update, ◌==◌}

pub record Links : Type 0 where
  pub prev : ℕ → ℕ
  pub next : ℕ → ℕ

-- `elm->prev = elm->next = elm`
unfoldable pub list_init : ℕ → Links → Links
list_init elm l = record { prev = update l.prev elm elm; next = update l.next elm elm }

-- `__list_add`: `elm` between `prev` and `next`, the four writes in the order of the code.
unfoldable pub list_add_between : ℕ → ℕ → ℕ → Links → Links
list_add_between elm before after l = record {
  prev = update (update l.prev after elm) elm before;
  next = update (update l.next before elm) elm after;
}

unfoldable pub list_add_after : ℕ → ℕ → Links → Links
unfolding list_add_between
list_add_after listelm elm l = list_add_between elm listelm (l.next listelm) l

unfoldable pub list_add : ℕ → ℕ → Links → Links
unfolding list_add_after
list_add listelm elm l = list_add_after listelm elm l

unfoldable pub list_add_before : ℕ → ℕ → Links → Links
unfolding list_add_between
list_add_before listelm elm l = list_add_between elm (l.prev listelm) listelm l

-- `__list_del`
unfoldable pub list_del_between : ℕ → ℕ → Links → Links
list_del_between before after l = record {
  prev = update l.prev after before;
  next = update l.next before after;
}

unfoldable pub list_del : ℕ → Links → Links
unfolding list_del_between
list_del listelm l = list_del_between (l.prev listelm) (l.next listelm) l

unfoldable pub list_del_init : ℕ → Links → Links
unfolding list_del list_init
list_del_init listelm l = list_init listelm (list_del listelm l)

unfoldable pub list_empty : ℕ → Links → Bool
list_empty list l = l.next list == list

abbrev pub list_next : ℕ → Links → ℕ
list_next listelm l = l.next listelm

abbrev pub list_prev : ℕ → Links → ℕ
list_prev listelm l = l.prev listelm
